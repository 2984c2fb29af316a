-- ===== src/Firewall/Examples.antt =====
-- The theorems of the firewall controller at a concrete cloud.
use hcloud_operator.Base.{
  String, true, false, ◌≡◌, ◌↔◌, refl, [], ◌∷◌, none, some, List, map, string_eq, nat_eq, arith,
}
use hcloud_operator.Go.Fault.{Text, ok}
use hcloud_operator.Go.Action.{Action}
use hcloud_operator.Go.Slice.{member}
use hcloud_operator.Go.Map.{lookup}
use hcloud_operator.Kube.Concrete.{plain_meta}
use hcloud_operator.Hcloud.Types.{FirewallInfo, FirewallRuleInfo, FirewallApplyResource, key}
use hcloud_operator.Fake.State.{FakeClient, new_fake_client}
use hcloud_operator.Fake.Firewalls.{apply_all, remove_all}
use hcloud_operator.Fake.Firewalls.Laws.{has_key}
use hcloud_operator.V1alpha1.Server.{HcloudServer}
use hcloud_operator.V1alpha1.Firewall.{HcloudFirewall, HcloudFirewallApplyTo}
use hcloud_operator.Firewall.Rules.{
  firewall_rules_match, firewall_rules_from_spec, canonical_firewall_rule,
}
use hcloud_operator.Firewall.Rules.Matching.{SameTexts, firewall_rules_match-SameTexts}
use hcloud_operator.Firewall.Targets.{partition_apply_targets}
use hcloud_operator.Firewall.Targets.Settling.{has_key-partition_apply_targets}
use hcloud_operator.Firewall.Controller.{
  selector_target, targets_of, resolve_refs, resolve_ref, accept, FirewallScope,
  HcloudFirewallReconciler, server_target, desired_apply_resources, reconcile_hcloud_firewall,
}
use hcloud_operator.Firewall.Settled.{Holds, fake_reconciler}
use hcloud_operator.Firewall.Provisioning.{Provisioned, settled}
use hcloud_operator.Firewall.Resolving.{AllFound, Desired, desired_apply_resources_all}
use hcloud_operator.Firewall.Convergence.{reconcile_hcloud_firewall-Provisioned}

abbrev ssh : FirewallRuleInfo
ssh = record {
  direction = "in";
  protocol = "tcp";
  port = some "22";
  source_ips = "10.0.0.0/8" ∷ "192.168.0.0/16" ∷ [];
  destination_ips = [];
  description = none;
}

abbrev web : FirewallRuleInfo
web = record {
  direction = "in";
  protocol = "tcp";
  port = some "443";
  source_ips = "0.0.0.0/0" ∷ [];
  destination_ips = [];
  description = some "https";
}

firewall_rules_match-SameTexts_example :
    (firewall_rules_match (ssh ∷ web ∷ []) (web ∷ ssh ∷ []) ≡ true)
    ↔ SameTexts
        (map canonical_firewall_rule (ssh ∷ web ∷ []))
        (map canonical_firewall_rule (web ∷ ssh ∷ []))
firewall_rules_match-SameTexts_example =
    firewall_rules_match-SameTexts (ssh ∷ web ∷ []) (web ∷ ssh ∷ []) (omega arith)

has_key-partition_apply_targets_example :
    let current = server_target 1 ∷ server_target 2 ∷ [] in
    let desired = server_target 2 ∷ server_target 3 ∷ [] in
    let (remove, add) = partition_apply_targets current desired in
    has_key (key (server_target 1)) (apply_all (remove_all current remove) add)
    ≡ has_key (key (server_target 1)) desired
has_key-partition_apply_targets_example =
    has_key-partition_apply_targets (key (server_target 1)) (server_target 1 ∷ server_target 2 ∷ [])
      (server_target 2 ∷ server_target 3 ∷ [])

abbrev server : String → HcloudServer
server name = record {
  metadata = record {
    name = name;
    deleting = false;
    finalizers = [];
    resource_version = "1";
    labels = none;
  };
  spec = record {
    server_type = "cx22";
    image = "debian-12";
    location = "fsn1";
    labels = none;
    ssh_keys = [];
    user_data = "";
    network_ref = none;
    placement_group_ref = none;
    upgrade_disk = false;
  };
  status = record {
    server_id = 7;
    state = "running";
    applied_server_type = "cx22";
    public_ipv4 = [];
    public_ipv6 = [];
    applied_network_id = 0;
    applied_placement_group_id = 0;
    conditions = [];
  };
}

abbrev to_web : HcloudFirewallApplyTo
to_web = record { server_refs = "web" ∷ "web-2" ∷ []; label_selector = "role=web" }

abbrev object : HcloudFirewall
object = record {
  metadata = record {
    name = "edge";
    deleting = false;
    finalizers = [];
    resource_version = "1";
    labels = none;
  };
  spec = record {
    labels = none;
    rules =
        record {
          direction = "in";
          protocol = "tcp";
          port = some "22";
          source_ips = "192.168.0.0/16" ∷ "10.0.0.0/8" ∷ [];
          destination_ips = [];
          description = none;
        }
        ∷ [];
    apply_to = some to_web;
  };
  status = record { firewall_id = 5; conditions = [] };
}

-- The cluster has every server, with the ID 7.
abbrev get_server_object : String → Action HcloudFirewall HcloudServer
get_server_object name k = (ok (server name), k)

abbrev edge : FirewallInfo
edge = record {
  id = 5;
  name = "edge";
  labels = none;
  rules = web ∷ [];
  applied_to = server_target 1 ∷ [];
}

abbrev r : HcloudFirewallReconciler FakeClient HcloudFirewall
r = fake_reconciler get_server_object plain_meta

abbrev scope : FirewallScope FakeClient HcloudFirewall
scope = record {
  world = record {
    cloud = record new_fake_client { firewalls = (5, edge) ∷ []; next_id = 6 };
    cluster = object;
  };
  object = object;
}

holds : Holds edge scope
unfolding lookup
holds = record { stored = refl; no_get_err = refl }

-- Both references are to the server 7.
references_found : AllFound r server to_web.server_refs object
unfolding AllFound
references_found = (λ _. refl, (λ _. refl, tt))

desired_apply_resources_all_example :
    (targets : List FirewallApplyResource) × (desired_apply_resources r scope ≡ (ok targets, scope))
    × Desired r server to_web targets
desired_apply_resources_all_example =
    desired_apply_resources_all r server to_web scope refl references_found

abbrev targets : List FirewallApplyResource
targets = selector_target "role=web" ∷ server_target 7 ∷ []

resolved : (desired_apply_resources r scope).0 ≡ ok targets
unfolding desired_apply_resources targets_of resolve_refs resolve_ref accept member
resolved = refl

reconcile_hcloud_firewall-Provisioned_example :
    let rules = firewall_rules_from_spec object.spec.rules in
    let fw = settled rules targets object edge in
    Provisioned plain_meta fw scope (reconcile_hcloud_firewall r scope)
    × (firewall_rules_match rules fw.rules ≡ true)
    × ((k : Text) → has_key k fw.applied_to ≡ has_key k targets)
reconcile_hcloud_firewall-Provisioned_example =
    reconcile_hcloud_firewall-Provisioned get_server_object plain_meta targets edge scope resolved
      holds refl refl (omega arith)
