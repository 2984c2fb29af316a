-- ===== src/Firewall/Controller.antt =====
-- Reconcile, Delete, desiredApplyResources and reconcileHCloudFirewall.
use hcloud_operator.Base.{
  Bool, true, false, not, ◌==◌, String, List, [], ◌∷◌, ◌++◌, Option, none, some, nat_eq, string_eq,
  if◌then◌else◌,
}
use hcloud_operator.Go.Fault.{Text, str, quoted, ok}
use hcloud_operator.Go.Action.{Action, pure, within, ◌>>=◌, ◌>>◌}
use hcloud_operator.Go.Integer.{Int64, is_set}
use hcloud_operator.Go.Slice.{member}
use hcloud_operator.Kube.Condition.{Meta, ConditionStatus, condition_true}
use hcloud_operator.Hcloud.Types.{
  FirewallInfo, FirewallCreateOpts, FirewallRuleInfo, FirewallApplyResource,
}
use hcloud_operator.Hcloud.Api.{FirewallApi}
use hcloud_operator.Reconcile.Object.{CtrlResult, Resource, Scope}
use hcloud_operator.Reconcile.World.{World, in_cloud, in_cluster, look}
use hcloud_operator.V1alpha1.Server.{HcloudServer}
use hcloud_operator.V1alpha1.Firewall.{HcloudFirewall, HcloudFirewallStatus, HcloudFirewallApplyTo}
use hcloud_operator.Server.State.{requeue_delay, condition_type_ready}
use hcloud_operator.Firewall.Rules.{
  firewall_rules_from_spec, labels_match, normalize_labels_map, firewall_rules_match,
}
use hcloud_operator.Firewall.Targets.{partition_apply_targets}

abbrev pub hcloud_firewall_finalizer : String
hcloud_firewall_finalizer = "infra.hkc.io/firewall-finalizer"

abbrev pub FirewallScope : Type 0 → Type 0 → Type 0
FirewallScope C K = Scope (World C K) HcloudFirewall

pub record HcloudFirewallReconciler (C K : Type 0) : Type 0 where
  pub hcloud_client : FirewallApi C
  pub get_server_object : String → Action K HcloudServer
  pub meta : Meta

abbrev pub selector_target : String → FirewallApplyResource
selector_target selector = record { type = "label_selector"; server_id = 0; selector = selector }

abbrev pub server_target : Int64 → FirewallApplyResource
server_target id = record { type = "server"; server_id = id; selector = "" }

-- `seenServers` and `out` of desiredApplyResources
pub record Resolved : Type 0 where
  pub seen : List Int64
  pub targets : List FirewallApplyResource

abbrev pub selector_targets : String → List FirewallApplyResource
selector_targets selector = if selector == "" then [] else selector_target selector ∷ []

abbrev pub unresolved : String → Resolved
unresolved selector = record { seen = []; targets = selector_targets selector }

-- A server that has no ID, or one that was seen, adds nothing.
unfoldable pub accept : Int64 → Resolved → Resolved
accept id acc =
    if not (is_set id)
    then acc
    else if member id acc.seen
    then acc
    else record { seen = id ∷ acc.seen; targets = acc.targets ++ server_target id ∷ [] }

abbrev pub firewall_opts :
    HcloudFirewall → List FirewallRuleInfo → List FirewallApplyResource → FirewallCreateOpts
firewall_opts o rules targets = record {
  name = o.metadata.name;
  labels = o.spec.labels;
  rules = rules;
  apply_to = targets;
}

-- `if refreshed != nil { existing = refreshed }`
abbrev pub refreshed_or : FirewallInfo → Option FirewallInfo → FirewallInfo
refreshed_or fw none = fw
refreshed_or fw (some refreshed) = refreshed

-- `if len(…) > 0`
abbrev pub is_nonempty : List FirewallApplyResource → Bool
is_nonempty [] = false
is_nonempty (a ∷ more) = true

module _ {C K : Type 0} (r : HcloudFirewallReconciler C K) where
  open r use {hcloud_client, get_server_object, meta}

  abbrev pub set_status :
      (HcloudFirewallStatus → HcloudFirewallStatus) → Action (FirewallScope C K) (Unit {0})
  set_status f s = (ok tt, record s { object = record (s.object) { status = f s.object.status } })

  -- (*HCloudFirewallReconciler).setFirewallCondition, on the status
  abbrev pub set_firewall_condition :
      String → ConditionStatus → String → Text → HcloudFirewallStatus → HcloudFirewallStatus
  set_firewall_condition type status reason message s = record s {
    conditions =
        meta.set_status_condition s.conditions
          (record { type = type; status = status; reason = reason; message = message });
  }

  abbrev pub set_ready : String → String → Action (FirewallScope C K) (Unit {0})
  set_ready reason message =
      set_status
        (set_firewall_condition condition_type_ready condition_true reason (str message ∷ []))

  -- The body of the loop over `ServerRefs`, and the loop.
  unfoldable pub resolve_ref : String → Resolved → Action (FirewallScope C K) Resolved
  resolve_ref name acc = if name == "" then pure acc else (do
    server ←
        within (str "resolve server ref " ∷ quoted name ∷ []) (in_cluster (get_server_object name))
    pure (accept server.status.server_id acc))

  unfoldable pub resolve_refs : List String → Resolved → Action (FirewallScope C K) Resolved
  resolve_refs [] acc = pure acc
  resolve_refs (name ∷ names) acc = do acc' ← resolve_ref name acc; resolve_refs names acc'

  unfoldable pub targets_of :
      Option HcloudFirewallApplyTo → Action (FirewallScope C K) (List FirewallApplyResource)
  targets_of none = pure []
  targets_of (some to) = do
    resolved ← resolve_refs to.server_refs (unresolved to.label_selector)
    pure resolved.targets

  unfoldable pub desired_apply_resources : Action (FirewallScope C K) (List FirewallApplyResource)
  desired_apply_resources = look λ o. targets_of o.spec.apply_to

  unfoldable pub fetch_by_id : Action (FirewallScope C K) (Option FirewallInfo)
  fetch_by_id = look λ o.
      if is_set o.status.firewall_id
      then within (str "fetch firewall by ID" ∷ [])
          (in_cloud (hcloud_client.get_firewall o.status.firewall_id))
      else pure none

  unfoldable pub fetch_by_name :
      Option FirewallInfo → Action (FirewallScope C K) (Option FirewallInfo)
  fetch_by_name none = look λ o.
      within (str "fetch firewall by name" ∷ [])
        (in_cloud (hcloud_client.get_firewall_by_name o.metadata.name))
  fetch_by_name (some fw) = pure (some fw)

  unfoldable pub create_firewall_object :
      List FirewallRuleInfo → List FirewallApplyResource → Action (FirewallScope C K) (Unit {0})
  create_firewall_object rules targets = do
    created ← look λ o.
        within (str "create Hetzner firewall" ∷ [])
          (in_cloud (hcloud_client.create_firewall (firewall_opts o rules targets)))
    set_status (λ st. record st { firewall_id = created.id })
    set_ready "FirewallCreated" "Firewall created in Hetzner Cloud"

  unfoldable pub sync_labels : FirewallInfo → Action (FirewallScope C K) FirewallInfo
  sync_labels fw = look λ o.
      if not (labels_match o.spec.labels fw.labels)
      then (do
        within (str "update firewall labels" ∷ []) (
            in_cloud
              (hcloud_client.update_firewall_labels fw.id (normalize_labels_map o.spec.labels)))
        refreshed ←
            within (str "refresh firewall after label update" ∷ [])
              (in_cloud (hcloud_client.get_firewall fw.id))
        pure (refreshed_or fw refreshed))
      else pure fw

  unfoldable pub sync_rules :
      List FirewallRuleInfo → FirewallInfo → Action (FirewallScope C K) FirewallInfo
  sync_rules rules fw =
      if not (firewall_rules_match rules fw.rules)
      then (do
        within (str "set firewall rules" ∷ [])
            (in_cloud (hcloud_client.set_firewall_rules fw.id rules))
        refreshed ←
            within (str "refresh firewall after set rules" ∷ [])
              (in_cloud (hcloud_client.get_firewall fw.id))
        pure (refreshed_or fw refreshed))
      else pure fw

  unfoldable pub remove_targets :
      Int64 → List FirewallApplyResource → Action (FirewallScope C K) (Unit {0})
  remove_targets id targets =
      if is_nonempty targets
      then within (str "remove firewall resources" ∷ [])
          (in_cloud (hcloud_client.remove_firewall_resources id targets))
      else pure tt

  unfoldable pub add_targets :
      Int64 → List FirewallApplyResource → Action (FirewallScope C K) (Unit {0})
  add_targets id targets =
      if is_nonempty targets
      then within (str "apply firewall resources" ∷ [])
          (in_cloud (hcloud_client.apply_firewall_resources id targets))
      else pure tt

  unfoldable pub sync_targets :
      List FirewallApplyResource → FirewallInfo → Action (FirewallScope C K) (Unit {0})
  sync_targets desired fw = do
    remove_targets fw.id (partition_apply_targets fw.applied_to desired).0
    add_targets fw.id (partition_apply_targets fw.applied_to desired).1

  -- The rest of reconcileHCloudFirewall for a firewall that exists.
  unfoldable pub settle_firewall :
      List FirewallRuleInfo
      → List FirewallApplyResource
      → FirewallInfo
      → Action (FirewallScope C K) (Unit {0})
  settle_firewall rules targets fw = do
    set_status (λ st. record st { firewall_id = fw.id })
    labelled ← sync_labels fw
    ruled ← sync_rules rules labelled
    sync_targets targets ruled
    set_ready "FirewallReady" "Firewall rules and attachments are in sync"

  unfoldable pub settle_or_create :
      List FirewallRuleInfo
      → List FirewallApplyResource
      → Option FirewallInfo
      → Action (FirewallScope C K) (Unit {0})
  settle_or_create rules targets none = create_firewall_object rules targets
  settle_or_create rules targets (some fw) = settle_firewall rules targets fw

  -- What follows the resolution of the targets.
  unfoldable pub fetch_and_settle :
      List FirewallApplyResource → Action (FirewallScope C K) (Unit {0})
  fetch_and_settle targets = do
    by_id ← fetch_by_id
    existing ← fetch_by_name by_id
    look λ o. settle_or_create (firewall_rules_from_spec o.spec.rules) targets existing

  unfoldable pub reconcile_hcloud_firewall : Action (FirewallScope C K) (Unit {0})
  reconcile_hcloud_firewall = do targets ← desired_apply_resources; fetch_and_settle targets

  unfoldable pub reconcile : Action (FirewallScope C K) CtrlResult
  reconcile = do
    reconcile_hcloud_firewall
    pure (record { requeue = false; requeue_after = requeue_delay })

  unfoldable pub delete_hcloud_firewall : Action (FirewallScope C K) (Unit {0})
  delete_hcloud_firewall = look λ o.
      if not (is_set o.status.firewall_id)
      then pure tt
      else in_cloud (hcloud_client.delete_firewall o.status.firewall_id)

  -- HCloudFirewallReconciler as the domain logic of the shared loop.
  abbrev pub firewall_resource : HcloudFirewall → Resource (World C K) HcloudFirewall
  firewall_resource empty = record {
    new_object = empty;
    finalizer_name = hcloud_firewall_finalizer;
    kind = "HCloudFirewall";
    reconcile = reconcile;
    delete = delete_hcloud_firewall;
  }
