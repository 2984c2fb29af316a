-- ===== src/PrimaryIp/Examples.antt =====
-- The theorems of the primary IP controller at concrete clouds.
use hcloud_operator.Base.{String, ◌≡◌, refl, [], ◌∷◌, none, some, true, false, string_eq, nat_eq}
use hcloud_operator.Go.Fault.{err, fail, wrap, str, num}
use hcloud_operator.Go.Action.{Action, raise}
use hcloud_operator.Go.Map.{lookup}
use hcloud_operator.Go.Map.Laws.{HasDistinctKeys}
use hcloud_operator.Go.Fault.{foreign}
use hcloud_operator.Kube.Concrete.{plain_meta}
use hcloud_operator.Kube.Cluster.{plain_errors}
use hcloud_operator.Hcloud.Types.{PrimaryIpInfo, entries}
use hcloud_operator.Fake.State.{FakeClient, new_fake_client}
use hcloud_operator.V1alpha1.Server.{HcloudServer}
use hcloud_operator.V1alpha1.PrimaryIp.{HcloudPrimaryIp}
use hcloud_operator.PrimaryIp.Controller.{
  HcloudPrimaryIpReconciler, PrimaryIpScope, reconcile_hcloud_primary_ip, delete_hcloud_primary_ip,
}
use hcloud_operator.PrimaryIp.Settled.{Holds, fake_reconciler}
use hcloud_operator.PrimaryIp.Provisioning.{settled, Provisioned}
use hcloud_operator.PrimaryIp.Agreement.{
  Agrees, reconcile_hcloud_primary_ip-Agrees, reconcile_hcloud_primary_ip_again,
}
use hcloud_operator.PrimaryIp.Deletion.{
  Removes, delete_hcloud_primary_ip-stored, delete_hcloud_primary_ip-gone,
}

-- An address that is wanted with the label role=web, for the server that a target stands for.
abbrev object : HcloudPrimaryIp
object = record {
  metadata = record {
    name = "vip";
    deleting = false;
    finalizers = [];
    resource_version = "1";
    labels = none;
  };
  spec = record {
    type = "ipv4";
    datacenter = "fsn1-dc14";
    server_ref = some "web";
    auto_delete = some true;
    dns_ptr = some "web.example.org";
    labels = some (("role", "web") ∷ []);
  };
  status = record {
    primary_ip_id = 3;
    ip = [];
    datacenter = "";
    applied_assignee_id = 7;
    conditions = [];
  };
}

-- It is on the server 7, and has no labels.
abbrev stored_ip : PrimaryIpInfo
stored_ip = record {
  id = 3;
  name = "vip";
  type = "ipv4";
  ip = str "1.2.3." ∷ num 3 ∷ [];
  datacenter = "fsn1-dc14";
  labels = none;
  assignee_id = 7;
  assignee_type = "server";
  auto_delete = false;
  dns_ptr = [];
}

abbrev get_server_object : String → Action HcloudPrimaryIp HcloudServer
get_server_object name = raise (foreign "no such server")

abbrev r : HcloudPrimaryIpReconciler FakeClient HcloudPrimaryIp
r = fake_reconciler get_server_object plain_errors plain_meta

abbrev scope : PrimaryIpScope FakeClient HcloudPrimaryIp
scope = record {
  world = record {
    cloud = record new_fake_client { primary_ips = (3, stored_ip) ∷ []; next_id = 4 };
    cluster = object;
  };
  object = object;
}

holds : Holds stored_ip scope
unfolding lookup
holds = record { stored = refl; no_get_err = refl }

keys : HasDistinctKeys (entries object.spec.labels)
unfolding HasDistinctKeys lookup
keys = (refl, tt)

reconcile_hcloud_primary_ip-Agrees_example :
    Provisioned plain_meta
      (settled 9 object stored_ip)
      scope
      (reconcile_hcloud_primary_ip r 9 scope)
    × Agrees 9 object.spec (settled 9 object stored_ip)
reconcile_hcloud_primary_ip-Agrees_example =
    reconcile_hcloud_primary_ip-Agrees get_server_object plain_errors plain_meta 9 stored_ip scope
      holds refl refl keys

reconcile_hcloud_primary_ip_again_example :
    let first = reconcile_hcloud_primary_ip r 9 scope in
    (reconcile_hcloud_primary_ip r 9 first.1).1.world.cloud ≡ first.1.world.cloud
reconcile_hcloud_primary_ip_again_example =
    reconcile_hcloud_primary_ip_again get_server_object plain_errors plain_meta 9 stored_ip scope
      holds refl refl refl keys

delete_hcloud_primary_ip-stored_example :
    Removes get_server_object plain_errors plain_meta scope (delete_hcloud_primary_ip r scope)
unfolding lookup
delete_hcloud_primary_ip-stored_example =
    delete_hcloud_primary_ip-stored get_server_object plain_errors plain_meta stored_ip scope refl
      refl refl

abbrev emptied : PrimaryIpScope FakeClient HcloudPrimaryIp
emptied = record { world = record { cloud = new_fake_client; cluster = object }; object = object }

delete_hcloud_primary_ip-gone_example : delete_hcloud_primary_ip r emptied ≡ (
  err (
      wrap
        (str "unassign primary IP before delete" ∷ [])
        (fail (str "fake: primary IP " ∷ num 3 ∷ str " not found" ∷ []))),
  emptied,
)
unfolding lookup
delete_hcloud_primary_ip-gone_example =
    delete_hcloud_primary_ip-gone get_server_object plain_errors plain_meta emptied refl refl
