-- ===== src/FloatingIp/Examples.antt =====
-- The theorems of the floating IP controller at concrete clouds.
use hcloud_operator.Base.{
  List, arith, String, ◌≡◌, refl, [], ◌∷◌, none, some, false, string_eq, nat_eq,
}
use hcloud_operator.Go.Fault.{ok, err, fail, wrap, str, num}
use hcloud_operator.Go.Action.{Action, raise}
use hcloud_operator.Go.Map.{lookup}
use hcloud_operator.Go.Map.Laws.{HasDistinctKeys}
use hcloud_operator.Go.Fault.{foreign}
use hcloud_operator.Kube.Concrete.{plain_meta}
use hcloud_operator.Kube.Cluster.{plain_errors}
use hcloud_operator.Hcloud.Types.{FloatingIpInfo, entries, labels_equal}
use hcloud_operator.Fake.State.{FakeClient, new_fake_client}
use hcloud_operator.V1alpha1.Server.{HcloudServer}
use hcloud_operator.V1alpha1.FloatingIp.{HcloudFloatingIp}
use hcloud_operator.Fake.FloatingIps.Ids.{Call, create, assign, run_all, OwnIds, run_all-OwnIds}
use hcloud_operator.FloatingIp.Controller.{
  HcloudFloatingIpReconciler, FloatingIpScope, reconcile_hcloud_floating_ip,
  delete_hcloud_floating_ip,
}
use hcloud_operator.FloatingIp.Settled.{Holds, fake_reconciler}
use hcloud_operator.FloatingIp.Provisioning.{
  settled, Provisioned, reconcile_hcloud_floating_ip-Provisioned,
}
use hcloud_operator.FloatingIp.Agreement.{
  Agrees, after, twice, rounds-Agrees, reconcile_hcloud_floating_ip-erase,
}
use hcloud_operator.FloatingIp.Deletion.{
  Removes, delete_hcloud_floating_ip-stored, delete_hcloud_floating_ip-gone,
}

-- An address that is wanted with the label role=web, for the server that a target stands for.
abbrev object : HcloudFloatingIp
object = record {
  metadata = record {
    name = "vip";
    deleting = false;
    finalizers = [];
    resource_version = "1";
    labels = none;
  };
  spec = record {
    type = "ipv4";
    location = "fsn1";
    server_ref = some "web";
    description = "entry";
    dns_ptr = some "web.example.org";
    labels = some (("role", "web") ∷ []);
  };
  status = record {
    floating_ip_id = 3;
    ip = [];
    location = "";
    applied_server_id = 7;
    conditions = [];
  };
}

-- It is on the server 7, and has no labels.
abbrev stored_ip : FloatingIpInfo
stored_ip = record {
  id = 3;
  name = "vip";
  type = "ipv4";
  ip = str "203.0.113." ∷ num 3 ∷ [];
  location = "fsn1";
  description = "entry";
  labels = none;
  server_id = 7;
  dns_ptr = [];
}

abbrev get_server_object : String → Action HcloudFloatingIp HcloudServer
get_server_object name = raise (foreign "no such server")

abbrev r : HcloudFloatingIpReconciler FakeClient HcloudFloatingIp
r = fake_reconciler get_server_object plain_errors plain_meta

abbrev scope : FloatingIpScope FakeClient HcloudFloatingIp
scope = record {
  world = record {
    cloud = record new_fake_client { floating_ips = (3, stored_ip) ∷ []; next_id = 4 };
    cluster = object;
  };
  object = object;
}

holds : Holds stored_ip scope
unfolding lookup
holds = record { stored = refl; no_get_err = refl }

keys : HasDistinctKeys (entries object.spec.labels)
unfolding HasDistinctKeys lookup
keys = (refl, tt)

reconcile_hcloud_floating_ip-Provisioned_example :
    Provisioned plain_meta
      (settled 9 object stored_ip)
      scope
      (reconcile_hcloud_floating_ip r 9 scope)
reconcile_hcloud_floating_ip-Provisioned_example =
    reconcile_hcloud_floating_ip-Provisioned get_server_object plain_errors plain_meta 9 stored_ip
      scope holds refl refl

rounds-Agrees_example :
    let st1 = after get_server_object plain_errors plain_meta 9 scope in
    let ip2 = twice get_server_object plain_errors plain_meta 9 stored_ip scope in
    let second = reconcile_hcloud_floating_ip r 9 st1 in
    ((reconcile_hcloud_floating_ip r 9 scope).0 ≡ ok tt)
    × (second.0 ≡ ok tt)
    × Holds ip2 second.1
    × Agrees 9 object.spec ip2
rounds-Agrees_example =
    rounds-Agrees get_server_object plain_errors plain_meta 9 stored_ip scope holds refl refl keys

reconcile_hcloud_floating_ip-erase_example :
    let out = reconcile_hcloud_floating_ip r 9 scope in
    (out.0 ≡ ok tt)
    × Holds (settled 9 object stored_ip) out.1
    × ((settled 9 object stored_ip).description ≡ "")
unfolding labels_equal hcloud_operator.Go.Map.maps_equal
reconcile_hcloud_floating_ip-erase_example =
    reconcile_hcloud_floating_ip-erase get_server_object plain_errors plain_meta 9 stored_ip scope
      holds refl refl refl refl

delete_hcloud_floating_ip-stored_example :
    Removes get_server_object plain_errors plain_meta scope (delete_hcloud_floating_ip r scope)
unfolding lookup
delete_hcloud_floating_ip-stored_example =
    delete_hcloud_floating_ip-stored get_server_object plain_errors plain_meta stored_ip scope refl
      refl refl

abbrev emptied : FloatingIpScope FakeClient HcloudFloatingIp
emptied = record { world = record { cloud = new_fake_client; cluster = object }; object = object }

delete_hcloud_floating_ip-gone_example : delete_hcloud_floating_ip r emptied ≡ (
  err (
      wrap
        (str "unassign floating IP before delete" ∷ [])
        (fail (str "fake: floating IP " ∷ num 3 ∷ str " not found" ∷ []))),
  emptied,
)
unfolding lookup
delete_hcloud_floating_ip-gone_example =
    delete_hcloud_floating_ip-gone get_server_object plain_errors plain_meta emptied refl refl

-- An address is created and assigned, and one that is missing is assigned too.
abbrev calls : List Call
calls =
    create (record {
      name = "vip";
      type = "ipv4";
      location = "fsn1";
      labels = none;
      description = "";
      server_id = 0;
    })
    ∷ assign 1 7
    ∷ assign 5 7
    ∷ []

none_stored : OwnIds new_fake_client
unfolding OwnIds lookup
none_stored id ip h = ground (arith, h)

run_all-OwnIds_example : OwnIds (run_all calls new_fake_client)
run_all-OwnIds_example = run_all-OwnIds calls new_fake_client none_stored
