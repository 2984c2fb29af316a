-- ===== src/Network/Examples.antt =====
-- The theorems of the network controller at a concrete cloud.
use hcloud_operator.Base.{
  String, Bool, false, ◌||◌, ◌≡◌, refl, [], ◌∷◌, none, Option, string_eq, nat_eq,
}
use hcloud_operator.Go.Fault.{Fault, ok}
use hcloud_operator.Go.Slice.{member}
use hcloud_operator.Go.Map.{lookup}
use hcloud_operator.Kube.Concrete.{plain_meta}
use hcloud_operator.Kube.Client.{Client, Retry}
use hcloud_operator.Hcloud.Types.{NetworkInfo}
use hcloud_operator.Fake.State.{FakeClient, new_fake_client}
use hcloud_operator.V1alpha1.Network.{HcloudNetwork}
use hcloud_operator.Network.State.{HcloudNetworkReconciler, NetworkScope}
use hcloud_operator.Network.Controller.{reconcile_hcloud_network}
use hcloud_operator.Network.Subnets.{Holds, fake_reconciler, with_zones}
use hcloud_operator.Network.Provisioning.{
  Provisioned, reconcile_hcloud_network-zones, reconcile_hcloud_network_again,
}

-- "eu-central" comes before the other zones.
abbrev less : String → String → Bool
less a b = string_eq.same a "eu-central"

abbrev valid : String → Option Fault
valid ip_range = none

abbrev object : HcloudNetwork
object = record {
  metadata = record {
    name = "lan";
    deleting = false;
    finalizers = [];
    resource_version = "1";
    labels = none;
  };
  spec = record {
    ip_range = "10.0.0.0/16";
    network_zones = "eu-central" ∷ "us-east" ∷ [];
    expose_routes_to_vswitch = false;
    labels = none;
  };
  status = record { network_id = 5; ip_range = ""; subnet_zones = []; conditions = [] };
}

abbrev lan : NetworkInfo
lan = record {
  id = 5;
  name = "lan";
  ip_range = "10.0.0.0/16";
  subnet_zones = "us-west" ∷ [];
  labels = none;
  expose_routes = false;
}

abbrev client : Client HcloudNetwork HcloudNetwork
client = record {
  get = λ name w. (ok w, w);
  update = λ t w. (ok t, t);
  status_update = λ t w. (ok t, t);
}

abbrev once : Retry HcloudNetwork
once f = f

abbrev r : HcloudNetworkReconciler FakeClient HcloudNetwork
r = fake_reconciler less valid client once plain_meta

abbrev scope : NetworkScope FakeClient HcloudNetwork
scope = record {
  world = record {
    cloud = record new_fake_client { networks = (5, lan) ∷ []; next_id = 6 };
    cluster = object;
  };
  object = object;
}

holds : Holds lan scope
unfolding lookup
holds = record { stored = refl; no_get_err = refl }

reconcile_hcloud_network-zones_example :
    let n' = with_zones less ("eu-central" ∷ "us-east" ∷ []) lan in
    Provisioned less plain_meta n' scope (reconcile_hcloud_network r scope)
    × ((z : String)
        → member z n'.subnet_zones
          ≡ (member z ("us-west" ∷ []) || member z ("eu-central" ∷ "us-east" ∷ [])))
    × ((z : String)
        → member z (reconcile_hcloud_network r scope).1.object.status.subnet_zones
          ≡ member z n'.subnet_zones)
reconcile_hcloud_network-zones_example =
    reconcile_hcloud_network-zones less valid client once plain_meta lan scope holds refl refl

reconcile_hcloud_network_again_example :
    let first = (reconcile_hcloud_network r scope).1 in
    ((reconcile_hcloud_network r first).0 ≡ ok tt)
    × ((reconcile_hcloud_network r first).1.world.cloud ≡ first.world.cloud)
reconcile_hcloud_network_again_example =
    reconcile_hcloud_network_again less valid client once plain_meta lan scope holds refl refl
