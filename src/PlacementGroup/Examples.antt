-- ===== src/PlacementGroup/Examples.antt =====
-- The theorem of the placement group controller at an empty cloud.
use hcloud_operator.Base.{arith, false, ◌≡◌, refl, [], none, string_eq, nat_eq}
use hcloud_operator.Go.Fault.{ok}
use hcloud_operator.Go.Map.{lookup}
use hcloud_operator.Kube.Concrete.{plain_meta}
use hcloud_operator.Fake.State.{FakeClient, new_fake_client}
use hcloud_operator.V1alpha1.PlacementGroup.{HcloudPlacementGroup}
use hcloud_operator.PlacementGroup.Controller.{GroupScope, reconcile_hcloud_placement_group}
use hcloud_operator.PlacementGroup.Settled.{
  Sound, Quiet, fake_reconciler, reconcile_hcloud_placement_group_again,
}

abbrev object : HcloudPlacementGroup
object = record {
  metadata = record {
    name = "spread";
    deleting = false;
    finalizers = [];
    resource_version = "1";
    labels = none;
  };
  spec = record { type = "spread"; labels = none };
  status = record { placement_group_id = 0; type = ""; conditions = [] };
}

abbrev scope : GroupScope FakeClient HcloudPlacementGroup
scope = record { world = record { cloud = new_fake_client; cluster = object }; object = object }

sound : Sound new_fake_client
unfolding lookup
sound = record { own_id = λ id pg h. ground arith; no_get_err = refl; no_create_err = refl }

reconcile_hcloud_placement_group_again_example :
    let first = reconcile_hcloud_placement_group (fake_reconciler plain_meta) scope in
    (first.0 ≡ ok tt)
    × Quiet plain_meta first.1
        (reconcile_hcloud_placement_group (fake_reconciler plain_meta) first.1)
reconcile_hcloud_placement_group_again_example =
    reconcile_hcloud_placement_group_again plain_meta scope sound refl
