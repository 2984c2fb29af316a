-- ===== src/Server/Examples.antt =====
-- The theorems of the server controller at concrete clouds.
use hcloud_operator.Base.{
  String, false, ◌≡◌, ◌≢◌, refl, [], ◌∷◌, none, some, eq_iff, arith, string_eq,
}
use hcloud_operator.Go.Fault.{foreign, ok}
use hcloud_operator.Go.Action.{Action, raise}
use hcloud_operator.Go.Map.{lookup}
use hcloud_operator.Go.Integer.{Int64}
use hcloud_operator.Server.Status.{update_server_status_with_retry}
use hcloud_operator.Kube.Client.{Client, Retry}
use hcloud_operator.Kube.Concrete.{plain_meta}
use hcloud_operator.Hcloud.Types.{ServerInfo}
use hcloud_operator.Fake.State.{FakeClient, new_fake_client}
use hcloud_operator.V1alpha1.Server.{HcloudServer, HcloudServerSpec}
use hcloud_operator.V1alpha1.Network.{HcloudNetwork}
use hcloud_operator.V1alpha1.PlacementGroup.{HcloudPlacementGroup}
use hcloud_operator.Server.State.{HcloudServerReconciler, ServerScope, resize_requeue_delay}
use hcloud_operator.Server.Controller.{reconcile}
use hcloud_operator.Server.Resize.{reconcile_server_type_mismatch}
use hcloud_operator.Server.Tracking.{Tracks, fake_reconciler, ready_condition, running_condition}
use hcloud_operator.Server.Convergence.{rounds, rounds-converge, rounds-drift_stays_off}
use hcloud_operator.Server.Names.{AddsMissing, reconcile-AddsMissing}
use hcloud_operator.Server.FakeNames.{server_names, Fresh, fake_named}
use hcloud_operator.Server.Waiting.{Waits, reconcile_server_type_mismatch-Waits}

abbrev spec : HcloudServerSpec
spec = record {
  server_type = "cx32";
  image = "ubuntu-24.04";
  location = "fsn1";
  labels = none;
  ssh_keys = [];
  user_data = "";
  network_ref = none;
  placement_group_ref = none;
  upgrade_disk = false;
}

abbrev object : Int64 → String → HcloudServer
object id applied = record {
  metadata = record {
    name = "web";
    deleting = false;
    finalizers = [];
    resource_version = "1";
    labels = none;
  };
  spec = spec;
  status = record {
    server_id = id;
    state = "";
    applied_server_type = applied;
    public_ipv4 = [];
    public_ipv6 = [];
    applied_network_id = 0;
    applied_placement_group_id = 0;
    conditions = [];
  };
}

abbrev small : ServerInfo
small = record {
  id = 1;
  name = "web";
  server_type = "cx22";
  state = "running";
  public_ipv4 = [];
  public_ipv6 = [];
  network_ids = [];
  placement_group_id = 0;
}

abbrev cloud : FakeClient
cloud = record new_fake_client { servers = (1, small) ∷ []; next_id = 2 }

-- The cluster stores the object and takes every update.
abbrev client : Client HcloudServer HcloudServer
client = record {
  get = λ name w. (ok w, w);
  update = λ t w. (ok t, t);
  status_update = λ t w. (ok t, t);
}

abbrev no_network : String → Action HcloudServer HcloudNetwork
no_network name = raise (foreign "not found")

abbrev no_group : String → Action HcloudServer HcloudPlacementGroup
no_group name = raise (foreign "not found")

abbrev once : Retry HcloudServer
once f = f

abbrev r : HcloudServerReconciler FakeClient HcloudServer
r = fake_reconciler client no_network no_group once plain_meta

abbrev scope : FakeClient → Int64 → String → ServerScope FakeClient HcloudServer
scope f id applied = record {
  world = record { cloud = f; cluster = object id applied };
  object = object id applied;
}

tracked : (applied : String) → Tracks 1 small spec applied (scope cloud 1 applied)
unfolding lookup
tracked applied = record {
  stored = refl;
  own_id = refl;
  known = refl;
  valid_id = refl;
  no_get_err = refl;
  same_spec = refl;
  no_network = refl;
  no_applied_network = refl;
  no_placement_group = refl;
  applied_type = refl;
}

cx22_typed : ◌≢◌ {A = String} "cx22" ""
cx22_typed = ground (arith, eq_iff "cx22" "")

cx22-ne-cx32 : ◌≢◌ {A = String} "cx22" "cx32"
cx22-ne-cx32 = ground (arith, eq_iff "cx22" "cx32")

rounds-converge_example :
    Tracks 1 (record small { server_type = "cx32" }) spec "cx32" (rounds r 4 (scope cloud 1 "cx22"))
    × (ready_condition plain_meta (rounds r 4 (scope cloud 1 "cx22")) ≡ some running_condition)
rounds-converge_example =
    rounds-converge client no_network no_group once plain_meta 1 spec "cx22" small
      (scope cloud 1 "cx22") (tracked "cx22") refl cx22_typed cx22-ne-cx32 cx22-ne-cx32

rounds-drift_stays_off_example :
    Tracks 1
      (record small { server_type = "cx32"; state = "off" })
      spec
      "cx32"
      (rounds r 7 (scope cloud 1 "cx32"))
rounds-drift_stays_off_example =
    rounds-drift_stays_off client no_network no_group once plain_meta 1 spec "cx32" 5 small
      (scope cloud 1 "cx32") (tracked "cx32") refl cx22_typed cx22-ne-cx32 refl

-- A run over an empty cloud creates the server.
reconcile-AddsMissing_example :
    AddsMissing "web" [] (server_names (reconcile r (scope new_fake_client 0 "")).1.world.cloud)
unfolding lookup
reconcile-AddsMissing_example =
    reconcile-AddsMissing r server_names Fresh fake_named (scope new_fake_client 0 "") refl

-- A run over a server that is initializing.
abbrev booting : ServerInfo
booting = record small { state = "initializing" }

reconcile_server_type_mismatch-Waits_example :
    Waits r "cx22" resize_requeue_delay
      (reconcile_server_type_mismatch r booting (scope cloud 1 "cx22")).1
unfolding reconcile_server_type_mismatch update_server_status_with_retry
reconcile_server_type_mismatch-Waits_example =
    reconcile_server_type_mismatch-Waits r booting (scope cloud 1 "cx22") _ _ refl
