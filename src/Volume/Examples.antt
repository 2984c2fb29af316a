-- ===== src/Volume/Examples.antt =====
-- The theorems of the volume controller at concrete clouds.
use hcloud_operator.Base.{
  String, ◌≡◌, ◌≢◌, refl, [], ◌∷◌, none, some, true, false, string_eq, nat_eq, arith,
}
use hcloud_operator.Go.Fault.{foreign, ok, err, fail, wrap, str, num}
use hcloud_operator.Go.Action.{Action, raise}
use hcloud_operator.Go.Map.{lookup, find_value}
use hcloud_operator.Go.Integer.{Int64}
use hcloud_operator.Kube.Client.{Client}
use hcloud_operator.Kube.Concrete.{plain_meta, contains}
use hcloud_operator.Kube.Cluster.{plain_errors, retry_once, retry_once-Maintains}
use hcloud_operator.Reconcile.World.{World}
use hcloud_operator.Reconcile.Loop.{Loop, BaseReconciler, converge}
use hcloud_operator.Reconcile.Guard.{Protects}
use hcloud_operator.Hcloud.Types.{VolumeInfo}
use hcloud_operator.Fake.State.{FakeClient, new_fake_client}
use hcloud_operator.V1alpha1.Server.{HcloudServer}
use hcloud_operator.V1alpha1.Volume.{HcloudVolume, managed_volume}
use hcloud_operator.Volume.State.{HcloudVolumeReconciler, VolumeScope, hcloud_volume_finalizer}
use hcloud_operator.Volume.Controller.{
  reconcile_hcloud_volume, delete_hcloud_volume, reconcile, volume_resource,
}
use hcloud_operator.Volume.Settled.{Holds, fake_reconciler, moved}
use hcloud_operator.Volume.Provisioning.{
  Provisioned, Quiet, reconcile_hcloud_volume-Provisioned, reconcile_hcloud_volume_again,
}
use hcloud_operator.Volume.Creation.{
  Vacant, created_volume, reconcile_hcloud_volume-create, reconcile_hcloud_volume-shrink,
}
use hcloud_operator.Volume.Deletion.{
  Removes, delete_hcloud_volume-stored, delete_hcloud_volume-gone,
}
use hcloud_operator.Volume.Guarding.{converge-volume_resource}
use hcloud_operator.Volume.Pending.{Unready, Waits, reconcile-Waits}

abbrev object : Int64 → Int64 → HcloudVolume
object size id = record {
  metadata = record {
    name = "data";
    deleting = false;
    finalizers = [];
    resource_version = "1";
    labels = none;
  };
  spec = record {
    size = size;
    location = "fsn1";
    server_ref = some "web";
    format = "ext4";
    labels = none;
  };
  status = record {
    volume_id = id;
    state = "";
    attached_server_id = 7;
    linux_device = [];
    applied_size = 0;
    conditions = [];
  };
}

-- 20 GB, attached to the server 7
abbrev stored_volume : VolumeInfo
stored_volume = record {
  id = 3;
  name = "data";
  size = 20;
  state = "available";
  server_id = 7;
  linux_device = [];
}

abbrev cloud : FakeClient
cloud = record new_fake_client { volumes = (3, stored_volume) ∷ []; next_id = 4 }

-- No server object is there.
abbrev no_server : String → Action HcloudVolume HcloudServer
no_server name = raise (foreign "not found")

abbrev r : HcloudVolumeReconciler FakeClient HcloudVolume
r = fake_reconciler no_server plain_errors plain_meta

abbrev scope : FakeClient → Int64 → Int64 → VolumeScope FakeClient HcloudVolume
scope f size id = record {
  world = record { cloud = f; cluster = object size id };
  object = object size id;
}

holds : (size : Int64) → Holds stored_volume (scope cloud size 3)
unfolding lookup
holds size = record { stored = refl; no_get_err = refl }

vacant : Vacant (scope new_fake_client 20 0)
unfolding lookup find_value
vacant = record {
  none_by_id = λ h. refl;
  none_by_name = refl;
  no_get_err = refl;
  no_create_err = refl;
}

reconcile_hcloud_volume-Provisioned_example :
    Provisioned plain_meta
      (record stored_volume { size = 50; server_id = 9 })
      (record stored_volume { size = 50; server_id = 9 })
      (scope cloud 50 3)
      (reconcile_hcloud_volume r 9 (scope cloud 50 3))
reconcile_hcloud_volume-Provisioned_example =
    reconcile_hcloud_volume-Provisioned no_server plain_errors plain_meta 9 stored_volume
      (scope cloud 50 3) (holds 50) refl refl refl

reconcile_hcloud_volume_again_example :
    Quiet no_server plain_errors plain_meta 9
      (reconcile_hcloud_volume r 9 (scope cloud 50 3)).1
      (reconcile_hcloud_volume r 9 (reconcile_hcloud_volume r 9 (scope cloud 50 3)).1)
reconcile_hcloud_volume_again_example =
    reconcile_hcloud_volume_again no_server plain_errors plain_meta 9 stored_volume
      (scope cloud 50 3) (holds 50) refl refl refl

reconcile_hcloud_volume-create_example :
    let w =
      moved 9 (created_volume no_server plain_errors plain_meta 9 (scope new_fake_client 20 0)) in
    Provisioned plain_meta w w
      (scope new_fake_client 20 0)
      (reconcile_hcloud_volume r 9 (scope new_fake_client 20 0))
    × (w.name ≡ "data")
    × (w.size ≡ 20)
reconcile_hcloud_volume-create_example =
    reconcile_hcloud_volume-create no_server plain_errors plain_meta 9 (scope new_fake_client 20 0)
      vacant

reconcile_hcloud_volume-shrink_example : reconcile_hcloud_volume r 9 (scope cloud 10 3) ≡ (
  err (
      fail (
        str "volume size "
        ∷ num 20
        ∷ str " GB in Hetzner exceeds spec.size "
        ∷ num 10
        ∷ str " GB; shrink is not supported"
        ∷ [])),
  scope cloud 10 3,
)
reconcile_hcloud_volume-shrink_example =
    reconcile_hcloud_volume-shrink no_server plain_errors plain_meta 9 stored_volume
      (scope cloud 10 3) (holds 10) refl refl refl

stored_at_3 : lookup 3 cloud.volumes ≡ some stored_volume
unfolding lookup
stored_at_3 = refl

delete_hcloud_volume-stored_example :
    Removes no_server plain_errors plain_meta
      (scope cloud 20 3)
      (delete_hcloud_volume r (scope cloud 20 3))
delete_hcloud_volume-stored_example =
    delete_hcloud_volume-stored no_server plain_errors plain_meta stored_volume (scope cloud 20 3)
      refl stored_at_3 refl refl

none_at_3 : lookup 3 new_fake_client.volumes ≡ none
unfolding lookup
none_at_3 = refl

delete_hcloud_volume-gone_example : delete_hcloud_volume r (scope new_fake_client 20 3) ≡ (
  err (
      wrap
        (str "detach volume before delete" ∷ [])
        (fail (str "fake: volume " ∷ num 3 ∷ str " not found" ∷ []))),
  scope new_fake_client 20 3,
)
delete_hcloud_volume-gone_example =
    delete_hcloud_volume-gone no_server plain_errors plain_meta (scope new_fake_client 20 3) refl
      refl none_at_3 refl

missing : Unready plain_errors (no_server "web" (object 20 0)).0
unfolding Unready
missing = refl

reconcile-Waits_example :
    Waits r "Target server not found"
      (scope new_fake_client 20 0)
      (reconcile r (scope new_fake_client 20 0))
reconcile-Waits_example = reconcile-Waits r "web" (scope new_fake_client 20 0) refl missing

-- An object that is being deleted, in a cluster that stores it, whose volume is gone from the cloud.
abbrev deleted : HcloudVolume
deleted = record (object 20 3) {
  metadata = record (object 20 3).metadata {
    deleting = true;
    finalizers = hcloud_volume_finalizer ∷ [];
  };
}

abbrev store_client : Client (World FakeClient HcloudVolume) HcloudVolume
store_client = record {
  get = λ name w. (ok w.cluster, w);
  update = λ t w. (ok t, record w { cluster = t });
  status_update = λ t w. (ok t, record w { cluster = record (w.cluster) { status = t.status } });
}

abbrev base : BaseReconciler (World FakeClient HcloudVolume) HcloudVolume
base = record {
  managed = managed_volume;
  meta = plain_meta;
  client = store_client;
  api_errors = plain_errors;
  retry_on_conflict = retry_once;
  has_recorder = true;
  resource = volume_resource r (object 20 0);
}

-- The stored object carries the finalizer.
abbrev Carries : HcloudVolume → Type 0
Carries k = contains k.metadata.finalizers hcloud_volume_finalizer ≡ true

store_protects : Protects base (λ w. Carries w.cluster)
store_protects = record {
  get_keeps = λ name w h. h;
  status_keeps = λ t w h. h;
  update_keeps = λ t w f h. f;
  retry_keeps = λ f k s h.
      retry_once-Maintains
        (λ (l : Loop (World FakeClient HcloudVolume) HcloudVolume). Carries l.world.cluster) f k s
        h;
}

abbrev deleting : Loop (World FakeClient HcloudVolume) HcloudVolume
deleting = record {
  scope = record {
    world = record { cloud = new_fake_client; cluster = deleted };
    object = deleted;
  };
  events = [];
  metrics = [];
}

delete_fails : (delete_hcloud_volume r deleting.scope).0 ≢ ok tt
delete_fails = ground (
  arith,
  delete_hcloud_volume-gone no_server plain_errors plain_meta deleting.scope refl refl none_at_3
      refl,
)

converge-volume_resource_example : Carries (converge base deleting).1.world.cluster
converge-volume_resource_example =
    converge-volume_resource r Carries (λ name k h. h) base (object 20 0) store_protects deleting
      (λ d f. delete_fails) refl
