-- ===== src/Fake/Volumes/Laws.antt =====
-- The volume methods on a stored volume.
use hcloud_operator.Base.{false, ◌≡◌, none, some, string_eq, nat_eq, arith}
use hcloud_operator.Go.Fault.{ok}
use hcloud_operator.Go.Integer.{Int64, is_positive, lt_int}
use hcloud_operator.Go.Map.{lookup, insert}
use hcloud_operator.Hcloud.Types.{VolumeInfo}
use hcloud_operator.Fake.State.{FakeClient}
use hcloud_operator.Fake.Volumes.{get_volume, attach_volume, detach_volume, resize_volume}

-- The cloud with a volume written back.
abbrev pub with_volume : Int64 → VolumeInfo → FakeClient → FakeClient
with_volume id v f = record f { volumes = insert id v f.volumes }

module _ (id : Int64) (v : VolumeInfo) (f : FakeClient)
    (stored : lookup id f.volumes ≡ some v) where
  pub get_volume_stored : f.get_err ≡ none → get_volume id f ≡ (ok (some v), f)
  unfolding get_volume
  get_volume_stored h = ground arith

  pub detach_volume_stored :
      detach_volume id f ≡ (ok tt, with_volume id (record v { server_id = 0 }) f)
  unfolding detach_volume
  detach_volume_stored = ground arith

  pub attach_volume_free :
      (server_id : Int64)
      → is_positive v.server_id ≡ false
      → attach_volume id server_id f
        ≡ (ok tt, with_volume id (record v { server_id = server_id }) f)
  unfolding attach_volume
  attach_volume_free server_id h = ground arith

  pub resize_volume_grown :
      (size : Int64)
      → lt_int size v.size ≡ false
      → resize_volume id size f ≡ (ok tt, with_volume id (record v { size = size }) f)
  unfolding resize_volume
  resize_volume_grown size h = ground arith
