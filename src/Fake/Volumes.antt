-- ===== src/Fake/Volumes.antt =====
-- The volume methods of FakeClient.
pub mod Laws
use hcloud_operator.Base.{
  Bool, Option, none, some, [], ◌∷◌, String, ◌==◌, string_eq, nat_eq, if◌then◌else◌,
}
use hcloud_operator.Go.Fault.{Fault, ok, fail, str, quoted, num}
use hcloud_operator.Go.Action.{Action, pure, raise}
use hcloud_operator.Go.Map.{lookup, insert, delete, find_value}
use hcloud_operator.Go.Integer.{Int64, increment, is_positive, lt_int}
use hcloud_operator.Hcloud.Types.{VolumeInfo, VolumeCreateOpts}
use hcloud_operator.Hcloud.Api.{VolumeApi}
use hcloud_operator.Fake.State.{FakeClient, injected, found}

abbrev pub volume_named : String → VolumeInfo → Bool
volume_named name v = v.name == name

unfoldable pub get_volume : Int64 → Action FakeClient (Option VolumeInfo)
get_volume id f = injected f.get_err (λ f'. (ok (lookup id f'.volumes), f')) f

unfoldable pub get_volume_by_name : String → Action FakeClient (Option VolumeInfo)
get_volume_by_name name f =
    injected f.get_err (λ f'. (ok (find_value (volume_named name) f'.volumes), f')) f

abbrev pub new_volume : Int64 → VolumeCreateOpts → VolumeInfo
new_volume id opts = record {
  id = id;
  name = opts.name;
  size = opts.size;
  state = "available";
  server_id = if is_positive opts.server_id then opts.server_id else 0;
  linux_device = str "/dev/disk/by-id/scsi-0HC_Volume_" ∷ num id ∷ [];
}

unfoldable pub create_volume : VolumeCreateOpts → Action FakeClient VolumeInfo
create_volume opts f =
    injected f.create_err
      (λ f'.
        found (find_value (volume_named opts.name) f'.volumes)
          (λ g.
            let info = new_volume g.next_id opts in
            (
              ok info,
              record g { volumes = insert g.next_id info g.volumes; next_id = increment g.next_id },
            ))
          (λ _.
            raise (
              fail (str "fake: volume with name " ∷ quoted opts.name ∷ str " already exists" ∷ [])))
          f')
      f

unfoldable pub delete_volume : Int64 → Action FakeClient (Unit {0})
delete_volume id f =
    injected f.delete_err
      (λ f'.
        found (lookup id f'.volumes) (pure tt)
          (λ v.
            if is_positive v.server_id
            then raise (
                fail (
                  str "fake: volume "
                  ∷ num id
                  ∷ str " is attached to server "
                  ∷ num v.server_id
                  ∷ []))
            else (λ g. (ok tt, record g { volumes = delete id g.volumes })))
          f')
      f

abbrev pub volume_missing : {A : Type 0} → Int64 → Action FakeClient A
volume_missing id = raise (fail (str "fake: volume " ∷ num id ∷ str " not found" ∷ []))

-- A change of a stored volume, which the map holds by pointer.
abbrev pub store_volume : Int64 → VolumeInfo → Action FakeClient (Unit {0})
store_volume id v f = (ok tt, record f { volumes = insert id v f.volumes })

unfoldable pub attach_volume : Int64 → Int64 → Action FakeClient (Unit {0})
attach_volume volume_id server_id f =
    found (lookup volume_id f.volumes) (volume_missing volume_id)
      (λ v.
        if is_positive v.server_id
        then raise (fail (str "fake: volume " ∷ num volume_id ∷ str " already attached" ∷ []))
        else store_volume volume_id (record v { server_id = server_id }))
      f

unfoldable pub detach_volume : Int64 → Action FakeClient (Unit {0})
detach_volume volume_id f =
    found (lookup volume_id f.volumes) (volume_missing volume_id)
      (λ v. store_volume volume_id (record v { server_id = 0 })) f

unfoldable pub resize_volume : Int64 → Int64 → Action FakeClient (Unit {0})
resize_volume volume_id size_gb f =
    found (lookup volume_id f.volumes) (volume_missing volume_id)
      (λ v.
        if lt_int size_gb v.size
        then raise (
            fail (
              str "fake: volume "
              ∷ num volume_id
              ∷ str " size cannot shrink from "
              ∷ num v.size
              ∷ str " to "
              ∷ num size_gb
              ∷ str " GB"
              ∷ []))
        else store_volume volume_id (record v { size = size_gb }))
      f

abbrev pub volume_api : VolumeApi FakeClient
volume_api = record {
  get_volume = get_volume;
  get_volume_by_name = get_volume_by_name;
  create_volume = create_volume;
  delete_volume = delete_volume;
  attach_volume = attach_volume;
  detach_volume = detach_volume;
  resize_volume = resize_volume;
}
