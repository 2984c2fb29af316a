-- ===== src/Volume/Deletion.antt =====
-- The deletion of a volume, against the in-memory cloud.
use hcloud_operator.Base.{
  true, false, ◌≡◌, ◌≢◌, refl, sym, subst, none, some, [], ◌∷◌, String, string_eq, nat_eq, arith,
  Bool-cases, inl, inr,
}
use hcloud_operator.Go.Fault.{Result, ok, err, fail, wrap, str, num}
use hcloud_operator.Go.Action.{Action}
use hcloud_operator.Go.Integer.{Int64, is_set, is_positive}
use hcloud_operator.Go.Map.{Map, lookup, insert, delete}
use hcloud_operator.Go.Map.Laws.{lookup-insert, lookup-insert_self, lookup-delete}
use hcloud_operator.Kube.Condition.{Meta}
use hcloud_operator.Kube.Client.{ApiErrors}
use hcloud_operator.Hcloud.Types.{VolumeInfo}
use hcloud_operator.Fake.State.{FakeClient}
use hcloud_operator.Fake.Volumes.{get_volume, detach_volume, delete_volume}
use hcloud_operator.Reconcile.World.{in_cloud}
use hcloud_operator.V1alpha1.Server.{HcloudServer}
use hcloud_operator.Volume.State.{HcloudVolumeReconciler, VolumeScope}
use hcloud_operator.Volume.Controller.{
  attached_to, detach_before_delete, detach_volume_if_attached, delete_hcloud_volume,
}
use hcloud_operator.Volume.Settled.{fake_reconciler}

module _ {K : Type 0} (get_server_object : String → Action K HcloudServer) (api_errors : ApiErrors)
    (meta : Meta) where
  abbrev r : HcloudVolumeReconciler FakeClient K
  r = fake_reconciler get_server_object api_errors meta

  abbrev holding : Map Int64 VolumeInfo → VolumeScope FakeClient K → VolumeScope FakeClient K
  holding m st = record st {
    world = record (st.world) { cloud = record (st.world.cloud) { volumes = m } };
  }

  detach_first :
      (v : VolumeInfo) (st : VolumeScope FakeClient K)
      → lookup st.object.status.volume_id st.world.cloud.volumes ≡ some v
      → st.world.cloud.get_err ≡ none
      → is_set (attached_to st.object.status.attached_server_id (some v)) ≡ true
      → detach_volume_if_attached r st ≡ (
        ok tt,
        holding
            (insert st.object.status.volume_id (record v { server_id = 0 }) st.world.cloud.volumes)
            st,
      )
  unfolding detach_volume_if_attached detach_before_delete get_volume detach_volume
  detach_first v st stored no_get on = ground arith

  detach_none :
      (v : VolumeInfo) (st : VolumeScope FakeClient K)
      → lookup st.object.status.volume_id st.world.cloud.volumes ≡ some v
      → st.world.cloud.get_err ≡ none
      → is_set (attached_to st.object.status.attached_server_id (some v)) ≡ false
      → detach_volume_if_attached r st ≡ (ok tt, st)
  unfolding detach_volume_if_attached detach_before_delete get_volume
  detach_none v st stored no_get off = ground arith

  -- The removal of a volume that is attached to no server.
  abbrev pub Removes :
      VolumeScope FakeClient K → Result (Unit {0}) × VolumeScope FakeClient K → Type 0
  Removes st out =
      (out.0 ≡ ok tt)
      × (lookup st.object.status.volume_id out.1.world.cloud.volumes ≡ none)
      × ((id : Int64)
          → id ≢ st.object.status.volume_id
          → lookup id out.1.world.cloud.volumes ≡ lookup id st.world.cloud.volumes)
      × (out.1.object ≡ st.object)

  remove :
      (v : VolumeInfo) (st : VolumeScope FakeClient K)
      → is_set st.object.status.volume_id ≡ true
      → lookup st.object.status.volume_id st.world.cloud.volumes ≡ some v
      → is_positive v.server_id ≡ false
      → st.world.cloud.delete_err ≡ none
      → in_cloud (delete_volume st.object.status.volume_id) st
        ≡ (ok tt, holding (delete st.object.status.volume_id st.world.cloud.volumes) st)
  unfolding delete_volume
  remove v st set stored off no_delete = ground arith

  removes :
      (m : Map Int64 VolumeInfo) (st : VolumeScope FakeClient K)
      → ((id : Int64)
          → id ≢ st.object.status.volume_id
          → lookup id m ≡ lookup id st.world.cloud.volumes)
      → Removes st (ok tt, holding (delete st.object.status.volume_id m) st)
  removes m st same =
      let k = st.object.status.volume_id in
      (
        refl,
        ground (arith, lookup-delete k k m),
        λ id ne. ground (arith, lookup-delete k id m, same id ne),
        refl,
      )

  -- The deletion of a volume whose ID the status has ends without an error and removes the volume,
  -- and no other, whether or not it is attached and whatever server the status names; the object is
  -- as it was. It asks that the volume is stored and that no error is injected.
  pub delete_hcloud_volume-stored :
      (v : VolumeInfo) (st : VolumeScope FakeClient K)
      → is_set st.object.status.volume_id ≡ true
      → lookup st.object.status.volume_id st.world.cloud.volumes ≡ some v
      → st.world.cloud.get_err ≡ none
      → st.world.cloud.delete_err ≡ none
      → Removes st (delete_hcloud_volume r st)
  unfolding delete_hcloud_volume
  delete_hcloud_volume-stored v st set stored no_get no_delete =
      elim (Bool-cases (is_set (attached_to st.object.status.attached_server_id (some v)))) [
        | inl on ↦
            let free = record v { server_id = 0 } in
            let k = st.object.status.volume_id in
            let m = insert k free st.world.cloud.volumes in
            let e : delete_hcloud_volume r st ≡ (ok tt, holding (delete k m) st) = ground (
              arith,
              detach_first v st stored no_get on,
              remove free (holding m st) set (lookup-insert_self k free st.world.cloud.volumes) refl
                  no_delete,
            ) in
            subst (Removes st) (sym e) (
              removes m st
                (λ id ne. ground (arith, lookup-insert st.world.cloud.volumes k free id)))
        | inr off ↦
            let k = st.object.status.volume_id in
            let e : delete_hcloud_volume r st
                ≡ (ok tt, holding (delete k st.world.cloud.volumes) st) =
              ground (
                arith,
                detach_none v st stored no_get off,
                remove v st set stored (ground arith) no_delete,
              ) in
            subst (Removes st) (sym e) (removes st.world.cloud.volumes st (λ id ne. refl))
      ]

  -- A volume that is gone from the cloud while the status still names a server cannot be deleted: the
  -- deletion ends with the error of the detachment, and changes neither the cloud nor the object, so
  -- that the next run ends in the same way.
  pub delete_hcloud_volume-gone :
      (st : VolumeScope FakeClient K)
      → is_set st.object.status.volume_id ≡ true
      → is_set st.object.status.attached_server_id ≡ true
      → lookup st.object.status.volume_id st.world.cloud.volumes ≡ none
      → st.world.cloud.get_err ≡ none
      → delete_hcloud_volume r st ≡ (
        err (
            wrap (str "detach volume before delete" ∷ []) (
              fail (str "fake: volume " ∷ num st.object.status.volume_id ∷ str " not found" ∷ []))),
        st,
      )
  unfolding delete_hcloud_volume detach_volume_if_attached detach_before_delete get_volume
      detach_volume
  delete_hcloud_volume-gone st set attached gone no_get = ground arith
