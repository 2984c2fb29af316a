-- ===== src/Volume/Guarding.antt =====
-- A run of the shared loop over a volume, and the finalizer of the stored object.
use hcloud_operator.Base.{String, true, ◌≡◌, ◌≢◌, arith, Option, none, some}
use hcloud_operator.Go.Fault.{Fault, ok}
use hcloud_operator.Go.Action.Invariant.{Maintains, bind-Maintains, attempt-Maintains}
use hcloud_operator.Go.Integer.{Int64}
use hcloud_operator.Hcloud.Types.{VolumeInfo}
use hcloud_operator.Reconcile.World.{World, in_cluster}
use hcloud_operator.Reconcile.Loop.{Loop, BaseReconciler, has_finalizer, converge}
use hcloud_operator.Reconcile.Guard.{Protects, converge_keeps}
use hcloud_operator.V1alpha1.Server.{HcloudServer}
use hcloud_operator.V1alpha1.Volume.{HcloudVolume}
use hcloud_operator.Volume.State.{HcloudVolumeReconciler, VolumeScope}
use hcloud_operator.Volume.Controller.{
  fetch_by_id, fetch_by_name, create_missing, fit_size, detach_old, move_volume, sync_volume_status,
  settle_volume, reconcile_hcloud_volume, reconcile_for, server_unread, server_read, reconcile_to,
  reconcile, detach_before_delete, detach_volume_if_attached, delete_hcloud_volume, volume_resource,
}

module _ {C K : Type 0} (r : HcloudVolumeReconciler C K) (P : K → Type 0)
    (reads : (name : String) → Maintains P (r.get_server_object name)) where
  abbrev Kept : VolumeScope C K → Type 0
  Kept st = P st.world.cluster

  fetch_by_id_keeps : Maintains Kept (fetch_by_id r)
  unfolding fetch_by_id
  fetch_by_id_keeps st h = ground arith

  fetch_by_name_keeps : (v : Option VolumeInfo) → Maintains Kept (fetch_by_name r v)
  unfolding fetch_by_name
  fetch_by_name_keeps none st h = ground arith
  fetch_by_name_keeps (some v) st h = h

  create_missing_keeps :
      (target : Int64) (v : Option VolumeInfo) → Maintains Kept (create_missing r target v)
  unfolding create_missing
  create_missing_keeps target none st h = ground arith
  create_missing_keeps target (some v) st h = h

  fit_size_keeps : (v : VolumeInfo) → Maintains Kept (fit_size r v)
  unfolding fit_size
  fit_size_keeps v st h = ground arith

  move_volume_keeps : (target : Int64) (v : VolumeInfo) → Maintains Kept (move_volume r target v)
  unfolding move_volume detach_old
  move_volume_keeps target v st h = ground arith

  settle_volume_keeps :
      (target : Int64) (v : VolumeInfo) → Maintains Kept (settle_volume r target v)
  unfolding settle_volume sync_volume_status
  settle_volume_keeps target v = bind-Maintains Kept (fit_size r v) _ (fit_size_keeps v) (λ sized.
      bind-Maintains Kept (move_volume r target sized) (sync_volume_status r)
        (move_volume_keeps target sized) (λ moved st h. h))

  provision_keeps : (target : Int64) → Maintains Kept (reconcile_hcloud_volume r target)
  unfolding reconcile_hcloud_volume
  provision_keeps target = bind-Maintains Kept (fetch_by_id r) _ fetch_by_id_keeps (λ by_id.
      bind-Maintains Kept (fetch_by_name r by_id) _ (fetch_by_name_keeps by_id) (λ found.
        bind-Maintains Kept (create_missing r target found) (settle_volume r target)
          (create_missing_keeps target found) (settle_volume_keeps target)))

  reconcile_for_keeps : (target : Int64) → Maintains Kept (reconcile_for r target)
  unfolding reconcile_for
  reconcile_for_keeps target =
      bind-Maintains Kept (reconcile_hcloud_volume r target) _ (provision_keeps target)
        (λ _ st h. h)

  server_unread_keeps : (e : Fault) → Maintains Kept (server_unread r e)
  unfolding server_unread
  server_unread_keeps e st h = ground arith

  server_read_keeps : (server : HcloudServer) → Maintains Kept (server_read r server)
  unfolding server_read
  server_read_keeps server st h = ground (arith, reconcile_for_keeps server.status.server_id st h)

  read_keeps :
      (name : String)
      → Maintains Kept (in_cluster {C = C} {O = HcloudVolume} (r.get_server_object name))
  read_keeps name st h = ground (arith, reads name st.world.cluster h)

  reconcile_to_keeps : (server_ref : Option String) → Maintains Kept (reconcile_to r server_ref)
  unfolding reconcile_to
  reconcile_to_keeps none = reconcile_for_keeps 0
  reconcile_to_keeps (some name) =
      attempt-Maintains Kept (server_unread r) (server_read r)
        (in_cluster (r.get_server_object name)) (read_keeps name) server_unread_keeps
        server_read_keeps

  reconcile_keeps : Maintains Kept (reconcile r)
  unfolding reconcile
  reconcile_keeps st = reconcile_to_keeps st.object.spec.server_ref st

  detach_keeps : Maintains Kept (detach_volume_if_attached r)
  unfolding detach_volume_if_attached detach_before_delete
  detach_keeps st h = ground arith

  delete_keeps : Maintains Kept (delete_hcloud_volume r)
  unfolding delete_hcloud_volume
  delete_keeps st h = ground (arith, detach_keeps st h)

  -- A run of the loop over a volume object, whichever phase it is in and however it ends, keeps every
  -- property of the cluster, such as that the stored object carries the finalizer, that the
  -- Kubernetes client breaks by no call but an update with an object that lacks the finalizer. It
  -- asks that, where the object is being deleted and still has the finalizer, the deletion of the
  -- external volume does not succeed; nothing is asked of Delete in any other phase.
  pub converge-volume_resource :
      (base : BaseReconciler (World C K) HcloudVolume) (empty : HcloudVolume)
      → Protects (record base { resource = volume_resource r empty }) (λ w. P w.cluster)
      → (s : Loop (World C K) HcloudVolume)
      → ((base.managed.metadata s.object).deleting ≡ true
          → has_finalizer (record base { resource = volume_resource r empty }) s ≡ true
          → (delete_hcloud_volume r s.scope).0 ≢ ok tt)
      → P s.world.cluster
      → P (converge (record base { resource = volume_resource r empty }) s).1.world.cluster
  converge-volume_resource base empty safe s failing h =
      converge_keeps (record base { resource = volume_resource r empty }) (λ w. P w.cluster) safe
        reconcile_keeps delete_keeps s failing h
