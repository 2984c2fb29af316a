-- ===== src/Volume/Controller.antt =====
-- Reconcile, Delete, detachVolumeIfAttached and reconcileHCloudVolume.
use hcloud_operator.Base.{
  false, not, String, [], ◌∷◌, Option, none, some, ◌==◌, nat_eq, if◌then◌else◌,
}
use hcloud_operator.Go.Fault.{Fault, Text, str, num, fail, wrap}
use hcloud_operator.Go.Action.{Action, pure, raise, within, attempt, ◌>>=◌, ◌>>◌}
use hcloud_operator.Go.Integer.{Int64, is_set, lt_int}
use hcloud_operator.Kube.Condition.{ConditionStatus, condition_true, condition_false}
use hcloud_operator.Hcloud.Types.{VolumeInfo, VolumeCreateOpts, is_empty}
use hcloud_operator.Reconcile.Object.{CtrlResult, Resource}
use hcloud_operator.Reconcile.World.{World, in_cloud, in_cluster, look}
use hcloud_operator.V1alpha1.Server.{HcloudServer}
use hcloud_operator.V1alpha1.Volume.{HcloudVolume, HcloudVolumeStatus}
use hcloud_operator.Server.State.{requeue_delay, condition_type_ready}
use hcloud_operator.Volume.State.{
  HcloudVolumeReconciler, VolumeScope, set_status, set_condition, hcloud_volume_finalizer,
}

abbrev pub create_opts : HcloudVolume → Int64 → VolumeCreateOpts
create_opts o target_server_id = record {
  name = o.metadata.name;
  size = o.spec.size;
  server_id = target_server_id;
  location = o.spec.location;
  format = o.spec.format;
  automount = is_set target_server_id;
  labels = o.spec.labels;
}

-- The assignments at the end of reconcileHCloudVolume.
abbrev pub synced_status : VolumeInfo → HcloudVolumeStatus → HcloudVolumeStatus
synced_status v st = record st {
  volume_id = v.id;
  state = v.state;
  attached_server_id = v.server_id;
  applied_size = v.size;
  linux_device = if is_empty v.linux_device then st.linux_device else v.linux_device;
}

-- `existing.ServerID`, if there is an answer and it is set, in place of the ID in the status
abbrev pub attached_to : Int64 → Option VolumeInfo → Int64
attached_to attached_server_id none = attached_server_id
attached_to attached_server_id (some v) =
    if is_set v.server_id then v.server_id else attached_server_id

abbrev pub after_delay : CtrlResult
after_delay = record { requeue = false; requeue_after = requeue_delay }

module _ {C K : Type 0} (r : HcloudVolumeReconciler C K) where
  open r use {hcloud_client, get_server_object, api_errors, meta}

  abbrev pub set_ready : ConditionStatus → String → Text → Action (VolumeScope C K) (Unit {0})
  set_ready status reason message =
      set_status (set_condition meta condition_type_ready status reason message)

  unfoldable pub fetch_by_id : Action (VolumeScope C K) (Option VolumeInfo)
  fetch_by_id = look λ o.
      if is_set o.status.volume_id
      then within (str "fetch volume by ID" ∷ [])
          (in_cloud (hcloud_client.get_volume o.status.volume_id))
      else pure none

  unfoldable pub fetch_by_name : Option VolumeInfo → Action (VolumeScope C K) (Option VolumeInfo)
  fetch_by_name none = look λ o.
      within (str "fetch volume by name" ∷ [])
        (in_cloud (hcloud_client.get_volume_by_name o.metadata.name))
  fetch_by_name (some v) = pure (some v)

  unfoldable pub create_missing : Int64 → Option VolumeInfo → Action (VolumeScope C K) VolumeInfo
  create_missing target_server_id none = look λ o.
      within (str "create volume" ∷ [])
        (in_cloud (hcloud_client.create_volume (create_opts o target_server_id)))
  create_missing target_server_id (some v) = pure v

  abbrev pub refreshed : Int64 → Option VolumeInfo → Action (VolumeScope C K) VolumeInfo
  refreshed id none = raise (fail (str "volume " ∷ num id ∷ str " disappeared after resize" ∷ []))
  refreshed id (some v) = pure v

  unfoldable pub fit_size : VolumeInfo → Action (VolumeScope C K) VolumeInfo
  fit_size v = look λ o.
      if lt_int v.size o.spec.size
      then (do
        within (str "resize volume" ∷ []) (in_cloud (hcloud_client.resize_volume v.id o.spec.size))
        updated ←
            within (str "refresh volume after resize" ∷ [])
              (in_cloud (hcloud_client.get_volume v.id))
        refreshed v.id updated)
      else if lt_int o.spec.size v.size
      then raise (
          fail (
            str "volume size "
            ∷ num v.size
            ∷ str " GB in Hetzner exceeds spec.size "
            ∷ num o.spec.size
            ∷ str " GB; shrink is not supported"
            ∷ []))
      else pure v

  unfoldable pub detach_old : VolumeInfo → Action (VolumeScope C K) (Unit {0})
  detach_old v =
      if is_set v.server_id
      then within (str "detach volume" ∷ []) (in_cloud (hcloud_client.detach_volume v.id))
      else pure tt

  unfoldable pub move_volume : Int64 → VolumeInfo → Action (VolumeScope C K) VolumeInfo
  move_volume target_server_id v =
      if not (v.server_id == target_server_id)
      then (do
        detach_old v
        if is_set target_server_id
            then (do
              within (str "attach volume" ∷ [])
                  (in_cloud (hcloud_client.attach_volume v.id target_server_id))
              pure (record v { server_id = target_server_id }))
            else pure v)
      else pure v

  unfoldable pub sync_volume_status : VolumeInfo → Action (VolumeScope C K) (Unit {0})
  sync_volume_status v = do
    set_status (synced_status v)
    set_ready condition_true "VolumeReady" (str "Volume is provisioned and attached" ∷ [])

  -- From the comparison of the sizes on.
  unfoldable pub settle_volume : Int64 → VolumeInfo → Action (VolumeScope C K) (Unit {0})
  settle_volume target_server_id v = do
    sized ← fit_size v
    moved ← move_volume target_server_id sized
    sync_volume_status moved

  unfoldable pub reconcile_hcloud_volume : Int64 → Action (VolumeScope C K) (Unit {0})
  reconcile_hcloud_volume target_server_id = do
    by_id ← fetch_by_id
    found ← fetch_by_name by_id
    existing ← create_missing target_server_id found
    settle_volume target_server_id existing

  unfoldable pub reconcile_for : Int64 → Action (VolumeScope C K) CtrlResult
  reconcile_for target_server_id = do reconcile_hcloud_volume target_server_id; pure after_delay

  abbrev pub wait_for_server : String → Action (VolumeScope C K) CtrlResult
  wait_for_server message = do
    set_ready condition_false "ServerPending" (str message ∷ [])
    pure after_delay

  unfoldable pub server_unread : Fault → Action (VolumeScope C K) CtrlResult
  server_unread e =
      if api_errors.is_not_found e
      then wait_for_server "Target server not found"
      else raise (wrap (str "get target server" ∷ []) e)

  unfoldable pub server_read : HcloudServer → Action (VolumeScope C K) CtrlResult
  server_read server =
      if not (is_set server.status.server_id)
      then wait_for_server "Target server not yet provisioned in Hetzner"
      else reconcile_for server.status.server_id

  unfoldable pub reconcile_to : Option String → Action (VolumeScope C K) CtrlResult
  reconcile_to none = reconcile_for 0
  reconcile_to (some name) = attempt server_unread server_read (in_cluster (get_server_object name))

  unfoldable pub reconcile : Action (VolumeScope C K) CtrlResult
  reconcile = look λ o. reconcile_to o.spec.server_ref

  unfoldable pub detach_before_delete : Int64 → Action (VolumeScope C K) (Unit {0})
  detach_before_delete attached_server_id = look λ o.
      if not (is_set attached_server_id)
      then pure tt
      else within (str "detach volume before delete" ∷ [])
          (in_cloud (hcloud_client.detach_volume o.status.volume_id))

  unfoldable pub detach_volume_if_attached : Action (VolumeScope C K) (Unit {0})
  detach_volume_if_attached = look λ o. do
    existing ←
        within (str "fetch volume for deletion" ∷ [])
          (in_cloud (hcloud_client.get_volume o.status.volume_id))
    detach_before_delete (attached_to o.status.attached_server_id existing)

  unfoldable pub delete_hcloud_volume : Action (VolumeScope C K) (Unit {0})
  delete_hcloud_volume = look λ o.
      if not (is_set o.status.volume_id)
      then pure tt
      else (do detach_volume_if_attached; in_cloud (hcloud_client.delete_volume o.status.volume_id))

  -- HCloudVolumeReconciler as the domain logic of the shared loop.
  abbrev pub volume_resource : HcloudVolume → Resource (World C K) HcloudVolume
  volume_resource empty = record {
    new_object = empty;
    finalizer_name = hcloud_volume_finalizer;
    kind = "HCloudVolume";
    reconcile = reconcile;
    delete = delete_hcloud_volume;
  }
