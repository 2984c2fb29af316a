-- ===== src/Server/Preservation.antt =====
-- What the controller may do to the cloud once it has a server: every property that the calls on one
-- server keep is kept by a whole run.
use hcloud_operator.Base.{Bool, true, false, String, Option, none, some, arith, [], ◌∷◌}
use hcloud_operator.Go.Fault.{Text, str}
use hcloud_operator.Go.Action.Invariant.{Maintains, bind-Maintains}
use hcloud_operator.Go.Integer.{Int64}
use hcloud_operator.Hcloud.Types.{ServerInfo}
use hcloud_operator.Hcloud.Api.{ServerApi}
use hcloud_operator.V1alpha1.Network.{HcloudNetwork}
use hcloud_operator.Server.State.{HcloudServerReconciler, ServerScope}
use hcloud_operator.Server.Status.{update_server_status_with_retry, sync_status}
use hcloud_operator.Server.Network.{
  ensure_server_network_attachment, release_network, move_network, join_network, detach_applied,
  ref_name, choose_network, use_network, read_network, sync_placement_group_status,
}
use hcloud_operator.Server.Resize.{reconcile_server_type_mismatch}
use hcloud_operator.Server.Controller.{
  after_placement, after_network, settle_existing_server, reconcile_existing_server,
}

-- `Q` survives every call but the creation and the deletion of a server.
pub record Survives {C : Type 0} (api : ServerApi C) (Q : C → Type 0) : Type 0 where
  pub get_keeps : (id : Int64) (c : C) → Q c → Q (api.get_server id c).1
  pub get_by_name_keeps : (name : String) (c : C) → Q c → Q (api.get_server_by_name name c).1
  pub power_off_keeps : (id : Int64) (c : C) → Q c → Q (api.power_off_server id c).1
  pub power_on_keeps : (id : Int64) (c : C) → Q c → Q (api.power_on_server id c).1
  pub change_type_keeps :
      (id : Int64) (t : String) (u : Bool) (c : C) → Q c → Q (api.change_server_type id t u c).1
  pub attach_keeps : (id n : Int64) (c : C) → Q c → Q (api.attach_server_to_network id n c).1
  pub detach_keeps : (id n : Int64) (c : C) → Q c → Q (api.detach_server_from_network id n c).1

module _ {C K : Type 0} (r : HcloudServerReconciler C K) (Q : C → Type 0)
    (safe : Survives r.hcloud_client Q) where
  abbrev Held : ServerScope C K → Type 0
  Held st = Q st.world.cloud

  mismatch_keeps : (s : ServerInfo) → Maintains Held (reconcile_server_type_mismatch r s)
  unfolding reconcile_server_type_mismatch update_server_status_with_retry
  mismatch_keeps s st h =
      let c = st.world.cloud in
      let t = st.object.spec.server_type in
      let u = st.object.spec.upgrade_disk in
      ground (
        arith,
        safe.power_off_keeps s.id c h,
        safe.get_keeps s.id (r.hcloud_client.power_off_server s.id c).1
            (safe.power_off_keeps s.id c h),
        safe.change_type_keeps s.id t u c h,
        safe.get_keeps s.id (r.hcloud_client.change_server_type s.id t u c).1
            (safe.change_type_keeps s.id t u c h),
      )

  release_keeps : (s : ServerInfo) → Maintains Held (release_network r s)
  unfolding release_network
  release_keeps s st h =
      let c = st.world.cloud in
      let n = st.object.status.applied_network_id in
      ground (
        arith,
        safe.detach_keeps s.id n c h,
        safe.get_keeps s.id (r.hcloud_client.detach_server_from_network s.id n c).1
            (safe.detach_keeps s.id n c h),
      )

  join_keeps :
      (s : ServerInfo) (n : HcloudNetwork) (migrated : Bool)
      → Maintains Held (join_network r s n migrated)
  unfolding join_network
  join_keeps s n migrated st h =
      let c = st.world.cloud in
      let i = n.status.network_id in
      ground (
        arith,
        safe.attach_keeps s.id i c h,
        safe.get_keeps s.id (r.hcloud_client.attach_server_to_network s.id i c).1
            (safe.attach_keeps s.id i c h),
      )

  detach_keeps : (s : ServerInfo) (n : Int64) (t : Text) → Maintains Held (detach_applied r s n t)
  detach_keeps s n t st h =
      let c = st.world.cloud in
      ground (
        arith,
        safe.detach_keeps s.id n c h,
        safe.get_keeps s.id (r.hcloud_client.detach_server_from_network s.id n c).1
            (safe.detach_keeps s.id n c h),
      )

  move_keeps : (s : ServerInfo) (n : HcloudNetwork) → Maintains Held (move_network r s n)
  unfolding move_network
  move_keeps s n st h =
      let a = st.object.status.applied_network_id in
      let t : Text = str "refresh server after network migration detach" ∷ [] in
      ground (
        arith,
        join_keeps s n false st h,
        bind-Maintains Held (detach_applied r s a t) (λ s'. join_network r s' n true)
            (detach_keeps s a t) (λ s'. join_keeps s' n true) st h,
      )

  use_keeps : (s : ServerInfo) (n : HcloudNetwork) → Maintains Held (use_network r s n)
  unfolding use_network
  use_keeps s n st h = ground (arith, move_keeps s n st h)

  read_keeps : (name : String) → Maintains Held (read_network r name)
  read_keeps name st h = ground arith

  choose_keeps : (s : ServerInfo) (ref : Option String) → Maintains Held (choose_network r s ref)
  unfolding choose_network
  choose_keeps s none = release_keeps s
  choose_keeps s (some name) =
      bind-Maintains Held (read_network r name) (use_network r s) (read_keeps name) (use_keeps s)

  ensure_keeps : (s : ServerInfo) → Maintains Held (ensure_server_network_attachment r s)
  unfolding ensure_server_network_attachment
  ensure_keeps s st h = choose_keeps s (ref_name st.object.spec.network_ref) st h

  placement_keeps : (s : ServerInfo) → Maintains Held (sync_placement_group_status r s)
  unfolding sync_placement_group_status update_server_status_with_retry
  placement_keeps s st h = ground arith

  sync_keeps : (s : ServerInfo) → Maintains Held (sync_status r s)
  unfolding sync_status update_server_status_with_retry
  sync_keeps s st h = ground arith

  after_placement_keeps :
      (s : ServerInfo) (blocked : Bool) → Maintains Held (after_placement r s blocked)
  unfolding after_placement
  after_placement_keeps s blocked st h = ground (arith, sync_keeps s st h)

  after_network_keeps : (o : Bool × ServerInfo) → Maintains Held (after_network r o)
  unfolding after_network update_server_status_with_retry
  after_network_keeps (true, s) st h = ground arith
  after_network_keeps (false, s) st h =
      bind-Maintains Held (sync_placement_group_status r s) (after_placement r s)
        (placement_keeps s) (after_placement_keeps s) st h

  settle_keeps : (s : ServerInfo) → Maintains Held (settle_existing_server r s)
  unfolding settle_existing_server
  settle_keeps s =
      bind-Maintains Held (ensure_server_network_attachment r s) (after_network r) (ensure_keeps s)
        after_network_keeps

  -- Whatever it finds and however it ends, a run over a server that exists keeps every property of
  -- the cloud that survives the calls on one server.
  pub existing_keeps : (s : ServerInfo) → Maintains Held (reconcile_existing_server r s)
  unfolding reconcile_existing_server update_server_status_with_retry
  existing_keeps s st h =
      let c = st.world.cloud in
      ground (
        arith,
        mismatch_keeps s st h,
        settle_keeps s st h,
        safe.power_on_keeps s.id c h,
        safe.get_keeps s.id (r.hcloud_client.power_on_server s.id c).1
            (safe.power_on_keeps s.id c h),
      )
