-- ===== src/FloatingIp/Controller.antt =====
-- Reconcile, Delete, resolveTargetServerID and reconcileHCloudFloatingIP.
use hcloud_operator.Base.{
  Bool, true, false, not, ◌&&◌, ◌||◌, String, [], ◌∷◌, Option, none, some, ◌==◌, nat_eq, string_eq,
  if◌then◌else◌,
}
use hcloud_operator.Go.Fault.{Fault, Text, str, num, quoted, ok, fail, wrap}
use hcloud_operator.Go.Action.{Action, pure, raise, within, attempt, ◌>>=◌, ◌>>◌}
use hcloud_operator.Go.Integer.{Int64, is_set}
use hcloud_operator.Go.Map.{lookup}
use hcloud_operator.Go.Strings.{text_eq}
use hcloud_operator.Kube.Condition.{Meta, ConditionStatus, condition_true, condition_false}
use hcloud_operator.Kube.Client.{ApiErrors}
use hcloud_operator.Hcloud.Types.{
  FloatingIpInfo, FloatingIpCreateOpts, FloatingIpUpdateOpts, is_empty, labels_equal,
  clone_string_map_controller,
}
use hcloud_operator.Hcloud.Api.{FloatingIpApi}
use hcloud_operator.Reconcile.Object.{CtrlResult, Resource, Scope}
use hcloud_operator.Reconcile.World.{World, in_cloud, in_cluster, look}
use hcloud_operator.V1alpha1.Server.{HcloudServer}
use hcloud_operator.V1alpha1.FloatingIp.{
  HcloudFloatingIp, HcloudFloatingIpSpec, HcloudFloatingIpStatus,
}
use hcloud_operator.Server.State.{requeue_delay, condition_type_ready}

abbrev pub hcloud_floating_ip_finalizer : String
hcloud_floating_ip_finalizer = "infra.hkc.io/floatingip-finalizer"

abbrev pub ready_reason_floating_ip_assigned : String
ready_reason_floating_ip_assigned = "FloatingIPAssigned"

abbrev pub ready_reason_floating_ip_unassigned : String
ready_reason_floating_ip_unassigned = "FloatingIPUnassigned"

abbrev pub FloatingIpScope : Type 0 → Type 0 → Type 0
FloatingIpScope C K = Scope (World C K) HcloudFloatingIp

pub record HcloudFloatingIpReconciler (C K : Type 0) : Type 0 where
  pub hcloud_client : FloatingIpApi C
  pub get_server_object : String → Action K HcloudServer
  pub api_errors : ApiErrors
  pub meta : Meta

-- The first two results of resolveTargetServerID.
pub record TargetServer : Type 0 where
  pub server_id : Int64
  pub pending : Bool

abbrev pub create_opts : HcloudFloatingIp → Int64 → FloatingIpCreateOpts
create_opts o target_server_id = record {
  name = o.metadata.name;
  type = o.spec.type;
  location = o.spec.location;
  labels = o.spec.labels;
  description = o.spec.description;
  server_id = target_server_id;
}

abbrev pub labels_changed : HcloudFloatingIpSpec → FloatingIpInfo → Bool
labels_changed spec existing = not (labels_equal existing.labels spec.labels)

abbrev pub description_changed : HcloudFloatingIpSpec → FloatingIpInfo → Bool
description_changed spec existing = not (existing.description == spec.description)

-- `update`, whose fields are assigned only where they changed
abbrev pub metadata_update : HcloudFloatingIpSpec → FloatingIpInfo → FloatingIpUpdateOpts
metadata_update spec existing = record {
  labels = if labels_changed spec existing then clone_string_map_controller spec.labels else none;
  description = if description_changed spec existing then spec.description else "";
}

-- `m[key]`, which is "" where there is no entry
abbrev pub or_empty_text : Option String → String
or_empty_text none = ""
or_empty_text (some s) = s

-- syncFloatingIPStatus
abbrev pub sync_floating_ip_status :
    FloatingIpInfo → HcloudFloatingIpStatus → HcloudFloatingIpStatus
sync_floating_ip_status existing st = record st {
  floating_ip_id = existing.id;
  ip = existing.ip;
  location = existing.location;
  applied_server_id =
      if is_set existing.server_id then existing.server_id else st.applied_server_id;
}

module _ {C K : Type 0} (r : HcloudFloatingIpReconciler C K) where
  open r use {hcloud_client, get_server_object, api_errors, meta}

  abbrev pub set_status :
      (HcloudFloatingIpStatus → HcloudFloatingIpStatus) → Action (FloatingIpScope C K) (Unit {0})
  set_status f s = (ok tt, record s { object = record (s.object) { status = f s.object.status } })

  -- (*HCloudFloatingIPReconciler).setFloatingIPCondition, on the status
  abbrev pub set_floating_ip_condition :
      String → ConditionStatus → String → Text → HcloudFloatingIpStatus → HcloudFloatingIpStatus
  set_floating_ip_condition type status reason message s = record s {
    conditions =
        meta.set_status_condition s.conditions
          (record { type = type; status = status; reason = reason; message = message });
  }

  abbrev pub set_ready : ConditionStatus → String → Text → Action (FloatingIpScope C K) (Unit {0})
  set_ready status reason message =
      set_status (set_floating_ip_condition condition_type_ready status reason message)

  unfoldable pub target_unread : String → Fault → Action (FloatingIpScope C K) TargetServer
  target_unread name e =
      if api_errors.is_not_found e
      then pure (record { server_id = 0; pending = true })
      else raise (wrap (str "get referenced HCloudServer " ∷ quoted name ∷ []) e)

  unfoldable pub target_read : HcloudServer → Action (FloatingIpScope C K) TargetServer
  target_read server =
      if not (is_set server.status.server_id)
      then pure (record { server_id = 0; pending = true })
      else pure (record { server_id = server.status.server_id; pending = false })

  unfoldable pub resolve_target_server_id :
      Option String → Action (FloatingIpScope C K) TargetServer
  resolve_target_server_id none = pure (record { server_id = 0; pending = false })
  resolve_target_server_id (some name) =
      if name == ""
      then pure (record { server_id = 0; pending = false })
      else attempt (target_unread name) target_read (in_cluster (get_server_object name))

  unfoldable pub ensure_floating_ip_metadata :
      FloatingIpInfo → Action (FloatingIpScope C K) (Unit {0})
  ensure_floating_ip_metadata existing = look λ o.
      if labels_changed o.spec existing || description_changed o.spec existing
      then within (str "update floating IP metadata" ∷ []) (
          in_cloud (hcloud_client.update_floating_ip existing.id (metadata_update o.spec existing)))
      else pure tt

  -- Without a target, only the server that the operator assigned is given up.
  unfoldable pub release_floating_ip : FloatingIpInfo → Action (FloatingIpScope C K) (Unit {0})
  release_floating_ip existing = look λ o.
      if is_set o.status.applied_server_id && existing.server_id == o.status.applied_server_id
      then (do
        within (str "unassign floating IP " ∷ num existing.id ∷ [])
            (in_cloud (hcloud_client.unassign_floating_ip existing.id))
        set_status (λ st. record st { applied_server_id = 0 })
        set_ready condition_true ready_reason_floating_ip_unassigned
            (str "Floating IP unassigned from server" ∷ []))
      else pure tt

  unfoldable pub unassign_other : Int64 → FloatingIpInfo → Action (FloatingIpScope C K) (Unit {0})
  unassign_other target_server_id existing =
      if is_set existing.server_id && not (existing.server_id == target_server_id)
      then within (str "unassign floating IP " ∷ num existing.id ∷ str " before reassignment" ∷ [])
          (in_cloud (hcloud_client.unassign_floating_ip existing.id))
      else pure tt

  unfoldable pub assign_to_target : Int64 → FloatingIpInfo → Action (FloatingIpScope C K) (Unit {0})
  assign_to_target target_server_id existing = do
    unassign_other target_server_id existing
    within
        (str "assign floating IP "
          ∷ num existing.id
          ∷ str " to server "
          ∷ num target_server_id
          ∷ [])
        (in_cloud (hcloud_client.assign_floating_ip existing.id target_server_id))
    set_status (λ st. record st { applied_server_id = target_server_id })
    set_ready condition_true ready_reason_floating_ip_assigned
        (str "Floating IP assigned to server ID " ∷ num target_server_id ∷ [])

  unfoldable pub ensure_floating_ip_assignment :
      Int64 → FloatingIpInfo → Action (FloatingIpScope C K) (Unit {0})
  ensure_floating_ip_assignment target_server_id existing =
      if not (is_set target_server_id)
      then release_floating_ip existing
      else if existing.server_id == target_server_id
      then set_status (λ st. record st { applied_server_id = target_server_id })
      else assign_to_target target_server_id existing

  unfoldable pub point_floating_ip :
      String → FloatingIpInfo → Action (FloatingIpScope C K) (Unit {0})
  point_floating_ip dns_ptr existing =
      if or_empty_text (lookup existing.ip existing.dns_ptr) == dns_ptr
      then pure tt
      else within (str "change floating IP DNS PTR" ∷ [])
          (in_cloud (hcloud_client.change_floating_ip_dns_ptr existing.id existing.ip dns_ptr))

  unfoldable pub ensure_pointer :
      Option String → FloatingIpInfo → Action (FloatingIpScope C K) (Unit {0})
  ensure_pointer none existing = pure tt
  ensure_pointer (some dns_ptr) existing =
      if is_empty existing.ip then pure tt else point_floating_ip dns_ptr existing

  unfoldable pub ensure_floating_ip_dns_ptr :
      FloatingIpInfo → Action (FloatingIpScope C K) (Unit {0})
  ensure_floating_ip_dns_ptr existing = look λ o. ensure_pointer o.spec.dns_ptr existing

  unfoldable pub fetch_by_id : Action (FloatingIpScope C K) (Option FloatingIpInfo)
  fetch_by_id = look λ o.
      if is_set o.status.floating_ip_id
      then within (str "fetch floating IP by ID" ∷ [])
          (in_cloud (hcloud_client.get_floating_ip o.status.floating_ip_id))
      else pure none

  unfoldable pub fetch_by_name :
      Option FloatingIpInfo → Action (FloatingIpScope C K) (Option FloatingIpInfo)
  fetch_by_name none = look λ o.
      within (str "fetch floating IP by name" ∷ [])
        (in_cloud (hcloud_client.get_floating_ip_by_name o.metadata.name))
  fetch_by_name (some ip) = pure (some ip)

  unfoldable pub create_missing :
      Int64 → Option FloatingIpInfo → Action (FloatingIpScope C K) FloatingIpInfo
  create_missing target_server_id none = look λ o.
      within (str "create Hetzner floating IP" ∷ [])
        (in_cloud (hcloud_client.create_floating_ip (create_opts o target_server_id)))
  create_missing target_server_id (some ip) = pure ip

  abbrev pub refreshed :
      Int64 → String → Option FloatingIpInfo → Action (FloatingIpScope C K) FloatingIpInfo
  refreshed id after none =
      raise (fail (str "floating IP " ∷ num id ∷ str " disappeared after " ∷ str after ∷ []))
  refreshed id after (some ip) = pure ip

  -- The address as it is stored now.
  unfoldable pub refresh :
      String → String → FloatingIpInfo → Action (FloatingIpScope C K) FloatingIpInfo
  refresh doing after existing = do
    answer ← within (str doing ∷ []) (in_cloud (hcloud_client.get_floating_ip existing.id))
    refreshed existing.id after answer

  unfoldable pub finish_floating_ip : FloatingIpInfo → Action (FloatingIpScope C K) (Unit {0})
  finish_floating_ip existing = do
    set_status (sync_floating_ip_status existing)
    set_ready condition_true "FloatingIPReady" (str "Floating IP is provisioned" ∷ [])

  -- From ensureFloatingIPMetadata on.
  unfoldable pub settle_floating_ip :
      Int64 → FloatingIpInfo → Action (FloatingIpScope C K) (Unit {0})
  settle_floating_ip target_server_id existing = do
    ensure_floating_ip_metadata existing
    described ← refresh "refresh floating IP" "metadata sync" existing
    ensure_floating_ip_assignment target_server_id described
    assigned ← refresh "refresh floating IP after assignment" "assignment" described
    ensure_floating_ip_dns_ptr assigned
    pointed ← refresh "refresh floating IP after DNS update" "DNS update" assigned
    finish_floating_ip pointed

  unfoldable pub reconcile_hcloud_floating_ip : Int64 → Action (FloatingIpScope C K) (Unit {0})
  reconcile_hcloud_floating_ip target_server_id = do
    by_id ← fetch_by_id
    found ← fetch_by_name by_id
    existing ← create_missing target_server_id found
    settle_floating_ip target_server_id existing

  abbrev pub after_delay : CtrlResult
  after_delay = record { requeue = false; requeue_after = requeue_delay }

  unfoldable pub reconcile_to : TargetServer → Action (FloatingIpScope C K) CtrlResult
  reconcile_to target =
      if target.pending
      then (do
        set_ready condition_false "ServerPending"
            (str "Waiting for referenced HCloudServer to be provisioned" ∷ [])
        pure after_delay)
      else (do reconcile_hcloud_floating_ip target.server_id; pure after_delay)

  unfoldable pub reconcile : Action (FloatingIpScope C K) CtrlResult
  reconcile = do target ← look λ o. resolve_target_server_id o.spec.server_ref; reconcile_to target

  unfoldable pub delete_hcloud_floating_ip : Action (FloatingIpScope C K) (Unit {0})
  delete_hcloud_floating_ip = look λ o.
      if not (is_set o.status.floating_ip_id) then pure tt else (do
        within (str "unassign floating IP before delete" ∷ [])
            (in_cloud (hcloud_client.unassign_floating_ip o.status.floating_ip_id))
        in_cloud (hcloud_client.delete_floating_ip o.status.floating_ip_id))

  -- HCloudFloatingIPReconciler as the domain logic of the shared loop.
  abbrev pub floating_ip_resource : HcloudFloatingIp → Resource (World C K) HcloudFloatingIp
  floating_ip_resource empty = record {
    new_object = empty;
    finalizer_name = hcloud_floating_ip_finalizer;
    kind = "HCloudFloatingIP";
    reconcile = reconcile;
    delete = delete_hcloud_floating_ip;
  }
