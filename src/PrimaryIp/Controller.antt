-- ===== src/PrimaryIp/Controller.antt =====
-- Reconcile, Delete, resolveTargetServerID and reconcileHCloudPrimaryIP.
use hcloud_operator.Base.{
  Bool, true, false, not, ◌&&◌, ◌||◌, String, [], ◌∷◌, Option, none, some, ◌==◌, nat_eq, string_eq,
  if◌then◌else◌,
}
use hcloud_operator.Go.Fault.{Fault, Text, str, num, quoted, ok, fail, wrap}
use hcloud_operator.Go.Action.{Action, pure, raise, within, attempt, ◌>>=◌, ◌>>◌}
use hcloud_operator.Go.Integer.{Int64, is_set}
use hcloud_operator.Go.Map.{lookup}
use hcloud_operator.Go.Strings.{text_eq}
use hcloud_operator.Kube.Condition.{Meta, ConditionStatus, condition_true, condition_false}
use hcloud_operator.Kube.Client.{ApiErrors}
use hcloud_operator.Hcloud.Types.{
  PrimaryIpInfo, PrimaryIpCreateOpts, PrimaryIpUpdateOpts, is_empty, labels_equal,
  clone_string_map_controller,
}
use hcloud_operator.Hcloud.Api.{PrimaryIpApi}
use hcloud_operator.Reconcile.Object.{CtrlResult, Resource, Scope}
use hcloud_operator.Reconcile.World.{World, in_cloud, in_cluster, look}
use hcloud_operator.V1alpha1.Server.{HcloudServer}
use hcloud_operator.V1alpha1.PrimaryIp.{HcloudPrimaryIp, HcloudPrimaryIpSpec, HcloudPrimaryIpStatus}
use hcloud_operator.FloatingIp.Controller.{or_empty_text}
use hcloud_operator.Server.State.{requeue_delay, condition_type_ready}

abbrev pub hcloud_primary_ip_finalizer : String
hcloud_primary_ip_finalizer = "infra.hkc.io/primaryip-finalizer"

abbrev pub ready_reason_primary_ip_assigned : String
ready_reason_primary_ip_assigned = "PrimaryIPAssigned"

abbrev pub ready_reason_primary_ip_unassigned : String
ready_reason_primary_ip_unassigned = "PrimaryIPUnassigned"

abbrev pub PrimaryIpScope : Type 0 → Type 0 → Type 0
PrimaryIpScope C K = Scope (World C K) HcloudPrimaryIp

pub record HcloudPrimaryIpReconciler (C K : Type 0) : Type 0 where
  pub hcloud_client : PrimaryIpApi C
  pub get_server_object : String → Action K HcloudServer
  pub api_errors : ApiErrors
  pub meta : Meta

-- The first two results of resolveTargetServerID.
pub record TargetServer : Type 0 where
  pub server_id : Int64
  pub pending : Bool

-- The assignment comes later, since Hetzner refuses a datacenter beside an assignee.
abbrev pub create_opts : HcloudPrimaryIp → PrimaryIpCreateOpts
create_opts o = record {
  name = o.metadata.name;
  type = o.spec.type;
  datacenter = o.spec.datacenter;
  labels = o.spec.labels;
  auto_delete = o.spec.auto_delete;
  assignee_id = 0;
  assignee_type = "";
}

abbrev pub labels_changed : HcloudPrimaryIpSpec → PrimaryIpInfo → Bool
labels_changed spec existing = not (labels_equal existing.labels spec.labels)

-- `new != nil && old != *new`
abbrev pub differs : Option Bool → Bool → Bool
differs none old = false
differs (some true) old = not old
differs (some false) old = old

abbrev pub auto_delete_changed : HcloudPrimaryIpSpec → PrimaryIpInfo → Bool
auto_delete_changed spec existing = differs spec.auto_delete existing.auto_delete

-- `update`, whose fields are assigned only where they changed
abbrev pub metadata_update : HcloudPrimaryIpSpec → PrimaryIpInfo → PrimaryIpUpdateOpts
metadata_update spec existing = record {
  labels = if labels_changed spec existing then clone_string_map_controller spec.labels else none;
  auto_delete = if auto_delete_changed spec existing then spec.auto_delete else none;
}

-- syncPrimaryIPStatus
abbrev pub sync_primary_ip_status : PrimaryIpInfo → HcloudPrimaryIpStatus → HcloudPrimaryIpStatus
sync_primary_ip_status existing st = record st {
  primary_ip_id = existing.id;
  ip = existing.ip;
  datacenter = existing.datacenter;
  applied_assignee_id =
      if is_set existing.assignee_id then existing.assignee_id else st.applied_assignee_id;
}

module _ {C K : Type 0} (r : HcloudPrimaryIpReconciler C K) where
  open r use {hcloud_client, get_server_object, api_errors, meta}

  abbrev pub set_status :
      (HcloudPrimaryIpStatus → HcloudPrimaryIpStatus) → Action (PrimaryIpScope C K) (Unit {0})
  set_status f s = (ok tt, record s { object = record (s.object) { status = f s.object.status } })

  -- (*HCloudPrimaryIPReconciler).setPrimaryIPCondition, on the status
  abbrev pub set_primary_ip_condition :
      String → ConditionStatus → String → Text → HcloudPrimaryIpStatus → HcloudPrimaryIpStatus
  set_primary_ip_condition type status reason message s = record s {
    conditions =
        meta.set_status_condition s.conditions
          (record { type = type; status = status; reason = reason; message = message });
  }

  abbrev pub set_ready : ConditionStatus → String → Text → Action (PrimaryIpScope C K) (Unit {0})
  set_ready status reason message =
      set_status (set_primary_ip_condition condition_type_ready status reason message)

  unfoldable pub target_unread : String → Fault → Action (PrimaryIpScope C K) TargetServer
  target_unread name e =
      if api_errors.is_not_found e
      then pure (record { server_id = 0; pending = true })
      else raise (wrap (str "get referenced HCloudServer " ∷ quoted name ∷ []) e)

  unfoldable pub target_read : HcloudServer → Action (PrimaryIpScope C K) TargetServer
  target_read server =
      if not (is_set server.status.server_id)
      then pure (record { server_id = 0; pending = true })
      else pure (record { server_id = server.status.server_id; pending = false })

  unfoldable pub resolve_target_server_id : Option String → Action (PrimaryIpScope C K) TargetServer
  resolve_target_server_id none = pure (record { server_id = 0; pending = false })
  resolve_target_server_id (some name) =
      if name == ""
      then pure (record { server_id = 0; pending = false })
      else attempt (target_unread name) target_read (in_cluster (get_server_object name))

  unfoldable pub ensure_primary_ip_metadata : PrimaryIpInfo → Action (PrimaryIpScope C K) (Unit {0})
  ensure_primary_ip_metadata existing = look λ o.
      if labels_changed o.spec existing || auto_delete_changed o.spec existing
      then within (str "update primary IP metadata" ∷ [])
          (in_cloud (hcloud_client.update_primary_ip existing.id (metadata_update o.spec existing)))
      else pure tt

  -- Without a target, only the server that the operator assigned is given up.
  unfoldable pub release_primary_ip : PrimaryIpInfo → Action (PrimaryIpScope C K) (Unit {0})
  release_primary_ip existing = look λ o.
      if is_set o.status.applied_assignee_id && existing.assignee_id == o.status.applied_assignee_id
      then (do
        within (str "unassign primary IP " ∷ num existing.id ∷ [])
            (in_cloud (hcloud_client.unassign_primary_ip existing.id))
        set_status (λ st. record st { applied_assignee_id = 0 })
        set_ready condition_true ready_reason_primary_ip_unassigned
            (str "Primary IP unassigned from server" ∷ []))
      else pure tt

  unfoldable pub unassign_other : Int64 → PrimaryIpInfo → Action (PrimaryIpScope C K) (Unit {0})
  unassign_other target_server_id existing =
      if is_set existing.assignee_id && not (existing.assignee_id == target_server_id)
      then within (str "unassign primary IP " ∷ num existing.id ∷ str " before reassignment" ∷ [])
          (in_cloud (hcloud_client.unassign_primary_ip existing.id))
      else pure tt

  unfoldable pub assign_to_target : Int64 → PrimaryIpInfo → Action (PrimaryIpScope C K) (Unit {0})
  assign_to_target target_server_id existing = do
    unassign_other target_server_id existing
    within
        (str "assign primary IP " ∷ num existing.id ∷ str " to server " ∷ num target_server_id ∷ [])
        (in_cloud (hcloud_client.assign_primary_ip existing.id target_server_id "server"))
    set_status (λ st. record st { applied_assignee_id = target_server_id })
    set_ready condition_true ready_reason_primary_ip_assigned
        (str "Primary IP assigned to server ID " ∷ num target_server_id ∷ [])

  unfoldable pub ensure_primary_ip_assignment :
      Int64 → PrimaryIpInfo → Action (PrimaryIpScope C K) (Unit {0})
  ensure_primary_ip_assignment target_server_id existing =
      if not (is_set target_server_id)
      then release_primary_ip existing
      else if existing.assignee_id == target_server_id
      then set_status (λ st. record st { applied_assignee_id = target_server_id })
      else assign_to_target target_server_id existing

  unfoldable pub point_primary_ip : String → PrimaryIpInfo → Action (PrimaryIpScope C K) (Unit {0})
  point_primary_ip dns_ptr existing =
      if or_empty_text (lookup existing.ip existing.dns_ptr) == dns_ptr
      then pure tt
      else within (str "change primary IP DNS PTR" ∷ [])
          (in_cloud (hcloud_client.change_primary_ip_dns_ptr existing.id existing.ip dns_ptr))

  unfoldable pub ensure_pointer :
      Option String → PrimaryIpInfo → Action (PrimaryIpScope C K) (Unit {0})
  ensure_pointer none existing = pure tt
  ensure_pointer (some dns_ptr) existing =
      if is_empty existing.ip then pure tt else point_primary_ip dns_ptr existing

  unfoldable pub ensure_primary_ip_dns_ptr : PrimaryIpInfo → Action (PrimaryIpScope C K) (Unit {0})
  ensure_primary_ip_dns_ptr existing = look λ o. ensure_pointer o.spec.dns_ptr existing

  unfoldable pub fetch_by_id : Action (PrimaryIpScope C K) (Option PrimaryIpInfo)
  fetch_by_id = look λ o.
      if is_set o.status.primary_ip_id
      then within (str "fetch primary IP by ID" ∷ [])
          (in_cloud (hcloud_client.get_primary_ip o.status.primary_ip_id))
      else pure none

  unfoldable pub fetch_by_name :
      Option PrimaryIpInfo → Action (PrimaryIpScope C K) (Option PrimaryIpInfo)
  fetch_by_name none = look λ o.
      within (str "fetch primary IP by name" ∷ [])
        (in_cloud (hcloud_client.get_primary_ip_by_name o.metadata.name))
  fetch_by_name (some ip) = pure (some ip)

  unfoldable pub create_missing : Option PrimaryIpInfo → Action (PrimaryIpScope C K) PrimaryIpInfo
  create_missing none = look λ o.
      within (str "create Hetzner primary IP" ∷ [])
        (in_cloud (hcloud_client.create_primary_ip (create_opts o)))
  create_missing (some ip) = pure ip

  abbrev pub refreshed :
      Int64 → String → Option PrimaryIpInfo → Action (PrimaryIpScope C K) PrimaryIpInfo
  refreshed id after none =
      raise (fail (str "primary IP " ∷ num id ∷ str " disappeared after " ∷ str after ∷ []))
  refreshed id after (some ip) = pure ip

  -- The address as it is stored now.
  unfoldable pub refresh :
      String → String → PrimaryIpInfo → Action (PrimaryIpScope C K) PrimaryIpInfo
  refresh doing after existing = do
    answer ← within (str doing ∷ []) (in_cloud (hcloud_client.get_primary_ip existing.id))
    refreshed existing.id after answer

  unfoldable pub finish_primary_ip : PrimaryIpInfo → Action (PrimaryIpScope C K) (Unit {0})
  finish_primary_ip existing = do
    set_status (sync_primary_ip_status existing)
    set_ready condition_true "PrimaryIPReady" (str "Primary IP is provisioned" ∷ [])

  -- From ensurePrimaryIPMetadata on.
  unfoldable pub settle_primary_ip : Int64 → PrimaryIpInfo → Action (PrimaryIpScope C K) (Unit {0})
  settle_primary_ip target_server_id existing = do
    ensure_primary_ip_metadata existing
    described ← refresh "refresh primary IP" "metadata sync" existing
    ensure_primary_ip_assignment target_server_id described
    assigned ← refresh "refresh primary IP after assignment" "assignment" described
    ensure_primary_ip_dns_ptr assigned
    pointed ← refresh "refresh primary IP after DNS update" "DNS update" assigned
    finish_primary_ip pointed

  unfoldable pub reconcile_hcloud_primary_ip : Int64 → Action (PrimaryIpScope C K) (Unit {0})
  reconcile_hcloud_primary_ip target_server_id = do
    by_id ← fetch_by_id
    found ← fetch_by_name by_id
    existing ← create_missing found
    settle_primary_ip target_server_id existing

  abbrev pub after_delay : CtrlResult
  after_delay = record { requeue = false; requeue_after = requeue_delay }

  unfoldable pub reconcile_to : TargetServer → Action (PrimaryIpScope C K) CtrlResult
  reconcile_to target =
      if target.pending
      then (do
        set_ready condition_false "ServerPending"
            (str "Waiting for referenced HCloudServer to be provisioned" ∷ [])
        pure after_delay)
      else (do reconcile_hcloud_primary_ip target.server_id; pure after_delay)

  unfoldable pub reconcile : Action (PrimaryIpScope C K) CtrlResult
  reconcile = do target ← look λ o. resolve_target_server_id o.spec.server_ref; reconcile_to target

  unfoldable pub delete_hcloud_primary_ip : Action (PrimaryIpScope C K) (Unit {0})
  delete_hcloud_primary_ip = look λ o. if not (is_set o.status.primary_ip_id) then pure tt else (do
    within (str "unassign primary IP before delete" ∷ [])
        (in_cloud (hcloud_client.unassign_primary_ip o.status.primary_ip_id))
    in_cloud (hcloud_client.delete_primary_ip o.status.primary_ip_id))

  -- HCloudPrimaryIPReconciler as the domain logic of the shared loop.
  abbrev pub primary_ip_resource : HcloudPrimaryIp → Resource (World C K) HcloudPrimaryIp
  primary_ip_resource empty = record {
    new_object = empty;
    finalizer_name = hcloud_primary_ip_finalizer;
    kind = "HCloudPrimaryIP";
    reconcile = reconcile;
    delete = delete_hcloud_primary_ip;
  }
