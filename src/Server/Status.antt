-- ===== src/Server/Status.antt =====
-- applyServerStatus, syncStatus, hasNetworkLifecycleReadyReason and updateServerStatusWithRetry.
use hcloud_operator.Base.{
  Bool, true, false, not, ◌&&◌, ◌||◌, String, [], ◌∷◌, Option, none, some, ◌==◌, string_eq,
  if◌then◌else◌,
}
use hcloud_operator.Go.Fault.{Text, str, quoted}
use hcloud_operator.Go.Action.{Action, pure, ◌>>=◌, ◌>>◌}
use hcloud_operator.Kube.Condition.{Condition, ConditionStatus, condition_true, condition_false}
use hcloud_operator.Hcloud.Types.{ServerInfo, is_empty}
use hcloud_operator.V1alpha1.Server.{HcloudServer, HcloudServerStatus}
use hcloud_operator.Server.State.{
  HcloudServerReconciler, ServerScope, in_cluster, set_status, look, set_condition,
  condition_type_ready, ready_reason_network_attached, ready_reason_network_migrated,
  ready_reason_network_detached,
}

abbrev pub apply_server_status : ServerInfo → HcloudServerStatus → HcloudServerStatus
apply_server_status s st = record st {
  server_id = s.id;
  state = s.state;
  public_ipv4 = if is_empty s.public_ipv4 then st.public_ipv4 else s.public_ipv4;
  public_ipv6 = if is_empty s.public_ipv6 then st.public_ipv6 else s.public_ipv6;
}

abbrev is_condition_true : ConditionStatus → Bool
is_condition_true condition_true = true
is_condition_true condition_false = false

abbrev pub is_network_lifecycle_reason : String → Bool
is_network_lifecycle_reason reason =
    reason == ready_reason_network_attached
    || reason == ready_reason_network_migrated
    || reason == ready_reason_network_detached

abbrev pub is_lifecycle_condition : Option Condition → Bool
is_lifecycle_condition none = false
is_lifecycle_condition (some c) = is_condition_true c.status && is_network_lifecycle_reason c.reason

module _ {C K : Type 0} (r : HcloudServerReconciler C K) where
  open r use {client, retry_on_conflict, meta}

  abbrev pub has_network_lifecycle_ready_reason : HcloudServer → Bool
  has_network_lifecycle_ready_reason o =
      is_lifecycle_condition (meta.find_status_condition o.status.conditions condition_type_ready)

  -- The function that is retried: the object is read anew and given the status that was decided on.
  abbrev pub write_status : String → HcloudServerStatus → Action K (Unit {0})
  write_status name desired = do
    current ← client.get name
    client.status_update (record current { status = desired })
    pure tt

  unfoldable pub update_server_status_with_retry : Action (ServerScope C K) (Unit {0})
  update_server_status_with_retry =
      look λ o. in_cluster (retry_on_conflict (write_status o.metadata.name o.status))

  abbrev pub set_ready : ConditionStatus → String → Text → Action (ServerScope C K) (Unit {0})
  set_ready status reason message =
      set_status (set_condition meta condition_type_ready status reason message)

  unfoldable pub sync_status : ServerInfo → Action (ServerScope C K) (Unit {0})
  sync_status s = do
    set_status (apply_server_status s)
    look λ o.
        if s.server_type == o.spec.server_type && s.state == "running"
        then (do
          set_status (λ st. record st { applied_server_type = o.spec.server_type })
          look λ o'.
              if has_network_lifecycle_ready_reason o' then update_server_status_with_retry else (do
                set_ready condition_true "ServerRunning"
                    (str "Hetzner server is running at desired type" ∷ [])
                update_server_status_with_retry))
        else if s.state == "running"
            && not (s.server_type == "")
            && not (s.server_type == o.spec.server_type)
        then (do
          set_ready condition_false "ResizePending"
              (str "Server is running but type does not match spec" ∷ [])
          update_server_status_with_retry)
        else (do
          set_ready condition_false "ServerNotReady"
              (str "Hetzner server state is " ∷ quoted s.state ∷ [])
          update_server_status_with_retry)
