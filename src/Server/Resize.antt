-- ===== src/Server/Resize.antt =====
-- reconcileServerTypeMismatch: one step of the change of a server's type.
use hcloud_operator.Base.{
  ℕ, ◌||◌, String, [], ◌∷◌, Option, none, some, ◌==◌, string_eq, if◌then◌else◌,
}
use hcloud_operator.Go.Fault.{Text, str, quoted, num, fail}
use hcloud_operator.Go.Action.{Action, pure, raise, crash, within, ◌>>=◌, ◌>>◌}
use hcloud_operator.Kube.Condition.{condition_false}
use hcloud_operator.Hcloud.Types.{ServerInfo}
use hcloud_operator.Server.State.{
  HcloudServerReconciler, ServerScope, in_cloud, set_status, look, resize_requeue_delay,
}
use hcloud_operator.Server.Status.{apply_server_status, set_ready, update_server_status_with_retry}

module _ {C K : Type 0} (r : HcloudServerReconciler C K) where
  open r use {hcloud_client}

  -- `r.applyServerStatus(obj, s2)` on the answer of GetServer, which is nil for a server that is gone:
  -- applyServerStatus reads its fields.
  abbrev pub apply_refreshed : Option ServerInfo → Action (ServerScope C K) (Unit {0})
  apply_refreshed none = crash
  apply_refreshed (some s) = set_status (apply_server_status s)

  -- `setCondition(…, False, reason, …); return resizeRequeueDelay, updateServerStatusWithRetry(…)`
  abbrev pub wait : String → Text → Action (ServerScope C K) ℕ
  wait reason message = do
    set_ready r condition_false reason message
    update_server_status_with_retry r
    pure resize_requeue_delay

  abbrev pub wait_resizing : ServerInfo → Text → Action (ServerScope C K) ℕ
  wait_resizing s message = do set_status (apply_server_status s); wait "Resizing" message

  abbrev pub refresh_and_wait : ServerInfo → Text → String → Text → Action (ServerScope C K) ℕ
  refresh_and_wait s action reason message = do
    s2 ← within action (in_cloud (hcloud_client.get_server s.id))
    apply_refreshed s2
    wait reason message

  unfoldable pub reconcile_server_type_mismatch : ServerInfo → Action (ServerScope C K) ℕ
  reconcile_server_type_mismatch s =
      if s.state == "initializing"
      then wait_resizing s (str "Server is initializing; waiting before changing type" ∷ [])
      else if s.state == "running"
      then (do
        in_cloud (hcloud_client.power_off_server s.id)
        refresh_and_wait s (str "refresh server after power off" ∷ []) "Resizing"
            (str "Powered off server to change type" ∷ []))
      else if s.state == "stopping" || s.state == "migrating" || s.state == "rebuilding"
      then wait_resizing s (
          str "Waiting for server state "
          ∷ quoted s.state
          ∷ str " to finish before changing type"
          ∷ [])
      else if s.state == "off"
      then (do
        look λ o.
            in_cloud (hcloud_client.change_server_type s.id o.spec.server_type o.spec.upgrade_disk)
        refresh_and_wait s (str "refresh server after change type" ∷ []) "Resizing"
            (str "Changed server type; will power on when disk and type have converged" ∷ []))
      else if s.state == "starting"
      then wait_resizing s (str "Server is starting; waiting before continuing type change" ∷ [])
      else if s.state == "deleting"
      then raise (fail (str "server " ∷ num s.id ∷ str " is deleting; cannot change type" ∷ []))
      else raise (fail (str "unsupported server state " ∷ quoted s.state ∷ str " for resize" ∷ []))
