-- ===== src/Server/Waiting.antt =====
-- What a step of a type change reports, against any cloud and any cluster.
use hcloud_operator.Base.{
  ℕ, ◌≡◌, refl, subst, String, [], ◌∷◌, Option, none, some, arith, string_eq,
}
use hcloud_operator.Go.Fault.{Text, ok, str, quoted}
use hcloud_operator.Go.Action.{Action, within, ◌>>◌}
use hcloud_operator.Go.Action.Outcome.{OnOk, continue-OnOk}
use hcloud_operator.Kube.Condition.{Condition, ConditionStatus, condition_false}
use hcloud_operator.Hcloud.Types.{ServerInfo}
use hcloud_operator.Server.State.{
  HcloudServerReconciler, ServerScope, in_cloud, condition_type_ready, resize_requeue_delay,
}
use hcloud_operator.Server.Status.{update_server_status_with_retry}
use hcloud_operator.Server.Resize.{
  wait, wait_resizing, apply_refreshed, refresh_and_wait, reconcile_server_type_mismatch,
}

-- The status and the reason of a condition.
abbrev pub outline : Option Condition → Option (ConditionStatus × String)
outline none = none
outline (some c) = some (c.status, c.reason)

abbrev resizing : Text → Condition
resizing message = record {
  type = condition_type_ready;
  status = condition_false;
  reason = "Resizing";
  message = message;
}

module _ {C K : Type 0} (r : HcloudServerReconciler C K) where
  -- A wait that was asked for, at an applied type `applied`.
  abbrev pub Waits : String → ℕ → ServerScope C K → Type 0
  Waits applied n t =
      (n ≡ resize_requeue_delay)
      × (outline (r.meta.find_status_condition t.object.status.conditions condition_type_ready)
          ≡ some (condition_false, "Resizing"))
      × (t.object.status.applied_server_type ≡ applied)

  module _ (applied : String) where
    wait-Waits :
        (message : Text) (t : ServerScope C K)
        → t.object.status.applied_server_type ≡ applied
        → OnOk (Waits applied) (wait r "Resizing" message t)
    unfolding update_server_status_with_retry
    wait-Waits message t h =
        ground (arith, r.meta.find-set_self t.object.status.conditions (resizing message))

    wait_resizing-Waits :
        (s : ServerInfo) (message : Text) (t : ServerScope C K)
        → t.object.status.applied_server_type ≡ applied
        → OnOk (Waits applied) (wait_resizing r s message t)
    wait_resizing-Waits s message t h = wait-Waits message _ h

    apply_refreshed-Waits :
        (o : Option ServerInfo) (message : Text) (t : ServerScope C K)
        → t.object.status.applied_server_type ≡ applied
        → OnOk (Waits applied) ((apply_refreshed r o >> wait r "Resizing" message) t)
    apply_refreshed-Waits none message t h = tt
    apply_refreshed-Waits (some s) message t h = wait-Waits message _ h

    refresh_and_wait-Waits :
        (s : ServerInfo) (action message : Text) (t : ServerScope C K)
        → t.object.status.applied_server_type ≡ applied
        → OnOk (Waits applied) (refresh_and_wait r s action "Resizing" message t)
    refresh_and_wait-Waits s action message t h =
        continue-OnOk (Waits applied) (λ o. apply_refreshed r o >> wait r "Resizing" message)
          (within action (in_cloud (r.hcloud_client.get_server s.id)) t)
          (λ o _. apply_refreshed-Waits o message _ (ground arith))

    call-Waits :
        (m : Action C (Unit {0})) (s : ServerInfo) (action message : Text) (t : ServerScope C K)
        → t.object.status.applied_server_type ≡ applied
        → OnOk (Waits applied) ((in_cloud m >> refresh_and_wait r s action "Resizing" message) t)
    call-Waits m s action message t h =
        continue-OnOk (Waits applied) (λ _. refresh_and_wait r s action "Resizing" message)
          (in_cloud m t) (λ _ _. refresh_and_wait-Waits s action message _ h)

  mismatch-Waits :
      (s : ServerInfo) (t : ServerScope C K)
      → OnOk (Waits t.object.status.applied_server_type) (reconcile_server_type_mismatch r s t)
  unfolding reconcile_server_type_mismatch
  mismatch-Waits s t =
      let a = t.object.status.applied_server_type in
      ground (
        arith,
        wait_resizing-Waits a s (str "Server is initializing; waiting before changing type" ∷ []) t
            refl,
        call-Waits a (r.hcloud_client.power_off_server s.id) s
            (str "refresh server after power off" ∷ [])
            (str "Powered off server to change type" ∷ []) t refl,
        wait_resizing-Waits a s
            (str "Waiting for server state "
              ∷ quoted s.state
              ∷ str " to finish before changing type"
              ∷ [])
            t refl,
        call-Waits a
            (r.hcloud_client.change_server_type s.id t.object.spec.server_type
              t.object.spec.upgrade_disk)
            s (str "refresh server after change type" ∷ [])
            (str "Changed server type; will power on when disk and type have converged" ∷ []) t
            refl,
        wait_resizing-Waits a s
            (str "Server is starting; waiting before continuing type change" ∷ []) t refl,
      )

  -- A step of a type change that ends without an error asks to be run again after five seconds and
  -- leaves Ready False with the reason Resizing, whatever state the server is in; and it leaves the
  -- type that counts as applied as it was.
  pub reconcile_server_type_mismatch-Waits :
      (s : ServerInfo) (t t' : ServerScope C K) (n : ℕ)
      → reconcile_server_type_mismatch r s t ≡ (ok n, t')
      → Waits t.object.status.applied_server_type n t'
  reconcile_server_type_mismatch-Waits s t t' n h =
      subst (OnOk (Waits t.object.status.applied_server_type)) h (mismatch-Waits s t)
