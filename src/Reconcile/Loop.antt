-- ===== src/Reconcile/Loop.antt =====
-- BaseReconciler.Reconcile and its helpers.
use hcloud_operator.Base.{String, Bool, true, false, not, List, [], ◌∷◌, if◌then◌else◌}
use hcloud_operator.Go.Fault.{Fault, Text, str, wrap, error_text, Result, ok, err, panic}
use hcloud_operator.Go.Action.{Action, pure, raise, zoom, within, attempt, ◌>>◌}
use hcloud_operator.Kube.Condition.{ConditionStatus, condition_true, condition_false, Meta}
use hcloud_operator.Kube.Client.{Client, ApiErrors, Retry}
use hcloud_operator.Reconcile.Object.{Managed, CtrlResult, Scope, Resource}

abbrev pub condition_synced : String
condition_synced = "Synced"

abbrev pub condition_ready : String
condition_ready = "Ready"

abbrev pub reason_reconcile_error : String
reason_reconcile_error = "ReconcileError"

abbrev pub reason_reconcile_success : String
reason_reconcile_success = "ReconcileSuccess"

abbrev pub event_deleted : String
event_deleted = "Deleted"

abbrev pub event_delete_failed : String
event_delete_failed = "DeleteFailed"

abbrev pub event_reconcile_error : String
event_reconcile_error = reason_reconcile_error

pub data EventType : Type 0 where
  normal warning : EventType

pub record Event : Type 0 where
  pub type : EventType
  pub reason : String
  pub message : Text

-- The label values of the reconcile counter.
pub data MetricResult : Type 0 where
  success error : MetricResult

pub record Loop (W T : Type 0) : Type 0 where
  pub scope : Scope W T
  pub open scope use *
  pub events : List Event
  pub metrics : List (String × MetricResult)

abbrev pub in_scope : {W T A : Type 0} → Action (Scope W T) A → Action (Loop W T) A
in_scope = zoom (λ s. s.scope) (λ p s. record s { scope = p })

-- ctrl.Result{}
abbrev pub no_requeue : CtrlResult
no_requeue = record { requeue = false; requeue_after = 0 }

-- metrics.RecordReconcile
abbrev pub record_reconcile : {W T : Type 0} → String → MetricResult → Loop W T → Loop W T
record_reconcile kind result s = record s { metrics = (kind, result) ∷ s.metrics }

-- A change of the state that cannot fail.
abbrev pub change : {S : Type 0} → (S → S) → Action S (Unit {0})
change f s = (ok tt, f s)

module _ {T : Type 0} (managed : Managed T) (meta : Meta) where
  abbrev pub set_condition : String → ConditionStatus → String → Text → T → T
  set_condition type status reason message t =
      managed.set_conditions
        (meta.set_status_condition (managed.conditions t)
          (record { type = type; status = status; reason = reason; message = message }))
        t

-- The fields of BaseReconciler, and the libraries that it calls.
pub record BaseReconciler (W T : Type 0) : Type 0 where
  pub managed : Managed T
  pub meta : Meta
  pub client : Client W T
  pub api_errors : ApiErrors
  pub retry_on_conflict : Retry (Loop W T)
  -- b.Recorder != nil
  pub has_recorder : Bool
  pub resource : Resource W T

module _ {W T : Type 0} (b : BaseReconciler W T) where
  open b use {managed, meta, client, api_errors, retry_on_conflict, has_recorder, resource}

  abbrev pub with_object : (T → T) → Loop W T → Loop W T
  with_object f s = record s { scope = record (s.scope) { object = f s.object } }

  abbrev pub event : EventType → String → Text → Loop W T → Loop W T
  event type reason message s = record s {
    events =
        if has_recorder
        then record { type = type; reason = reason; message = message } ∷ s.events
        else s.events;
  }

  -- A call of the client that hands back the object.
  abbrev answer : Loop W T → Result T × W → Result (Unit {0}) × Loop W T
  answer s (ok t, w) = (ok tt, record s { scope = record { world = w; object = t } })
  answer s (err e, w) = (err e, record s { scope = record (s.scope) { world = w } })
  answer s (panic, w) = (panic, record s { scope = record (s.scope) { world = w } })

  abbrev pub get_object : String → Action (Loop W T) (Unit {0})
  get_object name s = answer s (client.get name s.world)

  abbrev pub update_object : Action (Loop W T) (Unit {0})
  update_object s = answer s (client.update s.object s.world)

  abbrev pub update_status : Action (Loop W T) (Unit {0})
  update_status s = answer s (client.status_update s.object s.world)

  -- `latest := NewObject(); b.Get(ctx, key, latest); obj.SetResourceVersion(...)`
  abbrev refreshed : Loop W T → Result T × W → Result (Unit {0}) × Loop W T
  refreshed s (ok latest, w) = (
    ok tt,
    record s {
      scope = record {
        world = w;
        object =
            managed.set_metadata
              (record (managed.metadata s.object) {
                resource_version = (managed.metadata latest).resource_version;
              })
              s.object;
      };
    },
  )
  refreshed s (err e, w) = (err e, record s { scope = record (s.scope) { world = w } })
  refreshed s (panic, w) = (panic, record s { scope = record (s.scope) { world = w } })

  abbrev pub refresh_version : Action (Loop W T) (Unit {0})
  refresh_version s = refreshed s (client.get (managed.metadata s.object).name s.world)

  -- The function that updateStatusWithRetry hands to RetryOnConflict.
  abbrev pub status_attempt : Action (Loop W T) (Unit {0})
  status_attempt =
      attempt (λ e. if api_errors.is_conflict e then (do refresh_version; raise e) else raise e)
        (λ _. pure tt) update_status

  unfoldable pub update_status_with_retry : Action (Loop W T) (Unit {0})
  update_status_with_retry = retry_on_conflict status_attempt

  abbrev pub has_finalizer : Loop W T → Bool
  has_finalizer s =
      meta.contains_finalizer (managed.metadata s.object).finalizers resource.finalizer_name

  abbrev pub with_finalizers : (List String → List String) → T → T
  with_finalizers f t =
      managed.set_metadata
        (record (managed.metadata t) { finalizers = f (managed.metadata t).finalizers }) t

  -- The branch of a deleted object that still has the finalizer.
  unfoldable pub finalize : Action (Loop W T) CtrlResult
  finalize =
      attempt
        (λ e s. (
          err (wrap (str "delete " ∷ str resource.kind ∷ str " external resource" ∷ []) e),
          event warning event_delete_failed (error_text e) s,
        ))
        (λ _. do
          change (
              with_object
                (with_finalizers (λ fs. meta.remove_finalizer fs resource.finalizer_name)))
          within (str "remove " ∷ str resource.kind ∷ str " finalizer" ∷ []) update_object
          change (
              event normal event_deleted
                (str "External resource deleted and finalizer removed" ∷ []))
          pure no_requeue)
        (in_scope resource.delete)

  unfoldable pub ensure_finalizer : Action (Loop W T) CtrlResult
  ensure_finalizer = do
    change (with_object (with_finalizers (λ fs. meta.add_finalizer fs resource.finalizer_name)))
    within (str "add " ∷ str resource.kind ∷ str " finalizer" ∷ []) update_object
    pure (record { requeue = true; requeue_after = 0 })

  -- What the loop writes when the domain logic failed.
  abbrev pub mark_failed : Fault → Loop W T → Loop W T
  mark_failed e s = record_reconcile resource.kind error (
      event warning event_reconcile_error (error_text e) (
        with_object
          (λ t.
            set_condition managed meta condition_ready condition_false reason_reconcile_error
              (error_text e)
              (set_condition managed meta condition_synced condition_false reason_reconcile_error
                (error_text e) t))
          s))

  abbrev pub mark_synced : Loop W T → Loop W T
  mark_synced s = record_reconcile resource.kind success (
      with_object
        (set_condition managed meta condition_synced condition_true reason_reconcile_success
          (str "Reconcile loop completed without error" ∷ []))
        s)

  -- `_ = b.updateStatusWithRetry(ctx, obj)`: whatever comes of it, the first error is returned.
  unfoldable pub report_failure : Fault → Action (Loop W T) CtrlResult
  report_failure e = do
    change (mark_failed e)
    attempt (λ _. raise e) (λ _. raise e) update_status_with_retry

  unfoldable pub report_success : CtrlResult → Action (Loop W T) CtrlResult
  report_success result = do
    change mark_synced
    within (str "persist " ∷ str resource.kind ∷ str " status" ∷ []) update_status_with_retry
    pure result

  unfoldable pub delegate : Action (Loop W T) CtrlResult
  delegate = attempt report_failure report_success (in_scope resource.reconcile)

  unfoldable pub converge : Action (Loop W T) CtrlResult
  converge s =
      if (managed.metadata s.object).deleting
      then (if has_finalizer s then finalize s else pure no_requeue s)
      else if not (has_finalizer s)
      then ensure_finalizer s
      else delegate s

  unfoldable pub reconcile : String → Action (Loop W T) CtrlResult
  reconcile name =
      attempt
        (λ e.
          if api_errors.is_not_found e
          then pure no_requeue
          else raise (wrap (str "get " ∷ str resource.kind ∷ []) e))
        (λ _. converge) (λ s. get_object name (with_object (λ _. resource.new_object) s))
