-- ===== src/Reconcile/Outcome.antt =====
-- What a run of the domain logic leaves in the conditions of the object, and what it returns.
use hcloud_operator.Base.{
  String, ◌≡◌, refl, ◌≢◌, ◌⊎◌, ◌↔◌, arith, ◌∷◌, [], some, Option, eq_iff, ap, ◌∙◌,
}
use hcloud_operator.Go.Fault.{Fault, ok, err, panic, error_text, str}
use hcloud_operator.Go.Action.{settle}
use hcloud_operator.Kube.Condition.{Condition, condition_true, condition_false}
use hcloud_operator.Reconcile.Object.{CtrlResult}
use hcloud_operator.Reconcile.Loop.{
  Loop, BaseReconciler, delegate, report_failure, report_success, update_status_with_retry,
  mark_failed, mark_synced, condition_synced, condition_ready, reason_reconcile_error,
  reason_reconcile_success, in_scope, success, error,
}

module _ {W T : Type 0} (b : BaseReconciler W T) where
  -- meta.FindStatusCondition on the object at hand
  abbrev pub condition_of : Loop W T → String → Option Condition
  condition_of s t = b.meta.find_status_condition (b.managed.conditions s.object) t

  abbrev failure : String → Fault → Condition
  failure t e = record {
    type = t;
    status = condition_false;
    reason = reason_reconcile_error;
    message = error_text e;
  }

  abbrev put_condition : Condition → T → T
  put_condition c t =
      b.managed.set_conditions (b.meta.set_status_condition (b.managed.conditions t) c) t

  abbrev condition_in : T → String → Option Condition
  condition_in t k = b.meta.find_status_condition (b.managed.conditions t) k

  condition_in-put_self : (c : Condition) (t : T) → condition_in (put_condition c t) c.type ≡ some c
  condition_in-put_self c t =
      ap (λ cs. b.meta.find_status_condition cs c.type) (b.managed.conditions-set _ t)
      ∙ b.meta.find-set_self _ c

  condition_in-put_ne :
      (c : Condition) (t : T) (k : String)
      → c.type ≢ k
      → condition_in (put_condition c t) k ≡ condition_in t k
  condition_in-put_ne c t k h =
      ap (λ cs. b.meta.find_status_condition cs k) (b.managed.conditions-set _ t)
      ∙ b.meta.find-set_ne _ c k h

  ready_ne_synced : ◌≢◌ {A = String} condition_ready condition_synced
  ready_ne_synced = ground (arith, eq_iff condition_ready condition_synced)

  -- What every failed run is marked with: Synced and Ready are False with the error's text, and
  -- conditions of other types stay.
  pub record FailedFrom (e : Fault) (s t : Loop W T) : Type 0 where
    pub synced : condition_of t condition_synced ≡ some (failure condition_synced e)
    pub ready : condition_of t condition_ready ≡ some (failure condition_ready e)
    pub others :
        (k : String)
        → condition_synced ≢ k
        → condition_ready ≢ k
        → condition_of t k ≡ condition_of s k
    pub counted : t.metrics ≡ (b.resource.kind, error) ∷ s.metrics
    pub same_world : t.world ≡ s.world

  mark_failed-FailedFrom : (e : Fault) (s : Loop W T) → FailedFrom e s (mark_failed b e s)
  mark_failed-FailedFrom e s = record {
    synced =
        condition_in-put_ne (failure condition_ready e) _ condition_synced ready_ne_synced
        ∙ condition_in-put_self (failure condition_synced e) s.object;
    ready = condition_in-put_self (failure condition_ready e) _;
    others = λ k p q.
        condition_in-put_ne (failure condition_ready e) _ k q
        ∙ condition_in-put_ne (failure condition_synced e) s.object k p;
    counted = refl;
    same_world = refl;
  }

  report_failure_cases :
      (e : Fault) (s : Loop W T)
      → ((report_failure b e s).1 ≡ (update_status_with_retry b (mark_failed b e s)).1)
        × (((update_status_with_retry b (mark_failed b e s)).0 ≡ panic)
            ⊎ ((report_failure b e s).0 ≡ err e))
  unfolding report_failure
  report_failure_cases e s = (ground arith, ground arith)

  -- A run in which the domain logic fails marks the object as failed, hands exactly that state to
  -- the status update, and returns the domain's error whether or not the update succeeds (unless
  -- the update panics).
  pub delegate-FailedFrom :
      (s s' : Loop W T) (e : Fault)
      → in_scope b.resource.reconcile s ≡ (err e, s')
      → (t : Loop W T) × FailedFrom e s' t
        × ((delegate b s).1 ≡ (update_status_with_retry b t).1)
        × (((update_status_with_retry b t).0 ≡ panic) ⊎ ((delegate b s).0 ≡ err e))
  unfolding delegate
  delegate-FailedFrom s s' e h =
      let run : delegate b s ≡ report_failure b e s' =
        ap (settle (report_failure b) (report_success b)) h in
      let (state, outcome) = report_failure_cases e s' in
      (mark_failed b e s', mark_failed-FailedFrom e s', rw run state, rw run outcome)

  -- What every run without an error is marked with: Synced is True, and the other conditions, Ready
  -- among them, are those that the domain logic left.
  pub record SyncedFrom (s t : Loop W T) : Type 0 where
    pub synced :
        condition_of t condition_synced
        ≡ some (record {
          type = condition_synced;
          status = condition_true;
          reason = reason_reconcile_success;
          message = str "Reconcile loop completed without error" ∷ [];
        })
    pub others : (k : String) → condition_synced ≢ k → condition_of t k ≡ condition_of s k
    pub counted : t.metrics ≡ (b.resource.kind, success) ∷ s.metrics
    pub same_world : t.world ≡ s.world

  mark_synced-SyncedFrom : (s : Loop W T) → SyncedFrom s (mark_synced b s)
  mark_synced-SyncedFrom s = record {
    synced = condition_in-put_self _ s.object;
    others = λ k p. condition_in-put_ne _ s.object k p;
    counted = refl;
    same_world = refl;
  }

  report_success_cases :
      (r : CtrlResult) (s : Loop W T)
      → ((report_success b r s).1 ≡ (update_status_with_retry b (mark_synced b s)).1)
        × (((update_status_with_retry b (mark_synced b s)).0 ≡ ok tt)
            ↔ ((report_success b r s).0 ≡ ok r))
  unfolding report_success
  report_success_cases r s = (ground arith, (ground arith, ground arith))

  -- A run in which the domain logic succeeds marks the object as synced, hands exactly that state to
  -- the status update, and returns the domain's result exactly when that update succeeds.
  pub delegate-SyncedFrom :
      (s s' : Loop W T) (r : CtrlResult)
      → in_scope b.resource.reconcile s ≡ (ok r, s')
      → (t : Loop W T) × SyncedFrom s' t
        × ((delegate b s).1 ≡ (update_status_with_retry b t).1)
        × (((update_status_with_retry b t).0 ≡ ok tt) ↔ ((delegate b s).0 ≡ ok r))
  unfolding delegate
  delegate-SyncedFrom s s' r h =
      let run : delegate b s ≡ report_success b r s' =
        ap (settle (report_failure b) (report_success b)) h in
      let (state, outcome) = report_success_cases r s' in
      (mark_synced b s', mark_synced-SyncedFrom s', rw run state, rw run outcome)
