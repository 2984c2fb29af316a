-- ===== src/Reconcile/Guard.antt =====
-- The finalizer guards the external resource: what may remove it from the stored object.
use hcloud_operator.Base.{String, true, inl, inr, Bool-cases, ◌≡◌, ◌≢◌, arith, ap, ◌∙◌}
use hcloud_operator.Go.Fault.{Fault, ok}
use hcloud_operator.Go.Action.{Action}
use hcloud_operator.Go.Action.Invariant.{Maintains, settle-Maintains}
use hcloud_operator.Reconcile.Object.{ObjectMeta, Scope, CtrlResult}
use hcloud_operator.Reconcile.Loop.{
  Loop, BaseReconciler, has_finalizer, converge, finalize, ensure_finalizer, delegate,
  update_status_with_retry, status_attempt, with_object, with_finalizers, in_scope, mark_failed,
  mark_synced, report_failure, report_success, update_object,
}

-- `P` is a property of the world, such as "the stored object carries the finalizer", that no call of
-- the Kubernetes client breaks but an update with an object that lacks the finalizer.
pub record Protects {W T : Type 0} (b : BaseReconciler W T) (P : W → Type 0) : Type 0 where
  pub get_keeps : (name : String) (w : W) → P w → P (b.client.get name w).1
  pub status_keeps : (t : T) (w : W) → P w → P (b.client.status_update t w).1
  pub update_keeps :
      (t : T) (w : W)
      → b.meta.contains_finalizer (b.managed.metadata t).finalizers b.resource.finalizer_name ≡ true
      → P w
      → P (b.client.update t w).1
  -- RetryOnConflict does nothing itself but call the function that it is given.
  pub retry_keeps :
      (f : Action (Loop W T) (Unit {0}))
      → ((s : Loop W T) → P s.world → P (f s).1.world)
      → (s : Loop W T) → P s.world
      → P (b.retry_on_conflict f s).1.world

module _ {W T : Type 0} (b : BaseReconciler W T) (P : W → Type 0) (safe : Protects b P)
    (reconcile_keeps : Maintains (λ (p : Scope W T). P p.world) b.resource.reconcile)
    (delete_keeps : Maintains (λ (p : Scope W T). P p.world) b.resource.delete) where
  abbrev Guarded : Loop W T → Type 0
  Guarded s = P s.world

  update_object_keeps :
      (s : Loop W T) → has_finalizer b s ≡ true → Guarded s → Guarded (update_object b s).1
  update_object_keeps s f h = ground (arith, safe.update_keeps s.object s.world f h)

  status_attempt_keeps : Maintains Guarded (status_attempt b)
  status_attempt_keeps s h = ground (
    arith,
    safe.status_keeps s.object s.world h,
    safe.get_keeps (b.managed.metadata s.object).name (b.client.status_update s.object s.world).1
        (safe.status_keeps s.object s.world h),
  )

  persist_keeps : Maintains Guarded (update_status_with_retry b)
  unfolding update_status_with_retry
  persist_keeps = safe.retry_keeps (status_attempt b) status_attempt_keeps

  report_failure_keeps : (e : Fault) → Maintains Guarded (report_failure b e)
  unfolding report_failure
  report_failure_keeps e s h = ground (arith, persist_keeps (mark_failed b e s) (ground arith))

  report_success_keeps : (r : CtrlResult) → Maintains Guarded (report_success b r)
  unfolding report_success
  report_success_keeps r s h = ground (arith, persist_keeps (mark_synced b s) h)

  delegate_keeps : Maintains Guarded (delegate b)
  unfolding delegate
  delegate_keeps s h =
      settle-Maintains Guarded (report_failure b) (report_success b)
        (in_scope b.resource.reconcile s) report_failure_keeps report_success_keeps
        (reconcile_keeps s.scope h)

  ensure_keeps : Maintains Guarded (ensure_finalizer b)
  unfolding ensure_finalizer
  ensure_keeps s h = ground (
    arith,
    update_object_keeps
        (with_object b (with_finalizers b (λ fs. b.meta.add_finalizer fs b.resource.finalizer_name))
          s)
        (ap (λ (m : ObjectMeta). b.meta.contains_finalizer m.finalizers b.resource.finalizer_name)
            (b.managed.metadata-set _ _)
          ∙ b.meta.contains-add_self _ _)
        h,
  )

  finalize_keeps :
      (s : Loop W T) → (b.resource.delete s.scope).0 ≢ ok tt → Guarded s → Guarded (finalize b s).1
  unfolding finalize
  finalize_keeps s failing h = ground (arith, delete_keeps s.scope h)

  pub converge_keeps :
      (s : Loop W T)
      → ((b.managed.metadata s.object).deleting ≡ true
          → has_finalizer b s ≡ true
          → (b.resource.delete s.scope).0 ≢ ok tt)
      → P s.world
      → P (converge b s).1.world
  unfolding converge
  converge_keeps s failing h = elim (Bool-cases (b.managed.metadata s.object).deleting) [
    | inl d ↦ elim (Bool-cases (has_finalizer b s)) [
      | inl f ↦ ground (arith, finalize_keeps s (failing d f) h)
      | inr f ↦ ground arith
    ]
    | inr d ↦ ground (arith, ensure_keeps s h, delegate_keeps s h)
  ]
