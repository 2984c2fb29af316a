-- ===== src/Reconcile/Phases.antt =====
-- Which phase of the loop runs, and when the finalizer may go.
use hcloud_operator.Base.{Bool, true, false, ◌≡◌, ◌⊎◌, arith}
use hcloud_operator.Go.Action.{Action}
use hcloud_operator.Reconcile.Object.{CtrlResult, Scope}
use hcloud_operator.Reconcile.Loop.{
  Loop, BaseReconciler, has_finalizer, converge, finalize, ensure_finalizer, delegate,
  report_failure, report_success, update_status_with_retry,
}

module _ {W T : Type 0} (b : BaseReconciler W T) where
  -- The reconciler with other domain logic in place of `Reconcile`, and of `Delete`.
  abbrev pub with_reconcile : Action (Scope W T) CtrlResult → BaseReconciler W T
  with_reconcile r = record b { resource = record (b.resource) { reconcile = r } }

  abbrev pub with_delete : Action (Scope W T) (Unit {0}) → BaseReconciler W T
  with_delete d = record b { resource = record (b.resource) { delete = d } }

  abbrev pub deleting : Loop W T → Bool
  deleting s = (b.managed.metadata s.object).deleting

  -- The domain's `Reconcile` plays no part in a run over an object that is being deleted or that
  -- has no finalizer yet: any other `Reconcile` in its place gives the same outcome and state.
  pub converge-with_reconcile :
      (s : Loop W T) (r : Action (Scope W T) CtrlResult)
      → (deleting s ≡ true) ⊎ (has_finalizer b s ≡ false)
      → converge (with_reconcile r) s ≡ converge b s
  unfolding converge finalize ensure_finalizer delegate report_failure report_success
      update_status_with_retry
  converge-with_reconcile s r h = ground arith

  -- The domain's `Delete` plays no part in a run over an object that is not being deleted or that
  -- has no finalizer: any other `Delete` in its place gives the same outcome and state.
  pub converge-with_delete :
      (s : Loop W T) (d : Action (Scope W T) (Unit {0}))
      → (deleting s ≡ false) ⊎ (has_finalizer b s ≡ false)
      → converge (with_delete d) s ≡ converge b s
  unfolding converge finalize ensure_finalizer delegate report_failure report_success
      update_status_with_retry
  converge-with_delete s d h = ground arith
