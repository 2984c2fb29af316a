-- ===== src/Reconcile.antt =====
-- internal/reconcile/base.go: the reconcile loop that every kind shares, over the domain logic of
-- one kind (`Resource`). The events that the recorder was sent and the calls of
-- internal/metrics `RecordReconcile` are kept as traces, oldest last; durations are not modelled.
pub mod Object
pub mod World
pub mod Loop
pub mod Phases
pub mod Guard
pub mod Outcome
pub mod Retrying
mod Examples
