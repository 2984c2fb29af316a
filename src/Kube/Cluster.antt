-- ===== src/Kube/Cluster.antt =====
-- A small cluster that stores one object and checks versions, for the examples of the theorems.
use hcloud_operator.Base.{Bool, ap, ◌∙◌, false, ◌≡◌, ◌==◌, string_eq, if◌then◌else◌}
use hcloud_operator.Go.Fault.{Fault, fail, wrap, foreign, ok, err}
use hcloud_operator.Go.Action.{Action, attempt, settle, pure, raise}
use hcloud_operator.Go.Action.Invariant.{Maintains, attempt-Maintains, if_-Maintains}
use hcloud_operator.Kube.Client.{ApiErrors, Retry}

abbrev pub conflict : Fault
conflict = foreign "the object has been modified"

abbrev pub is_conflict : Fault → Bool
is_conflict (fail t) = false
is_conflict (wrap t e) = is_conflict e
is_conflict (foreign s) = s == "the object has been modified"

abbrev pub is_not_found : Fault → Bool
is_not_found (fail t) = false
is_not_found (wrap t e) = is_not_found e
is_not_found (foreign s) = s == "not found"

abbrev pub plain_errors : ApiErrors
plain_errors = record { is_not_found = is_not_found; is_conflict = is_conflict }

module _ {S : Type 0} where
  -- One more attempt after a conflict.
  abbrev pub retry_once : Retry S
  retry_once f = attempt (λ e. if is_conflict e then f else raise e) (λ _. pure tt) f

  pub retry_once_done :
      (f : Action S (Unit {0})) (s s' : S) → f s ≡ (ok tt, s') → retry_once f s ≡ (ok tt, s')
  retry_once_done f s s' h = rw (h, attempt)

  pub retry_once_again :
      (f : Action S (Unit {0})) (s s' s'' : S)
      → f s ≡ (err conflict, s')
      → f s' ≡ (ok tt, s'')
      → retry_once f s ≡ (ok tt, s'')
  retry_once_again f s s' s'' h k =
      ap (settle (λ e. if is_conflict e then f else raise e) (λ _. pure tt)) h ∙ k

pub retry_once-Maintains :
    {S : Type 0} (Q : S → Type 0) (f : Action S (Unit {0}))
    → Maintains Q f
    → Maintains Q (retry_once f)
retry_once-Maintains Q f k =
    attempt-Maintains Q (λ e. if is_conflict e then f else raise e) (λ _. pure tt) f k
      (λ e. if_-Maintains Q (is_conflict e) f (raise e) k (λ s h. h)) (λ _ s h. h)
