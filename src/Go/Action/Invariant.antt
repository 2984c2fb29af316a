-- ===== src/Go/Action/Invariant.antt =====
-- Properties of the shared state that a call leaves true, whatever comes of the call: a rule for
-- each way to put calls together.
use hcloud_operator.Base.{◌≡◌, refl, Bool, true, false, if◌then◌else◌}
use hcloud_operator.Go.Fault.{Fault, Text, Result, ok, err, panic}
use hcloud_operator.Go.Action.{Action, within, wrap_fault, attempt, continue, settle, ◌>>=◌}

module _ {ℓ κ} {S A : Type ℓ} (Q : S → Type κ) where
  abbrev pub Maintains : Action S A → Type (ℓ ⊔ κ)
  Maintains m = (s : S) → Q s → Q (m s).1

module _ {ℓ κ} {S A : Type ℓ} (Q : S → Type κ) where
  wrap_fault-Maintains : (t : Text) (r : Result A × S) → Q r.1 → Q (wrap_fault t r).1
  wrap_fault-Maintains t (ok a, s) h = h
  wrap_fault-Maintains t (err e, s) h = h
  wrap_fault-Maintains t (panic, s) h = h

  pub within-Maintains : (t : Text) (m : Action S A) → Maintains Q m → Maintains Q (within t m)
  within-Maintains t m km s h = wrap_fault-Maintains t (m s) (km s h)

  pub if_-Maintains :
      (b : Bool) (m n : Action S A)
      → Maintains Q m
      → Maintains Q n
      → Maintains Q (λ s. (if b then m else n) s)
  if_-Maintains true m n km kn = km
  if_-Maintains false m n km kn = kn

module _ {ℓ κ} {S A B : Type ℓ} (Q : S → Type κ) where
  pub continue-Maintains :
      (f : A → Action S B) (r : Result A × S)
      → ((a : A) → Maintains Q (f a))
      → Q r.1
      → Q (continue f r).1
  continue-Maintains f (ok a, s) kf h = kf a s h
  continue-Maintains f (err e, s) kf h = h
  continue-Maintains f (panic, s) kf h = h

  -- The rest of a block may use what the call came to.
  pub continue_state :
      (f : A → Action S B) (r : Result A × S)
      → ((a : A) → r.0 ≡ ok a → Q (f a r.1).1)
      → Q r.1
      → Q (continue f r).1
  continue_state f (ok a, s) k h = k a refl
  continue_state f (err e, s) k h = h
  continue_state f (panic, s) k h = h

  pub bind-Maintains :
      (m : Action S A) (f : A → Action S B)
      → Maintains Q m
      → ((a : A) → Maintains Q (f a))
      → Maintains Q (m >>= f)
  bind-Maintains m f km kf s h = continue-Maintains f (m s) kf (km s h)

  pub settle-Maintains :
      (failed : Fault → Action S B) (done : A → Action S B) (r : Result A × S)
      → ((e : Fault) → Maintains Q (failed e))
      → ((a : A) → Maintains Q (done a))
      → Q r.1
      → Q (settle failed done r).1
  settle-Maintains failed done (ok a, s) kf kd h = kd a s h
  settle-Maintains failed done (err e, s) kf kd h = kf e s h
  settle-Maintains failed done (panic, s) kf kd h = h

  pub attempt-Maintains :
      (failed : Fault → Action S B) (done : A → Action S B) (m : Action S A)
      → Maintains Q m
      → ((e : Fault) → Maintains Q (failed e))
      → ((a : A) → Maintains Q (done a))
      → Maintains Q (attempt failed done m)
  attempt-Maintains failed done m km kf kd s h = settle-Maintains failed done (m s) kf kd (km s h)
