-- ===== src/Go/Action.antt =====
-- Calls that read and write shared state and may fail. What was written before an error stays.
pub mod Invariant
pub mod Outcome
use hcloud_operator.Go.Fault.{Fault, Text, Result, ok, err, panic, wrap}

abbrev pub Action {ℓ} : Type ℓ → Type ℓ → Type ℓ
Action S A = S → Result A × S

module _ {ℓ} {S A : Type ℓ} where
  abbrev pub pure : A → Action S A
  pure a s = (ok a, s)

  abbrev pub raise : Fault → Action S A
  raise e s = (err e, s)

  -- a nil dereference
  abbrev pub crash : Action S A
  crash s = (panic, s)

  -- `if err != nil { return fmt.Errorf("t: %w", err) }` behind a call
  abbrev pub wrap_fault : Text → Result A × S → Result A × S
  wrap_fault t (ok a, s) = (ok a, s)
  wrap_fault t (err e, s) = (err (wrap t e), s)
  wrap_fault t (panic, s) = (panic, s)

  abbrev pub within : Text → Action S A → Action S A
  within t m s = wrap_fault t (m s)

module _ {ℓ} {S A B : Type ℓ} where
  abbrev pub continue : (A → Action S B) → Result A × S → Result B × S
  continue f (ok a, s) = f a s
  continue f (err e, s) = (err e, s)
  continue f (panic, s) = (panic, s)

  infixl 10 ◌>>=◌ ◌>>◌
  abbrev pub ◌>>=◌ : Action S A → (A → Action S B) → Action S B
  ◌>>=◌ m f s = continue f (m s)

  abbrev pub ◌>>◌ : Action S A → Action S B → Action S B
  m >> n = m >>= λ _. n

-- An action on a part of the state.
module _ {ℓ} {S P A : Type ℓ} (get : S → P) (put : P → S → S) where
  abbrev place : S → Result A × P → Result A × S
  place s (r, p) = (r, put p s)

  abbrev pub zoom : Action P A → Action S A
  zoom m s = place s (m (get s))

-- A call whose error the caller looks at before it goes on.
module _ {ℓ} {S A B : Type ℓ} (failed : Fault → Action S B) (done : A → Action S B) where
  abbrev pub settle : Result A × S → Result B × S
  settle (ok a, s) = done a s
  settle (err e, s) = failed e s
  settle (panic, s) = (panic, s)

  abbrev pub attempt : Action S A → Action S B
  attempt m s = settle (m s)
