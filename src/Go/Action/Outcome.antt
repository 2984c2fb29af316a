-- ===== src/Go/Action/Outcome.antt =====
-- What holds whenever a call ends without an error.
use hcloud_operator.Base.{◌≡◌, refl, ap}
use hcloud_operator.Go.Fault.{Result, ok, err, panic}
use hcloud_operator.Go.Action.{Action, continue}

module _ {ℓ κ} {S A : Type ℓ} where
  abbrev pub OnOk : (A → S → Type κ) → Result A × S → Type κ
  OnOk Q (ok a, s) = Q a s
  OnOk Q (err e, s) = Unit
  OnOk Q (panic, s) = Unit

module _ {ℓ κ} {S A B : Type ℓ} (Q : B → S → Type κ) where
  pub continue-OnOk :
      (f : A → Action S B) (r : Result A × S)
      → ((a : A) → r.0 ≡ ok a → OnOk Q (f a r.1))
      → OnOk Q (continue f r)
  continue-OnOk f (ok a, s) k = k a refl
  continue-OnOk f (err e, s) k = tt
  continue-OnOk f (panic, s) k = tt

module _ {ℓ} {S A B : Type ℓ} where
  -- After a call that returned, the rest goes on with its answer.
  pub continue_ok :
      (f : A → Action S B) (r : Result A × S) (a : A) → r.0 ≡ ok a → continue f r ≡ f a r.1
  continue_ok f (r, s) a e = ap (λ x. continue f (x, s)) e
