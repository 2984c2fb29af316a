-- ===== src/Go/Fault.antt =====
-- Go's `error` values as the operator makes and reads them, and the outcome of a call.
use hcloud_operator.Base.{ℕ, String, List, [], ◌∷◌, ◌++◌}

-- The text that `fmt.Sprintf` and `fmt.Errorf` put together, piece by piece: `%s`, `%q` and `%d`.
pub data Piece : Type 0 where
  str : String → Piece
  quoted : String → Piece
  num : ℕ → Piece

abbrev pub Text : Type 0
Text = List Piece

-- `fail` is `fmt.Errorf` with no `%w`, `wrap t e` is `fmt.Errorf("t: %w", e)`, and `foreign` is an
-- error value that a library hands back.
pub data Fault : Type 0 where
  fail : Text → Fault
  wrap : Text → Fault → Fault
  foreign : String → Fault

-- `err.Error()`
abbrev pub error_text : Fault → Text
error_text (fail t) = t
error_text (wrap t e) = t ++ (str ": " ∷ error_text e)
error_text (foreign s) = str s ∷ []

-- What a call comes to: its value, an error, or a panic.
pub data Result {ℓ} (A : Type ℓ) : Type ℓ where
  ok : A → Result A
  err : Fault → Result A
  panic : Result A
