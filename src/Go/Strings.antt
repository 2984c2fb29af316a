-- ===== src/Go/Strings.antt =====
-- Go's operations on strings: the order `<`, strings.Join, and `==` on the texts that fmt puts
-- together. Two texts are compared piece by piece: the operator compares only texts of one format, or
-- of formats whose first pieces differ.
pub mod Laws
use Prim.Native.String
use Prim.Native.String.{compare}
use Prim.Native.Nat.{Ordering}
use hcloud_operator.Base.{
  Bool, true, false, ◌&&◌, String, List, [], ◌∷◌, Comparable, ◌==◌, string_eq, nat_eq, ◌↔◌, ◌≡◌,
  arith,
}
use hcloud_operator.Go.Fault.{Piece, str, quoted, num, Text}

-- `s < t`: the order of the bytes, which is that of the code points.
abbrev pub is_less : Ordering → Bool
is_less Ordering.lt = true
is_less Ordering.eq = false
is_less Ordering.gt = false

pub string_less : String → String → Bool
string_less s t = is_less (compare s t)

-- strings.Join
unfoldable pub join : List String → String → String
join [] sep = String.[]
join (s ∷ []) sep = s
join (s ∷ t ∷ rest) sep = String.◌++◌ s (String.◌++◌ sep (join (t ∷ rest) sep))

abbrev pub piece_beq : Piece → Piece → Bool
piece_beq (str s) (str t) = s == t
piece_beq (quoted s) (quoted t) = s == t
piece_beq (num m) (num n) = m == n
piece_beq _ _ = false

abbrev pub text_beq : Text → Text → Bool
text_beq [] [] = true
text_beq (p ∷ ps) (q ∷ qs) = piece_beq p q && text_beq ps qs
text_beq _ _ = false

pub piece_beq_iff : (p q : Piece) → (piece_beq p q ≡ true) ↔ (p ≡ q)
piece_beq_iff (str s) (str t) = ground (arith, string_eq.same_iff s t)
piece_beq_iff (str s) (quoted t) = ground arith
piece_beq_iff (str s) (num n) = ground arith
piece_beq_iff (quoted s) (quoted t) = ground (arith, string_eq.same_iff s t)
piece_beq_iff (quoted s) (str t) = ground arith
piece_beq_iff (quoted s) (num n) = ground arith
piece_beq_iff (num m) (num n) = ground arith
piece_beq_iff (num m) (str t) = ground arith
piece_beq_iff (num m) (quoted t) = ground arith

pub text_beq_iff : (s t : Text) → (text_beq s t ≡ true) ↔ (s ≡ t)
text_beq_iff [] [] = ground arith
text_beq_iff [] (q ∷ qs) = ground arith
text_beq_iff (p ∷ ps) [] = ground arith
text_beq_iff (p ∷ ps) (q ∷ qs) = ground (arith, piece_beq_iff p q, text_beq_iff ps qs)

instance abbrev pub text_eq : Comparable Text
text_eq = record { same_iff = text_beq_iff; same = text_beq }
