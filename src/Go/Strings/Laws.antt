-- ===== src/Go/Strings/Laws.antt =====
-- The order of strings is asymmetric.
use Prim.Native.String.{◌∷◌, []}
use Prim.Native.String.compare.{cons-nil, cons-cons}
use hcloud_operator.Base.{◌≡◌, refl, true, false, String, arith}
use hcloud_operator.Go.Strings.{string_less}

pub string_less_asym : (s t : String) → string_less s t ≡ true → string_less t s ≡ false
unfolding string_less
string_less_asym [] [] h = refl
string_less_asym [] (d ∷ t) h = ground (arith, cons-nil d t)
string_less_asym (c ∷ s) [] h = ground (arith, cons-nil c s)
string_less_asym (c ∷ s) (d ∷ t) h =
    ground (arith, cons-cons c d s t, cons-cons d c t s, string_less_asym s t)
