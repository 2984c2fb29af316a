-- ===== src/Go/Slice.antt =====
-- What the operator does with slices: search, removal, and slices.Sort on integers and strings.
pub mod Laws
use hcloud_operator.Go.Integer.{Int64, lt_int}
use hcloud_operator.Base.{
  ℕ, Bool, true, false, ◌||◌, List, [], ◌∷◌, ◌==◌, Comparable, if◌then◌else◌, ltb,
}

module _ {ℓ} {A : Type ℓ} ⦃e : Comparable A⦄ where
  -- `for _, x := range items { if x == want { return true } }; return false`
  unfoldable pub member : A → List A → Bool
  member a [] = false
  member a (x ∷ xs) = x == a || member a xs

  -- `filtered := items[:0]; for … { if x != drop { filtered = append(filtered, x) } }`
  unfoldable pub without : A → List A → List A
  without a [] = []
  without a (x ∷ xs) = let rest = without a xs in if x == a then rest else x ∷ rest

-- slices.Sort, by insertion: on a total order every sorting gives the same list of values.
module _ {ℓ} {A : Type ℓ} (less : A → A → Bool) where
  unfoldable pub insert_by : A → List A → List A
  insert_by a [] = a ∷ []
  insert_by a (x ∷ xs) = if less x a then x ∷ insert_by a xs else a ∷ x ∷ xs

  unfoldable pub sort_by : List A → List A
  sort_by [] = []
  sort_by (x ∷ xs) = insert_by x (sort_by xs)

-- On int64, whose order is signed.
unfoldable pub sort : List Int64 → List Int64
sort = sort_by lt_int
