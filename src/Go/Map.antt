-- ===== src/Go/Map.antt =====
-- Go's maps, as association lists whose keys are distinct.
pub mod Laws
use hcloud_operator.Base.{
  true, false, ◌&&◌, length, nat_eq, Bool, Option, none, some, List, [], ◌∷◌, ◌==◌, Comparable,
  if◌then◌else◌,
}

abbrev pub Map {ℓ κ} : Type ℓ → Type κ → Type (ℓ ⊔ κ)
Map K V = List (K × V)

module _ {ℓ κ} {K : Type ℓ} {V : Type κ} ⦃e : Comparable K⦄ where
  -- `delete(m, key)`
  unfoldable pub delete : K → Map K V → Map K V
  delete key [] = []
  delete key (entry ∷ more) =
      let rest = delete key more in if entry.0 == key then rest else entry ∷ rest

  -- `m[key] = value`, in the place of the entry that is there
  unfoldable pub insert : K → V → Map K V → Map K V
  insert key value [] = (key, value) ∷ []
  insert key value (entry ∷ more) =
      let rest = insert key value more in
      if entry.0 == key then (entry.0, value) ∷ more else entry ∷ rest

  -- `value, ok := m[key]`
  unfoldable pub lookup : K → Map K V → Option V
  lookup key [] = none
  lookup key (entry ∷ more) = if entry.0 == key then some entry.1 else lookup key more

module _ {ℓ κ} {K : Type ℓ} {V : Type κ} where
  -- `for _, v := range m { if test(v) { return v } }`
  unfoldable pub find_value : (V → Bool) → Map K V → Option V
  find_value test [] = none
  find_value test ((j, w) ∷ m) = if test w then some w else find_value test m

-- `if w, ok := m[key]; !ok || value != w { … }`, turned round
abbrev pub holds_value {κ} : {V : Type κ} ⦃d : Comparable V⦄ → Option V → V → Bool
holds_value none value = false
holds_value (some w) value = value == w

module _ {ℓ κ} {K : Type ℓ} {V : Type κ} ⦃e : Comparable K⦄ ⦃d : Comparable V⦄ where
  unfoldable pub all_in : Map K V → Map K V → Bool
  all_in [] m = true
  all_in (entry ∷ more) m = holds_value (lookup entry.0 m) entry.1 && all_in more m

  -- maps.Equal
  unfoldable pub maps_equal : Map K V → Map K V → Bool
  maps_equal m n = length m == length n && all_in m n
