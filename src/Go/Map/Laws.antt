-- ===== src/Go/Map/Laws.antt =====
-- The laws of maps.
use hcloud_operator.Base.{
  ◌≡◌, refl, Bool, true, none, some, [], ◌∷◌, ◌++◌, map, ◌==◌, Comparable, length, nat_eq, arith,
  if◌then◌else◌,
}
use hcloud_operator.Go.Map.{Map, lookup, insert, delete, find_value, all_in, maps_equal}

module _ {ℓ κ} {K : Type ℓ} {V : Type κ} ⦃e : Comparable K⦄ where
  pub lookup-delete :
      (key other : K) (m : Map K V)
      → lookup other (delete key m) ≡ (if key == other then none else lookup other m)
  unfolding lookup delete
  lookup-delete key other [] = ground arith
  lookup-delete key other (entry ∷ more) =
      let rest = lookup-delete key other more in
      ground (arith, rest, e.same_iff entry.0 key, e.same_iff entry.0 other, e.same_iff key other)

  pub lookup-insert :
      (m : Map K V) (key : K) (value : V) (other : K)
      → lookup other (insert key value m) ≡ (if key == other then some value else lookup other m)
  unfolding lookup insert
  lookup-insert [] key value other = refl
  lookup-insert (entry ∷ more) key value other =
      let rest = lookup-insert more key value other in
      ground (arith, rest, e.same_iff entry.0 key, e.same_iff entry.0 other, e.same_iff key other)

  pub lookup-insert_self :
      (key : K) (value : V) (m : Map K V) → lookup key (insert key value m) ≡ some value
  lookup-insert_self key value m = ground (arith, lookup-insert m key value key, e.same_iff key key)

  -- A view of the values that an overwritten value shares stays as it is.
  pub map-insert_same {μ} :
      {B : Type μ} (f : V → B) (k : K) (v w : V) (m : Map K V)
      → lookup k m ≡ some v
      → f w ≡ f v
      → map (λ p. f p.1) (insert k w m) ≡ map (λ p. f p.1) m
  unfolding lookup insert
  map-insert_same f k v w [] h e = ground arith
  map-insert_same f k v w ((i, x) ∷ m) h e = ground (arith, map-insert_same f k v w m)

  -- A new key goes to the end.
  pub insert_absent :
      (k : K) (v : V) (m : Map K V) → lookup k m ≡ none → insert k v m ≡ m ++ (k, v) ∷ []
  unfolding lookup insert
  insert_absent k v [] h = refl
  insert_absent k v ((i, w) ∷ m) h = ground (arith, insert_absent k v m)

module _ {ℓ κ} {K : Type ℓ} {V : Type κ} (test : V → Bool) where
  pub find_value-append :
      (m : Map K V) (k : K) (v : V)
      → find_value test m ≡ none
      → find_value test (m ++ (k, v) ∷ []) ≡ (if test v then some v else none)
  unfolding find_value
  find_value-append [] k v h = refl
  find_value-append ((j, w) ∷ m) k v h = ground (arith, find_value-append m k v)

  -- A value that is found passes the test.
  pub find_value_test : (m : Map K V) (v : V) → find_value test m ≡ some v → test v ≡ true
  unfolding find_value
  find_value_test [] v h = ground arith
  find_value_test ((j, w) ∷ m) v h = ground (arith, find_value_test m v)

module _ {ℓ κ} {K : Type ℓ} {V : Type κ} ⦃e : Comparable K⦄ where
  -- No key stands twice, as in every map of Go.
  unfoldable pub HasDistinctKeys : Map K V → Type κ
  HasDistinctKeys [] = Unit
  HasDistinctKeys (entry ∷ more) = (lookup entry.0 more ≡ none) × HasDistinctKeys more

module _ {ℓ κ} {K : Type ℓ} {V : Type κ} ⦃e : Comparable K⦄ ⦃d : Comparable V⦄ where
  -- An entry in front whose key is not asked for changes nothing.
  all_in_front :
      (entry : K × V) (part more : Map K V)
      → lookup entry.0 part ≡ none
      → all_in part more ≡ true
      → all_in part (entry ∷ more) ≡ true
  unfolding all_in lookup
  all_in_front entry [] more h k = refl
  all_in_front entry (x ∷ part) more h k =
      ground (arith, all_in_front entry part more, e.same_iff x.0 entry.0, e.same_iff entry.0 x.0)

  all_in_self : (m : Map K V) → HasDistinctKeys m → all_in m m ≡ true
  unfolding all_in lookup HasDistinctKeys
  all_in_self [] h = refl
  all_in_self (entry ∷ more) h =
      let rest = all_in_front entry more more h.0 (all_in_self more h.1) in
      ground (arith, rest, e.same_iff entry.0 entry.0, d.same_iff entry.1 entry.1)

  pub maps_equal_refl : (m : Map K V) → HasDistinctKeys m → maps_equal m m ≡ true
  unfolding maps_equal
  maps_equal_refl m h = ground (arith, all_in_self m h, nat_eq.same_iff (length m) (length m))
