-- ===== src/Go/Slice/Laws.antt =====
-- The laws of search and removal, and of sorting.
use hcloud_operator.Base.{
  ℕ, ◌≡◌, refl, Bool, true, false, ◌||◌, List, [], ◌∷◌, ◌++◌, ◌==◌, Comparable, nat_eq, arith,
  if◌then◌else◌,
}
use hcloud_operator.Go.Integer.{lt_int}
use hcloud_operator.Go.Slice.{member, without, insert_by, sort_by, sort}

module _ {ℓ} {A : Type ℓ} ⦃e : Comparable A⦄ where
  pub member-append_single :
      (a x : A) (xs : List A) → member a (xs ++ x ∷ []) ≡ (x == a || member a xs)
  unfolding member
  member-append_single a x [] = refl
  member-append_single a x (y ∷ xs) = ground (arith, member-append_single a x xs)

  pub member-without :
      (a b : A) (xs : List A) → member b (without a xs) ≡ (if a == b then false else member b xs)
  unfolding member without
  member-without a b [] = ground arith
  member-without a b (x ∷ xs) =
      ground (arith, member-without a b xs, e.same_iff a b, e.same_iff x a, e.same_iff x b)

  pub member-insert_by :
      (less : A → A → Bool) (a b : A) (xs : List A)
      → member b (insert_by less a xs) ≡ (a == b || member b xs)
  unfolding member insert_by
  member-insert_by less a b [] = refl
  member-insert_by less a b (x ∷ xs) = ground (arith, member-insert_by less a b xs)

  pub member-sort_by :
      (less : A → A → Bool) (b : A) (xs : List A) → member b (sort_by less xs) ≡ member b xs
  unfolding member sort_by
  member-sort_by less b [] = refl
  member-sort_by less b (x ∷ xs) =
      ground (arith, member-insert_by less x b (sort_by less xs), member-sort_by less b xs)

pub member-sort : (b : ℕ) (xs : List ℕ) → member b (sort xs) ≡ member b xs
unfolding sort
member-sort b xs = member-sort_by lt_int b xs

-- No item is less than the one before it.
abbrev pub IsSorted {ℓ} : {A : Type ℓ} → (A → A → Bool) → List A → Type 0
IsSorted less [] = Unit
IsSorted less (x ∷ []) = Unit
IsSorted less (x ∷ y ∷ rest) = (less y x ≡ false) × IsSorted less (y ∷ rest)

module _ {ℓ} {A : Type ℓ} (less : A → A → Bool)
    (asym : (x y : A) → less x y ≡ true → less y x ≡ false) where
  insert_by-IsSorted :
      (a : A) (xs : List A) → IsSorted less xs → IsSorted less (insert_by less a xs)
  unfolding insert_by
  insert_by-IsSorted a [] s = tt
  insert_by-IsSorted a (x ∷ []) s = ground (arith, asym x a)
  insert_by-IsSorted a (x ∷ y ∷ rest) s =
      ground (arith, asym x a, insert_by-IsSorted a (y ∷ rest) s.1)

  pub sort_by-IsSorted : (xs : List A) → IsSorted less (sort_by less xs)
  unfolding sort_by
  sort_by-IsSorted [] = tt
  sort_by-IsSorted (x ∷ xs) = insert_by-IsSorted x (sort_by less xs) (sort_by-IsSorted xs)

  sort_by_of_IsSorted : (xs : List A) → IsSorted less xs → sort_by less xs ≡ xs
  unfolding sort_by insert_by
  sort_by_of_IsSorted [] s = refl
  sort_by_of_IsSorted (x ∷ []) s = refl
  sort_by_of_IsSorted (x ∷ y ∷ rest) s = ground (arith, sort_by_of_IsSorted (y ∷ rest) s.1)

  pub sort_by_idem : (xs : List A) → sort_by less (sort_by less xs) ≡ sort_by less xs
  sort_by_idem xs = sort_by_of_IsSorted (sort_by less xs) (sort_by-IsSorted xs)
