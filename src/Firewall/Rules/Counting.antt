-- ===== src/Firewall/Rules/Counting.antt =====
-- What the loops of firewallRulesMatch do to the counts.
use hcloud_operator.Base.{
  ℕ, ◌+◌, ◌≤◌, ◌<◌, true, false, ◌==◌, nat_eq, string_eq, String, List, [], ◌∷◌, length, some, ◌≡◌,
  refl, arith, if◌then◌else◌, inl, inr, Bool-cases,
}
use hcloud_operator.Go.Integer.{Int64, increment, decrement, is_negative}
use hcloud_operator.Go.Map.{Map, lookup, insert}
use hcloud_operator.Go.Map.Laws.{lookup-insert}
use hcloud_operator.Firewall.Rules.{count_at, count_up, count_down, all_zero}

-- How often a text occurs.
unfoldable pub occurrences : String → List String → ℕ
occurrences k [] = 0
occurrences k (x ∷ xs) = (if x == k then 1 else 0) + occurrences k xs

pub occurrences-le-length : (k : String) (ks : List String) → occurrences k ks ≤ length ks
unfolding occurrences
occurrences-le-length k [] = ground arith
occurrences-le-length k (x ∷ xs) = ground (arith, occurrences-le-length k xs)

count_at-insert :
    (k j : String) (n : Int64) (m : Map String Int64)
    → count_at j (insert k n m) ≡ (if k == j then n else count_at j m)
count_at-insert k j n m = ground (arith, lookup-insert m k n j)

-- 2 ^ 63
abbrev pub half : ℕ
half = 0x8000_0000_0000_0000

-- The first loop adds the occurrences, as long as none of the counts leaves the range of an int.
pub count_at-count_up :
    (j : String) (ks : List String) (m : Map String Int64)
    → count_at j m + length ks < half
    → count_at j (count_up ks m) ≡ count_at j m + occurrences j ks
unfolding count_up occurrences
count_at-count_up j [] m h = ground arith
count_at-count_up j (k ∷ ks) m h = ground (
  arith,
  count_at-insert k j (increment (count_at k m)) m,
  string_eq.same_iff k j,
  count_at-count_up j ks (insert k (increment (count_at k m)) m),
)

abbrev taken : String → Map String Int64 → Map String Int64
taken k m = insert k (decrement (count_at k m)) m

taken_self : (k : String) (m : Map String Int64) → count_at k (taken k m) ≡ decrement (count_at k m)
taken_self k m =
    ground (arith, count_at-insert k k (decrement (count_at k m)) m, string_eq.same_iff k k)

-- A count that is not below 0 after the step was above 0 before it.
taken_once :
    (k : String) (m : Map String Int64)
    → count_at k m < half
    → is_negative (count_at k (taken k m)) ≡ false
    → count_at k m ≡ count_at k (taken k m) + 1
taken_once k m small h = ground (arith, taken_self k m)

taken_small :
    (k : String) (m : Map String Int64)
    → ((i : String) → count_at i m < half)
    → is_negative (count_at k (taken k m)) ≡ false
    → (i : String) → count_at i (taken k m) < half
taken_small k m small h i = ground (
  arith,
  small i,
  small k,
  count_at-insert k i (decrement (count_at k m)) m,
  taken_self k m,
  string_eq.same_iff k i,
)

-- The second loop subtracts them where it does not stop.
pub count_at-count_down :
    (j : String) (ks : List String) (m m' : Map String Int64)
    → ((i : String) → count_at i m < half)
    → count_down ks m ≡ some m'
    → count_at j m ≡ count_at j m' + occurrences j ks
unfolding count_down occurrences
count_at-count_down j [] m m' small h = ground arith
count_at-count_down j (k ∷ ks) m m' small h =
    elim (Bool-cases (is_negative (count_at k (taken k m)))) [
      | inl stops ↦ ground arith
      | inr goes ↦ ground (
        arith,
        count_at-count_down j ks (taken k m) m' (taken_small k m small goes),
        taken_once k m (small k) goes,
        count_at-insert k j (decrement (count_at k m)) m,
        string_eq.same_iff k j,
        taken_self k m,
      )
    ]

-- It does not stop where no text is left over.
pub count_down_total :
    (ks : List String) (m : Map String Int64)
    → ((i : String) → count_at i m < half)
    → ((i : String) → occurrences i ks ≤ count_at i m)
    → (m' : Map String Int64) × (count_down ks m ≡ some m')
unfolding count_down occurrences
count_down_total [] m small enough = (m, refl)
count_down_total (k ∷ ks) m small enough =
    let goes : is_negative (count_at k (taken k m)) ≡ false =
      ground (arith, taken_self k m, enough k, small k, string_eq.same_iff k k) in
    let left : (i : String) → occurrences i ks ≤ count_at i (taken k m) = λ i. ground (
      arith,
      enough i,
      taken_once k m (small k) goes,
      string_eq.same_iff k i,
      count_at-insert k i (decrement (count_at k m)) m,
      taken_self k m,
    ) in
    let (m', e) = count_down_total ks (taken k m) (taken_small k m small goes) left in
    (m', ground arith)

pub all_zero-count_at : (j : String) (m : Map String Int64) → all_zero m ≡ true → count_at j m ≡ 0
unfolding all_zero lookup
all_zero-count_at j [] h = refl
all_zero-count_at j (e ∷ m) h = ground (arith, all_zero-count_at j m)
