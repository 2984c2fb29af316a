-- ===== src/Firewall/Rules/Matching.antt =====
-- What firewallRulesMatch decides.
use hcloud_operator.Base.{
  suc, ◌+◌, ◌<◌, true, ◌==◌, nat_eq, string_eq, String, List, [], ◌∷◌, map, length, none, some, ◌≡◌,
  refl, ◌↔◌, arith, if◌then◌else◌, subst, ap, Bool-cases, Option-cases, inl, inr,
}
use hcloud_operator.Go.Integer.{Int64, decrement, is_negative}
use hcloud_operator.Go.Map.{Map, lookup, insert}
use hcloud_operator.Go.Map.Laws.{lookup-insert}
use hcloud_operator.Hcloud.Types.{FirewallRuleInfo}
use hcloud_operator.Firewall.Rules.{
  count_at, count_up, count_down, all_zero, texts_match, firewall_rules_match,
  canonical_firewall_rule,
}
use hcloud_operator.Firewall.Rules.Counting.{
  occurrences, occurrences-le-length, half, count_at-count_up, count_at-count_down,
  count_down_total, all_zero-count_at,
}

-- No key has two entries.
abbrev Distinct : Map String Int64 → Type 0
Distinct [] = Unit
Distinct (entry ∷ m) = (lookup entry.0 m ≡ none) × Distinct m

insert-Distinct :
    (k : String) (n : Int64) (m : Map String Int64) → Distinct m → Distinct (insert k n m)
unfolding insert lookup
insert-Distinct k n [] d = (refl, tt)
insert-Distinct k n (entry ∷ m) d = elim (Bool-cases (entry.0 == k)) [
  | inl same ↦ ground (arith, string_eq.same_iff entry.0 k)
  | inr other ↦
      let rest = insert-Distinct k n m d.1 in
      let new : lookup entry.0 (insert k n m) ≡ none = ground (
        arith,
        lookup-insert m k n entry.0,
        string_eq.same_iff entry.0 k,
        string_eq.same_iff k entry.0,
      ) in
      ground arith
]

count_up-Distinct :
    (ks : List String) (m : Map String Int64) → Distinct m → Distinct (count_up ks m)
unfolding count_up
count_up-Distinct [] m d = d
count_up-Distinct (k ∷ ks) m d = count_up-Distinct ks _ (insert-Distinct k _ m d)

count_down-Distinct :
    (ks : List String) (m m' : Map String Int64)
    → Distinct m
    → count_down ks m ≡ some m'
    → Distinct m'
unfolding count_down
count_down-Distinct [] m m' d h = subst Distinct (ground arith) d
count_down-Distinct (k ∷ ks) m m' d h =
    let m1 = insert k (decrement (count_at k m)) m in
    elim (Bool-cases (is_negative (count_at k m1))) [
      | inl stops ↦ absurd (ground arith)
      | inr goes ↦ count_down-Distinct ks m1 m' (insert-Distinct k _ m d) (ground arith)
    ]

all_zero_of_counts :
    (m : Map String Int64) → Distinct m → ((j : String) → count_at j m ≡ 0) → all_zero m ≡ true
unfolding all_zero lookup
all_zero_of_counts [] d h = refl
all_zero_of_counts (entry ∷ m) d h =
    let tail : (j : String) → count_at j m ≡ 0 =
      λ j. ground (arith, h j, d.0, string_eq.same_iff entry.0 j) in
    ground (arith, h entry.0, string_eq.same_iff entry.0 entry.0, all_zero_of_counts m d.1 tail)

-- Two lists have the same texts, each as often.
abbrev pub SameTexts : List String → List String → Type 0
SameTexts xs ys = (k : String) → occurrences k xs ≡ occurrences k ys

module _ (desired observed : List String) (fits : length desired < half) where
  counts : Map String Int64
  counts = count_up desired []

  count_at-counts : (k : String) → count_at k counts ≡ occurrences k desired
  unfolding counts lookup
  count_at-counts k = ground (arith, count_at-count_up k desired [])

  counts_small : (k : String) → count_at k counts < half
  counts_small k = ground (arith, count_at-counts k, occurrences-le-length k desired)

  texts_match_sound : texts_match desired observed ≡ true → SameTexts desired observed
  unfolding texts_match counts
  texts_match_sound h k = elim (Option-cases (count_down observed counts)) [
    | inl stops ↦ ground arith
    | inr (m, e) ↦ ground (
      arith,
      count_at-counts k,
      count_at-count_down k observed counts m counts_small e,
      all_zero-count_at k m,
    )
  ]

  texts_match_complete : SameTexts desired observed → texts_match desired observed ≡ true
  unfolding texts_match counts
  texts_match_complete h =
      let (m, e) =
        count_down_total observed counts counts_small
          (λ i. ground (arith, h i, count_at-counts i)) in
      let zero : (j : String) → count_at j m ≡ 0 = λ j.
        ground
          (arith, h j, count_at-counts j, count_at-count_down j observed counts m counts_small e) in
      let d = count_down-Distinct observed counts m (count_up-Distinct desired [] tt) e in
      ground (arith, all_zero_of_counts m d zero)

-- The list without the first occurrence of a text.
drop_one : String → List String → List String
drop_one k [] = []
drop_one k (x ∷ xs) = let rest = drop_one k xs in if x == k then xs else x ∷ rest

occurrences-drop_one :
    (j k : String) (xs : List String)
    → 0 < occurrences k xs
    → occurrences j xs ≡ occurrences j (drop_one k xs) + (if k == j then 1 else 0)
unfolding drop_one occurrences
occurrences-drop_one j k [] h = ground arith
occurrences-drop_one j k (x ∷ xs) h = ground (
  arith,
  occurrences-drop_one j k xs,
  string_eq.same_iff x k,
  string_eq.same_iff x j,
  string_eq.same_iff k j,
)

length-drop_one :
    (k : String) (xs : List String) → 0 < occurrences k xs → length xs ≡ length (drop_one k xs) + 1
unfolding drop_one occurrences
length-drop_one k [] h = ground arith
length-drop_one k (x ∷ xs) h = ground (arith, length-drop_one k xs)

no_texts : (ys : List String) → ((k : String) → 0 ≡ occurrences k ys) → 0 ≡ length ys
unfolding occurrences
no_texts [] h = refl
no_texts (y ∷ ys) h = ground (arith, h y, string_eq.same_iff y y)

SameTexts-length : (xs ys : List String) → SameTexts xs ys → length xs ≡ length ys
unfolding occurrences
SameTexts-length [] ys h = no_texts ys h
SameTexts-length (x ∷ xs) ys h =
    let there : 0 < occurrences x ys = ground (arith, h x, string_eq.same_iff x x) in
    let rest : SameTexts xs (drop_one x ys) =
      λ k. ground (arith, h k, occurrences-drop_one k x ys there) in
    ground (arith, SameTexts-length xs (drop_one x ys) rest, length-drop_one x ys there)

length-map :
    (f : FirewallRuleInfo → String) (rs : List FirewallRuleInfo) → length (map f rs) ≡ length rs
length-map f [] = refl
length-map f (r ∷ rs) = ap (λ n. suc n) (length-map f rs)

-- Two lists of rules match exactly when they have the same canonical texts, each as often, in
-- whatever order. It asks that the first list has fewer than 2 ^ 63 rules, as every slice has.
pub firewall_rules_match-SameTexts :
    (desired observed : List FirewallRuleInfo)
    → length desired < half
    → (firewall_rules_match desired observed ≡ true)
      ↔ SameTexts (map canonical_firewall_rule desired) (map canonical_firewall_rule observed)
unfolding firewall_rules_match
firewall_rules_match-SameTexts desired observed fits =
    let ds = map canonical_firewall_rule desired in
    let os = map canonical_firewall_rule observed in
    let small : length ds < half = ground (arith, length-map canonical_firewall_rule desired) in
    (
      λ h. texts_match_sound ds os small (ground arith),
      λ h. ground (
        arith,
        texts_match_complete ds os small h,
        SameTexts-length ds os h,
        length-map canonical_firewall_rule desired,
        length-map canonical_firewall_rule observed,
      ),
    )
