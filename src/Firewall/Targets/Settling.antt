-- ===== src/Firewall/Targets/Settling.antt =====
-- What the removals and the additions of partitionApplyTargets amount to.
use hcloud_operator.Base.{
  Bool, true, false, not, ◌&&◌, ◌||◌, ◌==◌, List, [], ◌∷◌, Option, none, some, ◌≡◌, refl, arith,
  Option-cases, Bool-cases, inl, inr,
}
use hcloud_operator.Go.Fault.{Text}
use hcloud_operator.Go.Map.{Map, lookup, insert}
use hcloud_operator.Go.Map.Laws.{lookup-insert}
use hcloud_operator.Go.Strings.{text_eq}
use hcloud_operator.Hcloud.Types.{FirewallApplyResource, key}
use hcloud_operator.Fake.Firewalls.{apply_all, remove_all}
use hcloud_operator.Fake.Firewalls.Laws.{has_key, has_key-apply_all, has_key-remove_all}
use hcloud_operator.Firewall.Targets.{by_key, unmatched, partition_apply_targets}

abbrev is_some : Option FirewallApplyResource → Bool
is_some none = false
is_some (some a) = true

abbrev present : Text → Map Text FirewallApplyResource → Bool
present k m = is_some (lookup k m)

present-insert :
    (k j : Text) (a : FirewallApplyResource) (m : Map Text FirewallApplyResource)
    → present k (insert j a m) ≡ (j == k || present k m)
present-insert k j a m = ground (arith, lookup-insert m j a k)

present-by_key :
    (k : Text) (ts : List FirewallApplyResource) (m : Map Text FirewallApplyResource)
    → present k (by_key ts m) ≡ (has_key k ts || present k m)
unfolding by_key has_key
present-by_key k [] m = refl
present-by_key k (a ∷ ts) m =
    ground (arith, present-by_key k ts (insert (key a) a m), present-insert k (key a) a m)

-- Each target is stored under its own key.
abbrev Keyed : Map Text FirewallApplyResource → Type 0
Keyed [] = Unit
Keyed (entry ∷ m) = (key entry.1 ≡ entry.0) × Keyed m

insert-Keyed :
    (a : FirewallApplyResource) (m : Map Text FirewallApplyResource)
    → Keyed m
    → Keyed (insert (key a) a m)
unfolding insert
insert-Keyed a [] h = (refl, tt)
insert-Keyed a (entry ∷ m) h = elim (Bool-cases (entry.0 == key a)) [
  | inl same ↦ ground (arith, text_eq.same_iff entry.0 (key a))
  | inr other ↦ ground (arith, insert-Keyed a m h.1)
]

by_key-Keyed :
    (ts : List FirewallApplyResource) (m : Map Text FirewallApplyResource)
    → Keyed m
    → Keyed (by_key ts m)
unfolding by_key
by_key-Keyed [] m h = h
by_key-Keyed (a ∷ ts) m h = by_key-Keyed ts _ (insert-Keyed a m h)

has_key-unmatched :
    (k : Text) (m other : Map Text FirewallApplyResource)
    → Keyed m
    → has_key k (unmatched m other) ≡ (present k m && not (present k other))
unfolding has_key unmatched lookup
has_key-unmatched k [] other h = refl
has_key-unmatched k (entry ∷ m) other h = elim (Option-cases (lookup entry.0 other)) [
  | inl e ↦ ground (
    arith,
    e,
    h.0,
    has_key-unmatched k m other h.1,
    text_eq.same_iff entry.0 k,
    text_eq.same_iff (key entry.1) k,
  )
  | inr (a, e) ↦ ground (
    arith,
    e,
    h.0,
    has_key-unmatched k m other h.1,
    text_eq.same_iff entry.0 k,
    text_eq.same_iff (key entry.1) k,
  )
]

-- After the removal of the first part and the addition of the second, a firewall is applied to
-- targets of exactly the desired keys.
pub has_key-partition_apply_targets :
    (k : Text) (current desired : List FirewallApplyResource)
    → let (remove, add) = partition_apply_targets current desired in
      has_key k (apply_all (remove_all current remove) add) ≡ has_key k desired
unfolding partition_apply_targets lookup
has_key-partition_apply_targets k current desired =
    let cur = by_key current [] in
    let des = by_key desired [] in
    let here = present-by_key k current [] in
    let there = present-by_key k desired [] in
    ground (
      arith,
      has_key-apply_all k (remove_all current (unmatched cur des)) (unmatched des cur),
      has_key-remove_all k current (unmatched cur des),
      has_key-unmatched k cur des (by_key-Keyed current [] tt),
      has_key-unmatched k des cur (by_key-Keyed desired [] tt),
    )
