-- ===== src/Firewall/Targets.antt =====
-- partitionApplyTargets: what to remove and what to add, compared by key.
pub mod Settling
use hcloud_operator.Base.{List, [], ◌∷◌, Bool, Option, none, some, if◌then◌else◌}
use hcloud_operator.Go.Fault.{Text}
use hcloud_operator.Go.Map.{Map, lookup, insert}
use hcloud_operator.Go.Strings.{text_eq}
use hcloud_operator.Hcloud.Types.{FirewallApplyResource, key}

-- `for _, a := range targets { m[a.Key()] = a }`
unfoldable pub by_key :
    List FirewallApplyResource → Map Text FirewallApplyResource → Map Text FirewallApplyResource
by_key [] m = m
by_key (a ∷ more) m = by_key more (insert (key a) a m)

-- `for k, a := range from { if _, ok := other[k]; !ok { out = append(out, a) } }`
unfoldable pub unmatched :
    Map Text FirewallApplyResource → Map Text FirewallApplyResource → List FirewallApplyResource
unmatched [] other = []
unmatched (entry ∷ more) other =
    let rest = unmatched more other in
    elim (lookup entry.0 other) [ none ↦ entry.1 ∷ rest | some a ↦ rest ]

-- The targets to remove, and those to add.
unfoldable pub partition_apply_targets :
    List FirewallApplyResource
    → List FirewallApplyResource
    → List FirewallApplyResource × List FirewallApplyResource
partition_apply_targets current desired =
    let cur = by_key current [] in
    let des = by_key desired [] in (unmatched cur des, unmatched des cur)
