-- ===== src/Firewall/Rules.antt =====
-- firewallRulesFromSpec, labelsMatch, and firewallRulesMatch, which compares two lists of rules by
-- counting canonical texts.
pub mod Counting
pub mod Matching
use Prim.Native.Char.{nul}
use Prim.Native.String
use hcloud_operator.Base.{
  Bool, true, false, not, ◌&&◌, ◌==◌, nat_eq, string_eq, String, List, [], ◌∷◌, map, length, Option,
  none, some, if◌then◌else◌,
}
use hcloud_operator.Go.Integer.{Int64, increment, decrement, is_negative}
use hcloud_operator.Go.Map.{Map, lookup, insert, maps_equal}
use hcloud_operator.Go.Slice.{sort_by}
use hcloud_operator.Go.Strings.{string_less, join}
use hcloud_operator.Hcloud.Types.{FirewallRuleInfo, Labels, entries}
use hcloud_operator.V1alpha1.Firewall.{HcloudFirewallRule}

abbrev pub rule_info : HcloudFirewallRule → FirewallRuleInfo
rule_info r = record {
  direction = r.direction;
  protocol = r.protocol;
  port = r.port;
  source_ips = sort_by string_less r.source_ips;
  destination_ips = sort_by string_less r.destination_ips;
  description = r.description;
}

unfoldable pub firewall_rules_from_spec : List HcloudFirewallRule → List FirewallRuleInfo
firewall_rules_from_spec = map rule_info

abbrev pub normalize_labels_map : Labels → Labels
normalize_labels_map labels = some (entries labels)

unfoldable pub labels_match : Labels → Labels → Bool
labels_match spec cloud = maps_equal (entries spec) (entries cloud)

-- `""`, or what the pointer points at
abbrev pub or_empty : Option String → String
or_empty none = ""
or_empty (some s) = s

unfoldable pub canonical_firewall_rule : FirewallRuleInfo → String
canonical_firewall_rule r =
    join
      (r.direction
        ∷ r.protocol
        ∷ or_empty r.port
        ∷ or_empty r.description
        ∷ join (sort_by string_less r.source_ips) ","
        ∷ join (sort_by string_less r.destination_ips) ","
        ∷ [])
      (String.◌∷◌ nul String.[])

-- `counts[k]`, which is 0 where there is no entry
abbrev pub or_zero : Option Int64 → Int64
or_zero none = 0
or_zero (some n) = n

abbrev pub count_at : String → Map String Int64 → Int64
count_at k counts = or_zero (lookup k counts)

-- The two loops over the rules, on their canonical texts. The second one stops at a count below 0.
unfoldable pub count_up : List String → Map String Int64 → Map String Int64
count_up [] counts = counts
count_up (k ∷ ks) counts = count_up ks (insert k (increment (count_at k counts)) counts)

unfoldable pub count_down : List String → Map String Int64 → Option (Map String Int64)
count_down [] counts = some counts
count_down (k ∷ ks) counts =
    let counts' = insert k (decrement (count_at k counts)) counts in
    let rest = count_down ks counts' in if is_negative (count_at k counts') then none else rest

-- The last loop.
unfoldable pub all_zero : Map String Int64 → Bool
all_zero [] = true
all_zero (entry ∷ more) = entry.1 == 0 && all_zero more

abbrev pub balanced : Option (Map String Int64) → Bool
balanced none = false
balanced (some counts) = all_zero counts

unfoldable pub texts_match : List String → List String → Bool
texts_match desired observed = balanced (count_down observed (count_up desired []))

unfoldable pub firewall_rules_match : List FirewallRuleInfo → List FirewallRuleInfo → Bool
firewall_rules_match desired observed =
    if not (length desired == length observed)
    then false
    else texts_match (map canonical_firewall_rule desired) (map canonical_firewall_rule observed)
