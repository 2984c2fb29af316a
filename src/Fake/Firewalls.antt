-- ===== src/Fake/Firewalls.antt =====
-- The firewall methods of FakeClient.
pub mod Laws
use hcloud_operator.Base.{
  Bool, true, false, Option, none, some, List, [], ◌∷◌, ◌++◌, map, String, ◌==◌, string_eq, nat_eq,
  if◌then◌else◌,
}
use hcloud_operator.Go.Fault.{Fault, Text, ok, fail, str, quoted, num}
use hcloud_operator.Go.Action.{Action, pure, raise}
use hcloud_operator.Go.Map.{lookup, insert, delete, find_value}
use hcloud_operator.Go.Integer.{Int64, increment}
use hcloud_operator.Go.Slice.{member, sort_by}
use hcloud_operator.Go.Strings.{string_less, text_eq}
use hcloud_operator.Hcloud.Types.{
  FirewallInfo, FirewallCreateOpts, FirewallRuleInfo, FirewallApplyResource, Labels, key,
}
use hcloud_operator.Hcloud.Api.{FirewallApi}
use hcloud_operator.Fake.State.{FakeClient, injected, found}

abbrev pub firewall_named : String → FirewallInfo → Bool
firewall_named name fw = fw.name == name

-- firewallRuleDeepCopy sorts the addresses of the copy.
unfoldable pub firewall_rule_deep_copy : FirewallRuleInfo → FirewallRuleInfo
firewall_rule_deep_copy r = record r {
  source_ips = sort_by string_less r.source_ips;
  destination_ips = sort_by string_less r.destination_ips;
}

unfoldable pub clone_firewall_rules : List FirewallRuleInfo → List FirewallRuleInfo
clone_firewall_rules = map firewall_rule_deep_copy

-- A copy of the slices and maps is a copy of their values, but for the order of the addresses.
unfoldable pub clone_firewall_info : FirewallInfo → FirewallInfo
clone_firewall_info fw = record fw { rules = clone_firewall_rules fw.rules }

abbrev clone_answer : Option FirewallInfo → Option FirewallInfo
clone_answer none = none
clone_answer (some fw) = some (clone_firewall_info fw)

unfoldable pub get_firewall : Int64 → Action FakeClient (Option FirewallInfo)
get_firewall id f = injected f.get_err (λ f'. (ok (clone_answer (lookup id f'.firewalls)), f')) f

unfoldable pub get_firewall_by_name : String → Action FakeClient (Option FirewallInfo)
get_firewall_by_name name f =
    injected f.get_err
      (λ f'. (ok (clone_answer (find_value (firewall_named name) f'.firewalls)), f')) f

abbrev pub new_firewall : Int64 → FirewallCreateOpts → FirewallInfo
new_firewall id opts = record {
  id = id;
  name = opts.name;
  labels = opts.labels;
  rules = clone_firewall_rules opts.rules;
  applied_to = opts.apply_to;
}

unfoldable pub create_firewall : FirewallCreateOpts → Action FakeClient FirewallInfo
create_firewall opts f =
    injected f.create_err
      (λ f'.
        found (find_value (firewall_named opts.name) f'.firewalls)
          (λ g.
            let info = new_firewall g.next_id opts in
            (
              ok (clone_firewall_info info),
              record g {
                firewalls = insert g.next_id info g.firewalls;
                next_id = increment g.next_id;
              },
            ))
          (λ _. raise (
            fail (str "fake: firewall with name " ∷ quoted opts.name ∷ str " already exists" ∷ [])))
          f')
      f

unfoldable pub delete_firewall : Int64 → Action FakeClient (Unit {0})
delete_firewall id f =
    injected f.delete_err
      (λ f'.
        found (lookup id f'.firewalls) (pure tt)
          (λ _ g. (ok tt, record g { firewalls = delete id g.firewalls })) f')
      f

-- A change of a stored firewall, which the map holds by pointer.
abbrev pub change_firewall : Int64 → (FirewallInfo → FirewallInfo) → Action FakeClient (Unit {0})
change_firewall id change f =
    found (lookup id f.firewalls)
      (raise (fail (str "fake: firewall " ∷ num id ∷ str " not found" ∷ [])))
      (λ fw g. (ok tt, record g { firewalls = insert id (change fw) g.firewalls })) f

unfoldable pub update_firewall_labels : Int64 → Labels → Action FakeClient (Unit {0})
update_firewall_labels id labels = change_firewall id (λ fw. record fw { labels = labels })

unfoldable pub set_firewall_rules : Int64 → List FirewallRuleInfo → Action FakeClient (Unit {0})
set_firewall_rules id rules =
    change_firewall id (λ fw. record fw { rules = clone_firewall_rules rules })

-- The loop of ApplyFirewallResources: the keys are those of the targets that are there already.
unfoldable pub apply_all :
    List FirewallApplyResource → List FirewallApplyResource → List FirewallApplyResource
apply_all applied [] = applied
apply_all applied (a ∷ more) =
    apply_all (if member (key a) (map key applied) then applied else applied ++ a ∷ []) more

unfoldable pub apply_firewall_resources :
    Int64 → List FirewallApplyResource → Action FakeClient (Unit {0})
apply_firewall_resources id resources =
    change_firewall id (λ fw. record fw { applied_to = apply_all fw.applied_to resources })

-- The loop of RemoveFirewallResources.
unfoldable pub remove_all :
    List FirewallApplyResource → List FirewallApplyResource → List FirewallApplyResource
remove_all [] removed = []
remove_all (a ∷ applied) removed =
    let rest = remove_all applied removed in
    if member (key a) (map key removed) then rest else a ∷ rest

unfoldable pub remove_firewall_resources :
    Int64 → List FirewallApplyResource → Action FakeClient (Unit {0})
remove_firewall_resources id resources =
    change_firewall id (λ fw. record fw { applied_to = remove_all fw.applied_to resources })

abbrev pub firewall_api : FirewallApi FakeClient
firewall_api = record {
  get_firewall = get_firewall;
  get_firewall_by_name = get_firewall_by_name;
  create_firewall = create_firewall;
  delete_firewall = delete_firewall;
  update_firewall_labels = update_firewall_labels;
  set_firewall_rules = set_firewall_rules;
  apply_firewall_resources = apply_firewall_resources;
  remove_firewall_resources = remove_firewall_resources;
}
