-- ===== src/Firewall/Settled.antt =====
-- A run over a firewall that exists, against the in-memory cloud.
use hcloud_operator.Base.{
  ◌<◌, true, ◌≡◌, refl, sym, subst, ap, none, some, List, [], ◌∷◌, map, length, String, string_eq,
  nat_eq, arith, if◌then◌else◌, Bool-cases, inl, inr,
}
use hcloud_operator.Go.Fault.{Result, ok}
use hcloud_operator.Go.Action.{Action}
use hcloud_operator.Go.Slice.Laws.{sort_by_idem}
use hcloud_operator.Go.Strings.{string_less}
use hcloud_operator.Go.Strings.Laws.{string_less_asym}
use hcloud_operator.Go.Map.{lookup, insert}
use hcloud_operator.Go.Map.Laws.{lookup-insert_self}
use hcloud_operator.Kube.Condition.{Meta}
use hcloud_operator.Hcloud.Types.{FirewallInfo, FirewallRuleInfo, Labels}
use hcloud_operator.Fake.State.{FakeClient}
use hcloud_operator.Fake.Firewalls.{
  firewall_api, get_firewall, update_firewall_labels, set_firewall_rules, firewall_rule_deep_copy,
  clone_firewall_rules, clone_firewall_info,
}
use hcloud_operator.V1alpha1.Server.{HcloudServer}
use hcloud_operator.Firewall.Rules.{
  canonical_firewall_rule, firewall_rules_match, labels_match, normalize_labels_map,
}
use hcloud_operator.Firewall.Rules.Counting.{half, occurrences}
use hcloud_operator.Firewall.Rules.Matching.{firewall_rules_match-SameTexts}
use hcloud_operator.Firewall.Controller.{
  FirewallScope, HcloudFirewallReconciler, sync_labels, sync_rules,
}

-- The firewall `fw` is stored under its ID, and reads of the cloud do not fail.
pub record Holds {K : Type 0} (fw : FirewallInfo) (st : FirewallScope FakeClient K) : Type 0 where
  pub stored : lookup fw.id st.world.cloud.firewalls ≡ some fw
  pub no_get_err : st.world.cloud.get_err ≡ none

-- A step answers a copy of the firewall that it leaves stored, and the object is as it was.
pub record Lands {K : Type 0} (fw : FirewallInfo) (st : FirewallScope FakeClient K)
    (out : Result FirewallInfo × FirewallScope FakeClient K) : Type 0 where
  pub returned : out.0 ≡ ok (clone_firewall_info fw)
  pub holds : Holds fw out.1
  pub same_object : out.1.object ≡ st.object

-- A copy has the same canonical texts.
canonical-copy :
    (r : FirewallRuleInfo)
    → canonical_firewall_rule (firewall_rule_deep_copy r) ≡ canonical_firewall_rule r
unfolding canonical_firewall_rule firewall_rule_deep_copy
canonical-copy r = cc (
  sort_by_idem string_less string_less_asym r.source_ips,
  sort_by_idem string_less string_less_asym r.destination_ips,
)

canonical-clone :
    (rs : List FirewallRuleInfo)
    → map canonical_firewall_rule (clone_firewall_rules rs) ≡ map canonical_firewall_rule rs
unfolding clone_firewall_rules
canonical-clone [] = refl
canonical-clone (r ∷ rs) = cc (canonical-copy r, canonical-clone rs)

length-clone : (rs : List FirewallRuleInfo) → length (clone_firewall_rules rs) ≡ length rs
unfolding clone_firewall_rules
length-clone [] = refl
length-clone (r ∷ rs) = ground (arith, length-clone rs)

-- Rules match those that were written, and their copies.
firewall_rules_match-clone :
    (rules observed : List FirewallRuleInfo)
    → firewall_rules_match rules (clone_firewall_rules observed)
      ≡ firewall_rules_match rules observed
unfolding firewall_rules_match
firewall_rules_match-clone rules observed =
    ground (arith, canonical-clone observed, length-clone observed)

pub firewall_rules_match_written :
    (rules : List FirewallRuleInfo)
    → length rules < half
    → firewall_rules_match rules (clone_firewall_rules rules) ≡ true
firewall_rules_match_written rules fits =
    (firewall_rules_match-SameTexts rules (clone_firewall_rules rules) fits).1
      (λ k. ap (λ ts. occurrences k ts) (sym (canonical-clone rules)))

-- The labels of the spec, where they do not match.
abbrev pub labelled : Labels → FirewallInfo → FirewallInfo
labelled spec fw = record fw {
  labels = if labels_match spec fw.labels then fw.labels else normalize_labels_map spec;
}

-- The rules of the spec, where they do not match.
abbrev pub ruled : List FirewallRuleInfo → FirewallInfo → FirewallInfo
ruled rules fw = record fw {
  rules = if firewall_rules_match rules fw.rules then fw.rules else clone_firewall_rules rules;
}

module _ {K : Type 0} (get_server_object : String → Action K HcloudServer) (meta : Meta) where
  abbrev pub fake_reconciler : HcloudFirewallReconciler FakeClient K
  fake_reconciler = record {
    hcloud_client = firewall_api;
    get_server_object = get_server_object;
    meta = meta;
  }

  abbrev pub in_place : FirewallInfo → FirewallScope FakeClient K → FirewallScope FakeClient K
  in_place fw st = record st {
    world = record (st.world) {
      cloud = record (st.world.cloud) { firewalls = insert fw.id fw st.world.cloud.firewalls };
    };
  }

  pub stores :
      (fw : FirewallInfo) (st : FirewallScope FakeClient K)
      → st.world.cloud.get_err ≡ none
      → Holds fw (in_place fw st)
  stores fw st h = record {
    stored = lookup-insert_self fw.id fw st.world.cloud.firewalls;
    no_get_err = h;
  }

  lands :
      (fw : FirewallInfo) (st st' : FirewallScope FakeClient K)
      → (out : Result FirewallInfo × FirewallScope FakeClient K)
      → out ≡ (ok (clone_firewall_info fw), st')
      → Holds fw st'
      → st'.object ≡ st.object
      → Lands fw st out
  lands fw st st' out e h o =
      subst (Lands fw st) (sym e) (record { returned = refl; holds = h; same_object = o })

  pub labels-Lands :
      (fw : FirewallInfo) (st : FirewallScope FakeClient K)
      → Holds fw st
      → Lands
          (labelled st.object.spec.labels fw)
          st
          (sync_labels fake_reconciler (clone_firewall_info fw) st)
  unfolding sync_labels update_firewall_labels get_firewall clone_firewall_info
  labels-Lands fw st h = elim (Bool-cases (labels_match st.object.spec.labels fw.labels)) [
    | inl same ↦
        let e : labelled st.object.spec.labels fw ≡ fw = ground arith in
        subst (λ w. Lands w st (sync_labels fake_reconciler (clone_firewall_info fw) st)) (sym e)
          (lands fw st st _ (ground arith) h refl)
    | inr differ ↦
        let w = record fw { labels = normalize_labels_map st.object.spec.labels } in
        let e : labelled st.object.spec.labels fw ≡ w = ground arith in
        subst (λ w. Lands w st (sync_labels fake_reconciler (clone_firewall_info fw) st)) (sym e)
          (lands w st (in_place w st) _
            (ground
              (arith, h.stored, h.no_get_err, lookup-insert_self fw.id w st.world.cloud.firewalls))
            (stores w st h.no_get_err) refl)
  ]

  pub rules-Lands :
      (rules : List FirewallRuleInfo) (fw : FirewallInfo) (st : FirewallScope FakeClient K)
      → Holds fw st
      → Lands (ruled rules fw) st (sync_rules fake_reconciler rules (clone_firewall_info fw) st)
  unfolding sync_rules set_firewall_rules get_firewall clone_firewall_info
  rules-Lands rules fw st h = elim (Bool-cases (firewall_rules_match rules fw.rules)) [
    | inl same ↦
        let e : ruled rules fw ≡ fw = ground arith in
        subst (λ w. Lands w st (sync_rules fake_reconciler rules (clone_firewall_info fw) st))
          (sym e)
          (lands fw st st _ (ground (arith, firewall_rules_match-clone rules fw.rules)) h refl)
    | inr differ ↦
        let w = record fw { rules = clone_firewall_rules rules } in
        let e : ruled rules fw ≡ w = ground arith in
        subst (λ w. Lands w st (sync_rules fake_reconciler rules (clone_firewall_info fw) st))
          (sym e)
          (lands w st (in_place w st) _
            (ground (
              arith,
              h.stored,
              h.no_get_err,
              firewall_rules_match-clone rules fw.rules,
              lookup-insert_self fw.id w st.world.cloud.firewalls,
            ))
            (stores w st h.no_get_err) refl)
  ]
