-- ===== src/Firewall/Convergence.antt =====
-- A whole run over a firewall that exists, from the resolution of its targets on.
use hcloud_operator.Base.{
  ◌<◌, suc, true, ◌≡◌, refl, sym, subst, ap, ◌∙◌, Option, some, List, [], ◌∷◌, length, String,
  string_eq, nat_eq, arith, Bool-cases, inl, inr,
}
use hcloud_operator.Go.Fault.{Result, Text, ok}
use hcloud_operator.Go.Action.{Action, ◌>>=◌, continue}
use hcloud_operator.Go.Action.Outcome.{continue_ok}
use hcloud_operator.Go.Integer.{is_set}
use hcloud_operator.Go.Map.{lookup}
use hcloud_operator.Kube.Condition.{Meta}
use hcloud_operator.Hcloud.Types.{FirewallInfo, FirewallRuleInfo, FirewallApplyResource}
use hcloud_operator.Fake.State.{FakeClient}
use hcloud_operator.Fake.Firewalls.{get_firewall, clone_firewall_info}
use hcloud_operator.Fake.Firewalls.Laws.{has_key}
use hcloud_operator.Reconcile.World.{look}
use hcloud_operator.V1alpha1.Server.{HcloudServer}
use hcloud_operator.V1alpha1.Firewall.{HcloudFirewall, HcloudFirewallRule}
use hcloud_operator.Firewall.Rules.{firewall_rules_match, firewall_rules_from_spec}
use hcloud_operator.Firewall.Rules.Counting.{half}
use hcloud_operator.Firewall.Targets.Settling.{has_key-partition_apply_targets}
use hcloud_operator.Firewall.Controller.{
  FirewallScope, HcloudFirewallReconciler, settle_firewall, settle_or_create, fetch_and_settle,
  fetch_by_id, fetch_by_name, reconcile_hcloud_firewall, desired_apply_resources,
}
use hcloud_operator.Firewall.Settled.{
  Holds, fake_reconciler, labelled, ruled, firewall_rules_match_written,
}
use hcloud_operator.Firewall.Provisioning.{Provisioned, settled, settle-Provisioned}
use hcloud_operator.Firewall.Resolving.{desired_apply_resources-Aside}

module _ {K : Type 0} (get_server_object : String → Action K HcloudServer) (meta : Meta) where
  abbrev r : HcloudFirewallReconciler FakeClient K
  r = fake_reconciler get_server_object meta

  fetch_owned :
      (fw : FirewallInfo) (st : FirewallScope FakeClient K)
      → Holds fw st
      → st.object.status.firewall_id ≡ fw.id
      → is_set fw.id ≡ true
      → fetch_by_id r st ≡ (ok (some (clone_firewall_info fw)), st)
  unfolding fetch_by_id get_firewall
  fetch_owned fw st h known set = ground (arith, h.stored, h.no_get_err)

  -- The look-ups end with a copy of the firewall that the status names.
  owned_settles :
      (targets : List FirewallApplyResource) (fw : FirewallInfo) (st : FirewallScope FakeClient K)
      → Holds fw st
      → st.object.status.firewall_id ≡ fw.id
      → is_set fw.id ≡ true
      → fetch_and_settle r targets st
        ≡ settle_firewall r
            (firewall_rules_from_spec st.object.spec.rules)
            targets
            (clone_firewall_info fw)
            st
  unfolding fetch_and_settle fetch_by_name settle_or_create
  owned_settles targets fw st h known set =
      ap (continue (λ by_id. fetch_by_name r by_id >>= settle_rest)) (fetch_owned fw st h known set)
    where
      settle_rest : Option FirewallInfo → Action (FirewallScope FakeClient K) (Unit {0})
      settle_rest existing =
          look λ o. settle_or_create r (firewall_rules_from_spec o.spec.rules) targets existing

  ruled_match :
      (rules : List FirewallRuleInfo) (fw : FirewallInfo)
      → length rules < half
      → firewall_rules_match rules (ruled rules fw).rules ≡ true
  ruled_match rules fw fits = elim (Bool-cases (firewall_rules_match rules fw.rules)) [
    | inl same ↦ ground arith
    | inr differ ↦ ground (arith, firewall_rules_match_written rules fits)
  ]

  length-firewall_rules_from_spec :
      (rules : List HcloudFirewallRule) → length (firewall_rules_from_spec rules) ≡ length rules
  unfolding firewall_rules_from_spec
  length-firewall_rules_from_spec [] = refl
  length-firewall_rules_from_spec (rule ∷ rules) =
      ap (λ n. suc n) (length-firewall_rules_from_spec rules)

  of_same_object :
      (w : FirewallInfo) (st st' : FirewallScope FakeClient K)
      → (out : Result (Unit {0}) × FirewallScope FakeClient K) → st'.object ≡ st.object
      → Provisioned meta w st' out
      → Provisioned meta w st out
  of_same_object w st st' out e p = record {
    returned = p.returned;
    holds = p.holds;
    same_spec = p.same_spec ∙ ap (λ (o : HcloudFirewall). o.spec) e;
    firewall_id = p.firewall_id;
    ready = p.ready;
  }

  abbrev wanted : List FirewallApplyResource → HcloudFirewall → FirewallInfo → FirewallInfo
  wanted targets o fw = settled (firewall_rules_from_spec o.spec.rules) targets o fw

  resolved-Provisioned :
      (targets : List FirewallApplyResource) (fw : FirewallInfo)
      (st st1 : FirewallScope FakeClient K)
      → st1.object ≡ st.object
      → Holds fw st1
      → st1.object.status.firewall_id ≡ fw.id
      → is_set fw.id ≡ true
      → Provisioned meta (wanted targets st.object fw) st (fetch_and_settle r targets st1)
  resolved-Provisioned targets fw st st1 same h known set =
      subst (Provisioned meta (wanted targets st.object fw) st)
        (sym (owned_settles targets fw st1 h known set))
        (of_same_object _ st st1 _ same (
          subst
            (λ o. Provisioned meta (wanted targets o fw) st1 (
              settle_firewall r (firewall_rules_from_spec st1.object.spec.rules) targets
                (clone_firewall_info fw) st1))
            same
            (settle-Provisioned get_server_object meta
              (firewall_rules_from_spec st1.object.spec.rules) targets fw st1 h)))

  -- A run over a firewall that exists ends without an error if its targets can be resolved: the cloud
  -- then holds it with rules that match those of the spec and applied to targets of exactly the
  -- desired keys, the status names it, and Ready is True. It asks that the status names the firewall,
  -- that reads do not fail, and that the spec has fewer than 2 ^ 63 rules.
  pub reconcile_hcloud_firewall-Provisioned :
      (targets : List FirewallApplyResource) (fw : FirewallInfo) (st : FirewallScope FakeClient K)
      → (desired_apply_resources r st).0 ≡ ok targets
      → Holds fw st
      → st.object.status.firewall_id ≡ fw.id
      → is_set fw.id ≡ true
      → length st.object.spec.rules < half
      → let rules = firewall_rules_from_spec st.object.spec.rules in
        let fw' = settled rules targets st.object fw in
        Provisioned meta fw' st (reconcile_hcloud_firewall r st)
        × (firewall_rules_match rules fw'.rules ≡ true)
        × ((k : Text) → has_key k fw'.applied_to ≡ has_key k targets)
  unfolding reconcile_hcloud_firewall
  reconcile_hcloud_firewall-Provisioned targets fw st resolved h known set fits =
      let st1 = (desired_apply_resources r st).1 in
      let aside = desired_apply_resources-Aside r st in
      let rules = firewall_rules_from_spec st.object.spec.rules in
      let labels = labelled st.object.spec.labels fw in
      let h1 : Holds fw st1 = record {
        stored = ap (λ (f : FakeClient). lookup fw.id f.firewalls) aside.0 ∙ h.stored;
        no_get_err = ap (λ (f : FakeClient). f.get_err) aside.0 ∙ h.no_get_err;
      } in
      let known1 = ap (λ (o : HcloudFirewall). o.status.firewall_id) aside.1 ∙ known in
      (
        subst (Provisioned meta (wanted targets st.object fw) st)
            (sym (continue_ok (fetch_and_settle r) (desired_apply_resources r st) targets resolved))
            (resolved-Provisioned targets fw st st1 aside.1 h1 known1 set),
        ruled_match rules labels (
            subst (λ n. n < half) (sym (length-firewall_rules_from_spec st.object.spec.rules))
              fits),
        λ k. has_key-partition_apply_targets k (ruled rules labels).applied_to targets,
      )
