-- ===== src/Firewall/Provisioning.antt =====
-- The targets of a firewall, and the whole of a run over one that exists.
use hcloud_operator.Base.{
  ◌≡◌, refl, sym, subst, ap, ◌∙◌, none, some, List, [], ◌∷◌, String, string_eq, nat_eq, arith,
}
use hcloud_operator.Go.Fault.{Result, ok, str}
use hcloud_operator.Go.Action.{Action, ◌>>=◌, ◌>>◌}
use hcloud_operator.Go.Action.Outcome.{continue_ok}
use hcloud_operator.Kube.Condition.{Condition, Meta, condition_true}
use hcloud_operator.Hcloud.Types.{FirewallInfo, FirewallRuleInfo, FirewallApplyResource}
use hcloud_operator.Fake.State.{FakeClient}
use hcloud_operator.Fake.Firewalls.{
  remove_firewall_resources, apply_firewall_resources, apply_all, remove_all, clone_firewall_info,
}
use hcloud_operator.V1alpha1.Server.{HcloudServer}
use hcloud_operator.V1alpha1.Firewall.{HcloudFirewall}
use hcloud_operator.Server.State.{condition_type_ready}
use hcloud_operator.Firewall.Targets.{partition_apply_targets}
use hcloud_operator.Firewall.Controller.{
  FirewallScope, HcloudFirewallReconciler, sync_labels, sync_rules, sync_targets, remove_targets,
  add_targets, settle_firewall, set_ready,
}
use hcloud_operator.Firewall.Settled.{
  Holds, fake_reconciler, in_place, stores, labelled, ruled, labels-Lands, rules-Lands,
}

remove_all_none : (xs : List FirewallApplyResource) → remove_all xs [] ≡ xs
unfolding remove_all hcloud_operator.Go.Slice.member
remove_all_none [] = refl
remove_all_none (a ∷ xs) = ap (◌∷◌ a) (remove_all_none xs)

-- The firewall with its targets removed and added as the partition says.
abbrev pub without_targets : List FirewallApplyResource → FirewallInfo → FirewallInfo
without_targets removed fw = record fw { applied_to = remove_all fw.applied_to removed }

abbrev pub with_targets : List FirewallApplyResource → FirewallInfo → FirewallInfo
with_targets added fw = record fw { applied_to = apply_all fw.applied_to added }

abbrev pub retargeted : List FirewallApplyResource → FirewallInfo → FirewallInfo
retargeted desired fw =
    with_targets (partition_apply_targets fw.applied_to desired).1
      (without_targets (partition_apply_targets fw.applied_to desired).0 fw)

abbrev pub ready_condition : Condition
ready_condition = record {
  type = condition_type_ready;
  status = condition_true;
  reason = "FirewallReady";
  message = str "Firewall rules and attachments are in sync" ∷ [];
}

-- The stored firewall after a run.
abbrev pub settled :
    List FirewallRuleInfo
    → List FirewallApplyResource
    → HcloudFirewall
    → FirewallInfo
    → FirewallInfo
settled rules desired o fw = retargeted desired (ruled rules (labelled o.spec.labels fw))

-- A run ends without an error, with the firewall `fw` stored and named in the status.
pub record Provisioned {K : Type 0} (meta : Meta) (fw : FirewallInfo)
    (st : FirewallScope FakeClient K) (out : Result (Unit {0}) × FirewallScope FakeClient K)
    : Type 0 where
  pub returned : out.0 ≡ ok tt
  pub holds : Holds fw out.1
  pub same_spec : out.1.object.spec ≡ st.object.spec
  pub firewall_id : out.1.object.status.firewall_id ≡ fw.id
  pub ready :
      meta.find_status_condition out.1.object.status.conditions condition_type_ready
      ≡ some ready_condition

module _ {K : Type 0} (get_server_object : String → Action K HcloudServer) (meta : Meta) where
  abbrev r : HcloudFirewallReconciler FakeClient K
  r = fake_reconciler get_server_object meta

  abbrev Leaves :
      FirewallInfo
      → FirewallScope FakeClient K
      → Result (Unit {0}) × FirewallScope FakeClient K
      → Type 0
  Leaves fw st out = (out.0 ≡ ok tt) × Holds fw out.1 × (out.1.object ≡ st.object)

  abbrev put : FirewallInfo → FirewallScope FakeClient K → FirewallScope FakeClient K
  put = in_place get_server_object meta

  remove_stored :
      (a : FirewallApplyResource) (more : List FirewallApplyResource) (fw : FirewallInfo)
      (st : FirewallScope FakeClient K)
      → Holds fw st
      → remove_targets r fw.id (a ∷ more) st ≡ (ok tt, put (without_targets (a ∷ more) fw) st)
  unfolding remove_targets remove_firewall_resources
  remove_stored a more fw st h = ground (arith, h.stored)

  add_stored :
      (a : FirewallApplyResource) (more : List FirewallApplyResource) (fw : FirewallInfo)
      (st : FirewallScope FakeClient K)
      → Holds fw st
      → add_targets r fw.id (a ∷ more) st ≡ (ok tt, put (with_targets (a ∷ more) fw) st)
  unfolding add_targets apply_firewall_resources
  add_stored a more fw st h = ground (arith, h.stored)

  leaves :
      (fw : FirewallInfo) (st : FirewallScope FakeClient K)
      → (out : Result (Unit {0}) × FirewallScope FakeClient K) → st.world.cloud.get_err ≡ none
      → out ≡ (ok tt, put fw st)
      → Leaves fw st out
  leaves fw st out no_err e =
      subst (Leaves fw st) (sym e) (refl, stores get_server_object meta fw st no_err, refl)

  remove-Leaves :
      (removed : List FirewallApplyResource) (fw : FirewallInfo) (st : FirewallScope FakeClient K)
      → Holds fw st
      → Leaves (without_targets removed fw) st (remove_targets r fw.id removed st)
  unfolding remove_targets
  remove-Leaves [] fw st h =
      let e : without_targets [] fw ≡ fw =
        ap (λ ts. record fw { applied_to = ts }) (remove_all_none fw.applied_to) in
      (refl, subst (λ w. Holds w st) (sym e) h, refl)
  remove-Leaves (a ∷ more) fw st h =
      leaves (without_targets (a ∷ more) fw) st _ h.no_get_err (remove_stored a more fw st h)

  add-Leaves :
      (added : List FirewallApplyResource) (fw : FirewallInfo) (st : FirewallScope FakeClient K)
      → Holds fw st
      → Leaves (with_targets added fw) st (add_targets r fw.id added st)
  unfolding add_targets apply_all
  add-Leaves [] fw st h = (refl, h, refl)
  add-Leaves (a ∷ more) fw st h =
      leaves (with_targets (a ∷ more) fw) st _ h.no_get_err (add_stored a more fw st h)

  targets-Leaves :
      (desired : List FirewallApplyResource) (fw : FirewallInfo) (st : FirewallScope FakeClient K)
      → Holds fw st
      → Leaves (retargeted desired fw) st (sync_targets r desired (clone_firewall_info fw) st)
  unfolding sync_targets clone_firewall_info
  targets-Leaves desired fw st h =
      let removed = (partition_apply_targets fw.applied_to desired).0 in
      let added = (partition_apply_targets fw.applied_to desired).1 in
      let one = remove-Leaves removed fw st h in
      let st1 = (remove_targets r fw.id removed st).1 in
      let two = add-Leaves added (without_targets removed fw) st1 one.1 in
      subst (Leaves (retargeted desired fw) st)
        (sym (
          continue_ok (λ _. add_targets r fw.id added) (remove_targets r fw.id removed st) tt
            one.0))
        (two.0, two.1, two.2 ∙ one.2)

  sync-Provisioned :
      (w : FirewallInfo) (st st' : FirewallScope FakeClient K)
      → Leaves w st' (ok tt, st')
      → st'.object.spec ≡ st.object.spec
      → st'.object.status.firewall_id ≡ w.id
      → Provisioned meta w st
          (set_ready r "FirewallReady" "Firewall rules and attachments are in sync" st')
  sync-Provisioned w st st' h spec id = record {
    returned = refl;
    holds = record { stored = h.1.stored; no_get_err = h.1.no_get_err };
    same_spec = spec;
    firewall_id = id;
    ready = meta.find-set_self st'.object.status.conditions ready_condition;
  }

  abbrev named : FirewallInfo → FirewallScope FakeClient K → FirewallScope FakeClient K
  named fw st = record st {
    object = record (st.object) { status = record (st.object.status) { firewall_id = fw.id } };
  }

  pub settle-Provisioned :
      (rules : List FirewallRuleInfo) (desired : List FirewallApplyResource) (fw : FirewallInfo)
      (st : FirewallScope FakeClient K)
      → Holds fw st
      → Provisioned meta
          (settled rules desired st.object fw)
          st
          (settle_firewall r rules desired (clone_firewall_info fw) st)
  unfolding settle_firewall clone_firewall_info
  settle-Provisioned rules desired fw st h =
      let st0 = named fw st in
      let spec = st.object.spec.labels in
      let fw1 = labelled spec fw in
      let fw2 = ruled rules fw1 in
      let fw3 = retargeted desired fw2 in
      let h0 : Holds fw st0 = record { stored = h.stored; no_get_err = h.no_get_err } in
      let one = labels-Lands get_server_object meta fw st0 h0 in
      let st1 = (sync_labels r (clone_firewall_info fw) st0).1 in
      let two = rules-Lands get_server_object meta rules fw1 st1 one.holds in
      let st2 = (sync_rules r rules (clone_firewall_info fw1) st1).1 in
      let three = targets-Leaves desired fw2 st2 two.holds in
      let st3 = (sync_targets r desired (clone_firewall_info fw2) st2).1 in
      let same : st3.object ≡ st0.object = three.2 ∙ two.same_object ∙ one.same_object in
      let done = λ (_ : Unit {0}).
        set_ready r "FirewallReady" "Firewall rules and attachments are in sync" in
      let path : settle_firewall r rules desired (clone_firewall_info fw) st ≡ done tt st3 =
        continue_ok (λ w. sync_rules r rules w >>= λ v. sync_targets r desired v >> done tt)
          (sync_labels r (clone_firewall_info fw) st0) (clone_firewall_info fw1) one.returned
        ∙ continue_ok (λ v. sync_targets r desired v >> done tt)
            (sync_rules r rules (clone_firewall_info fw1) st1) (clone_firewall_info fw2)
            two.returned
        ∙ continue_ok done (sync_targets r desired (clone_firewall_info fw2) st2) tt three.0 in
      subst (Provisioned meta fw3 st) (sym path) (
        sync-Provisioned fw3 st st3 (refl, three.1, refl) (ap (λ (o : HcloudFirewall). o.spec) same)
          (ap (λ (o : HcloudFirewall). o.status.firewall_id) same))
