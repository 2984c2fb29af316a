-- ===== src/FloatingIp/Agreement.antt =====
-- Runs in a row over a floating IP, against the in-memory cloud.
use hcloud_operator.Base.{
  true, false, ◌≡◌, subst, Option, some, String, ◌==◌, string_eq, nat_eq, arith, Bool-cases, inl,
  inr,
}
use hcloud_operator.Go.Fault.{Text, ok}
use hcloud_operator.Go.Action.{Action}
use hcloud_operator.Go.Integer.{Int64, is_set}
use hcloud_operator.Go.Map.{Map, lookup}
use hcloud_operator.Go.Map.Laws.{HasDistinctKeys, maps_equal_refl, lookup-insert_self}
use hcloud_operator.Go.Strings.{text_eq}
use hcloud_operator.Kube.Condition.{Meta}
use hcloud_operator.Kube.Client.{ApiErrors}
use hcloud_operator.Hcloud.Types.{
  FloatingIpInfo, Labels, is_empty, labels_equal, entries, clone_string_map_controller,
}
use hcloud_operator.Fake.State.{FakeClient}
use hcloud_operator.V1alpha1.Server.{HcloudServer}
use hcloud_operator.V1alpha1.FloatingIp.{HcloudFloatingIp, HcloudFloatingIpSpec}
use hcloud_operator.FloatingIp.Controller.{
  FloatingIpScope, HcloudFloatingIpReconciler, labels_changed, or_empty_text,
  reconcile_hcloud_floating_ip,
}
use hcloud_operator.FloatingIp.Settled.{described, pointed_at, Holds, fake_reconciler}
use hcloud_operator.FloatingIp.Provisioning.{settled, reconcile_hcloud_floating_ip-Provisioned}

-- The address has the labels, the description, the server and the reverse DNS of the spec.
pub record Agrees (target : Int64) (spec : HcloudFloatingIpSpec) (ip : FloatingIpInfo)
    : Type 0 where
  pub same_labels : labels_equal ip.labels spec.labels ≡ true
  pub same_description : ip.description ≡ spec.description
  pub on_target : is_set target ≡ true → ip.server_id ≡ target
  pub pointing :
      (dns_ptr : String)
      → spec.dns_ptr ≡ some dns_ptr
      → is_empty ip.ip ≡ false
      → or_empty_text (lookup ip.ip ip.dns_ptr) ≡ dns_ptr

pub clone_equal :
    (labels : Labels)
    → HasDistinctKeys (entries labels)
    → labels_equal (clone_string_map_controller labels) labels ≡ true
unfolding labels_equal
clone_equal labels h = maps_equal_refl (entries labels) h

labels_settled :
    (spec : HcloudFloatingIpSpec) (ip : FloatingIpInfo)
    → HasDistinctKeys (entries spec.labels)
    → labels_equal (described spec ip).labels spec.labels ≡ true
labels_settled spec ip h = ground (arith, clone_equal spec.labels h)

-- Where the labels are settled, the description is settled too.
description_settled :
    (spec : HcloudFloatingIpSpec) (ip : FloatingIpInfo)
    → labels_equal ip.labels spec.labels ≡ true
    → (described spec ip).description ≡ spec.description
description_settled spec ip h = ground (arith, string_eq.same_iff ip.description spec.description)

pub pointer_settled :
    (wanted : Option String) (d : String) (ip : Text) (m : Map Text String)
    → wanted ≡ some d
    → is_empty ip ≡ false
    → or_empty_text (lookup ip (pointed_at wanted ip m)) ≡ d
pointer_settled wanted d ip m e h = elim (Bool-cases (or_empty_text (lookup ip m) == d)) [
  | inl there ↦ ground (arith, e, h, there, string_eq.same_iff (or_empty_text (lookup ip m)) d)
  | inr other ↦ ground (arith, e, h, other, lookup-insert_self ip d m)
]

-- A run over an address whose labels are settled makes it agree with the spec.
settled-Agrees :
    (target : Int64) (o : HcloudFloatingIp) (ip : FloatingIpInfo)
    → HasDistinctKeys (entries o.spec.labels)
    → labels_equal ip.labels o.spec.labels ≡ true
    → Agrees target o.spec (settled target o ip)
settled-Agrees target o ip keys same = record {
  same_labels = labels_settled o.spec ip keys;
  same_description = description_settled o.spec ip same;
  on_target = λ set. ground (arith, set);
  pointing = λ d e h. pointer_settled o.spec.dns_ptr d ip.ip ip.dns_ptr e h;
}

module _ {K : Type 0} (get_server_object : String → Action K HcloudServer) (api_errors : ApiErrors)
    (meta : Meta) where
  abbrev r : HcloudFloatingIpReconciler FakeClient K
  r = fake_reconciler get_server_object api_errors meta

  -- The state after a run, and after two.
  abbrev pub after : Int64 → FloatingIpScope FakeClient K → FloatingIpScope FakeClient K
  after target st = (reconcile_hcloud_floating_ip r target st).1

  abbrev pub twice : Int64 → FloatingIpInfo → FloatingIpScope FakeClient K → FloatingIpInfo
  twice target ip st = settled target (after target st).object (settled target st.object ip)

  -- Two runs over a floating IP that the status names end without an error, and leave the stored
  -- address with the labels, the description, the server and the reverse DNS of the spec, whatever it
  -- was before. It asks that reads do not fail, and that the labels of the spec have distinct keys.
  pub rounds-Agrees :
      (target : Int64) (ip : FloatingIpInfo) (st : FloatingIpScope FakeClient K)
      → Holds ip st
      → st.object.status.floating_ip_id ≡ ip.id
      → is_set ip.id ≡ true
      → HasDistinctKeys (entries st.object.spec.labels)
      → let second = reconcile_hcloud_floating_ip r target (after target st) in
        ((reconcile_hcloud_floating_ip r target st).0 ≡ ok tt)
        × (second.0 ≡ ok tt)
        × Holds (twice target ip st) second.1
        × Agrees target st.object.spec (twice target ip st)
  rounds-Agrees target ip st h e set keys =
      let run = reconcile_hcloud_floating_ip-Provisioned get_server_object api_errors meta in
      let one = run target ip st h e set in
      let ip1 = settled target st.object ip in
      let st1 = after target st in
      let two = run target ip1 st1 one.holds one.floating_ip_id set in
      let agrees = λ (spec : HcloudFloatingIpSpec).
        HasDistinctKeys (entries spec.labels)
        → labels_equal ip1.labels spec.labels ≡ true
        → Agrees target spec (twice target ip st) in
      (
        one.returned,
        two.returned,
        two.holds,
        subst agrees one.same_spec (settled-Agrees target st1.object ip1) keys
            (labels_settled st.object.spec ip keys),
      )

  -- A run that finds other labels and the description of the spec erases the description: the update
  -- carries an empty one. It asks that the status names the address, and that reads do not fail.
  pub reconcile_hcloud_floating_ip-erase :
      (target : Int64) (ip : FloatingIpInfo) (st : FloatingIpScope FakeClient K)
      → Holds ip st
      → st.object.status.floating_ip_id ≡ ip.id
      → is_set ip.id ≡ true
      → labels_changed st.object.spec ip ≡ true
      → ip.description ≡ st.object.spec.description
      → let out = reconcile_hcloud_floating_ip r target st in
        (out.0 ≡ ok tt)
        × Holds (settled target st.object ip) out.1
        × ((settled target st.object ip).description ≡ "")
  reconcile_hcloud_floating_ip-erase target ip st h e set new same =
      let run =
        reconcile_hcloud_floating_ip-Provisioned get_server_object api_errors meta target ip st h e
          set in
      (
        run.returned,
        run.holds,
        ground (arith, new, same, string_eq.same_iff ip.description st.object.spec.description),
      )
