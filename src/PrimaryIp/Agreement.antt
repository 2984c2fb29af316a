-- ===== src/PrimaryIp/Agreement.antt =====
-- What a run makes of a primary IP, and a second run after it, against the in-memory cloud.
use hcloud_operator.Base.{
  Bool, true, false, ◌≡◌, refl, sym, subst, Option, none, some, String, string_eq, nat_eq, arith,
  Bool-cases, Option-cases, inl, inr,
}
use hcloud_operator.Go.Fault.{ok}
use hcloud_operator.Go.Action.{Action}
use hcloud_operator.Go.Integer.{Int64, is_set}
use hcloud_operator.Go.Map.{lookup}
use hcloud_operator.Go.Map.Laws.{HasDistinctKeys}
use hcloud_operator.Go.Strings.{text_eq}
use hcloud_operator.Kube.Condition.{Meta}
use hcloud_operator.Kube.Client.{ApiErrors}
use hcloud_operator.Hcloud.Types.{PrimaryIpInfo, is_empty, labels_equal, entries}
use hcloud_operator.Fake.State.{FakeClient}
use hcloud_operator.Fake.PrimaryIps.{get_primary_ip}
use hcloud_operator.V1alpha1.Server.{HcloudServer}
use hcloud_operator.V1alpha1.PrimaryIp.{HcloudPrimaryIp, HcloudPrimaryIpSpec}
use hcloud_operator.FloatingIp.Controller.{or_empty_text}
use hcloud_operator.FloatingIp.Agreement.{clone_equal, pointer_settled}
use hcloud_operator.PrimaryIp.Controller.{
  PrimaryIpScope, HcloudPrimaryIpReconciler, differs, reconcile_hcloud_primary_ip,
  settle_primary_ip, ensure_primary_ip_metadata, ensure_primary_ip_assignment,
  ensure_primary_ip_dns_ptr, ensure_pointer, point_primary_ip, refresh, finish_primary_ip,
  fetch_by_id, fetch_by_name, create_missing,
}
use hcloud_operator.PrimaryIp.Settled.{described, Holds, fake_reconciler}
use hcloud_operator.PrimaryIp.Provisioning.{
  settled, Provisioned, reconcile_hcloud_primary_ip-Provisioned,
}

-- The address has the labels, the automatic deletion, the server and the reverse DNS of the spec.
pub record Agrees (target : Int64) (spec : HcloudPrimaryIpSpec) (ip : PrimaryIpInfo) : Type 0 where
  pub same_labels : labels_equal ip.labels spec.labels ≡ true
  pub same_auto_delete : (b : Bool) → spec.auto_delete ≡ some b → ip.auto_delete ≡ b
  pub on_target : is_set target ≡ true → ip.assignee_id ≡ target
  pub pointing :
      (dns_ptr : String)
      → spec.dns_ptr ≡ some dns_ptr
      → is_empty ip.ip ≡ false
      → or_empty_text (lookup ip.ip ip.dns_ptr) ≡ dns_ptr

auto_delete_settled :
    (spec : HcloudPrimaryIpSpec) (ip : PrimaryIpInfo) (b : Bool)
    → spec.auto_delete ≡ some b
    → (described spec ip).auto_delete ≡ b
auto_delete_settled spec ip true e = ground (arith, e)
auto_delete_settled spec ip false e = ground (arith, e)

settled-Agrees :
    (target : Int64) (o : HcloudPrimaryIp) (ip : PrimaryIpInfo)
    → HasDistinctKeys (entries o.spec.labels)
    → Agrees target o.spec (settled target o ip)
settled-Agrees target o ip keys = record {
  same_labels = ground (arith, clone_equal o.spec.labels keys);
  same_auto_delete = auto_delete_settled o.spec ip;
  on_target = λ set. ground (arith, set);
  pointing = λ d e h. pointer_settled o.spec.dns_ptr d ip.ip ip.dns_ptr e h;
}

kept_auto_delete :
    (wanted : Option Bool) (b : Bool)
    → ((c : Bool) → wanted ≡ some c → b ≡ c)
    → differs wanted b ≡ false
kept_auto_delete none b h = refl
kept_auto_delete (some true) b h = ground (arith, h true refl)
kept_auto_delete (some false) b h = ground (arith, h false refl)

module _ {K : Type 0} (get_server_object : String → Action K HcloudServer) (api_errors : ApiErrors)
    (meta : Meta) where
  abbrev r : HcloudPrimaryIpReconciler FakeClient K
  r = fake_reconciler get_server_object api_errors meta

  -- A run over a primary IP that the status names ends without an error, and leaves the stored
  -- address with the labels, the automatic deletion, the server and the reverse DNS of the spec,
  -- whatever it was before; the status names it, and Ready is True. It asks that reads do not fail,
  -- and that the labels of the spec have distinct keys.
  pub reconcile_hcloud_primary_ip-Agrees :
      (target : Int64) (ip : PrimaryIpInfo) (st : PrimaryIpScope FakeClient K)
      → Holds ip st
      → st.object.status.primary_ip_id ≡ ip.id
      → is_set ip.id ≡ true
      → HasDistinctKeys (entries st.object.spec.labels)
      → Provisioned meta (settled target st.object ip) st (reconcile_hcloud_primary_ip r target st)
        × Agrees target st.object.spec (settled target st.object ip)
  reconcile_hcloud_primary_ip-Agrees target ip st h e set keys = (
    reconcile_hcloud_primary_ip-Provisioned get_server_object api_errors meta target ip st h e set,
    settled-Agrees target st.object ip keys,
  )

  metadata_stays :
      (target : Int64) (ip : PrimaryIpInfo) (st : PrimaryIpScope FakeClient K)
      → Agrees target st.object.spec ip
      → ensure_primary_ip_metadata r ip st ≡ (ok tt, st)
  unfolding ensure_primary_ip_metadata
  metadata_stays target ip st a = ground (
    arith,
    a.same_labels,
    kept_auto_delete st.object.spec.auto_delete ip.auto_delete a.same_auto_delete,
  )

  pointer_stays :
      (target : Int64) (ip : PrimaryIpInfo) (st : PrimaryIpScope FakeClient K)
      → Agrees target st.object.spec ip
      → ensure_primary_ip_dns_ptr r ip st ≡ (ok tt, st)
  unfolding ensure_primary_ip_dns_ptr ensure_pointer point_primary_ip
  pointer_stays target ip st a = elim (Option-cases st.object.spec.dns_ptr) [
    | inl unset ↦ ground (arith, unset)
    | inr (d, e) ↦ elim (Bool-cases (is_empty ip.ip)) [
      | inl bare ↦ ground (arith, e, bare)
      | inr there ↦ ground (
        arith,
        e,
        there,
        a.pointing d e there,
        string_eq.same_iff (or_empty_text (lookup ip.ip ip.dns_ptr)) d,
      )
    ]
  ]

  abbrev on_target : Int64 → PrimaryIpScope FakeClient K → PrimaryIpScope FakeClient K
  on_target target st = record st {
    object = record (st.object) {
      status = record (st.object.status) { applied_assignee_id = target };
    };
  }

  assignment_stays :
      (target : Int64) (ip : PrimaryIpInfo) (st : PrimaryIpScope FakeClient K)
      → Agrees target st.object.spec ip
      → is_set target ≡ true
      → ensure_primary_ip_assignment r target ip st ≡ (ok tt, on_target target st)
  unfolding ensure_primary_ip_assignment
  assignment_stays target ip st a set =
      ground (arith, set, a.on_target set, nat_eq.same_iff ip.assignee_id target)

  -- A run over an address that agrees with the spec.
  quiet :
      (target : Int64) (ip : PrimaryIpInfo) (st : PrimaryIpScope FakeClient K)
      → Holds ip st
      → st.object.status.primary_ip_id ≡ ip.id
      → is_set ip.id ≡ true
      → is_set target ≡ true
      → Agrees target st.object.spec ip
      → (reconcile_hcloud_primary_ip r target st).1.world.cloud ≡ st.world.cloud
  unfolding reconcile_hcloud_primary_ip fetch_by_id fetch_by_name create_missing get_primary_ip
      settle_primary_ip refresh finish_primary_ip
  quiet target ip st h e set on a = ground (
    arith,
    h.stored,
    h.no_get_err,
    e,
    set,
    metadata_stays target ip st a,
    assignment_stays target ip st a on,
    pointer_stays target ip (on_target target st) a,
  )

  -- Where the spec names a server that has an ID, a second run with that server as its target leaves
  -- the cloud exactly as the first one left it. It asks that the status names the stored address, that
  -- reads do not fail, and that the labels of the spec have distinct keys. Without a target the
  -- statement is not made: the first run may take over an assignment that the second one gives up.
  pub reconcile_hcloud_primary_ip_again :
      (target : Int64) (ip : PrimaryIpInfo) (st : PrimaryIpScope FakeClient K)
      → Holds ip st
      → st.object.status.primary_ip_id ≡ ip.id
      → is_set ip.id ≡ true
      → is_set target ≡ true
      → HasDistinctKeys (entries st.object.spec.labels)
      → let first = reconcile_hcloud_primary_ip r target st in
        (reconcile_hcloud_primary_ip r target first.1).1.world.cloud ≡ first.1.world.cloud
  reconcile_hcloud_primary_ip_again target ip st h e set on keys =
      let (run, agrees) = reconcile_hcloud_primary_ip-Agrees target ip st h e set keys in
      let ip1 = settled target st.object ip in
      let st1 = (reconcile_hcloud_primary_ip r target st).1 in
      quiet target ip1 st1 run.holds run.primary_ip_id set on
        (subst (λ spec. Agrees target spec ip1) (sym run.same_spec) agrees)
