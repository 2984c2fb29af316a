-- ===== src/PrimaryIp/Provisioning.antt =====
-- A run over a primary IP that exists, and two runs in a row, against the in-memory cloud.
use hcloud_operator.Base.{
  true, ◌≡◌, refl, sym, subst, ap, ◌∙◌, some, [], ◌∷◌, String, string_eq, nat_eq, arith,
}
use hcloud_operator.Go.Fault.{Result, ok, str}
use hcloud_operator.Go.Action.{Action, ◌>>=◌, ◌>>◌}
use hcloud_operator.Go.Action.Outcome.{continue_ok}
use hcloud_operator.Go.Integer.{Int64, is_set}
use hcloud_operator.Kube.Condition.{Condition, Meta, condition_true}
use hcloud_operator.Kube.Client.{ApiErrors}
use hcloud_operator.Hcloud.Types.{PrimaryIpInfo}
use hcloud_operator.Fake.State.{FakeClient}
use hcloud_operator.Fake.PrimaryIps.{get_primary_ip}
use hcloud_operator.V1alpha1.Server.{HcloudServer}
use hcloud_operator.V1alpha1.PrimaryIp.{HcloudPrimaryIp, HcloudPrimaryIpSpec}
use hcloud_operator.Server.State.{condition_type_ready}
use hcloud_operator.PrimaryIp.Controller.{
  PrimaryIpScope, HcloudPrimaryIpReconciler, ensure_primary_ip_metadata,
  ensure_primary_ip_assignment, ensure_primary_ip_dns_ptr, refresh, finish_primary_ip,
  settle_primary_ip, fetch_by_id, fetch_by_name, create_missing, reconcile_hcloud_primary_ip,
}
use hcloud_operator.PrimaryIp.Settled.{
  described, assigned, pointed, Holds, Lands, fake_reconciler, refresh_stored, metadata-Lands,
  metadata_object, assignment-Lands, pointer-Lands,
}

-- The stored address after a run.
abbrev pub settled : Int64 → HcloudPrimaryIp → PrimaryIpInfo → PrimaryIpInfo
settled target o ip =
    pointed o.spec.dns_ptr (assigned target o.status.applied_assignee_id (described o.spec ip))

abbrev pub ready_condition : Condition
ready_condition = record {
  type = condition_type_ready;
  status = condition_true;
  reason = "PrimaryIPReady";
  message = str "Primary IP is provisioned" ∷ [];
}

-- A run ends without an error, with the address `ip` stored, named in the status, and Ready.
pub record Provisioned {K : Type 0} (meta : Meta) (ip : PrimaryIpInfo)
    (st : PrimaryIpScope FakeClient K) (out : Result (Unit {0}) × PrimaryIpScope FakeClient K)
    : Type 0 where
  pub returned : out.0 ≡ ok tt
  pub holds : Holds ip out.1
  pub same_spec : out.1.object.spec ≡ st.object.spec
  pub primary_ip_id : out.1.object.status.primary_ip_id ≡ ip.id
  pub address : out.1.object.status.ip ≡ ip.ip
  pub applied_assignee_id :
      is_set ip.assignee_id ≡ true → out.1.object.status.applied_assignee_id ≡ ip.assignee_id
  pub ready :
      meta.find_status_condition out.1.object.status.conditions condition_type_ready
      ≡ some ready_condition

module _ {K : Type 0} (get_server_object : String → Action K HcloudServer) (api_errors : ApiErrors)
    (meta : Meta) where
  abbrev r : HcloudPrimaryIpReconciler FakeClient K
  r = fake_reconciler get_server_object api_errors meta

  finish-Provisioned :
      (ip : PrimaryIpInfo) (st st' : PrimaryIpScope FakeClient K)
      → Holds ip st'
      → st'.object.spec ≡ st.object.spec
      → Provisioned meta ip st (finish_primary_ip r ip st')
  unfolding finish_primary_ip
  finish-Provisioned ip st st' h spec = record {
    returned = refl;
    holds = record { stored = h.stored; no_get_err = h.no_get_err };
    same_spec = spec;
    primary_ip_id = refl;
    address = refl;
    applied_assignee_id = λ set. ground (arith, set);
    ready = meta.find-set_self st'.object.status.conditions ready_condition;
  }

  -- A step and the reading of the address after it.
  step_refresh :
      (m : Action (PrimaryIpScope FakeClient K) (Unit {0}))
      (f : PrimaryIpInfo → Action (PrimaryIpScope FakeClient K) (Unit {0})) (doing after : String)
      (old ip : PrimaryIpInfo) (st : PrimaryIpScope FakeClient K)
      → old.id ≡ ip.id
      → Lands ip st (m st)
      → (m >> (refresh r doing after old >>= f)) st ≡ f ip (m st).1
  step_refresh m f doing after old ip st e h =
      continue_ok (λ _. refresh r doing after old >>= f) (m st) tt h.returned
      ∙ continue_ok f (refresh r doing after old (m st).1) ip (
          ap (λ out. out.0)
            (refresh_stored get_server_object api_errors meta doing after old ip (m st).1 e
              h.holds))
      ∙ ap (λ out. f ip out.1)
          (refresh_stored get_server_object api_errors meta doing after old ip (m st).1 e h.holds)

  pub settle-Provisioned :
      (target : Int64) (ip : PrimaryIpInfo) (st : PrimaryIpScope FakeClient K)
      → Holds ip st
      → Provisioned meta (settled target st.object ip) st (settle_primary_ip r target ip st)
  unfolding settle_primary_ip
  settle-Provisioned target ip st h =
      let spec = st.object.spec in
      let applied = st.object.status.applied_assignee_id in
      let ip1 = described spec ip in
      let ip2 = assigned target applied ip1 in
      let ip3 = pointed spec.dns_ptr ip2 in
      let one = metadata-Lands get_server_object api_errors meta ip st h in
      let st1 = (ensure_primary_ip_metadata r ip st).1 in
      let same : st1.object ≡ st.object =
        metadata_object get_server_object api_errors meta ip st h in
      let two =
        subst
          (λ (o : HcloudPrimaryIp).
            Lands (assigned target o.status.applied_assignee_id ip1) st1
              (ensure_primary_ip_assignment r target ip1 st1))
          same (assignment-Lands get_server_object api_errors meta target ip1 st1 one.holds) in
      let st2 = (ensure_primary_ip_assignment r target ip1 st1).1 in
      let same2 : st2.object.spec ≡ spec = two.same_spec ∙ one.same_spec in
      let three =
        subst
          (λ (sp : HcloudPrimaryIpSpec).
            Lands (pointed sp.dns_ptr ip2) st2 (ensure_primary_ip_dns_ptr r ip2 st2))
          same2 (pointer-Lands get_server_object api_errors meta ip2 st2 two.holds) in
      let st3 = (ensure_primary_ip_dns_ptr r ip2 st2).1 in
      let last = λ (v : PrimaryIpInfo).
        ensure_primary_ip_dns_ptr r v
        >> (refresh r "refresh primary IP after DNS update" "DNS update" v
            >>= finish_primary_ip r) in
      let middle = λ (v : PrimaryIpInfo).
        ensure_primary_ip_assignment r target v
        >> (refresh r "refresh primary IP after assignment" "assignment" v >>= last) in
      let path : settle_primary_ip r target ip st ≡ finish_primary_ip r ip3 st3 =
        step_refresh (ensure_primary_ip_metadata r ip) middle "refresh primary IP" "metadata sync"
          ip ip1 st refl one
        ∙ step_refresh (ensure_primary_ip_assignment r target ip1) last
            "refresh primary IP after assignment" "assignment" ip1 ip2 st1 refl two
        ∙ step_refresh (ensure_primary_ip_dns_ptr r ip2) (finish_primary_ip r)
            "refresh primary IP after DNS update" "DNS update" ip2 ip3 st2 refl three in
      subst (Provisioned meta ip3 st) (sym path)
        (finish-Provisioned ip3 st st3 three.holds (three.same_spec ∙ same2))

  fetched :
      (target : Int64) (ip : PrimaryIpInfo) (st : PrimaryIpScope FakeClient K)
      → Holds ip st
      → st.object.status.primary_ip_id ≡ ip.id
      → is_set ip.id ≡ true
      → reconcile_hcloud_primary_ip r target st ≡ settle_primary_ip r target ip st
  unfolding reconcile_hcloud_primary_ip fetch_by_id fetch_by_name create_missing get_primary_ip
  fetched target ip st h e set = ground (arith, h.stored, h.no_get_err, e, set)

  -- A run over a primary IP that the status names ends without an error, with what the spec asks for
  -- stored: the labels, the server and the reverse DNS; the status names the address and its server,
  -- and Ready is True. It asks that reads do not fail.
  pub reconcile_hcloud_primary_ip-Provisioned :
      (target : Int64) (ip : PrimaryIpInfo) (st : PrimaryIpScope FakeClient K)
      → Holds ip st
      → st.object.status.primary_ip_id ≡ ip.id
      → is_set ip.id ≡ true
      → Provisioned meta (settled target st.object ip) st (reconcile_hcloud_primary_ip r target st)
  reconcile_hcloud_primary_ip-Provisioned target ip st h e set =
      subst (Provisioned meta (settled target st.object ip) st) (sym (fetched target ip st h e set))
        (settle-Provisioned target ip st h)
