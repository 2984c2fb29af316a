-- ===== src/PrimaryIp/Deletion.antt =====
-- The deletion of a primary IP, against the in-memory cloud.
use hcloud_operator.Base.{
  true, ◌≡◌, ◌≢◌, refl, sym, subst, none, some, [], ◌∷◌, String, string_eq, nat_eq, arith,
  Bool-cases, inl, inr,
}
use hcloud_operator.Go.Fault.{Result, ok, err, fail, wrap, str, num}
use hcloud_operator.Go.Action.{Action}
use hcloud_operator.Go.Integer.{Int64, is_set}
use hcloud_operator.Go.Map.{Map, lookup, insert, delete}
use hcloud_operator.Go.Map.Laws.{lookup-insert, lookup-delete}
use hcloud_operator.Kube.Condition.{Meta}
use hcloud_operator.Kube.Client.{ApiErrors}
use hcloud_operator.Hcloud.Types.{PrimaryIpInfo}
use hcloud_operator.Fake.State.{FakeClient}
use hcloud_operator.Fake.PrimaryIps.{unassign_primary_ip, delete_primary_ip}
use hcloud_operator.V1alpha1.Server.{HcloudServer}
use hcloud_operator.PrimaryIp.Controller.{
  HcloudPrimaryIpReconciler, PrimaryIpScope, delete_hcloud_primary_ip,
}
use hcloud_operator.PrimaryIp.Settled.{fake_reconciler}

module _ {K : Type 0} (get_server_object : String → Action K HcloudServer) (api_errors : ApiErrors)
    (meta : Meta) where
  abbrev r : HcloudPrimaryIpReconciler FakeClient K
  r = fake_reconciler get_server_object api_errors meta

  abbrev holding :
      Map Int64 PrimaryIpInfo → PrimaryIpScope FakeClient K → PrimaryIpScope FakeClient K
  holding m st = record st {
    world = record (st.world) { cloud = record (st.world.cloud) { primary_ips = m } };
  }

  -- The address of the status is gone, the others and the object are as they were.
  abbrev pub Removes :
      PrimaryIpScope FakeClient K → Result (Unit {0}) × PrimaryIpScope FakeClient K → Type 0
  Removes st out =
      (out.0 ≡ ok tt)
      × (lookup st.object.status.primary_ip_id out.1.world.cloud.primary_ips ≡ none)
      × ((id : Int64)
          → id ≢ st.object.status.primary_ip_id
          → lookup id out.1.world.cloud.primary_ips ≡ lookup id st.world.cloud.primary_ips)
      × (out.1.object ≡ st.object)

  removes :
      (m : Map Int64 PrimaryIpInfo) (st : PrimaryIpScope FakeClient K)
      → ((id : Int64)
          → id ≢ st.object.status.primary_ip_id
          → lookup id m ≡ lookup id st.world.cloud.primary_ips)
      → Removes st (ok tt, holding (delete st.object.status.primary_ip_id m) st)
  removes m st same =
      let k = st.object.status.primary_ip_id in
      (
        refl,
        ground (arith, lookup-delete k k m),
        λ id ne. ground (arith, lookup-delete k id m, same id ne),
        refl,
      )

  -- The deletion of a primary IP whose ID the status has ends without an error and removes it, and no
  -- other, whether or not it is assigned to a server; the object is as it was. It asks that the
  -- address is stored and that no error is injected into deletions.
  pub delete_hcloud_primary_ip-stored :
      (ip : PrimaryIpInfo) (st : PrimaryIpScope FakeClient K)
      → is_set st.object.status.primary_ip_id ≡ true
      → lookup st.object.status.primary_ip_id st.world.cloud.primary_ips ≡ some ip
      → st.world.cloud.delete_err ≡ none
      → Removes st (delete_hcloud_primary_ip r st)
  unfolding delete_hcloud_primary_ip unassign_primary_ip delete_primary_ip
  delete_hcloud_primary_ip-stored ip st set stored no_delete =
      let k = st.object.status.primary_ip_id in
      let m = st.world.cloud.primary_ips in
      let free = record ip { assignee_id = 0 } in
      elim (Bool-cases (is_set ip.assignee_id)) [
        | inl on ↦
            let e : delete_hcloud_primary_ip r st
                ≡ (ok tt, holding (delete k (insert k free m)) st) =
              ground (arith, set, stored, no_delete, on) in
            subst (Removes st) (sym e)
              (removes (insert k free m) st (λ id ne. ground (arith, lookup-insert m k free id)))
        | inr off ↦
            let e : delete_hcloud_primary_ip r st ≡ (ok tt, holding (delete k m) st) =
              ground (arith, set, stored, no_delete, off) in
            subst (Removes st) (sym e) (removes m st (λ id ne. refl))
      ]

  -- A primary IP that is gone from the cloud cannot be deleted: the deletion ends with the error of
  -- the unassignment, and changes neither the cloud nor the object, so that the next run ends in the
  -- same way. It asks that the status has the ID.
  pub delete_hcloud_primary_ip-gone :
      (st : PrimaryIpScope FakeClient K)
      → is_set st.object.status.primary_ip_id ≡ true
      → lookup st.object.status.primary_ip_id st.world.cloud.primary_ips ≡ none
      → delete_hcloud_primary_ip r st ≡ (
        err (
            wrap (str "unassign primary IP before delete" ∷ []) (
              fail (
                str "fake: primary IP "
                ∷ num st.object.status.primary_ip_id
                ∷ str " not found"
                ∷ []))),
        st,
      )
  unfolding delete_hcloud_primary_ip unassign_primary_ip
  delete_hcloud_primary_ip-gone st set gone = ground arith
