-- ===== src/FloatingIp/Deletion.antt =====
-- The deletion of a floating IP, against the in-memory cloud.
use hcloud_operator.Base.{
  true, ◌≡◌, ◌≢◌, refl, sym, subst, none, some, [], ◌∷◌, String, string_eq, nat_eq, arith,
  Bool-cases, inl, inr,
}
use hcloud_operator.Go.Fault.{Result, ok, err, fail, wrap, str, num}
use hcloud_operator.Go.Action.{Action}
use hcloud_operator.Go.Integer.{Int64, is_set}
use hcloud_operator.Go.Map.{Map, lookup, insert, delete}
use hcloud_operator.Go.Map.Laws.{lookup-insert, lookup-delete}
use hcloud_operator.Kube.Condition.{Meta}
use hcloud_operator.Kube.Client.{ApiErrors}
use hcloud_operator.Hcloud.Types.{FloatingIpInfo}
use hcloud_operator.Fake.State.{FakeClient}
use hcloud_operator.Fake.FloatingIps.{unassign_floating_ip, delete_floating_ip}
use hcloud_operator.V1alpha1.Server.{HcloudServer}
use hcloud_operator.FloatingIp.Controller.{
  HcloudFloatingIpReconciler, FloatingIpScope, delete_hcloud_floating_ip,
}
use hcloud_operator.FloatingIp.Settled.{fake_reconciler}

module _ {K : Type 0} (get_server_object : String → Action K HcloudServer) (api_errors : ApiErrors)
    (meta : Meta) where
  abbrev r : HcloudFloatingIpReconciler FakeClient K
  r = fake_reconciler get_server_object api_errors meta

  abbrev holding :
      Map Int64 FloatingIpInfo → FloatingIpScope FakeClient K → FloatingIpScope FakeClient K
  holding m st = record st {
    world = record (st.world) { cloud = record (st.world.cloud) { floating_ips = m } };
  }

  -- The address of the status is gone, the others and the object are as they were.
  abbrev pub Removes :
      FloatingIpScope FakeClient K → Result (Unit {0}) × FloatingIpScope FakeClient K → Type 0
  Removes st out =
      (out.0 ≡ ok tt)
      × (lookup st.object.status.floating_ip_id out.1.world.cloud.floating_ips ≡ none)
      × ((id : Int64)
          → id ≢ st.object.status.floating_ip_id
          → lookup id out.1.world.cloud.floating_ips ≡ lookup id st.world.cloud.floating_ips)
      × (out.1.object ≡ st.object)

  removes :
      (m : Map Int64 FloatingIpInfo) (st : FloatingIpScope FakeClient K)
      → ((id : Int64)
          → id ≢ st.object.status.floating_ip_id
          → lookup id m ≡ lookup id st.world.cloud.floating_ips)
      → Removes st (ok tt, holding (delete st.object.status.floating_ip_id m) st)
  removes m st same =
      let k = st.object.status.floating_ip_id in
      (
        refl,
        ground (arith, lookup-delete k k m),
        λ id ne. ground (arith, lookup-delete k id m, same id ne),
        refl,
      )

  -- The deletion of a floating IP whose ID the status has ends without an error and removes it, and no
  -- other, whether or not it is assigned to a server; the object is as it was. It asks that the
  -- address is stored and that no error is injected into deletions.
  pub delete_hcloud_floating_ip-stored :
      (ip : FloatingIpInfo) (st : FloatingIpScope FakeClient K)
      → is_set st.object.status.floating_ip_id ≡ true
      → lookup st.object.status.floating_ip_id st.world.cloud.floating_ips ≡ some ip
      → st.world.cloud.delete_err ≡ none
      → Removes st (delete_hcloud_floating_ip r st)
  unfolding delete_hcloud_floating_ip unassign_floating_ip delete_floating_ip
  delete_hcloud_floating_ip-stored ip st set stored no_delete =
      let k = st.object.status.floating_ip_id in
      let m = st.world.cloud.floating_ips in
      let free = record ip { server_id = 0 } in
      elim (Bool-cases (is_set ip.server_id)) [
        | inl on ↦
            let e : delete_hcloud_floating_ip r st
                ≡ (ok tt, holding (delete k (insert k free m)) st) =
              ground (arith, set, stored, no_delete, on) in
            subst (Removes st) (sym e)
              (removes (insert k free m) st (λ id ne. ground (arith, lookup-insert m k free id)))
        | inr off ↦
            let e : delete_hcloud_floating_ip r st ≡ (ok tt, holding (delete k m) st) =
              ground (arith, set, stored, no_delete, off) in
            subst (Removes st) (sym e) (removes m st (λ id ne. refl))
      ]

  -- A floating IP that is gone from the cloud cannot be deleted: the deletion ends with the error of
  -- the unassignment, and changes neither the cloud nor the object, so that the next run ends in the
  -- same way. It asks that the status has the ID.
  pub delete_hcloud_floating_ip-gone :
      (st : FloatingIpScope FakeClient K)
      → is_set st.object.status.floating_ip_id ≡ true
      → lookup st.object.status.floating_ip_id st.world.cloud.floating_ips ≡ none
      → delete_hcloud_floating_ip r st ≡ (
        err (
            wrap (str "unassign floating IP before delete" ∷ []) (
              fail (
                str "fake: floating IP "
                ∷ num st.object.status.floating_ip_id
                ∷ str " not found"
                ∷ []))),
        st,
      )
  unfolding delete_hcloud_floating_ip unassign_floating_ip
  delete_hcloud_floating_ip-gone st set gone = ground arith
