-- ===== src/Network/Provisioning.antt =====
-- A whole run over a network that exists, against the in-memory cloud.
use hcloud_operator.Base.{
  Bool, true, ◌||◌, ◌≡◌, refl, sym, subst, ap, ◌∙◌, Option, some, [], ◌∷◌, String, string_eq,
  nat_eq, arith,
}
use hcloud_operator.Go.Fault.{Fault, Result, ok, str}
use hcloud_operator.Go.Action.Outcome.{continue_ok}
use hcloud_operator.Go.Integer.{is_set}
use hcloud_operator.Go.Slice.{member, sort_by}
use hcloud_operator.Go.Slice.Laws.{member-sort_by}
use hcloud_operator.Kube.Condition.{Condition, Meta, condition_true}
use hcloud_operator.Kube.Client.{Client, Retry}
use hcloud_operator.Hcloud.Types.{NetworkInfo}
use hcloud_operator.Fake.State.{FakeClient}
use hcloud_operator.Fake.Networks.{get_network}
use hcloud_operator.V1alpha1.Network.{HcloudNetwork, HcloudNetworkSpec}
use hcloud_operator.Server.State.{condition_type_ready}
use hcloud_operator.Network.State.{HcloudNetworkReconciler, NetworkScope}
use hcloud_operator.Network.Controller.{
  fetch_by_id, fetch_by_name, create_missing, add_subnets, settle_network, sync_network_status,
  reconcile_hcloud_network,
}
use hcloud_operator.Network.Subnets.{
  add_subnets_done, Holds, fake_reconciler, with_zones, member-with_zones, with_zones_identity,
  add_subnets-Lands,
}

abbrev pub ready_condition : Condition
ready_condition = record {
  type = condition_type_ready;
  status = condition_true;
  reason = "NetworkReady";
  message = str "Private network is provisioned" ∷ [];
}

-- A run ends without an error, with the network `n` stored and its zones, in order, in the status.
pub record Provisioned {K : Type 0} (string_less : String → String → Bool) (meta : Meta)
    (n : NetworkInfo) (st : NetworkScope FakeClient K)
    (out : Result (Unit {0}) × NetworkScope FakeClient K) : Type 0 where
  pub returned : out.0 ≡ ok tt
  pub holds : Holds n out.1
  pub same_spec : out.1.object.spec ≡ st.object.spec
  pub network_id : out.1.object.status.network_id ≡ n.id
  pub zones_known : out.1.object.status.subnet_zones ≡ sort_by string_less n.subnet_zones
  pub ready :
      meta.find_status_condition out.1.object.status.conditions condition_type_ready
      ≡ some ready_condition

module _ {K : Type 0} (string_less : String → String → Bool) (cidr_error : String → Option Fault)
    (client : Client K HcloudNetwork) (retry : Retry K) (meta : Meta) where
  abbrev r : HcloudNetworkReconciler FakeClient K
  r = fake_reconciler string_less cidr_error client retry meta

  sync-Provisioned :
      (n : NetworkInfo) (st st' : NetworkScope FakeClient K)
      → Holds n st'
      → st'.object ≡ st.object
      → Provisioned string_less meta n st (sync_network_status r n st')
  unfolding sync_network_status
  sync-Provisioned n st st' h o = record {
    returned = refl;
    holds = record { stored = h.stored; no_get_err = h.no_get_err };
    same_spec = ap (λ (x : HcloudNetwork). x.spec) o;
    network_id = refl;
    zones_known = refl;
    ready = meta.find-set_self st'.object.status.conditions ready_condition;
  }

  settle-Provisioned :
      (n : NetworkInfo) (st : NetworkScope FakeClient K)
      → Holds n st
      → Provisioned string_less meta
          (with_zones string_less st.object.spec.network_zones n)
          st
          (settle_network r n st)
  unfolding settle_network
  settle-Provisioned n st h =
      let zones = st.object.spec.network_zones in
      let n' = with_zones string_less zones n in
      let loop = add_subnets-Lands string_less cidr_error client retry meta zones n st h in
      subst (Provisioned string_less meta n' st)
        (sym (continue_ok (sync_network_status r) (add_subnets r zones n st) n' loop.returned))
        (sync-Provisioned n' st (add_subnets r zones n st).1 loop.holds loop.same_object)

  owned_settles :
      (n : NetworkInfo) (st : NetworkScope FakeClient K)
      → Holds n st
      → st.object.status.network_id ≡ n.id
      → is_set n.id ≡ true
      → reconcile_hcloud_network r st ≡ settle_network r n st
  unfolding reconcile_hcloud_network fetch_by_id fetch_by_name create_missing get_network
  owned_settles n st h known set = ground (arith, h.stored, h.no_get_err)

  owned-Provisioned :
      (n : NetworkInfo) (st : NetworkScope FakeClient K)
      → Holds n st
      → st.object.status.network_id ≡ n.id
      → is_set n.id ≡ true
      → Provisioned string_less meta
          (with_zones string_less st.object.spec.network_zones n)
          st
          (reconcile_hcloud_network r st)
  owned-Provisioned n st h known set =
      subst
        (Provisioned string_less meta (with_zones string_less st.object.spec.network_zones n) st)
        (sym (owned_settles n st h known set)) (settle-Provisioned n st h)

  -- A run over a network that exists ends without an error: the cloud then holds it with exactly the
  -- zones that it had or that the spec lists, the status lists the same zones in order, and Ready is
  -- True. It asks that the status names the network and that reads do not fail.
  pub reconcile_hcloud_network-zones :
      (n : NetworkInfo) (st : NetworkScope FakeClient K)
      → Holds n st
      → st.object.status.network_id ≡ n.id
      → is_set n.id ≡ true
      → let n' = with_zones string_less st.object.spec.network_zones n in
        Provisioned string_less meta n' st (reconcile_hcloud_network r st)
        × ((z : String)
            → member z n'.subnet_zones
              ≡ (member z n.subnet_zones || member z st.object.spec.network_zones))
        × ((z : String)
            → member z (reconcile_hcloud_network r st).1.object.status.subnet_zones
              ≡ member z n'.subnet_zones)
  reconcile_hcloud_network-zones n st h known set =
      let p = owned-Provisioned n st h known set in
      let n' = with_zones string_less st.object.spec.network_zones n in
      (
        p,
        λ z. member-with_zones string_less z st.object.spec.network_zones n,
        λ z. ap (member z) p.zones_known ∙ member-sort_by string_less z n'.subnet_zones,
      )

  settle_done :
      (n : NetworkInfo) (st : NetworkScope FakeClient K)
      → ((z : String)
          → member z st.object.spec.network_zones ≡ true
          → member z n.subnet_zones ≡ true)
      → (settle_network r n st).1.world.cloud ≡ st.world.cloud
  unfolding settle_network sync_network_status
  settle_done n st h = ground (
    arith,
    add_subnets_done string_less cidr_error client retry meta st.object.spec.network_zones n st h,
  )

  -- A second run leaves the cloud of the first exactly as it is, and ends without an error.
  pub reconcile_hcloud_network_again :
      (n : NetworkInfo) (st : NetworkScope FakeClient K)
      → Holds n st
      → st.object.status.network_id ≡ n.id
      → is_set n.id ≡ true
      → let once = (reconcile_hcloud_network r st).1 in
        ((reconcile_hcloud_network r once).0 ≡ ok tt)
        × ((reconcile_hcloud_network r once).1.world.cloud ≡ once.world.cloud)
  reconcile_hcloud_network_again n st h known set =
      let first = owned-Provisioned n st h known set in
      let zones = st.object.spec.network_zones in
      let n' = with_zones string_less zones n in
      let once = (reconcile_hcloud_network r st).1 in
      let set' : is_set n'.id ≡ true =
        ap is_set (with_zones_identity string_less zones n).0 ∙ set in
      let present : (z : String)
          → member z once.object.spec.network_zones ≡ true
          → member z n'.subnet_zones ≡ true =
        λ z k. ground (
          arith,
          member-with_zones string_less z zones n,
          ap (λ (o : HcloudNetworkSpec). member z o.network_zones) first.same_spec,
        ) in
      (
        (owned-Provisioned n' once first.holds first.network_id set').returned,
        ap (λ out. out.1.world.cloud) (owned_settles n' once first.holds first.network_id set')
            ∙ settle_done n' once present,
      )
