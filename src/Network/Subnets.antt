-- ===== src/Network/Subnets.antt =====
-- The loop over the zones of the spec, against the in-memory cloud.
use hcloud_operator.Base.{
  Bool, true, false, ◌||◌, ◌≡◌, refl, sym, subst, ap, ◌∙◌, Option, none, some, List, [], ◌∷◌, ◌++◌,
  String, ◌==◌, string_eq, nat_eq, arith, if◌then◌else◌, Bool-cases, inl, inr,
}
use hcloud_operator.Go.Fault.{Fault, Result, ok}
use hcloud_operator.Go.Action.{continue}
use hcloud_operator.Go.Action.Outcome.{continue_ok}
use hcloud_operator.Go.Slice.{member, sort_by}
use hcloud_operator.Go.Slice.Laws.{member-sort_by, member-append_single}
use hcloud_operator.Go.Map.{lookup, insert}
use hcloud_operator.Go.Map.Laws.{lookup-insert_self}
use hcloud_operator.Kube.Condition.{Meta}
use hcloud_operator.Kube.Client.{Client, Retry}
use hcloud_operator.Hcloud.Types.{NetworkInfo}
use hcloud_operator.Fake.State.{FakeClient}
use hcloud_operator.Fake.Networks.{network_api, get_network, add_network_cloud_subnet}
use hcloud_operator.V1alpha1.Network.{HcloudNetwork}
use hcloud_operator.Network.State.{HcloudNetworkReconciler, NetworkScope}
use hcloud_operator.Network.Controller.{add_subnet, add_subnets}

-- The network `n` is stored under its ID, and reads of the cloud do not fail.
pub record Holds {K : Type 0} (n : NetworkInfo) (st : NetworkScope FakeClient K) : Type 0 where
  pub stored : lookup n.id st.world.cloud.networks ≡ some n
  pub no_get_err : st.world.cloud.get_err ≡ none

-- A step answers the network that it leaves stored, and the object is as it was.
pub record Lands {K : Type 0} (n : NetworkInfo) (st : NetworkScope FakeClient K)
    (out : Result NetworkInfo × NetworkScope FakeClient K) : Type 0 where
  pub returned : out.0 ≡ ok n
  pub holds : Holds n out.1
  pub same_object : out.1.object ≡ st.object

module _ (string_less : String → String → Bool) where
  abbrev pub zoned : String → NetworkInfo → NetworkInfo
  zoned zone n = record n { subnet_zones = sort_by string_less (n.subnet_zones ++ zone ∷ []) }

  -- The network with the zones added that it has not, one after the other.
  pub with_zones : List String → NetworkInfo → NetworkInfo
  with_zones [] n = n
  with_zones (zone ∷ zones) n =
      with_zones zones (if member zone n.subnet_zones then n else zoned zone n)

  member-zoned :
      (z zone : String) (n : NetworkInfo)
      → member z (zoned zone n).subnet_zones ≡ (zone == z || member z n.subnet_zones)
  member-zoned z zone n =
      member-sort_by string_less z (n.subnet_zones ++ zone ∷ [])
      ∙ member-append_single z zone n.subnet_zones

  -- A zone is in the result if it was there or is asked for.
  pub member-with_zones :
      (z : String) (zones : List String) (n : NetworkInfo)
      → member z (with_zones zones n).subnet_zones ≡ (member z n.subnet_zones || member z zones)
  unfolding with_zones member
  member-with_zones z [] n = ground arith
  member-with_zones z (zone ∷ zones) n =
      member-with_zones z zones (if member zone n.subnet_zones then n else zoned zone n)
      ∙ ground (arith, member-zoned z zone n, string_eq.same_iff zone z)

  pub with_zones_identity :
      (zones : List String) (n : NetworkInfo)
      → ((with_zones zones n).id ≡ n.id)
        × ((with_zones zones n).name ≡ n.name)
        × ((with_zones zones n).ip_range ≡ n.ip_range)
  unfolding with_zones
  with_zones_identity [] n = (refl, refl, refl)
  with_zones_identity (zone ∷ zones) n =
      ground (arith, with_zones_identity zones n, with_zones_identity zones (zoned zone n))

  -- A network that has all the zones stays as it is.
  pub with_zones_done :
      (zones : List String) (n : NetworkInfo)
      → ((z : String) → member z zones ≡ true → member z n.subnet_zones ≡ true)
      → with_zones zones n ≡ n
  unfolding with_zones member
  with_zones_done [] n h = refl
  with_zones_done (zone ∷ zones) n h =
      let here : member zone n.subnet_zones ≡ true =
        h zone (ground (arith, string_eq.same_iff zone zone)) in
      let rest = with_zones_done zones n (λ z k. h z (ground arith)) in ground arith

module _ {K : Type 0} (string_less : String → String → Bool) (cidr_error : String → Option Fault)
    (client : Client K HcloudNetwork) (retry : Retry K) (meta : Meta) where
  abbrev pub fake_reconciler : HcloudNetworkReconciler FakeClient K
  fake_reconciler = record {
    hcloud_client = network_api string_less cidr_error;
    client = client;
    retry_on_conflict = retry;
    meta = meta;
    string_less = string_less;
  }

  abbrev in_place : NetworkInfo → NetworkScope FakeClient K → NetworkScope FakeClient K
  in_place n st = record st {
    world = record (st.world) {
      cloud = record (st.world.cloud) { networks = insert n.id n st.world.cloud.networks };
    };
  }

  add_new :
      (zone : String) (n : NetworkInfo) (st : NetworkScope FakeClient K)
      → Holds n st
      → member zone n.subnet_zones ≡ false
      → let n' = zoned string_less zone n in
        add_subnet fake_reconciler zone n st ≡ (ok n', in_place n' st)
  unfolding add_subnet get_network add_network_cloud_subnet
  add_new zone n st h new =
      let n' = zoned string_less zone n in
      ground (arith, h.stored, h.no_get_err, lookup-insert_self n.id n' st.world.cloud.networks)

  add_present :
      (zone : String) (n : NetworkInfo) (st : NetworkScope FakeClient K)
      → member zone n.subnet_zones ≡ true
      → add_subnet fake_reconciler zone n st ≡ (ok n, st)
  unfolding add_subnet
  add_present zone n st old = ground arith

  lands :
      (n : NetworkInfo) (st st' : NetworkScope FakeClient K)
      → (out : Result NetworkInfo × NetworkScope FakeClient K) → out ≡ (ok n, st')
      → Holds n st'
      → st'.object ≡ st.object
      → Lands n st out
  lands n st st' out e h o =
      subst (Lands n st) (sym e) (record { returned = refl; holds = h; same_object = o })

  step-Lands :
      (zone : String) (n : NetworkInfo) (st : NetworkScope FakeClient K)
      → Holds n st
      → Lands
          (if member zone n.subnet_zones then n else zoned string_less zone n)
          st
          (add_subnet fake_reconciler zone n st)
  step-Lands zone n st h = elim (Bool-cases (member zone n.subnet_zones)) [
    | inl old ↦
        let e : (if member zone n.subnet_zones then n else zoned string_less zone n) ≡ n =
          ground arith in
        subst (λ m. Lands m st (add_subnet fake_reconciler zone n st)) (sym e)
          (lands n st st (add_subnet fake_reconciler zone n st) (add_present zone n st old) h refl)
    | inr new ↦
        let n' = zoned string_less zone n in
        let e : (if member zone n.subnet_zones then n else n') ≡ n' = ground arith in
        subst (λ m. Lands m st (add_subnet fake_reconciler zone n st)) (sym e)
          (lands n' st (in_place n' st) (add_subnet fake_reconciler zone n st)
            (add_new zone n st h new)
            (record {
              stored = lookup-insert_self n.id n' st.world.cloud.networks;
              no_get_err = h.no_get_err;
            })
            refl)
  ]

  -- The loop ends without an error, whatever zones are asked for: it answers the network with the
  -- zones added that it had not, which is also what the cloud then holds.
  pub add_subnets-Lands :
      (zones : List String) (n : NetworkInfo) (st : NetworkScope FakeClient K)
      → Holds n st
      → Lands (with_zones string_less zones n) st (add_subnets fake_reconciler zones n st)
  unfolding add_subnets with_zones
  add_subnets-Lands [] n st h = record { returned = refl; holds = h; same_object = refl }
  add_subnets-Lands (zone ∷ zones) n st h =
      let n' = if member zone n.subnet_zones then n else zoned string_less zone n in
      let one = step-Lands zone n st h in
      let st' = (add_subnet fake_reconciler zone n st).1 in
      let rest = add_subnets-Lands zones n' st' one.holds in
      subst (Lands (with_zones string_less zones n') st)
        (sym (
          continue_ok (add_subnets fake_reconciler zones) (add_subnet fake_reconciler zone n st) n'
            one.returned))
        (record {
          returned = rest.returned;
          holds = rest.holds;
          same_object = rest.same_object ∙ one.same_object;
        })

  -- The loop calls nothing of the cloud for a network that has all the zones.
  pub add_subnets_done :
      (zones : List String) (n : NetworkInfo) (st : NetworkScope FakeClient K)
      → ((z : String) → member z zones ≡ true → member z n.subnet_zones ≡ true)
      → add_subnets fake_reconciler zones n st ≡ (ok n, st)
  unfolding add_subnets member
  add_subnets_done [] n st h = refl
  add_subnets_done (zone ∷ zones) n st h =
      let here : member zone n.subnet_zones ≡ true =
        h zone (ground (arith, string_eq.same_iff zone zone)) in
      let rest = add_subnets_done zones n st (λ z k. h z (ground arith)) in
      ap (continue (add_subnets fake_reconciler zones)) (add_present zone n st here) ∙ rest
