-- ===== src/LoadBalancer/Settling.antt =====
-- A run over a load balancer that exists, against the in-memory cloud.
use hcloud_operator.Base.{
  ◌||◌, ◌≡◌, refl, sym, subst, ◌∙◌, none, some, List, [], ◌∷◌, ◌++◌, nat_eq, string_eq, arith,
  Bool-cases, inl, inr,
}
use hcloud_operator.Go.Fault.{Result, ok}
use hcloud_operator.Go.Integer.{Int64}
use hcloud_operator.Go.Map.{Map, lookup, insert}
use hcloud_operator.Go.Map.Laws.{lookup-insert_self}
use hcloud_operator.Go.Slice.{member, without}
use hcloud_operator.Hcloud.Types.{LoadBalancerInfo, ServerInfo}
use hcloud_operator.Fake.State.{FakeClient}
use hcloud_operator.Fake.LoadBalancers.{
  load_balancer_api, attach_server_to_load_balancer, detach_server_from_load_balancer,
}
use hcloud_operator.LoadBalancer.Controller.{
  LoadBalancerScope, HcloudLoadBalancerReconciler, attach_selected, detach_unselected,
}
use hcloud_operator.LoadBalancer.Targets.{attached, detached}

-- The cloud has the load balancer `lb`, and answers.
pub record Holds {S K : Type 0} (lb : LoadBalancerInfo) (st : LoadBalancerScope S FakeClient K)
    : Type 0 where
  pub stored : lookup lb.id st.world.cloud.load_balancers ≡ some lb
  pub no_get_err : st.world.cloud.get_err ≡ none

-- Every server of the list is there.
unfoldable pub AllThere : List Int64 → Map Int64 ServerInfo → Type 0
AllThere [] servers = Unit
AllThere (id ∷ ids) servers =
    ((info : ServerInfo) × (lookup id servers ≡ some info)) × AllThere ids servers

-- A step ends without an error, with `lb` stored; the object and the servers are as they were.
pub record Lands {S K : Type 0} (lb : LoadBalancerInfo) (st : LoadBalancerScope S FakeClient K)
    (out : Result (Unit {0}) × LoadBalancerScope S FakeClient K) : Type 0 where
  pub returned : out.0 ≡ ok tt
  pub holds : Holds lb out.1
  pub same_object : out.1.object ≡ st.object
  pub same_servers : out.1.world.cloud.servers ≡ st.world.cloud.servers

abbrev pub with_targets : List Int64 → LoadBalancerInfo → LoadBalancerInfo
with_targets targets lb = record lb { targets = targets }

module _ {S K : Type 0} (base : HcloudLoadBalancerReconciler S FakeClient K) where
  abbrev pub fake_reconciler : HcloudLoadBalancerReconciler S FakeClient K
  fake_reconciler = record base { hcloud_client = load_balancer_api }

  abbrev in_place :
      LoadBalancerInfo → LoadBalancerScope S FakeClient K → LoadBalancerScope S FakeClient K
  in_place lb st = record st {
    world = record (st.world) {
      cloud = record (st.world.cloud) {
        load_balancers = insert lb.id lb st.world.cloud.load_balancers;
      };
    };
  }

  stores :
      (lb : LoadBalancerInfo) (st : LoadBalancerScope S FakeClient K)
      → st.world.cloud.get_err ≡ none
      → Holds lb (in_place lb st)
  stores lb st h = record {
    stored = lookup-insert_self lb.id lb st.world.cloud.load_balancers;
    no_get_err = h;
  }

  -- What lands after a first step lands as a whole.
  carry :
      (w w' : LoadBalancerInfo) (st st' : LoadBalancerScope S FakeClient K)
      (out out' : Result (Unit {0}) × LoadBalancerScope S FakeClient K)
      → Lands w st' out
      → st'.object ≡ st.object
      → st'.world.cloud.servers ≡ st.world.cloud.servers
      → w' ≡ w
      → out' ≡ out
      → Lands w' st out'
  carry w w' st st' out out' h o s e path =
      subst (λ x. Lands x st out') (sym e)
        (subst (Lands w st) (sym path) (record {
          returned = h.returned;
          holds = h.holds;
          same_object = h.same_object ∙ o;
          same_servers = h.same_servers ∙ s;
        }))

  pub attach-Lands :
      (current ids : List Int64) (lb : LoadBalancerInfo) (st : LoadBalancerScope S FakeClient K)
      → Holds lb st
      → AllThere ids st.world.cloud.servers
      → Lands
          (with_targets (attached current ids lb.targets) lb)
          st
          (attach_selected fake_reconciler lb.id current ids st)
  unfolding attach_selected attached AllThere attach_server_to_load_balancer
  attach-Lands current [] lb st h there = record {
    returned = refl;
    holds = h;
    same_object = refl;
    same_servers = refl;
  }
  attach-Lands current (id ∷ ids) lb st h there =
      elim (Bool-cases (member id current || member id lb.targets)) [
        | inl known ↦
            let rest = attach-Lands current ids lb st h there.1 in
            carry _ _ st st _ _ rest refl refl (ground (arith, known))
              (ground (arith, known, there.0.1, h.stored))
        | inr new ↦
            let w = with_targets (lb.targets ++ id ∷ []) lb in
            let st' = in_place w st in
            let rest = attach-Lands current ids w st' (stores w st h.no_get_err) there.1 in
            carry _ _ st st' _ _ rest refl refl (ground (arith, new))
              (ground (arith, new, there.0.1, h.stored))
      ]

  pub detach-Lands :
      (selected ids : List Int64) (lb : LoadBalancerInfo) (st : LoadBalancerScope S FakeClient K)
      → Holds lb st
      → Lands
          (with_targets (detached selected ids lb.targets) lb)
          st
          (detach_unselected fake_reconciler lb.id selected ids st)
  unfolding detach_unselected detached detach_server_from_load_balancer
  detach-Lands selected [] lb st h = record {
    returned = refl;
    holds = h;
    same_object = refl;
    same_servers = refl;
  }
  detach-Lands selected (id ∷ ids) lb st h = elim (Bool-cases (member id selected)) [
    | inl wanted ↦
        let rest = detach-Lands selected ids lb st h in
        carry _ _ st st _ _ rest refl refl (ground (arith, wanted)) (ground (arith, wanted))
    | inr unwanted ↦
        let w = with_targets (without id lb.targets) lb in
        let st' = in_place w st in
        let rest = detach-Lands selected ids w st' (stores w st h.no_get_err) in
        carry _ _ st st' _ _ rest refl refl (ground (arith, unwanted))
          (ground (arith, unwanted, h.stored))
  ]
