-- ===== src/LoadBalancer/Provisioning.antt =====
-- A whole run over a load balancer that exists, once the servers and the services are known.
use hcloud_operator.Base.{
  true, ◌≡◌, refl, sym, subst, ◌∙◌, some, List, [], ◌∷◌, ◌++◌, nat_eq, string_eq, arith, Bool-cases,
  inl, inr,
}
use hcloud_operator.Go.Fault.{Result, ok, str}
use hcloud_operator.Go.Action.{◌>>◌}
use hcloud_operator.Go.Action.Outcome.{continue_ok}
use hcloud_operator.Go.Integer.{Int64, is_set, lt_int}
use hcloud_operator.Go.Map.{Map, lookup}
use hcloud_operator.Go.Map.Laws.{lookup-insert_self}
use hcloud_operator.Go.Slice.{member, sort_by}
use hcloud_operator.Kube.Condition.{Condition, condition_true}
use hcloud_operator.Hcloud.Types.{LoadBalancerInfo, LoadBalancerServiceInfo, ServerInfo}
use hcloud_operator.Fake.State.{FakeClient}
use hcloud_operator.Fake.LoadBalancers.{get_load_balancer, sync_load_balancer_services}
use hcloud_operator.Server.State.{condition_type_ready}
use hcloud_operator.LoadBalancer.Controller.{
  LoadBalancerScope, HcloudLoadBalancerReconciler, id_set, attach_selected, detach_unselected,
  publish_services, finish_load_balancer, settle_load_balancer, fetch_by_id, fetch_by_name,
  create_missing, reconcile_load_balancer_with_services,
}
use hcloud_operator.LoadBalancer.Targets.{attached, retargeted, member-retargeted}
use hcloud_operator.LoadBalancer.Settling.{
  Holds, AllThere, with_targets, fake_reconciler, attach-Lands, detach-Lands,
}

AllThere-end :
    (acc : List Int64) (id : Int64) (servers : Map Int64 ServerInfo)
    → AllThere acc servers
    → ((info : ServerInfo) × (lookup id servers ≡ some info))
    → AllThere (acc ++ id ∷ []) servers
unfolding AllThere
AllThere-end [] id servers h there = (there, tt)
AllThere-end (x ∷ acc) id servers h there = (h.0, AllThere-end acc id servers h.1 there)

AllThere-id_set :
    (ids acc : List Int64) (servers : Map Int64 ServerInfo)
    → AllThere ids servers
    → AllThere acc servers
    → AllThere (id_set ids acc) servers
unfolding AllThere id_set
AllThere-id_set [] acc servers h k = k
AllThere-id_set (id ∷ ids) acc servers h k = elim (Bool-cases (member id acc)) [
  | inl known ↦
      subst (λ a. AllThere (id_set ids a) servers) (ground (arith, known))
        (AllThere-id_set ids acc servers h.1 k)
  | inr new ↦
      subst (λ a. AllThere (id_set ids a) servers) (ground (arith, new))
        (AllThere-id_set ids (acc ++ id ∷ []) servers h.1 (AllThere-end acc id servers k h.0))
]

abbrev pub ready_condition : Condition
ready_condition = record {
  type = condition_type_ready;
  status = condition_true;
  reason = "LoadBalancerReady";
  message = str "Load balancer is provisioned and targets are in sync" ∷ [];
}

-- The stored load balancer after a run.
abbrev pub settled : List Int64 → List LoadBalancerServiceInfo → LoadBalancerInfo → LoadBalancerInfo
settled selected services lb = record (with_targets (retargeted selected lb.targets) lb) {
  services = services;
}

module _ {S K : Type 0} (base : HcloudLoadBalancerReconciler S FakeClient K) where
  open base use {meta}

  abbrev r : HcloudLoadBalancerReconciler S FakeClient K
  r = fake_reconciler base

  -- A run ends without an error, with `lb` stored, told in the status, and Ready.
  pub record Provisioned (lb : LoadBalancerInfo) (st : LoadBalancerScope S FakeClient K)
      (out : Result (Unit {0}) × LoadBalancerScope S FakeClient K) : Type 0 where
    pub returned : out.0 ≡ ok tt
    pub holds : Holds lb out.1
    pub same_spec : out.1.object.spec ≡ st.object.spec
    pub load_balancer_id : out.1.object.status.load_balancer_id ≡ lb.id
    pub attached_server_ids : out.1.object.status.attached_server_ids ≡ sort_by lt_int lb.targets
    pub ready :
        meta.find_status_condition out.1.object.status.conditions condition_type_ready
        ≡ some ready_condition

  publish-Provisioned :
      (services : List LoadBalancerServiceInfo) (lb : LoadBalancerInfo)
      (st st' : LoadBalancerScope S FakeClient K)
      → Holds lb st'
      → st'.object ≡ st.object
      → Provisioned (record lb { services = services }) st (publish_services r lb.id services st')
  unfolding publish_services sync_load_balancer_services get_load_balancer finish_load_balancer
  publish-Provisioned services lb st st' h same =
      let w = record lb { services = services } in
      let self = lookup-insert_self lb.id w st'.world.cloud.load_balancers in
      record {
        returned = ground (arith, h.stored, h.no_get_err, self);
        holds = record {
          stored = ground (arith, h.stored, h.no_get_err, self);
          no_get_err = ground (arith, h.stored, h.no_get_err, self);
        };
        same_spec = ground (arith, h.stored, h.no_get_err, self, same);
        load_balancer_id = ground (arith, h.stored, h.no_get_err, self);
        attached_server_ids = ground (arith, h.stored, h.no_get_err, self);
        ready = ground (
          arith,
          h.stored,
          h.no_get_err,
          self,
          meta.find-set_self st'.object.status.conditions ready_condition,
        );
      }

  settle-Provisioned :
      (selected : List Int64) (services : List LoadBalancerServiceInfo) (lb : LoadBalancerInfo)
      (st : LoadBalancerScope S FakeClient K)
      → Holds lb st
      → AllThere selected st.world.cloud.servers
      → Provisioned
          (settled selected services lb)
          st
          (settle_load_balancer r selected services lb st)
  unfolding settle_load_balancer AllThere
  settle-Provisioned selected services lb st h there =
      let cur = id_set lb.targets [] in
      let sel = id_set selected [] in
      let lb1 = with_targets (attached cur sel lb.targets) lb in
      let lb2 = with_targets (retargeted selected lb.targets) lb in
      let one =
        attach-Lands base cur sel lb st h
          (AllThere-id_set selected [] st.world.cloud.servers there tt) in
      let st1 = (attach_selected r lb.id cur sel st).1 in
      let two = detach-Lands base sel cur lb1 st1 one.holds in
      let st2 = (detach_unselected r lb.id sel cur st1).1 in
      let path : settle_load_balancer r selected services lb st
          ≡ publish_services r lb.id services st2 =
        continue_ok
          (λ (_ : Unit {0}). detach_unselected r lb.id sel cur >> publish_services r lb.id services)
          (attach_selected r lb.id cur sel st) tt one.returned
        ∙ continue_ok (λ (_ : Unit {0}). publish_services r lb.id services)
            (detach_unselected r lb.id sel cur st1) tt two.returned in
      subst (Provisioned (settled selected services lb) st) (sym path)
        (publish-Provisioned services lb2 st st2 two.holds (two.same_object ∙ one.same_object))

  fetched :
      (selected : List Int64) (services : List LoadBalancerServiceInfo) (lb : LoadBalancerInfo)
      (st : LoadBalancerScope S FakeClient K)
      → Holds lb st
      → st.object.status.load_balancer_id ≡ lb.id
      → is_set lb.id ≡ true
      → reconcile_load_balancer_with_services r selected services st
        ≡ settle_load_balancer r selected services lb st
  unfolding reconcile_load_balancer_with_services fetch_by_id fetch_by_name create_missing
      get_load_balancer
  fetched selected services lb st h e set = ground (arith, h.stored, h.no_get_err, e, set)

  -- A run over a load balancer that the status names ends without an error: its targets are then
  -- exactly the selected servers, its services the desired ones, the status tells its targets in
  -- order, and Ready is True. It asks that every selected server is in the cloud, and that reads do
  -- not fail.
  pub reconcile_load_balancer_with_services-Provisioned :
      (selected : List Int64) (services : List LoadBalancerServiceInfo) (lb : LoadBalancerInfo)
      (st : LoadBalancerScope S FakeClient K)
      → Holds lb st
      → st.object.status.load_balancer_id ≡ lb.id
      → is_set lb.id ≡ true
      → AllThere selected st.world.cloud.servers
      → let lb' = settled selected services lb in
        Provisioned lb' st (reconcile_load_balancer_with_services r selected services st)
        × (lb'.services ≡ services)
        × ((id : Int64) → member id lb'.targets ≡ member id selected)
  reconcile_load_balancer_with_services-Provisioned selected services lb st h e set there = (
    subst (Provisioned (settled selected services lb) st)
        (sym (fetched selected services lb st h e set))
        (settle-Provisioned selected services lb st h there),
    refl,
    λ id. member-retargeted id selected lb.targets,
  )
