-- ===== src/Fake/LoadBalancers.antt =====
-- The load balancer methods of FakeClient.
use hcloud_operator.Base.{
  Bool, Option, List, [], ◌∷◌, ◌++◌, String, ◌==◌, string_eq, nat_eq, if◌then◌else◌,
}
use hcloud_operator.Go.Fault.{ok, fail, str, quoted, num}
use hcloud_operator.Go.Action.{Action, pure, raise}
use hcloud_operator.Go.Map.{lookup, insert, delete, find_value}
use hcloud_operator.Go.Slice.{member, without}
use hcloud_operator.Go.Integer.{Int64, increment}
use hcloud_operator.Hcloud.Types.{LoadBalancerInfo, LoadBalancerCreateOpts, LoadBalancerServiceInfo}
use hcloud_operator.Hcloud.Api.{LoadBalancerApi}
use hcloud_operator.Fake.State.{FakeClient, injected, found}

abbrev pub load_balancer_named : String → LoadBalancerInfo → Bool
load_balancer_named name lb = lb.name == name

unfoldable pub get_load_balancer : Int64 → Action FakeClient (Option LoadBalancerInfo)
get_load_balancer id f = injected f.get_err (λ f'. (ok (lookup id f'.load_balancers), f')) f

unfoldable pub get_load_balancer_by_name : String → Action FakeClient (Option LoadBalancerInfo)
get_load_balancer_by_name name f =
    injected f.get_err (λ f'. (ok (find_value (load_balancer_named name) f'.load_balancers), f')) f

abbrev pub new_load_balancer : Int64 → LoadBalancerCreateOpts → LoadBalancerInfo
new_load_balancer id opts = record {
  id = id;
  name = opts.name;
  public_ipv4 = str "5.6.7." ∷ num id ∷ [];
  public_ipv6 = str "2001:db8:1::" ∷ num id ∷ [];
  targets = [];
  services = [];
}

unfoldable pub create_load_balancer : LoadBalancerCreateOpts → Action FakeClient LoadBalancerInfo
create_load_balancer opts f =
    injected f.create_err
      (λ f'.
        found (find_value (load_balancer_named opts.name) f'.load_balancers)
          (λ g.
            let info = new_load_balancer g.next_id opts in
            (
              ok info,
              record g {
                load_balancers = insert g.next_id info g.load_balancers;
                next_id = increment g.next_id;
              },
            ))
          (λ _. raise (
            fail (
              str "fake: load balancer with name "
              ∷ quoted opts.name
              ∷ str " already exists"
              ∷ [])))
          f')
      f

unfoldable pub delete_load_balancer : Int64 → Action FakeClient (Unit {0})
delete_load_balancer id f =
    injected f.delete_err
      (λ f'. (ok tt, record f' { load_balancers = delete id f'.load_balancers })) f

abbrev pub load_balancer_missing : Int64 → Action FakeClient (Unit {0})
load_balancer_missing id =
    raise (fail (str "fake: load balancer " ∷ num id ∷ str " not found" ∷ []))

-- A change of a stored load balancer, which the map holds by pointer.
abbrev pub store_load_balancer : Int64 → LoadBalancerInfo → Action FakeClient (Unit {0})
store_load_balancer id lb f = (ok tt, record f { load_balancers = insert id lb f.load_balancers })

unfoldable pub attach_server_to_load_balancer : Int64 → Int64 → Action FakeClient (Unit {0})
attach_server_to_load_balancer id server_id f =
    found (lookup id f.load_balancers) (load_balancer_missing id)
      (λ lb.
        found (lookup server_id f.servers)
          (raise (fail (str "fake: server " ∷ num server_id ∷ str " not found" ∷ [])))
          (λ _.
            if member server_id lb.targets
            then pure tt
            else store_load_balancer id (record lb { targets = lb.targets ++ server_id ∷ [] })))
      f

unfoldable pub detach_server_from_load_balancer : Int64 → Int64 → Action FakeClient (Unit {0})
detach_server_from_load_balancer id server_id f =
    found (lookup id f.load_balancers) (load_balancer_missing id)
      (λ lb. store_load_balancer id (record lb { targets = without server_id lb.targets })) f

unfoldable pub sync_load_balancer_services :
    Int64 → List LoadBalancerServiceInfo → Action FakeClient (Unit {0})
sync_load_balancer_services id desired f =
    found (lookup id f.load_balancers) (load_balancer_missing id)
      (λ lb. store_load_balancer id (record lb { services = desired })) f

abbrev pub load_balancer_api : LoadBalancerApi FakeClient
load_balancer_api = record {
  get_load_balancer = get_load_balancer;
  get_load_balancer_by_name = get_load_balancer_by_name;
  create_load_balancer = create_load_balancer;
  delete_load_balancer = delete_load_balancer;
  attach_server_to_load_balancer = attach_server_to_load_balancer;
  detach_server_from_load_balancer = detach_server_from_load_balancer;
  sync_load_balancer_services = sync_load_balancer_services;
}
