-- ===== src/LoadBalancer/Examples.antt =====
-- The theorem of the load balancer controller at a concrete cloud.
use hcloud_operator.Base.{String, ◌≡◌, refl, [], ◌∷◌, none, true, false, string_eq, nat_eq}
use hcloud_operator.Go.Fault.{foreign}
use hcloud_operator.Go.Action.{pure, raise}
use hcloud_operator.Go.Integer.{Int64}
use hcloud_operator.Go.Map.{lookup}
use hcloud_operator.Go.Slice.{member}
use hcloud_operator.Kube.Concrete.{plain_meta}
use hcloud_operator.Kube.Cluster.{plain_errors}
use hcloud_operator.Hcloud.Types.{LoadBalancerInfo, LoadBalancerServiceInfo, ServerInfo}
use hcloud_operator.Fake.State.{FakeClient, new_fake_client}
use hcloud_operator.Fake.Certificates.{certificate_api}
use hcloud_operator.Fake.LoadBalancers.{load_balancer_api}
use hcloud_operator.V1alpha1.LoadBalancer.{HcloudLoadBalancer}
use hcloud_operator.LoadBalancer.Controller.{
  LoadBalancerScope, HcloudLoadBalancerReconciler, reconcile_load_balancer_with_services,
}
use hcloud_operator.LoadBalancer.Settling.{Holds, AllThere, fake_reconciler}
use hcloud_operator.LoadBalancer.Provisioning.{
  Provisioned, settled, reconcile_load_balancer_with_services-Provisioned,
}

abbrev server : Int64 → ServerInfo
server id = record {
  id = id;
  name = "web";
  server_type = "cx22";
  state = "running";
  public_ipv4 = [];
  public_ipv6 = [];
  network_ids = [];
  placement_group_id = 0;
}

-- A selector is a text here.
abbrev object : HcloudLoadBalancer String
object = record {
  metadata = record {
    name = "edge";
    deleting = false;
    finalizers = [];
    resource_version = "1";
    labels = none;
  };
  spec = record {
    load_balancer_type = "lb11";
    location = "fsn1";
    network_zone = "";
    algorithm = "round_robin";
    server_selector = none;
    labels = none;
    services = [];
  };
  status = record {
    load_balancer_id = 9;
    public_ipv4 = [];
    public_ipv6 = [];
    attached_server_ids = [];
    conditions = [];
  };
}

abbrev balancer : LoadBalancerInfo
balancer = record {
  id = 9;
  name = "edge";
  public_ipv4 = [];
  public_ipv6 = [];
  targets = 1 ∷ 2 ∷ [];
  services = [];
}

abbrev https : LoadBalancerServiceInfo
https = record {
  protocol = "tcp";
  listen_port = 443;
  destination_port = 8443;
  proxyprotocol = false;
  certificate_ids = [];
  health_check = none;
}

abbrev base : HcloudLoadBalancerReconciler String FakeClient (HcloudLoadBalancer String)
base = record {
  hcloud_client = load_balancer_api;
  certificates = certificate_api;
  constants = record { uploaded = "uploaded"; completed = "completed" };
  get_certificate_object = λ name. raise (foreign "no such certificate");
  list_servers = λ selector. pure [];
  selector_error = λ selector. none;
  selector_matches = λ selector labels. true;
  api_errors = plain_errors;
  meta = plain_meta;
}

abbrev scope : LoadBalancerScope String FakeClient (HcloudLoadBalancer String)
scope = record {
  world = record {
    cloud = record new_fake_client {
      servers = (1, server 1) ∷ (2, server 2) ∷ (3, server 3) ∷ [];
      load_balancers = (9, balancer) ∷ [];
      next_id = 10;
    };
    cluster = object;
  };
  object = object;
}

holds : Holds balancer scope
unfolding lookup
holds = record { stored = refl; no_get_err = refl }

there : AllThere (2 ∷ 3 ∷ []) scope.world.cloud.servers
unfolding AllThere lookup
there = ((server 2, refl), ((server 3, refl), tt))

-- The server 1 goes, and the server 3 comes.
reconcile_load_balancer_with_services-Provisioned_example :
    let lb = settled (2 ∷ 3 ∷ []) (https ∷ []) balancer in
    Provisioned base lb scope
      (reconcile_load_balancer_with_services (fake_reconciler base) (2 ∷ 3 ∷ []) (https ∷ []) scope)
    × (lb.services ≡ https ∷ [])
    × ((id : Int64) → member id lb.targets ≡ member id (2 ∷ 3 ∷ []))
reconcile_load_balancer_with_services-Provisioned_example =
    reconcile_load_balancer_with_services-Provisioned base (2 ∷ 3 ∷ []) (https ∷ []) balancer scope
      holds refl refl there
