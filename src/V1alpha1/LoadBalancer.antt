-- ===== src/V1alpha1/LoadBalancer.antt =====
-- api/v1alpha1/hcloudloadbalancer_types.go. `S` is metav1.LabelSelector. An int32 is kept as the
-- int64 that it converts to.
use hcloud_operator.Base.{String, Bool, Option, List}
use hcloud_operator.Go.Fault.{Text}
use hcloud_operator.Go.Integer.{Int64}
use hcloud_operator.Kube.Condition.{Condition}
use hcloud_operator.Hcloud.Types.{Labels}
use hcloud_operator.Reconcile.Object.{ObjectMeta}

pub record HcloudLoadBalancerHealthCheckHttpSpec : Type 0 where
  pub domain : Option String
  pub path : Option String
  pub response : Option String
  pub status_codes : List String
  pub tls : Option Bool

pub record HcloudLoadBalancerHealthCheckSpec : Type 0 where
  pub protocol : String
  pub port : Option Int64
  pub interval_seconds : Option Int64
  pub timeout_seconds : Option Int64
  pub retries : Option Int64
  pub http : Option HcloudLoadBalancerHealthCheckHttpSpec

pub record HcloudLoadBalancerServiceSpec : Type 0 where
  pub listen_port : Int64
  pub destination_port : Int64
  pub protocol : String
  pub proxyprotocol : Option Bool
  pub health_check : Option HcloudLoadBalancerHealthCheckSpec
  -- the names in the references
  pub certificate_refs : List String

pub record HcloudLoadBalancerSpec (S : Type 0) : Type 0 where
  pub load_balancer_type : String
  pub location : String
  pub network_zone : String
  pub algorithm : String
  pub server_selector : Option S
  pub labels : Labels
  pub services : List HcloudLoadBalancerServiceSpec

pub record HcloudLoadBalancerStatus : Type 0 where
  pub load_balancer_id : Int64
  pub public_ipv4 : Text
  pub public_ipv6 : Text
  pub attached_server_ids : List Int64
  pub conditions : List Condition

pub record HcloudLoadBalancer (S : Type 0) : Type 0 where
  pub metadata : ObjectMeta
  pub spec : HcloudLoadBalancerSpec S
  pub status : HcloudLoadBalancerStatus
