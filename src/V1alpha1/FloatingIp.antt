-- ===== src/V1alpha1/FloatingIp.antt =====
-- api/v1alpha1/hcloudfloatingip_types.go
use hcloud_operator.Base.{String, Option, List}
use hcloud_operator.Go.Fault.{Text}
use hcloud_operator.Go.Integer.{Int64}
use hcloud_operator.Kube.Condition.{Condition}
use hcloud_operator.Hcloud.Types.{Labels}
use hcloud_operator.Reconcile.Object.{ObjectMeta}

pub record HcloudFloatingIpSpec : Type 0 where
  pub type : String
  pub location : String
  -- the name in the reference, which may be nil
  pub server_ref : Option String
  pub description : String
  pub dns_ptr : Option String
  pub labels : Labels

pub record HcloudFloatingIpStatus : Type 0 where
  pub floating_ip_id : Int64
  pub ip : Text
  pub location : String
  pub applied_server_id : Int64
  pub conditions : List Condition

pub record HcloudFloatingIp : Type 0 where
  pub metadata : ObjectMeta
  pub spec : HcloudFloatingIpSpec
  pub status : HcloudFloatingIpStatus
