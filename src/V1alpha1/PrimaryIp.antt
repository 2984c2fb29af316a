-- ===== src/V1alpha1/PrimaryIp.antt =====
-- api/v1alpha1/hcloudprimaryip_types.go
use hcloud_operator.Base.{String, Bool, Option, List}
use hcloud_operator.Go.Fault.{Text}
use hcloud_operator.Go.Integer.{Int64}
use hcloud_operator.Kube.Condition.{Condition}
use hcloud_operator.Hcloud.Types.{Labels}
use hcloud_operator.Reconcile.Object.{ObjectMeta}

pub record HcloudPrimaryIpSpec : Type 0 where
  pub type : String
  pub datacenter : String
  -- the name in the reference, which may be nil
  pub server_ref : Option String
  pub auto_delete : Option Bool
  pub dns_ptr : Option String
  pub labels : Labels

pub record HcloudPrimaryIpStatus : Type 0 where
  pub primary_ip_id : Int64
  pub ip : Text
  pub datacenter : String
  pub applied_assignee_id : Int64
  pub conditions : List Condition

pub record HcloudPrimaryIp : Type 0 where
  pub metadata : ObjectMeta
  pub spec : HcloudPrimaryIpSpec
  pub status : HcloudPrimaryIpStatus
