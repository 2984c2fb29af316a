-- ===== src/V1alpha1/Network.antt =====
-- api/v1alpha1/hcloudnetwork_types.go
use hcloud_operator.Base.{String, Bool, List}
use hcloud_operator.Go.Integer.{Int64}
use hcloud_operator.Kube.Condition.{Condition}
use hcloud_operator.Hcloud.Types.{Labels}
use hcloud_operator.Reconcile.Object.{ObjectMeta}

pub record HcloudNetworkSpec : Type 0 where
  pub ip_range : String
  pub network_zones : List String
  pub expose_routes_to_vswitch : Bool
  pub labels : Labels

pub record HcloudNetworkStatus : Type 0 where
  pub network_id : Int64
  pub ip_range : String
  pub subnet_zones : List String
  pub conditions : List Condition

pub record HcloudNetwork : Type 0 where
  pub metadata : ObjectMeta
  pub spec : HcloudNetworkSpec
  pub status : HcloudNetworkStatus
