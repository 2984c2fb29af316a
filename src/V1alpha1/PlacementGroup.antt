-- ===== src/V1alpha1/PlacementGroup.antt =====
-- api/v1alpha1/hcloudplacementgroup_types.go
use hcloud_operator.Base.{String, List}
use hcloud_operator.Go.Integer.{Int64}
use hcloud_operator.Kube.Condition.{Condition}
use hcloud_operator.Hcloud.Types.{Labels}
use hcloud_operator.Reconcile.Object.{ObjectMeta}

pub record HcloudPlacementGroupSpec : Type 0 where
  pub type : String
  pub labels : Labels

pub record HcloudPlacementGroupStatus : Type 0 where
  pub placement_group_id : Int64
  pub type : String
  pub conditions : List Condition

pub record HcloudPlacementGroup : Type 0 where
  pub metadata : ObjectMeta
  pub spec : HcloudPlacementGroupSpec
  pub status : HcloudPlacementGroupStatus
