-- ===== src/V1alpha1/Server.antt =====
-- api/v1alpha1/hcloudserver_types.go
use hcloud_operator.Base.{String, Bool, Option, List, refl}
use hcloud_operator.Go.Fault.{Text}
use hcloud_operator.Go.Integer.{Int64}
use hcloud_operator.Kube.Condition.{Condition}
use hcloud_operator.Hcloud.Types.{Labels}
use hcloud_operator.Reconcile.Object.{ObjectMeta, Managed}

pub record HcloudServerSpec : Type 0 where
  pub server_type : String
  pub image : String
  pub location : String
  pub labels : Labels
  pub ssh_keys : List String
  pub user_data : String
  pub network_ref : Option String
  pub placement_group_ref : Option String
  pub upgrade_disk : Bool

pub record HcloudServerStatus : Type 0 where
  pub server_id : Int64
  pub state : String
  pub applied_server_type : String
  pub public_ipv4 : Text
  pub public_ipv6 : Text
  pub applied_network_id : Int64
  pub applied_placement_group_id : Int64
  pub conditions : List Condition

pub record HcloudServer : Type 0 where
  pub metadata : ObjectMeta
  pub spec : HcloudServerSpec
  pub status : HcloudServerStatus

-- HCloudServer implements `Managed` (api/v1alpha1/managed.go, GetConditions).
abbrev pub managed_server : Managed HcloudServer
managed_server = record {
  metadata = λ o. o.metadata;
  set_metadata = λ m o. record o { metadata = m };
  conditions = λ o. o.status.conditions;
  set_conditions = λ cs o. record o { status = record (o.status) { conditions = cs } };
  conditions-set = λ cs o. refl;
  metadata-set = λ m o. refl;
  metadata-set_conditions = λ cs o. refl;
  conditions-set_metadata = λ m o. refl;
}
