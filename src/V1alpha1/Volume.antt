-- ===== src/V1alpha1/Volume.antt =====
-- api/v1alpha1/hcloudvolume_types.go
use hcloud_operator.Base.{String, Option, List, refl}
use hcloud_operator.Go.Fault.{Text}
use hcloud_operator.Go.Integer.{Int64}
use hcloud_operator.Kube.Condition.{Condition}
use hcloud_operator.Hcloud.Types.{Labels}
use hcloud_operator.Reconcile.Object.{ObjectMeta, Managed}

pub record HcloudVolumeSpec : Type 0 where
  pub size : Int64
  pub location : String
  -- the name in the reference, which may be nil
  pub server_ref : Option String
  pub format : String
  pub labels : Labels

pub record HcloudVolumeStatus : Type 0 where
  pub volume_id : Int64
  pub state : String
  pub attached_server_id : Int64
  pub linux_device : Text
  pub applied_size : Int64
  pub conditions : List Condition

pub record HcloudVolume : Type 0 where
  pub metadata : ObjectMeta
  pub spec : HcloudVolumeSpec
  pub status : HcloudVolumeStatus

-- HCloudVolume implements `Managed` (api/v1alpha1/managed.go, GetConditions).
abbrev pub managed_volume : Managed HcloudVolume
managed_volume = record {
  metadata = λ o. o.metadata;
  set_metadata = λ m o. record o { metadata = m };
  conditions = λ o. o.status.conditions;
  set_conditions = λ cs o. record o { status = record (o.status) { conditions = cs } };
  conditions-set = λ cs o. refl;
  metadata-set = λ m o. refl;
  metadata-set_conditions = λ cs o. refl;
  conditions-set_metadata = λ m o. refl;
}
