-- ===== src/Volume/State.antt =====
-- What HCloudVolumeReconciler holds.
use hcloud_operator.Base.{String}
use hcloud_operator.Go.Fault.{Text, ok}
use hcloud_operator.Go.Action.{Action}
use hcloud_operator.Kube.Condition.{Meta, ConditionStatus}
use hcloud_operator.Kube.Client.{ApiErrors}
use hcloud_operator.Hcloud.Api.{VolumeApi}
use hcloud_operator.Reconcile.Object.{Scope}
use hcloud_operator.Reconcile.World.{World}
use hcloud_operator.V1alpha1.Server.{HcloudServer}
use hcloud_operator.V1alpha1.Volume.{HcloudVolume, HcloudVolumeStatus}

abbrev pub hcloud_volume_finalizer : String
hcloud_volume_finalizer = "infra.hkc.io/volume-finalizer"

abbrev pub VolumeScope : Type 0 → Type 0 → Type 0
VolumeScope C K = Scope (World C K) HcloudVolume

pub record HcloudVolumeReconciler (C K : Type 0) : Type 0 where
  pub hcloud_client : VolumeApi C
  pub get_server_object : String → Action K HcloudServer
  pub api_errors : ApiErrors
  pub meta : Meta

module _ {C K : Type 0} where
  -- An assignment to fields of `volume.Status`.
  abbrev pub set_status :
      (HcloudVolumeStatus → HcloudVolumeStatus) → Action (VolumeScope C K) (Unit {0})
  set_status f s = (ok tt, record s { object = record (s.object) { status = f s.object.status } })

-- (*HCloudVolumeReconciler).setCondition, on the status
abbrev pub set_condition :
    Meta → String → ConditionStatus → String → Text → HcloudVolumeStatus → HcloudVolumeStatus
set_condition meta type status reason message s = record s {
  conditions =
      meta.set_status_condition s.conditions
        (record { type = type; status = status; reason = reason; message = message });
}
