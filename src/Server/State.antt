-- ===== src/Server/State.antt =====
-- What HCloudServerReconciler holds, and the state that its methods share: the cloud, the cluster,
-- and the object that is reconciled.
use hcloud_operator.Base.{ℕ, ◌*◌, String}
use hcloud_operator.Go.Fault.{Text, ok}
use hcloud_operator.Go.Action.{Action}
use hcloud_operator.Kube.Condition.{Meta, ConditionStatus}
use hcloud_operator.Kube.Client.{Client, Retry}
use hcloud_operator.Hcloud.Api.{ServerApi}
use hcloud_operator.Reconcile.Object.{Scope, second}
pub use hcloud_operator.Reconcile.World.{World, in_cloud, in_cluster, look}
use hcloud_operator.V1alpha1.Server.{HcloudServer, HcloudServerStatus}
use hcloud_operator.V1alpha1.Network.{HcloudNetwork}
use hcloud_operator.V1alpha1.PlacementGroup.{HcloudPlacementGroup}

abbrev pub hcloud_server_finalizer : String
hcloud_server_finalizer = "infra.hkc.io/finalizer"

abbrev pub requeue_delay : ℕ
requeue_delay = 30 * second

abbrev pub resize_requeue_delay : ℕ
resize_requeue_delay = 5 * second

abbrev pub condition_type_ready : String
condition_type_ready = "Ready"

abbrev pub ready_reason_network_attached : String
ready_reason_network_attached = "NetworkAttached"

abbrev pub ready_reason_network_migrated : String
ready_reason_network_migrated = "NetworkMigrated"

abbrev pub ready_reason_network_detached : String
ready_reason_network_detached = "NetworkDetached"

abbrev pub ServerScope : Type 0 → Type 0 → Type 0
ServerScope C K = Scope (World C K) HcloudServer

pub record HcloudServerReconciler (C K : Type 0) : Type 0 where
  pub hcloud_client : ServerApi C
  pub client : Client K HcloudServer
  pub get_network : String → Action K HcloudNetwork
  pub get_placement_group : String → Action K HcloudPlacementGroup
  pub retry_on_conflict : Retry K
  pub meta : Meta

module _ {C K : Type 0} where
  -- An assignment to fields of `obj.Status`.
  abbrev pub set_status :
      (HcloudServerStatus → HcloudServerStatus) → Action (ServerScope C K) (Unit {0})
  set_status f s = (ok tt, record s { object = record (s.object) { status = f s.object.status } })

-- (*HCloudServerReconciler).setCondition, on the status
abbrev pub set_condition :
    Meta → String → ConditionStatus → String → Text → HcloudServerStatus → HcloudServerStatus
set_condition meta type status reason message s = record s {
  conditions =
      meta.set_status_condition s.conditions
        (record { type = type; status = status; reason = reason; message = message });
}
