-- ===== src/Network/State.antt =====
-- What HCloudNetworkReconciler holds. `string_less` is Go's order on strings.
use hcloud_operator.Base.{String, Bool}
use hcloud_operator.Go.Fault.{Text, ok}
use hcloud_operator.Go.Action.{Action}
use hcloud_operator.Kube.Condition.{Meta, ConditionStatus}
use hcloud_operator.Kube.Client.{Client, Retry}
use hcloud_operator.Hcloud.Api.{NetworkApi}
use hcloud_operator.Reconcile.Object.{Scope}
use hcloud_operator.Reconcile.World.{World}
use hcloud_operator.V1alpha1.Network.{HcloudNetwork, HcloudNetworkStatus}

abbrev pub hcloud_network_finalizer : String
hcloud_network_finalizer = "infra.hkc.io/network-finalizer"

abbrev pub NetworkScope : Type 0 → Type 0 → Type 0
NetworkScope C K = Scope (World C K) HcloudNetwork

pub record HcloudNetworkReconciler (C K : Type 0) : Type 0 where
  pub hcloud_client : NetworkApi C
  pub client : Client K HcloudNetwork
  pub retry_on_conflict : Retry K
  pub meta : Meta
  pub string_less : String → String → Bool

module _ {C K : Type 0} where
  -- An assignment to fields of `obj.Status`.
  abbrev pub set_status :
      (HcloudNetworkStatus → HcloudNetworkStatus) → Action (NetworkScope C K) (Unit {0})
  set_status f s = (ok tt, record s { object = record (s.object) { status = f s.object.status } })

-- (*HCloudNetworkReconciler).setNetworkCondition, on the status
abbrev pub set_network_condition :
    Meta → String → ConditionStatus → String → Text → HcloudNetworkStatus → HcloudNetworkStatus
set_network_condition meta type status reason message s = record s {
  conditions =
      meta.set_status_condition s.conditions
        (record { type = type; status = status; reason = reason; message = message });
}
