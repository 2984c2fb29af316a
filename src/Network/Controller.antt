-- ===== src/Network/Controller.antt =====
-- Reconcile, Delete, reconcileHCloudNetwork and updateNetworkStatusWithRetry.
use hcloud_operator.Base.{
  false, not, String, [], ◌∷◌, List, Option, none, some, string_eq, nat_eq, if◌then◌else◌,
}
use hcloud_operator.Go.Fault.{Text, str, quoted, num, fail}
use hcloud_operator.Go.Action.{Action, pure, raise, within, ◌>>=◌, ◌>>◌}
use hcloud_operator.Go.Integer.{Int64, is_set}
use hcloud_operator.Go.Slice.{member, sort_by}
use hcloud_operator.Kube.Condition.{ConditionStatus, condition_true, condition_false}
use hcloud_operator.Hcloud.Types.{NetworkInfo, NetworkCreateOpts}
use hcloud_operator.Reconcile.Object.{CtrlResult, Resource}
use hcloud_operator.Reconcile.World.{World, in_cloud, in_cluster, look}
use hcloud_operator.V1alpha1.Network.{HcloudNetwork, HcloudNetworkStatus}
use hcloud_operator.Server.State.{requeue_delay, condition_type_ready}
use hcloud_operator.Network.State.{
  HcloudNetworkReconciler, NetworkScope, set_status, set_network_condition,
  hcloud_network_finalizer,
}

abbrev pub network_opts : HcloudNetwork → NetworkCreateOpts
network_opts o = record {
  name = o.metadata.name;
  ip_range = o.spec.ip_range;
  network_zones = [];
  labels = o.spec.labels;
  expose_routes_to_vswitch = o.spec.expose_routes_to_vswitch;
}

-- The fields of the status that are taken from the answer.
abbrev pub observed : List String → NetworkInfo → HcloudNetworkStatus → HcloudNetworkStatus
observed zones n st = record st { network_id = n.id; ip_range = n.ip_range; subnet_zones = zones }

module _ {C K : Type 0} (r : HcloudNetworkReconciler C K) where
  open r use {hcloud_client, client, retry_on_conflict, meta, string_less}

  abbrev pub set_ready : ConditionStatus → String → Text → Action (NetworkScope C K) (Unit {0})
  set_ready status reason message =
      set_status (set_network_condition meta condition_type_ready status reason message)

  -- The function that is retried: the object is read anew and given the status that was decided on.
  abbrev pub write_status : String → HcloudNetworkStatus → Action K (Unit {0})
  write_status name desired = do
    current ← client.get name
    client.status_update (record current { status = desired })
    pure tt

  unfoldable pub update_network_status_with_retry : Action (NetworkScope C K) (Unit {0})
  update_network_status_with_retry =
      look λ o. in_cluster (retry_on_conflict (write_status o.metadata.name o.status))

  unfoldable pub fetch_by_id : Action (NetworkScope C K) (Option NetworkInfo)
  fetch_by_id = look λ o.
      if is_set o.status.network_id
      then within (str "fetch network by ID" ∷ [])
          (in_cloud (hcloud_client.get_network o.status.network_id))
      else pure none

  unfoldable pub fetch_by_name : Option NetworkInfo → Action (NetworkScope C K) (Option NetworkInfo)
  fetch_by_name none = look λ o.
      within (str "fetch network by name" ∷ [])
        (in_cloud (hcloud_client.get_network_by_name o.metadata.name))
  fetch_by_name (some n) = pure (some n)

  unfoldable pub create_missing : Option NetworkInfo → Action (NetworkScope C K) NetworkInfo
  create_missing none = do
    created ← look λ o.
        within (str "create Hetzner network" ∷ [])
          (in_cloud (hcloud_client.create_network (network_opts o)))
    set_status (observed created.subnet_zones created)
    set_ready condition_false "NetworkCreated"
        (str "Private network created; adding subnets if requested" ∷ [])
    within (str "persist network id" ∷ []) update_network_status_with_retry
    pure created
  create_missing (some n) = pure n

  abbrev pub refreshed : Int64 → Option NetworkInfo → Action (NetworkScope C K) NetworkInfo
  refreshed id none =
      raise (fail (str "network " ∷ num id ∷ str " disappeared after add subnet" ∷ []))
  refreshed id (some n) = pure n

  -- The body of the loop over `obj.Spec.NetworkZones`, and the loop.
  unfoldable pub add_subnet : String → NetworkInfo → Action (NetworkScope C K) NetworkInfo
  add_subnet zone n = if member zone n.subnet_zones then pure n else (do
    within (str "add subnet in zone " ∷ quoted zone ∷ [])
        (in_cloud (hcloud_client.add_network_cloud_subnet n.id zone))
    updated ←
        within (str "refresh network after add subnet" ∷ [])
          (in_cloud (hcloud_client.get_network n.id))
    refreshed n.id updated)

  unfoldable pub add_subnets : List String → NetworkInfo → Action (NetworkScope C K) NetworkInfo
  add_subnets [] n = pure n
  add_subnets (zone ∷ zones) n = do n' ← add_subnet zone n; add_subnets zones n'

  unfoldable pub sync_network_status : NetworkInfo → Action (NetworkScope C K) (Unit {0})
  sync_network_status n = do
    set_status (observed (sort_by string_less n.subnet_zones) n)
    set_ready condition_true "NetworkReady" (str "Private network is provisioned" ∷ [])

  -- From the loop on.
  unfoldable pub settle_network : NetworkInfo → Action (NetworkScope C K) (Unit {0})
  settle_network n = do n' ← look λ o. add_subnets o.spec.network_zones n; sync_network_status n'

  unfoldable pub reconcile_hcloud_network : Action (NetworkScope C K) (Unit {0})
  reconcile_hcloud_network = do
    by_id ← fetch_by_id
    found ← fetch_by_name by_id
    existing ← create_missing found
    settle_network existing

  unfoldable pub reconcile : Action (NetworkScope C K) CtrlResult
  reconcile = do
    reconcile_hcloud_network
    pure (record { requeue = false; requeue_after = requeue_delay })

  unfoldable pub delete_hcloud_network : Action (NetworkScope C K) (Unit {0})
  delete_hcloud_network = look λ o.
      if not (is_set o.status.network_id)
      then pure tt
      else in_cloud (hcloud_client.delete_network o.status.network_id)

  -- HCloudNetworkReconciler as the domain logic of the shared loop.
  abbrev pub network_resource : HcloudNetwork → Resource (World C K) HcloudNetwork
  network_resource empty = record {
    new_object = empty;
    finalizer_name = hcloud_network_finalizer;
    kind = "HCloudNetwork";
    reconcile = reconcile;
    delete = delete_hcloud_network;
  }
