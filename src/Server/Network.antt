-- ===== src/Server/Network.antt =====
-- ensureServerNetworkAttachment, and the resolution of a placement group.
use hcloud_operator.Base.{
  Bool, true, false, not, ◌&&◌, ◌||◌, String, [], ◌∷◌, Option, none, some, ◌==◌, string_eq, nat_eq,
  if◌then◌else◌,
}
use hcloud_operator.Go.Fault.{Text, str, quoted, num, fail}
use hcloud_operator.Go.Action.{Action, pure, raise, within, ◌>>=◌, ◌>>◌}
use hcloud_operator.Go.Integer.{Int64, is_set}
use hcloud_operator.Go.Slice.{member}
use hcloud_operator.Kube.Condition.{Condition, condition_true, condition_false}
use hcloud_operator.Hcloud.Types.{ServerInfo}
use hcloud_operator.V1alpha1.Network.{HcloudNetwork}
use hcloud_operator.Server.State.{
  HcloudServerReconciler, ServerScope, in_cloud, in_cluster, set_status, look, condition_type_ready,
  ready_reason_network_attached, ready_reason_network_migrated, ready_reason_network_detached,
}
use hcloud_operator.Server.Status.{set_ready, update_server_status_with_retry}

-- `if updated != nil { *s = *updated }`
abbrev pub updated_or : ServerInfo → Option ServerInfo → ServerInfo
updated_or s none = s
updated_or s (some updated) = updated

-- The name that a reference holds, if it is not nil and not empty.
abbrev pub ref_name : Option String → Option String
ref_name none = none
ref_name (some name) = if name == "" then none else some name

-- `cond == nil || cond.Reason != …`
abbrev pub reason_is : Option Condition → String → Bool
reason_is none reason = false
reason_is (some c) reason = c.reason == reason

module _ {C K : Type 0} (r : HcloudServerReconciler C K) where
  open r use {hcloud_client, get_network, get_placement_group, meta}

  -- DetachServerFromNetwork and GetServer, for the network that is managed now.
  abbrev pub detach_applied : ServerInfo → Int64 → Text → Action (ServerScope C K) ServerInfo
  detach_applied s network_id refresh = do
    within
        (str "detach server "
          ∷ num s.id
          ∷ str " from previously managed network "
          ∷ num network_id
          ∷ [])
        (in_cloud (hcloud_client.detach_server_from_network s.id network_id))
    updated ← within refresh (in_cloud (hcloud_client.get_server s.id))
    set_status (λ st. record st { applied_network_id = 0 })
    pure (updated_or s updated)

  -- No network is wanted.
  unfoldable pub release_network : ServerInfo → Action (ServerScope C K) (Bool × ServerInfo)
  release_network s = look λ o.
      if is_set o.status.applied_network_id
      then (do
        s' ←
            detach_applied s o.status.applied_network_id
              (str "refresh server after network detach" ∷ [])
        set_ready r condition_true ready_reason_network_detached
            (str "Detached server from previously managed private network" ∷ [])
        pure (true, s'))
      else pure (false, s)

  abbrev pub migrated_message : String → Text
  migrated_message name = str "Migrated server private network attachment to " ∷ quoted name ∷ []

  abbrev pub attached_message : String → Text
  attached_message name = str "Attached server to private network " ∷ quoted name ∷ []

  abbrev pub set_attached : Bool → String → Action (ServerScope C K) (Unit {0})
  set_attached migrated name =
      if migrated
      then set_ready r condition_true ready_reason_network_migrated (migrated_message name)
      else set_ready r condition_true ready_reason_network_attached (attached_message name)

  -- From the test of `s.NetworkIDs` on.
  unfoldable pub join_network :
      ServerInfo → HcloudNetwork → Bool → Action (ServerScope C K) (Bool × ServerInfo)
  join_network s network migrated =
      if not (member network.status.network_id s.network_ids)
      then (do
        within
            (str "attach server "
              ∷ num s.id
              ∷ str " to network "
              ∷ quoted network.metadata.name
              ∷ str " ("
              ∷ num network.status.network_id
              ∷ str ")"
              ∷ [])
            (in_cloud (hcloud_client.attach_server_to_network s.id network.status.network_id))
        updated ←
            within (str "refresh server after network attach" ∷ [])
              (in_cloud (hcloud_client.get_server s.id))
        set_attached migrated network.metadata.name
        set_status (λ st. record st { applied_network_id = network.status.network_id })
        pure (true, updated_or s updated))
      else (do
        set_status (λ st. record st { applied_network_id = network.status.network_id })
        look λ o.
            let cond = meta.find_status_condition o.status.conditions condition_type_ready in
            if migrated && not (reason_is cond ready_reason_network_migrated)
            then set_attached true network.metadata.name
            else if not migrated
                && not (
                    reason_is cond ready_reason_network_attached
                    || reason_is cond ready_reason_network_migrated)
            then set_attached false network.metadata.name
            else pure tt
        pure (false, s))

  -- A network is wanted and known to Hetzner.
  unfoldable pub move_network :
      ServerInfo → HcloudNetwork → Action (ServerScope C K) (Bool × ServerInfo)
  move_network s network = look λ o.
      if is_set o.status.applied_network_id
        && not (o.status.applied_network_id == network.status.network_id)
      then (do
        s' ←
            detach_applied s o.status.applied_network_id
              (str "refresh server after network migration detach" ∷ [])
        join_network s' network true)
      else join_network s network false

  unfoldable pub use_network :
      ServerInfo → HcloudNetwork → Action (ServerScope C K) (Bool × ServerInfo)
  use_network s network =
      if not (is_set network.status.network_id)
      then raise (
          fail (
            str "referenced HCloudNetwork "
            ∷ quoted network.metadata.name
            ∷ str " is not ready (status.networkID is empty)"
            ∷ []))
      else move_network s network

  abbrev pub read_network : String → Action (ServerScope C K) HcloudNetwork
  read_network name =
      within (str "get referenced HCloudNetwork " ∷ quoted name ∷ [])
        (in_cluster (get_network name))

  unfoldable pub choose_network :
      ServerInfo → Option String → Action (ServerScope C K) (Bool × ServerInfo)
  choose_network s none = release_network s
  choose_network s (some name) = do network ← read_network name; use_network s network

  unfoldable pub ensure_server_network_attachment :
      ServerInfo → Action (ServerScope C K) (Bool × ServerInfo)
  ensure_server_network_attachment s = look λ o. choose_network s (ref_name o.spec.network_ref)

  unfoldable pub resolve_placement_group_id : Action (ServerScope C K) Int64
  resolve_placement_group_id = look λ o. elim (ref_name o.spec.placement_group_ref) [
    | none ↦ pure 0
    | some name ↦ do
      pg ←
          within (str "get referenced HCloudPlacementGroup " ∷ quoted name ∷ [])
            (in_cluster (get_placement_group name))
      if not (is_set pg.status.placement_group_id)
          then raise (
              fail (
                str "referenced HCloudPlacementGroup "
                ∷ quoted pg.metadata.name
                ∷ str " is not ready (status.placementGroupID is empty)"
                ∷ []))
          else pure pg.status.placement_group_id
  ]

  -- Whether the server's group blocks the reconciliation.
  unfoldable pub sync_placement_group_status : ServerInfo → Action (ServerScope C K) Bool
  unfolding resolve_placement_group_id
  sync_placement_group_status s = look λ o. elim (ref_name o.spec.placement_group_ref) [
    | none ↦ do
      set_status (λ st. record st { applied_placement_group_id = s.placement_group_id })
      pure false
    | some name ↦ do
      expected ← resolve_placement_group_id
      set_status (λ st. record st { applied_placement_group_id = s.placement_group_id })
      if not (s.placement_group_id == expected)
          then (do
            set_ready r condition_false "PlacementGroupMismatch" (
                str "server placement group ID "
                ∷ num s.placement_group_id
                ∷ str " does not match referenced HCloudPlacementGroup "
                ∷ quoted name
                ∷ str " (ID "
                ∷ num expected
                ∷ str "); placement groups are set at create time only"
                ∷ [])
            update_server_status_with_retry r
            pure true)
          else pure false
  ]
