-- ===== src/Server/Controller.antt =====
-- Reconcile, Delete, reconcileHCloudServer and reconcileExistingServer.
use hcloud_operator.Base.{
  ℕ, Bool, false, not, ◌&&◌, [], ◌∷◌, Option, none, some, ◌==◌, string_eq, nat_eq, ltb,
  if◌then◌else◌,
}
use hcloud_operator.Go.Fault.{str}
use hcloud_operator.Go.Action.{Action, pure, within, ◌>>=◌, ◌>>◌}
use hcloud_operator.Go.Integer.{Int64, is_set}
use hcloud_operator.Kube.Condition.{condition_true}
use hcloud_operator.Hcloud.Types.{ServerInfo, ServerCreateOpts}
use hcloud_operator.Reconcile.Object.{CtrlResult, Resource}
use hcloud_operator.V1alpha1.Server.{HcloudServer}
use hcloud_operator.Server.State.{
  HcloudServerReconciler, ServerScope, World, in_cloud, set_status, look, requeue_delay,
  resize_requeue_delay, hcloud_server_finalizer,
}
use hcloud_operator.Server.Status.{
  apply_server_status, set_ready, update_server_status_with_retry, sync_status,
}
use hcloud_operator.Server.Network.{
  ensure_server_network_attachment, resolve_placement_group_id, sync_placement_group_status,
}
use hcloud_operator.Server.Resize.{refresh_and_wait, reconcile_server_type_mismatch}

module _ {C K : Type 0} (r : HcloudServerReconciler C K) where
  open r use {hcloud_client}

  -- The part of reconcileExistingServer behind the two tests of the type: first what follows the
  -- placement group's test, then what follows the network's.
  unfoldable pub after_placement : ServerInfo → Bool → Action (ServerScope C K) ℕ
  after_placement s blocked = if blocked then pure 0 else (do sync_status r s; pure 0)

  unfoldable pub after_network : Bool × ServerInfo → Action (ServerScope C K) ℕ
  after_network (network_changed, s) =
      if network_changed
      then (do
        set_status (apply_server_status s)
        update_server_status_with_retry r
        pure resize_requeue_delay)
      else (do blocked ← sync_placement_group_status r s; after_placement s blocked)

  unfoldable pub settle_existing_server : ServerInfo → Action (ServerScope C K) ℕ
  settle_existing_server s = do
    outcome ← ensure_server_network_attachment r s
    after_network outcome

  unfoldable pub reconcile_existing_server : ServerInfo → Action (ServerScope C K) ℕ
  reconcile_existing_server s = look λ o.
      if not (s.server_type == "") && not (s.server_type == o.spec.server_type)
      then reconcile_server_type_mismatch r s
      else if not (o.status.applied_server_type == o.spec.server_type) && s.state == "off"
      then (do
        in_cloud (hcloud_client.power_on_server s.id)
        refresh_and_wait r s (str "refresh server after power on" ∷ []) "PoweringOn"
            (str "Powered on server after type change; waiting for running state" ∷ []))
      else settle_existing_server s

  abbrev pub create_opts : HcloudServer → Int64 → ServerCreateOpts
  create_opts o placement_group_id = record {
    name = o.metadata.name;
    server_type = o.spec.server_type;
    image = o.spec.image;
    location = o.spec.location;
    labels = o.spec.labels;
    ssh_keys = o.spec.ssh_keys;
    user_data = o.spec.user_data;
    placement_group_id = placement_group_id;
  }

  unfoldable pub create_in_group : Int64 → Action (ServerScope C K) ℕ
  create_in_group placement_group_id = look λ o. do
    created ←
        within (str "create Hetzner server" ∷ [])
          (in_cloud (hcloud_client.create_server (create_opts o placement_group_id)))
    set_status (λ st. record st {
      server_id = created.id;
      state = created.state;
      public_ipv4 = created.public_ipv4;
      public_ipv6 = created.public_ipv6;
      applied_placement_group_id =
          if is_set created.placement_group_id
          then created.placement_group_id
          else st.applied_placement_group_id;
      applied_server_type =
          if created.server_type == o.spec.server_type && created.state == "running"
          then o.spec.server_type
          else st.applied_server_type;
    })
    set_ready r condition_true "ServerCreated" (str "Hetzner server created successfully" ∷ [])
    update_server_status_with_retry r
    pure 0

  unfoldable pub create_hcloud_server : Action (ServerScope C K) ℕ
  create_hcloud_server = do
    placement_group_id ← resolve_placement_group_id r
    create_in_group placement_group_id

  -- What follows the look-up by name.
  unfoldable pub adopt_or_create : Option ServerInfo → Action (ServerScope C K) ℕ
  adopt_or_create none = create_hcloud_server
  adopt_or_create (some s) = do
    set_status (λ st. record st { server_id = s.id })
    reconcile_existing_server s

  -- The look-up by name, and the creation where it finds nothing.
  unfoldable pub find_or_create_server : Action (ServerScope C K) ℕ
  find_or_create_server = do
    existing ← look λ o.
        within (str "fetch server by name" ∷ [])
          (in_cloud (hcloud_client.get_server_by_name o.metadata.name))
    adopt_or_create existing

  -- What follows the look-up by the stored ID.
  unfoldable pub resume : Option ServerInfo → Action (ServerScope C K) ℕ
  resume none = find_or_create_server
  resume (some s) = reconcile_existing_server s

  unfoldable pub reconcile_hcloud_server : Action (ServerScope C K) ℕ
  reconcile_hcloud_server = look λ o.
      if is_set o.status.server_id
      then (do
        existing ←
            within (str "fetch server by ID" ∷ [])
              (in_cloud (hcloud_client.get_server o.status.server_id))
        resume existing)
      else find_or_create_server

  unfoldable pub reconcile : Action (ServerScope C K) CtrlResult
  reconcile = do
    requeue_after ← reconcile_hcloud_server
    pure (record {
      requeue = false;
      requeue_after = if ltb 0 requeue_after then requeue_after else requeue_delay;
    })

  unfoldable pub delete_hcloud_server : Action (ServerScope C K) (Unit {0})
  delete_hcloud_server = look λ o.
      if not (is_set o.status.server_id)
      then pure tt
      else in_cloud (hcloud_client.delete_server o.status.server_id)

  -- HCloudServerReconciler as the domain logic of the shared loop.
  abbrev pub server_resource : HcloudServer → Resource (World C K) HcloudServer
  server_resource empty = record {
    new_object = empty;
    finalizer_name = hcloud_server_finalizer;
    kind = "HCloudServer";
    reconcile = reconcile;
    delete = delete_hcloud_server;
  }
