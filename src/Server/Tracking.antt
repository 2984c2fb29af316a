-- ===== src/Server/Tracking.antt =====
-- The controller of one server against the in-memory cloud: what a run does to a server that exists.
use hcloud_operator.Base.{
  true, false, ◌≡◌, ◌≢◌, String, Option, none, some, string_eq, nat_eq, arith, eq_iff, [], ◌∷◌,
}
use hcloud_operator.Go.Fault.{ok, str, quoted}
use hcloud_operator.Go.Action.{Action}
use hcloud_operator.Go.Integer.{Int64, is_set}
use hcloud_operator.Go.Map.{lookup, insert}
use hcloud_operator.Go.Map.Laws.{lookup-insert_self}
use hcloud_operator.Kube.Condition.{Condition, Meta, condition_true, condition_false}
use hcloud_operator.Kube.Client.{Client, Retry}
use hcloud_operator.Hcloud.Types.{ServerInfo}
use hcloud_operator.Fake.State.{FakeClient}
use hcloud_operator.Fake.Servers.{server_api, get_server}
use hcloud_operator.Fake.Servers.Laws.{
  with_server, get_server_stored, power_off_server_running, power_on_server_off,
  change_server_type_off,
}
use hcloud_operator.V1alpha1.Server.{HcloudServer, HcloudServerSpec}
use hcloud_operator.V1alpha1.Network.{HcloudNetwork}
use hcloud_operator.V1alpha1.PlacementGroup.{HcloudPlacementGroup}
use hcloud_operator.Server.State.{HcloudServerReconciler, ServerScope, condition_type_ready}
use hcloud_operator.Server.Status.{
  write_status, is_lifecycle_condition, update_server_status_with_retry, sync_status,
}
use hcloud_operator.Server.Network.{
  ref_name, choose_network, ensure_server_network_attachment, sync_placement_group_status,
  release_network,
}
use hcloud_operator.Server.Resize.{reconcile_server_type_mismatch}
use hcloud_operator.Server.Controller.{
  settle_existing_server, after_network, after_placement, resume, reconcile_existing_server,
  reconcile_hcloud_server, reconcile,
}

-- A cluster that takes every status that the controller writes.
abbrev pub Accepts : {K : Type 0} → HcloudServerReconciler FakeClient K → Type 0
Accepts {K} r =
    (name : String) (k : K) (st : _) → (r.retry_on_conflict (write_status r name st) k).0 ≡ ok tt

-- The object owns the server `s`, stored under `id`, with neither a network nor a placement group.
pub record Tracks {K : Type 0} (id : Int64) (s : ServerInfo) (spec : HcloudServerSpec)
    (applied : String) (st : ServerScope FakeClient K) : Type 0 where
  pub stored : lookup id st.world.cloud.servers ≡ some s
  pub own_id : s.id ≡ id
  pub known : st.object.status.server_id ≡ id
  pub valid_id : is_set id ≡ true
  pub no_get_err : st.world.cloud.get_err ≡ none
  pub same_spec : st.object.spec ≡ spec
  pub no_network : ref_name spec.network_ref ≡ none
  pub no_applied_network : st.object.status.applied_network_id ≡ 0
  pub no_placement_group : ref_name spec.placement_group_ref ≡ none
  pub applied_type : st.object.status.applied_server_type ≡ applied

-- meta.FindStatusCondition(…, "Ready")
abbrev pub ready_condition : {K : Type 0} → Meta → ServerScope FakeClient K → Option Condition
ready_condition meta t = meta.find_status_condition t.object.status.conditions condition_type_ready

abbrev pub running_condition : Condition
running_condition = record {
  type = condition_type_ready;
  status = condition_true;
  reason = "ServerRunning";
  message = str "Hetzner server is running at desired type" ∷ [];
}

abbrev pub off_condition : ServerInfo → Condition
off_condition s = record {
  type = condition_type_ready;
  status = condition_false;
  reason = "ServerNotReady";
  message = str "Hetzner server state is " ∷ quoted s.state ∷ [];
}

module _ {K : Type 0} (client : Client K HcloudServer)
    (get_network : String → Action K HcloudNetwork)
    (get_placement_group : String → Action K HcloudPlacementGroup) (retry : Retry K)
    (meta : Meta) where
  abbrev pub fake_reconciler : HcloudServerReconciler FakeClient K
  fake_reconciler = record {
    hcloud_client = server_api;
    client = client;
    get_network = get_network;
    get_placement_group = get_placement_group;
    retry_on_conflict = retry;
    meta = meta;
  }

module _ {K : Type 0} (client : Client K HcloudServer)
    (get_network : String → Action K HcloudNetwork)
    (get_placement_group : String → Action K HcloudPlacementGroup) (retry : Retry K) (meta : Meta)
    (id : Int64) (s : ServerInfo) (spec : HcloudServerSpec) (applied : String)
    (st : ServerScope FakeClient K) (h : Tracks id s spec applied st) where
  abbrev pub r : HcloudServerReconciler FakeClient K
  r = fake_reconciler client get_network get_placement_group retry meta

  gets : get_server st.object.status.server_id st.world.cloud ≡ (ok (some s), st.world.cloud)
  gets = ground (arith, get_server_stored id s st.world.cloud h.stored h.no_get_err, h.known)

  finds : reconcile_hcloud_server r st ≡ reconcile_existing_server r s st
  unfolding reconcile_hcloud_server resume
  finds = ground (arith, gets, h.known, h.valid_id)

  run_existing : (reconcile r st).1 ≡ (reconcile_existing_server r s st).1
  unfolding reconcile
  run_existing = ground (arith, finds)

  mismatched :
      s.server_type ≢ ""
      → s.server_type ≢ spec.server_type
      → reconcile_existing_server r s st ≡ reconcile_server_type_mismatch r s st
  unfolding reconcile_existing_server
  mismatched p q =
      ground (arith, h.same_spec, eq_iff s.server_type "", eq_iff s.server_type spec.server_type)

  abbrev off : ServerInfo
  off = record s { state = "off" }

  power_off_step :
      s.state ≡ "running" → Tracks id off spec applied (reconcile_server_type_mismatch r s st).1
  unfolding reconcile_server_type_mismatch update_server_status_with_retry
  power_off_step running = ground (
    arith,
    h,
    eq_iff s.state "initializing",
    eq_iff "running" "initializing",
    eq_iff s.state "running",
    power_off_server_running id s st.world.cloud h.stored running,
    get_server_stored id off (with_server id off st.world.cloud)
        (lookup-insert_self id off st.world.cloud.servers) h.no_get_err,
    lookup-insert_self id off st.world.cloud.servers,
  )

  abbrev retyped : ServerInfo
  retyped = record s { server_type = spec.server_type }

  abbrev cloud_retyped : FakeClient
  cloud_retyped = record (st.world.cloud) {
    servers = insert id retyped st.world.cloud.servers;
    last_change_server_type_upgrade_disk =
        insert id spec.upgrade_disk st.world.cloud.last_change_server_type_upgrade_disk;
  }

  retype_step :
      s.state ≡ "off"
      → s.server_type ≢ spec.server_type
      → Tracks id retyped spec applied (reconcile_server_type_mismatch r s st).1
  unfolding reconcile_server_type_mismatch update_server_status_with_retry
  retype_step is_off ne = ground (
    arith,
    h,
    h.same_spec,
    eq_iff s.state "initializing",
    eq_iff "off" "initializing",
    eq_iff s.state "running",
    eq_iff "off" "running",
    eq_iff s.state "stopping",
    eq_iff "off" "stopping",
    eq_iff s.state "migrating",
    eq_iff "off" "migrating",
    eq_iff s.state "rebuilding",
    eq_iff "off" "rebuilding",
    eq_iff s.state "off",
    change_server_type_off id s st.world.cloud h.stored spec.server_type spec.upgrade_disk is_off
        ne,
    get_server_stored id retyped cloud_retyped
        (lookup-insert_self id retyped st.world.cloud.servers) h.no_get_err,
    lookup-insert_self id retyped st.world.cloud.servers,
  )

  abbrev on : ServerInfo
  on = record s { state = "running" }

  power_on_step :
      s.state ≡ "off"
      → s.server_type ≡ spec.server_type
      → applied ≢ spec.server_type
      → Tracks id on spec applied (reconcile_existing_server r s st).1
  unfolding reconcile_existing_server update_server_status_with_retry
  power_on_step is_off same lags = ground (
    arith,
    h,
    h.same_spec,
    eq_iff s.server_type spec.server_type,
    eq_iff st.object.status.applied_server_type spec.server_type,
    eq_iff s.state "off",
    power_on_server_off id s st.world.cloud h.stored is_off,
    get_server_stored id on (with_server id on st.world.cloud)
        (lookup-insert_self id on st.world.cloud.servers) h.no_get_err,
    lookup-insert_self id on st.world.cloud.servers,
  )

  -- Neither a network nor a placement group holds the run up.
  no_network_change : ensure_server_network_attachment r s st ≡ (ok (false, s), st)
  unfolding ensure_server_network_attachment choose_network release_network
  no_network_change = ground (arith, h.same_spec, h.no_network, h.no_applied_network)

  settled :
      s.server_type ≡ spec.server_type
      → s.state ≡ "running"
      → Tracks id s spec spec.server_type (settle_existing_server r s st).1
  unfolding settle_existing_server after_network after_placement sync_placement_group_status
      sync_status update_server_status_with_retry
  settled same running = ground (
    arith,
    h,
    h.same_spec,
    no_network_change,
    eq_iff s.server_type spec.server_type,
    eq_iff s.state "running",
  )

  power_on_ready :
      s.state ≡ "off"
      → s.server_type ≡ spec.server_type
      → applied ≢ spec.server_type
      → is_lifecycle_condition (ready_condition meta (reconcile_existing_server r s st).1) ≡ false
  unfolding reconcile_existing_server update_server_status_with_retry
  power_on_ready is_off same lags = ground (
    arith,
    h.applied_type,
    h.own_id,
    h.same_spec,
    eq_iff s.server_type spec.server_type,
    eq_iff st.object.status.applied_server_type spec.server_type,
    eq_iff s.state "off",
    power_on_server_off id s st.world.cloud h.stored is_off,
    get_server_stored id on (with_server id on st.world.cloud)
        (lookup-insert_self id on st.world.cloud.servers) h.no_get_err,
    meta.find-set_self st.object.status.conditions (record {
      type = condition_type_ready;
      status = condition_false;
      reason = "PoweringOn";
      message = str "Powered on server after type change; waiting for running state" ∷ [];
    }),
  )

  settled_ready :
      s.server_type ≡ spec.server_type
      → s.state ≡ "running"
      → is_lifecycle_condition (ready_condition meta st) ≡ false
      → ready_condition meta (settle_existing_server r s st).1 ≡ some running_condition
  unfolding settle_existing_server after_network after_placement sync_placement_group_status
      sync_status update_server_status_with_retry
  settled_ready same running plain = ground (
    arith,
    h.same_spec,
    h.no_placement_group,
    no_network_change,
    eq_iff s.server_type spec.server_type,
    eq_iff s.state "running",
    meta.find-set_self st.object.status.conditions running_condition,
  )

  -- One run of the controller, by what it finds.
  pub reconcile_running_mismatch :
      s.server_type ≢ ""
      → s.server_type ≢ spec.server_type
      → s.state ≡ "running"
      → Tracks id (record s { state = "off" }) spec applied (reconcile r st).1
  reconcile_running_mismatch typed ne running =
      rw run_existing (rw (mismatched typed ne) (power_off_step running))

  pub reconcile_off_mismatch :
      s.server_type ≢ ""
      → s.server_type ≢ spec.server_type
      → s.state ≡ "off"
      → Tracks id (record s { server_type = spec.server_type }) spec applied (reconcile r st).1
  reconcile_off_mismatch typed ne is_off =
      rw run_existing (rw (mismatched typed ne) (retype_step is_off ne))

  pub reconcile_off_lagging :
      s.state ≡ "off"
      → s.server_type ≡ spec.server_type
      → applied ≢ spec.server_type
      → Tracks id (record s { state = "running" }) spec applied (reconcile r st).1
        × (is_lifecycle_condition (ready_condition meta (reconcile r st).1) ≡ false)
  reconcile_off_lagging is_off same lags = (
    rw run_existing (power_on_step is_off same lags),
    rw run_existing (power_on_ready is_off same lags),
  )

  settles_running :
      s.server_type ≡ spec.server_type
      → s.state ≡ "running"
      → reconcile_existing_server r s st ≡ settle_existing_server r s st
  unfolding reconcile_existing_server
  settles_running same running = ground (
    arith,
    h.same_spec,
    eq_iff s.server_type spec.server_type,
    eq_iff s.state "off",
    eq_iff "running" "off",
  )

  settles_off :
      s.server_type ≡ spec.server_type
      → applied ≡ spec.server_type
      → reconcile_existing_server r s st ≡ settle_existing_server r s st
  unfolding reconcile_existing_server
  settles_off same current = ground (
    arith,
    h.same_spec,
    h.applied_type,
    eq_iff s.server_type spec.server_type,
    eq_iff st.object.status.applied_server_type spec.server_type,
  )

  pub reconcile_running :
      s.server_type ≡ spec.server_type
      → s.state ≡ "running"
      → Tracks id s spec spec.server_type (reconcile r st).1
  reconcile_running same running =
      rw run_existing (rw (settles_running same running) (settled same running))

  pub reconcile_running_ready :
      s.server_type ≡ spec.server_type
      → s.state ≡ "running"
      → is_lifecycle_condition (ready_condition meta st) ≡ false
      → ready_condition meta (reconcile r st).1 ≡ some running_condition
  reconcile_running_ready same running plain =
      rw run_existing (rw (settles_running same running) (settled_ready same running plain))

  settled_off :
      s.state ≡ "off"
      → Tracks id s spec applied (settle_existing_server r s st).1
        × (ready_condition meta (settle_existing_server r s st).1 ≡ some (off_condition s))
  unfolding settle_existing_server after_network after_placement sync_placement_group_status
      sync_status update_server_status_with_retry
  settled_off is_off = ground (
    arith,
    h,
    h.same_spec,
    no_network_change,
    eq_iff s.state "running",
    eq_iff "off" "running",
    meta.find-set_self st.object.status.conditions (off_condition s),
  )

  -- A server that is off at the type that the object has applied already stays off.
  pub reconcile_off_current :
      s.state ≡ "off"
      → s.server_type ≡ spec.server_type
      → applied ≡ spec.server_type
      → Tracks id s spec applied (reconcile r st).1
        × (ready_condition meta (reconcile r st).1 ≡ some (off_condition s))
  reconcile_off_current is_off same current =
      rw run_existing (rw (settles_off same current) (settled_off is_off))
