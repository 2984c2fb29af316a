-- ===== src/Volume/Pending.antt =====
-- A run that waits for the server that the spec names.
use hcloud_operator.Base.{
  true, false, ◌≡◌, sym, subst, some, [], ◌∷◌, String, string_eq, nat_eq, arith,
}
use hcloud_operator.Go.Fault.{Result, ok, err, panic, str}
use hcloud_operator.Go.Action.{settle}
use hcloud_operator.Go.Integer.{is_set}
use hcloud_operator.Kube.Condition.{Condition, condition_false}
use hcloud_operator.Kube.Client.{ApiErrors}
use hcloud_operator.Reconcile.Object.{CtrlResult}
use hcloud_operator.V1alpha1.Server.{HcloudServer}
use hcloud_operator.Server.State.{condition_type_ready}
use hcloud_operator.Volume.State.{HcloudVolumeReconciler, VolumeScope}
use hcloud_operator.Volume.Controller.{
  after_delay, server_read, server_unread, reconcile_to, reconcile,
}

-- There is no such server, or Hetzner has not given it an ID.
unfoldable pub Unready : ApiErrors → Result HcloudServer → Type 0
Unready api_errors (ok server) = is_set server.status.server_id ≡ false
Unready api_errors (err e) = api_errors.is_not_found e ≡ true
Unready api_errors panic = ⊥

abbrev pub pending_message : Result HcloudServer → String
pending_message (ok server) = "Target server not yet provisioned in Hetzner"
pending_message (err e) = "Target server not found"
pending_message panic = ""

abbrev pub pending_condition : String → Condition
pending_condition message = record {
  type = condition_type_ready;
  status = condition_false;
  reason = "ServerPending";
  message = str message ∷ [];
}

module _ {C K : Type 0} (r : HcloudVolumeReconciler C K) where
  open r use {get_server_object, api_errors, meta}

  -- The run calls nothing of the cloud, sets Ready to False, and is repeated after the usual delay.
  abbrev pub Waits : String → VolumeScope C K → Result CtrlResult × VolumeScope C K → Type 0
  Waits message st out =
      (out.0 ≡ ok after_delay)
      × (out.1.world.cloud ≡ st.world.cloud)
      × (meta.find_status_condition out.1.object.status.conditions condition_type_ready
          ≡ some (pending_condition message))

  settle-Waits :
      (answer : Result HcloudServer × K) (st : VolumeScope C K)
      → Unready api_errors answer.0
      → Waits (pending_message answer.0) st (
          settle
            (server_unread r)
            (server_read r)
            (answer.0, record st { world = record (st.world) { cluster = answer.1 } }))
  unfolding server_unread server_read Unready
  settle-Waits (ok server, k) st h = ground (
    arith,
    meta.find-set_self st.object.status.conditions
        (pending_condition "Target server not yet provisioned in Hetzner"),
  )
  settle-Waits (err e, k) st h = ground (
    arith,
    meta.find-set_self st.object.status.conditions (pending_condition "Target server not found"),
  )
  settle-Waits (panic, k) st h = absurd h

  -- A volume whose spec names a server waits while there is no such server in the cluster, or while it
  -- has no ID: the run leaves the cloud as it is, sets Ready to False with the reason ServerPending and
  -- a message that tells the two apart, and asks to be repeated after the usual delay.
  pub reconcile-Waits :
      (name : String) (st : VolumeScope C K)
      → st.object.spec.server_ref ≡ some name
      → Unready api_errors (get_server_object name st.world.cluster).0
      → Waits (pending_message (get_server_object name st.world.cluster).0) st (reconcile r st)
  unfolding reconcile reconcile_to
  reconcile-Waits name st e h =
      subst
        (λ ref.
          Waits (pending_message (get_server_object name st.world.cluster).0) st
            (reconcile_to r ref st))
        (sym e) (settle-Waits (get_server_object name st.world.cluster) st h)
