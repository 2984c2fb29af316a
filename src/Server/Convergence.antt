-- ===== src/Server/Convergence.antt =====
-- Several runs of the controller in a row, against the in-memory cloud: a change of the server's type
-- is carried through, and a drift of it is not.
use hcloud_operator.Base.{ℕ, zero, suc, ◌≡◌, refl, ◌≢◌, String, some}
use hcloud_operator.Go.Action.{Action}
use hcloud_operator.Go.Integer.{Int64}
use hcloud_operator.Kube.Condition.{Meta}
use hcloud_operator.Kube.Client.{Client, Retry}
use hcloud_operator.Hcloud.Types.{ServerInfo}
use hcloud_operator.Fake.State.{FakeClient}
use hcloud_operator.V1alpha1.Server.{HcloudServer, HcloudServerSpec}
use hcloud_operator.V1alpha1.Network.{HcloudNetwork}
use hcloud_operator.V1alpha1.PlacementGroup.{HcloudPlacementGroup}
use hcloud_operator.Server.State.{HcloudServerReconciler, ServerScope}
use hcloud_operator.Server.Controller.{reconcile}
use hcloud_operator.Server.Tracking.{
  Tracks, fake_reconciler, ready_condition, running_condition, reconcile_running_mismatch,
  reconcile_off_mismatch, reconcile_off_lagging, reconcile_running, reconcile_running_ready,
  reconcile_off_current,
}

-- The state after a number of runs: each starts from the status that the one before decided on.
pub rounds :
    {K : Type 0}
    → HcloudServerReconciler FakeClient K
    → ℕ
    → ServerScope FakeClient K
    → ServerScope FakeClient K
rounds r zero st = st
rounds r (suc n) st = rounds r n (reconcile r st).1

module _ {K : Type 0} (client : Client K HcloudServer)
    (get_network : String → Action K HcloudNetwork)
    (get_placement_group : String → Action K HcloudPlacementGroup) (retry : Retry K) (meta : Meta)
    (id : Int64) (spec : HcloudServerSpec) (applied : String) where
  abbrev r : HcloudServerReconciler FakeClient K
  r = fake_reconciler client get_network get_placement_group retry meta

  abbrev off : ServerInfo → ServerInfo
  off s = record s { state = "off" }

  abbrev retyped : ServerInfo → ServerInfo
  retyped s = record s { server_type = spec.server_type; state = "off" }

  abbrev converged : ServerInfo → ServerInfo
  converged s = record s { server_type = spec.server_type; state = "running" }

  -- Two runs turn a running server of another type into one of the wanted type that is off.
  after_two :
      (s : ServerInfo) (st : ServerScope FakeClient K)
      → Tracks id s spec applied st
      → s.state ≡ "running"
      → s.server_type ≢ ""
      → s.server_type ≢ spec.server_type
      → Tracks id (retyped s) spec applied (reconcile r (reconcile r st).1).1
  after_two s st h running typed ne =
      reconcile_off_mismatch client get_network get_placement_group retry meta id (off s) spec
        applied _
        (reconcile_running_mismatch client get_network get_placement_group retry meta id s spec
          applied st h typed ne running)
        typed ne refl

  -- A server that runs at another type than the spec asks for, while that type has not been applied
  -- yet, runs at the wanted type after four runs: powered off, changed, powered on, and recorded as
  -- applied with Ready set to True. It is about an object whose status names the stored server, and
  -- that has neither a network reference, an applied network nor a placement group reference; it asks
  -- that reads do not fail, and each run starts from the status that the one before decided on,
  -- whether or not that was persisted.
  pub rounds-converge :
      (s : ServerInfo) (st : ServerScope FakeClient K)
      → Tracks id s spec applied st
      → s.state ≡ "running"
      → s.server_type ≢ ""
      → s.server_type ≢ spec.server_type
      → applied ≢ spec.server_type
      → Tracks id (converged s) spec spec.server_type (rounds r 4 st)
        × (ready_condition meta (rounds r 4 st) ≡ some running_condition)
  unfolding rounds
  rounds-converge s st h running typed ne lags =
      let two = after_two s st h running typed ne in
      let three =
        reconcile_off_lagging client get_network get_placement_group retry meta id (retyped s) spec
          applied _ two refl refl lags in
      (
        reconcile_running client get_network get_placement_group retry meta id (converged s) spec
            applied _ three.0 refl refl,
        reconcile_running_ready client get_network get_placement_group retry meta id (converged s)
            spec applied _ three.0 refl refl three.1,
      )

  stays_off :
      (n : ℕ) (s : ServerInfo) (st : ServerScope FakeClient K)
      → Tracks id s spec applied st
      → s.state ≡ "off"
      → s.server_type ≡ spec.server_type
      → applied ≡ spec.server_type
      → Tracks id s spec applied (rounds r n st)
  unfolding rounds
  stays_off zero s st h is_off same current = h
  stays_off (suc n) s st h is_off same current =
      stays_off n s (reconcile r st).1
        (reconcile_off_current client get_network get_placement_group retry meta id s spec applied
          st h is_off same current).0
        is_off same current

  -- A server whose type was changed outside the operator, while the spec still asks for the type that
  -- was applied, is powered off and changed back, and then is off after every further run. It is
  -- about an object whose status names the stored server, and that has neither a network reference,
  -- an applied network nor a placement group reference; it asks that reads do not fail, and each run
  -- starts from the status that the one before decided on, whether or not that was persisted.
  pub rounds-drift_stays_off :
      (n : ℕ) (s : ServerInfo) (st : ServerScope FakeClient K)
      → Tracks id s spec applied st
      → s.state ≡ "running"
      → s.server_type ≢ ""
      → s.server_type ≢ spec.server_type
      → applied ≡ spec.server_type
      → Tracks id (retyped s) spec applied (rounds r (suc (suc n)) st)
  unfolding rounds
  rounds-drift_stays_off n s st h running typed ne current =
      stays_off n (retyped s) _ (after_two s st h running typed ne) refl refl current
