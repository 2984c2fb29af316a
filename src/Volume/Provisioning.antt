-- ===== src/Volume/Provisioning.antt =====
-- A whole run over a volume that exists, against the in-memory cloud.
use hcloud_operator.Base.{
  true, false, ◌≡◌, refl, sym, subst, ap, ◌∙◌, some, [], ◌∷◌, String, string_eq, nat_eq, arith,
}
use hcloud_operator.Go.Fault.{Result, ok, str}
use hcloud_operator.Go.Action.{Action, ◌>>=◌}
use hcloud_operator.Go.Action.Outcome.{continue_ok}
use hcloud_operator.Go.Integer.{Int64, is_set, lt_int, lt_int_irrefl}
use hcloud_operator.Kube.Condition.{Condition, Meta, condition_true}
use hcloud_operator.Kube.Client.{ApiErrors}
use hcloud_operator.Hcloud.Types.{VolumeInfo}
use hcloud_operator.Fake.State.{FakeClient}
use hcloud_operator.Fake.Volumes.Laws.{get_volume_stored}
use hcloud_operator.V1alpha1.Server.{HcloudServer}
use hcloud_operator.V1alpha1.Volume.{HcloudVolume, HcloudVolumeSpec}
use hcloud_operator.Server.State.{condition_type_ready}
use hcloud_operator.Volume.State.{HcloudVolumeReconciler, VolumeScope}
use hcloud_operator.Volume.Controller.{
  fit_size, move_volume, settle_volume, sync_volume_status, fetch_by_id, fetch_by_name,
  create_missing, reconcile_hcloud_volume,
}
use hcloud_operator.Volume.Settled.{
  Holds, fake_reconciler, fitted, reported, moved, fit-Lands, move-Lands, fit_same, move_same,
}

abbrev pub ready_condition : Condition
ready_condition = record {
  type = condition_type_ready;
  status = condition_true;
  reason = "VolumeReady";
  message = str "Volume is provisioned and attached" ∷ [];
}

-- A run ends without an error, with the volume `v` stored, and the status of the object tells of `a`.
pub record Provisioned {K : Type 0} (meta : Meta) (a v : VolumeInfo) (st : VolumeScope FakeClient K)
    (out : Result (Unit {0}) × VolumeScope FakeClient K) : Type 0 where
  pub returned : out.0 ≡ ok tt
  pub holds : Holds v out.1
  pub same_spec : out.1.object.spec ≡ st.object.spec
  pub volume_id : out.1.object.status.volume_id ≡ a.id
  pub applied_size : out.1.object.status.applied_size ≡ a.size
  pub attached_server_id : out.1.object.status.attached_server_id ≡ a.server_id
  pub ready :
      meta.find_status_condition out.1.object.status.conditions condition_type_ready
      ≡ some ready_condition

module _ {K : Type 0} (get_server_object : String → Action K HcloudServer) (api_errors : ApiErrors)
    (meta : Meta) where
  abbrev r : HcloudVolumeReconciler FakeClient K
  r = fake_reconciler get_server_object api_errors meta

  sync-Provisioned :
      (a v : VolumeInfo) (st st' : VolumeScope FakeClient K)
      → Holds v st'
      → st'.object ≡ st.object
      → Provisioned meta a v st (sync_volume_status r a st')
  unfolding sync_volume_status
  sync-Provisioned a v st st' h o = record {
    returned = refl;
    holds = record { stored = h.stored; no_get_err = h.no_get_err };
    same_spec = ap (λ (x : HcloudVolume). x.spec) o;
    volume_id = refl;
    applied_size = refl;
    attached_server_id = refl;
    ready = meta.find-set_self st'.object.status.conditions ready_condition;
  }

  pub settle-Provisioned :
      (target : Int64) (v : VolumeInfo) (st : VolumeScope FakeClient K)
      → Holds v st
      → lt_int st.object.spec.size v.size ≡ false
      → let v' = fitted st.object.spec.size v in
        Provisioned meta (reported target v') (moved target v') st (settle_volume r target v st)
  unfolding settle_volume
  settle-Provisioned target v st h fits =
      let v' = fitted st.object.spec.size v in
      let sized = fit-Lands get_server_object api_errors meta v st h fits in
      let st1 = (fit_size r v st).1 in
      let placed = move-Lands get_server_object api_errors meta target v' st1 sized.holds in
      subst (Provisioned meta (reported target v') (moved target v') st)
        (sym (
          continue_ok (λ s t. (move_volume r target s >>= sync_volume_status r) t) (fit_size r v st)
            v' sized.returned
          ∙ continue_ok (sync_volume_status r) (move_volume r target v' st1) (reported target v')
              placed.returned))
        (sync-Provisioned (reported target v') (moved target v') st (move_volume r target v' st1).1
          placed.holds (placed.same_object ∙ sized.same_object))

  -- The look-ups end with the volume that the status names.
  pub owned_settles :
      (target : Int64) (v : VolumeInfo) (st : VolumeScope FakeClient K)
      → Holds v st
      → st.object.status.volume_id ≡ v.id
      → is_set v.id ≡ true
      → reconcile_hcloud_volume r target st ≡ settle_volume r target v st
  unfolding reconcile_hcloud_volume fetch_by_id fetch_by_name create_missing
  owned_settles target v st h known set =
      ground (arith, get_volume_stored v.id v st.world.cloud h.stored h.no_get_err)

  -- A run over a volume that exists ends without an error, whatever server it is attached to now: the
  -- cloud holds it with the size of the spec where it was smaller, attached to the target (to none,
  -- if the target is 0), and the status has its ID and size, the target as its server unless that is
  -- 0, and Ready set to True. It asks that the status names the volume, that reads do not fail, and
  -- that the volume is not larger than the spec says.
  pub reconcile_hcloud_volume-Provisioned :
      (target : Int64) (v : VolumeInfo) (st : VolumeScope FakeClient K)
      → Holds v st
      → st.object.status.volume_id ≡ v.id
      → is_set v.id ≡ true
      → lt_int st.object.spec.size v.size ≡ false
      → let v' = fitted st.object.spec.size v in
        Provisioned meta
          (reported target v')
          (moved target v')
          st
          (reconcile_hcloud_volume r target st)
  reconcile_hcloud_volume-Provisioned target v st h known set fits =
      subst
        (Provisioned meta (reported target (fitted st.object.spec.size v))
          (moved target (fitted st.object.spec.size v)) st)
        (sym (owned_settles target v st h known set)) (settle-Provisioned target v st h fits)

  -- A volume that is as it should be.
  settle_steady :
      (target : Int64) (v : VolumeInfo) (st : VolumeScope FakeClient K)
      → lt_int v.size st.object.spec.size ≡ false
      → lt_int st.object.spec.size v.size ≡ false
      → v.server_id ≡ target
      → settle_volume r target v st ≡ sync_volume_status r v st
  unfolding settle_volume
  settle_steady target v st h k e = ground (
    arith,
    fit_same get_server_object api_errors meta v st h k,
    move_same get_server_object api_errors meta target v st e,
  )

  -- What a run reports of a volume that it finds as it should be.
  abbrev pub Quiet :
      Int64 → VolumeScope FakeClient K → Result (Unit {0}) × VolumeScope FakeClient K → Type 0
  Quiet target st out =
      (out.0 ≡ ok tt)
      × (out.1.world.cloud ≡ st.world.cloud)
      × (out.1.object.status.attached_server_id ≡ target)

  sync-Quiet :
      (v : VolumeInfo) (st : VolumeScope FakeClient K)
      → Quiet v.server_id st (sync_volume_status r v st)
  unfolding sync_volume_status
  sync-Quiet v st = (refl, refl, refl)

  steady-Quiet :
      (target : Int64) (v : VolumeInfo) (st : VolumeScope FakeClient K)
      → Holds v st
      → st.object.status.volume_id ≡ v.id
      → is_set v.id ≡ true
      → lt_int v.size st.object.spec.size ≡ false
      → lt_int st.object.spec.size v.size ≡ false
      → v.server_id ≡ target
      → Quiet target st (reconcile_hcloud_volume r target st)
  steady-Quiet target v st h known set low high e =
      subst (Quiet target st)
        (sym (owned_settles target v st h known set ∙ settle_steady target v st low high e))
        (subst (λ t. Quiet t st (sync_volume_status r v st)) e (sync-Quiet v st))

  fitted_fits :
      (size : Int64) (v : VolumeInfo)
      → lt_int size v.size ≡ false
      → (lt_int (fitted size v).size size ≡ false) × (lt_int size (fitted size v).size ≡ false)
  fitted_fits size v h = ground (arith, lt_int_irrefl size)

  -- A second run with the same target changes nothing in the cloud, and tells in the status of the
  -- server that the volume is attached to, also where the first run did not.
  pub reconcile_hcloud_volume_again :
      (target : Int64) (v : VolumeInfo) (st : VolumeScope FakeClient K)
      → Holds v st
      → st.object.status.volume_id ≡ v.id
      → is_set v.id ≡ true
      → lt_int st.object.spec.size v.size ≡ false
      → let once = (reconcile_hcloud_volume r target st).1 in
        Quiet target once (reconcile_hcloud_volume r target once)
  reconcile_hcloud_volume_again target v st h known set fits =
      let first = reconcile_hcloud_volume-Provisioned target v st h known set fits in
      let once = (reconcile_hcloud_volume r target st).1 in
      let v' = moved target (fitted st.object.spec.size v) in
      let (low, high) = fitted_fits st.object.spec.size v fits in
      steady-Quiet target v' once first.holds (first.volume_id) set
        (subst (λ (o : HcloudVolumeSpec). lt_int v'.size o.size ≡ false) (sym first.same_spec) low)
        (subst (λ (o : HcloudVolumeSpec). lt_int o.size v'.size ≡ false) (sym first.same_spec) high)
        refl
