-- ===== src/Volume/Settled.antt =====
-- What the controller does to a volume that exists, against the in-memory cloud.
use hcloud_operator.Base.{
  true, false, ◌≡◌, ◌≢◌, refl, sym, subst, ap, ◌∙◌, none, some, String, string_eq, nat_eq, arith,
  if◌then◌else◌, ◌==◌, Bool-cases, inl, inr,
}
use hcloud_operator.Go.Fault.{Result, ok}
use hcloud_operator.Go.Action.{Action}
use hcloud_operator.Go.Integer.{Int64, is_set, lt_int}
use hcloud_operator.Go.Map.{lookup}
use hcloud_operator.Go.Map.Laws.{lookup-insert_self}
use hcloud_operator.Kube.Condition.{Meta}
use hcloud_operator.Kube.Client.{ApiErrors}
use hcloud_operator.Hcloud.Types.{VolumeInfo}
use hcloud_operator.Fake.State.{FakeClient}
use hcloud_operator.Fake.Volumes.{volume_api}
use hcloud_operator.Fake.Volumes.Laws.{
  with_volume, get_volume_stored, detach_volume_stored, attach_volume_free, resize_volume_grown,
}
use hcloud_operator.V1alpha1.Server.{HcloudServer}
use hcloud_operator.Volume.State.{HcloudVolumeReconciler, VolumeScope}
use hcloud_operator.Volume.Controller.{fit_size, detach_old, move_volume}

-- The volume `v` is stored under its ID, and reads of the cloud do not fail.
pub record Holds {K : Type 0} (v : VolumeInfo) (st : VolumeScope FakeClient K) : Type 0 where
  pub stored : lookup v.id st.world.cloud.volumes ≡ some v
  pub no_get_err : st.world.cloud.get_err ≡ none

-- A step answers `a` and leaves the volume `v` stored, and the object as it was.
pub record Lands {K : Type 0} (a v : VolumeInfo) (st : VolumeScope FakeClient K)
    (out : Result VolumeInfo × VolumeScope FakeClient K) : Type 0 where
  pub returned : out.0 ≡ ok a
  pub holds : Holds v out.1
  pub same_object : out.1.object ≡ st.object

lands :
    {K : Type 0} {a v : VolumeInfo} {st st' : VolumeScope FakeClient K}
    → (out : Result VolumeInfo × VolumeScope FakeClient K) → out ≡ (ok a, st')
    → Holds v st'
    → st'.object ≡ st.object
    → Lands a v st out
lands {a} {v} {st} {st'} out e h o =
    subst (Lands a v st) (sym e) (record { returned = refl; holds = h; same_object = o })

-- Attached to no server, and to another.
abbrev pub free : VolumeInfo → VolumeInfo
free v = record v { server_id = 0 }

abbrev pub moved : Int64 → VolumeInfo → VolumeInfo
moved target v = record v { server_id = target }

-- What the step answers: a volume that is only detached is still said to be where it was.
abbrev pub reported : Int64 → VolumeInfo → VolumeInfo
reported target v = record v { server_id = if is_set target then target else v.server_id }

-- The volume with the size of the spec, where it is smaller.
abbrev pub fitted : Int64 → VolumeInfo → VolumeInfo
fitted size v = record v { size = if lt_int v.size size then size else v.size }

module _ {K : Type 0} (get_server_object : String → Action K HcloudServer) (api_errors : ApiErrors)
    (meta : Meta) where
  abbrev pub fake_reconciler : HcloudVolumeReconciler FakeClient K
  fake_reconciler = record {
    hcloud_client = volume_api;
    get_server_object = get_server_object;
    api_errors = api_errors;
    meta = meta;
  }

  abbrev pub in_place : VolumeInfo → VolumeScope FakeClient K → VolumeScope FakeClient K
  in_place v st = record st {
    world = record (st.world) { cloud = with_volume v.id v st.world.cloud };
  }

  stores :
      (v : VolumeInfo) (st : VolumeScope FakeClient K)
      → st.world.cloud.get_err ≡ none
      → Holds v (in_place v st)
  stores v st h = record {
    stored = lookup-insert_self v.id v st.world.cloud.volumes;
    no_get_err = h;
  }

  fit_grown :
      (v : VolumeInfo) (st : VolumeScope FakeClient K)
      → Holds v st
      → lt_int v.size st.object.spec.size ≡ true
      → lt_int st.object.spec.size v.size ≡ false
      → let v' = record v { size = st.object.spec.size } in
        fit_size fake_reconciler v st ≡ (ok v', in_place v' st)
  unfolding fit_size
  fit_grown v st h small fits =
      let v' = record v { size = st.object.spec.size } in
      ground (
        arith,
        resize_volume_grown v.id v st.world.cloud h.stored st.object.spec.size fits,
        get_volume_stored v.id v' (with_volume v.id v' st.world.cloud)
            (lookup-insert_self v.id v' st.world.cloud.volumes) h.no_get_err,
      )

  pub fit_same :
      (v : VolumeInfo) (st : VolumeScope FakeClient K)
      → lt_int v.size st.object.spec.size ≡ false
      → lt_int st.object.spec.size v.size ≡ false
      → fit_size fake_reconciler v st ≡ (ok v, st)
  unfolding fit_size
  fit_same v st h k = ground arith

  move_elsewhere :
      (target : Int64) (v : VolumeInfo) (st : VolumeScope FakeClient K)
      → Holds v st
      → v.server_id ≢ target
      → is_set v.server_id ≡ true
      → is_set target ≡ true
      → move_volume fake_reconciler target v st
        ≡ (ok (moved target v), in_place (moved target v) (in_place (free v) st))
  unfolding move_volume detach_old
  move_elsewhere target v st h ne old set =
      let f = st.world.cloud in
      ground (
        arith,
        detach_volume_stored v.id v f h.stored,
        attach_volume_free v.id (free v) (with_volume v.id (free v) f)
            (lookup-insert_self v.id (free v) f.volumes) target,
      )

  move_nowhere :
      (target : Int64) (v : VolumeInfo) (st : VolumeScope FakeClient K)
      → Holds v st
      → is_set v.server_id ≡ true
      → is_set target ≡ false
      → move_volume fake_reconciler target v st ≡ (ok v, in_place (free v) st)
  unfolding move_volume detach_old
  move_nowhere target v st h old unset =
      ground (arith, detach_volume_stored v.id v st.world.cloud h.stored)

  move_free :
      (target : Int64) (v : VolumeInfo) (st : VolumeScope FakeClient K)
      → Holds v st
      → is_set v.server_id ≡ false
      → is_set target ≡ true
      → move_volume fake_reconciler target v st
        ≡ (ok (moved target v), in_place (moved target v) st)
  unfolding move_volume detach_old
  move_free target v st h off set =
      ground (arith, attach_volume_free v.id v st.world.cloud h.stored target)

  pub move_same :
      (target : Int64) (v : VolumeInfo) (st : VolumeScope FakeClient K)
      → v.server_id ≡ target
      → move_volume fake_reconciler target v st ≡ (ok v, st)
  unfolding move_volume
  move_same target v st e = ground arith

  moved_same : (target : Int64) (v : VolumeInfo) → v.server_id ≡ target → moved target v ≡ v
  moved_same target v e = ap (λ t. record v { server_id = t }) (sym e)

  reported_same : (target : Int64) (v : VolumeInfo) → v.server_id ≡ target → reported target v ≡ v
  reported_same target v e = ground (arith, moved_same target v e)

  reported_set :
      (target : Int64) (v : VolumeInfo) → is_set target ≡ true → reported target v ≡ moved target v
  reported_set target v set = ground arith

  reported_unset : (target : Int64) (v : VolumeInfo) → is_set target ≡ false → reported target v ≡ v
  reported_unset target v unset = ground arith

  freed : (target : Int64) (v : VolumeInfo) → is_set target ≡ false → free v ≡ moved target v
  freed target v unset = ground arith

  move_differs :
      (target : Int64) (v : VolumeInfo) (st : VolumeScope FakeClient K)
      → Holds v st
      → v.server_id ≢ target
      → Lands (reported target v) (moved target v) st (move_volume fake_reconciler target v st)
  move_differs target v st h ne = elim (Bool-cases (is_set target)) [
    | inl set ↦ elim (Bool-cases (is_set v.server_id)) [
      | inl old ↦
          lands _
            (move_elsewhere target v st h ne old set
              ∙ ap (λ a. (ok a, in_place (moved target v) (in_place (free v) st)))
                  (sym (reported_set target v set)))
            (stores (moved target v) (in_place (free v) st) h.no_get_err) refl
      | inr off ↦
          lands _
            (move_free target v st h off set
              ∙ ap (λ a. (ok a, in_place (moved target v) st)) (sym (reported_set target v set)))
            (stores (moved target v) st h.no_get_err) refl
    ]
    | inr unset ↦
        lands _
          (move_nowhere target v st h (ground arith) unset
            ∙ ap (λ a. (ok a, in_place (free v) st)) (sym (reported_unset target v unset)))
          (subst (λ w. Holds w (in_place (free v) st)) (freed target v unset)
            (stores (free v) st h.no_get_err))
          refl
  ]

  pub move-Lands :
      (target : Int64) (v : VolumeInfo) (st : VolumeScope FakeClient K)
      → Holds v st
      → Lands (reported target v) (moved target v) st (move_volume fake_reconciler target v st)
  move-Lands target v st h = elim (Bool-cases (v.server_id == target)) [
    | inl e ↦
        let same : v.server_id ≡ target = ground arith in
        lands _
          (move_same target v st same ∙ ap (λ a. (ok a, st)) (sym (reported_same target v same)))
          (subst (λ w. Holds w st) (sym (moved_same target v same)) h) refl
    | inr e ↦ move_differs target v st h (ground arith)
  ]

  pub fit-Lands :
      (v : VolumeInfo) (st : VolumeScope FakeClient K)
      → Holds v st
      → lt_int st.object.spec.size v.size ≡ false
      → Lands
          (fitted st.object.spec.size v)
          (fitted st.object.spec.size v)
          st
          (fit_size fake_reconciler v st)
  fit-Lands v st h fits = elim (Bool-cases (lt_int v.size st.object.spec.size)) [
    | inl small ↦
        let v' = record v { size = st.object.spec.size } in
        let e : fitted st.object.spec.size v ≡ v' = ground arith in
        subst (λ w. Lands w w st (fit_size fake_reconciler v st)) (sym e)
          (lands _ (fit_grown v st h small fits) (stores v' st h.no_get_err) refl)
    | inr large ↦
        let e : fitted st.object.spec.size v ≡ v = ground arith in
        subst (λ w. Lands w w st (fit_size fake_reconciler v st)) (sym e)
          (lands _ (fit_same v st large fits) h refl)
  ]
