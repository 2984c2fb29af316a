-- ===== src/Volume/Creation.antt =====
-- A run for which there is no volume yet, one that waits for its server, and one that would shrink a
-- volume.
use hcloud_operator.Base.{
  true, ◌≡◌, refl, sym, subst, ◌∙◌, none, [], ◌∷◌, String, string_eq, nat_eq, arith,
}
use hcloud_operator.Go.Fault.{Result, ok, err, fail, str, num}
use hcloud_operator.Go.Action.{Action}
use hcloud_operator.Go.Integer.{Int64, is_set, lt_int, lt_int_irrefl, lt_int_asym, increment}
use hcloud_operator.Go.Map.{lookup, insert, find_value}
use hcloud_operator.Go.Map.Laws.{lookup-insert_self}
use hcloud_operator.Kube.Condition.{Meta}
use hcloud_operator.Kube.Client.{ApiErrors}
use hcloud_operator.Hcloud.Types.{VolumeInfo}
use hcloud_operator.Fake.State.{FakeClient}
use hcloud_operator.Fake.Volumes.{
  get_volume, get_volume_by_name, create_volume, new_volume, volume_named,
}
use hcloud_operator.V1alpha1.Server.{HcloudServer}
use hcloud_operator.Volume.State.{HcloudVolumeReconciler, VolumeScope}
use hcloud_operator.Volume.Controller.{
  create_opts, fit_size, settle_volume, fetch_by_id, fetch_by_name, create_missing,
  reconcile_hcloud_volume,
}
use hcloud_operator.Volume.Settled.{Holds, fake_reconciler, fitted, reported, moved}
use hcloud_operator.Volume.Provisioning.{Provisioned, settle-Provisioned, owned_settles}

-- The cloud has no volume for the object, neither under the ID in the status nor by name, and a
-- creation is not refused.
pub record Vacant {K : Type 0} (st : VolumeScope FakeClient K) : Type 0 where
  pub none_by_id :
      is_set st.object.status.volume_id ≡ true
      → lookup st.object.status.volume_id st.world.cloud.volumes ≡ none
  pub none_by_name : find_value (volume_named st.object.metadata.name) st.world.cloud.volumes ≡ none
  pub no_get_err : st.world.cloud.get_err ≡ none
  pub no_create_err : st.world.cloud.create_err ≡ none

module _ {K : Type 0} (get_server_object : String → Action K HcloudServer) (api_errors : ApiErrors)
    (meta : Meta) where
  abbrev r : HcloudVolumeReconciler FakeClient K
  r = fake_reconciler get_server_object api_errors meta

  abbrev pub created_volume : Int64 → VolumeScope FakeClient K → VolumeInfo
  created_volume target st = new_volume st.world.cloud.next_id (create_opts st.object target)

  abbrev with_created : Int64 → VolumeScope FakeClient K → VolumeScope FakeClient K
  with_created target st =
      let f = st.world.cloud in
      record st {
        world = record (st.world) {
          cloud = record f {
            volumes = insert f.next_id (created_volume target st) f.volumes;
            next_id = increment f.next_id;
          };
        };
      }

  missing_by_id : (st : VolumeScope FakeClient K) → Vacant st → fetch_by_id r st ≡ (ok none, st)
  unfolding fetch_by_id get_volume
  missing_by_id st h = ground (arith, h.none_by_id)

  missing_by_name :
      (st : VolumeScope FakeClient K) → Vacant st → fetch_by_name r none st ≡ (ok none, st)
  unfolding fetch_by_name get_volume_by_name
  missing_by_name st h = ground (arith, h.none_by_name, h.no_get_err)

  missing_create :
      (target : Int64) (st : VolumeScope FakeClient K)
      → Vacant st
      → create_missing r target none st ≡ (ok (created_volume target st), with_created target st)
  unfolding create_missing create_volume
  missing_create target st h = ground (arith, h.none_by_name, h.no_create_err)

  missing_settles :
      (target : Int64) (st : VolumeScope FakeClient K)
      → Vacant st
      → reconcile_hcloud_volume r target st
        ≡ settle_volume r target (created_volume target st) (with_created target st)
  unfolding reconcile_hcloud_volume
  missing_settles target st h =
      ground (arith, missing_by_id st h, missing_by_name st h, missing_create target st h)

  fitted_same : (size : Int64) (v : VolumeInfo) → v.size ≡ size → fitted size v ≡ v
  fitted_same size v e = ground (arith, lt_int_irrefl size)

  reported_created :
      (target : Int64) (st : VolumeScope FakeClient K)
      → reported target (created_volume target st) ≡ moved target (created_volume target st)
  reported_created target st = ground arith

  create-Provisioned :
      (target : Int64) (st : VolumeScope FakeClient K)
      → Vacant st
      → let w = moved target (created_volume target st) in
        Provisioned meta w w
          (with_created target st)
          (settle_volume r target (created_volume target st) (with_created target st))
  create-Provisioned target st h =
      let v = created_volume target st in
      let st' = with_created target st in
      let settled =
        settle-Provisioned get_server_object api_errors meta target v st'
          (record {
            stored = lookup-insert_self v.id v st.world.cloud.volumes;
            no_get_err = h.no_get_err;
          })
          (lt_int_irrefl st.object.spec.size) in
      let e : fitted st.object.spec.size v ≡ v = fitted_same st.object.spec.size v refl in
      subst (λ a. Provisioned meta a (moved target v) st' (settle_volume r target v st'))
        (reported_created target st)
        (subst
          (λ v'.
            Provisioned meta (reported target v') (moved target v') st'
              (settle_volume r target v st'))
          e settled)

  -- The creation leaves the object as it was.
  from_created :
      (target : Int64) (st : VolumeScope FakeClient K)
      → let w = moved target (created_volume target st) in
        (out : Result (Unit {0}) × VolumeScope FakeClient K)
        → Provisioned meta w w (with_created target st) out
        → Provisioned meta w w st out
  from_created target st out p = record {
    returned = p.returned;
    holds = p.holds;
    same_spec = p.same_spec;
    volume_id = p.volume_id;
    applied_size = p.applied_size;
    attached_server_id = p.attached_server_id;
    ready = p.ready;
  }

  -- Where the cloud has no volume for the object, a run creates one and ends without an error: a
  -- volume with the name and the size of the object is stored under the ID that the status then has,
  -- attached to the target, and Ready is True. It asks that reads and creations are not refused.
  pub reconcile_hcloud_volume-create :
      (target : Int64) (st : VolumeScope FakeClient K)
      → Vacant st
      → let w = moved target (created_volume target st) in
        Provisioned meta w w st (reconcile_hcloud_volume r target st)
        × (w.name ≡ st.object.metadata.name)
        × (w.size ≡ st.object.spec.size)
  reconcile_hcloud_volume-create target st h = (
    subst
        (Provisioned meta (moved target (created_volume target st))
          (moved target (created_volume target st)) st)
        (sym (missing_settles target st h))
        (from_created target st _ (create-Provisioned target st h)),
    refl,
    refl,
  )

  -- A volume that is larger than the spec says is left as it is, as are the object and the rest of the
  -- cloud, and the run ends with an error that names both sizes.
  pub reconcile_hcloud_volume-shrink :
      (target : Int64) (v : VolumeInfo) (st : VolumeScope FakeClient K)
      → Holds v st
      → st.object.status.volume_id ≡ v.id
      → is_set v.id ≡ true
      → lt_int st.object.spec.size v.size ≡ true
      → reconcile_hcloud_volume r target st ≡ (
        err (
            fail (
              str "volume size "
              ∷ num v.size
              ∷ str " GB in Hetzner exceeds spec.size "
              ∷ num st.object.spec.size
              ∷ str " GB; shrink is not supported"
              ∷ [])),
        st,
      )
  unfolding settle_volume fit_size
  reconcile_hcloud_volume-shrink target v st h known set large =
      owned_settles get_server_object api_errors meta target v st h known set
      ∙ ground (arith, lt_int_asym st.object.spec.size v.size large)
