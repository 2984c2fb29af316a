-- ===== src/Reconcile/Retrying.antt =====
-- The status update against a cluster that checks resource versions.
use hcloud_operator.Base.{String, Option, some, true, ◌≡◌, ◌≢◌, sym, ap, ◌∙◌, arith}
use hcloud_operator.Go.Fault.{Fault, ok, err}
use hcloud_operator.Go.Action.{Action}
use hcloud_operator.Reconcile.Object.{ObjectMeta}
use hcloud_operator.Reconcile.Loop.{Loop, BaseReconciler, update_status_with_retry, status_attempt}

-- Optimistic concurrency. The cluster has a version for the name of each object that it stores. An
-- update of a stored object under another version is refused as a conflict and changes nothing; one
-- under its version stores the conditions that it carries and answers what is stored then, under
-- whatever version that has. A read of a stored object answers what is stored. Calls fail for no other
-- reason. RetryOnConflict tries once more after a conflict, and returns a success.
pub record Versioned {W T : Type 0} (b : BaseReconciler W T) (conflict : Fault) : Type 0 where
  pub version : String → W → Option String
  pub stored : String → W → T
  -- the cluster after an update that it accepts
  pub accepted : T → W → W
  pub refuses :
      (t : T) (w : W) (v : String)
      → version (b.managed.metadata t).name w ≡ some v
      → (b.managed.metadata t).resource_version ≢ v
      → b.client.status_update t w ≡ (err conflict, w)
  pub accepts :
      (t : T) (w : W)
      → version (b.managed.metadata t).name w ≡ some (b.managed.metadata t).resource_version
      → b.client.status_update t w
        ≡ (ok (stored (b.managed.metadata t).name (accepted t w)), accepted t w)
  pub stores :
      (t : T) (w : W)
      → version (b.managed.metadata t).name w ≡ some (b.managed.metadata t).resource_version
      → b.managed.conditions (stored (b.managed.metadata t).name (accepted t w))
        ≡ b.managed.conditions t
  pub reads :
      (name : String) (w : W) (v : String)
      → version name w ≡ some v
      → b.client.get name w ≡ (ok (stored name w), w)
  pub reads_version :
      (name : String) (w : W) (v : String)
      → version name w ≡ some v
      → (b.managed.metadata (stored name w)).resource_version ≡ v
  pub conflicts : b.api_errors.is_conflict conflict ≡ true
  pub retry_done :
      (f : Action (Loop W T) (Unit {0})) (s s' : Loop W T)
      → f s ≡ (ok tt, s')
      → b.retry_on_conflict f s ≡ (ok tt, s')
  pub retry_again :
      (f : Action (Loop W T) (Unit {0})) (s s' s'' : Loop W T)
      → f s ≡ (err conflict, s')
      → f s' ≡ (ok tt, s'')
      → b.retry_on_conflict f s ≡ (ok tt, s'')

module _ {W T : Type 0} (b : BaseReconciler W T) (s : Loop W T) (conflict : Fault)
    (c : Versioned b conflict) where
  abbrev name : String
  name = (b.managed.metadata s.object).name

  -- The object under the version that is stored.
  abbrev current : T
  current =
      b.managed.set_metadata
        (record (b.managed.metadata s.object) {
          resource_version = (b.managed.metadata (c.stored name s.world)).resource_version;
        })
        s.object

  current_name : (b.managed.metadata current).name ≡ name
  current_name = ap (λ (m : ObjectMeta). m.name) (b.managed.metadata-set _ s.object)

  current_version :
      (v : String)
      → c.version name s.world ≡ some v
      → (b.managed.metadata current).resource_version ≡ v
  current_version v h =
      ap (λ (m : ObjectMeta). m.resource_version) (b.managed.metadata-set _ s.object)
      ∙ c.reads_version name s.world v h

  abbrev with_current : Loop W T
  with_current = record s { scope = record { world = s.world; object = current } }

  -- The cluster after the update.
  abbrev pub updated : W
  updated = c.accepted current s.world

  -- The state with that cluster, and with the object as it is stored there.
  abbrev pub persisted : Loop W T
  persisted = record s { scope = record { world = updated; object = c.stored name updated } }

  first_attempt :
      (v : String)
      → c.version name s.world ≡ some v
      → (b.managed.metadata s.object).resource_version ≢ v
      → status_attempt b s ≡ (err conflict, with_current)
  first_attempt v h stale =
      ground (arith, c.refuses s.object s.world v h stale, c.reads name s.world v h, c.conflicts)

  matches :
      (v : String)
      → c.version name s.world ≡ some v
      → c.version (b.managed.metadata current).name s.world
        ≡ some (b.managed.metadata current).resource_version
  matches v h = ground (arith, current_name, current_version v h, h)

  second_attempt :
      (v : String)
      → c.version name s.world ≡ some v
      → status_attempt b with_current ≡ (ok tt, persisted)
  second_attempt v h = ground (arith, c.accepts current s.world (matches v h), current_name)

  kept_conditions :
      (v : String)
      → c.version name s.world ≡ some v
      → b.managed.conditions (c.stored name updated) ≡ b.managed.conditions s.object
  kept_conditions v h =
      ap (λ n. b.managed.conditions (c.stored n updated)) (sym current_name)
      ∙ c.stores current s.world (matches v h)
      ∙ b.managed.conditions-set_metadata _ s.object

  -- In a cluster that checks resource versions and whose calls fail for no other reason, a status
  -- update of an object whose name is stored under another version than the one that is held
  -- succeeds, at the second attempt: the cluster then stores the conditions that the run decided on,
  -- the object is what is stored there, and nothing else of the state is changed.
  pub update_status_with_retry-stale :
      (v : String)
      → c.version (b.managed.metadata s.object).name s.world ≡ some v
      → (b.managed.metadata s.object).resource_version ≢ v
      → (update_status_with_retry b s ≡ (ok tt, persisted))
        × (b.managed.conditions (c.stored (b.managed.metadata s.object).name updated)
            ≡ b.managed.conditions s.object)
  unfolding update_status_with_retry
  update_status_with_retry-stale v h stale = (
    c.retry_again (status_attempt b) s with_current persisted (first_attempt v h stale)
        (second_attempt v h),
    kept_conditions v h,
  )
