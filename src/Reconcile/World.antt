-- ===== src/Reconcile/World.antt =====
-- The state that the methods of a domain reconciler share (internal/controller): the cloud behind the
-- hcloud client, the cluster behind the Kubernetes client, and the object that is reconciled.
use hcloud_operator.Go.Action.{Action, zoom}
use hcloud_operator.Reconcile.Object.{Scope}

pub record World (C K : Type 0) : Type 0 where
  pub cloud : C
  pub cluster : K

module _ {C K O A : Type 0} where
  abbrev pub in_cloud : Action C A → Action (Scope (World C K) O) A
  in_cloud = zoom (λ s. s.world.cloud) (λ c s. record s { world = record (s.world) { cloud = c } })

  abbrev pub in_cluster : Action K A → Action (Scope (World C K) O) A
  in_cluster =
      zoom (λ s. s.world.cluster) (λ k s. record s { world = record (s.world) { cluster = k } })

  -- The rest of a method, with the object at this point.
  abbrev pub look : (O → Action (Scope (World C K) O) A) → Action (Scope (World C K) O) A
  look f s = f s.object s
