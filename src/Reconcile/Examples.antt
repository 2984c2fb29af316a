-- ===== src/Reconcile/Examples.antt =====
-- The theorems of the loop at concrete runs: a server object in a cluster that stores it.
use hcloud_operator.Base.{
  String, Bool, true, false, ◌≡◌, ◌≢◌, ◌⊎◌, ◌↔◌, refl, inl, inr, List, [], ◌∷◌, Option, none, some,
  Option-cases, eq_iff, arith, ◌==◌, string_eq, if◌then◌else◌,
}
use hcloud_operator.Go.Fault.{Result, foreign, ok, err, panic}
use hcloud_operator.Go.Action.{Action, pure, raise}
use hcloud_operator.Go.Map.{Map, lookup, insert}
use hcloud_operator.Go.Map.Laws.{lookup-insert_self}
use hcloud_operator.Go.Strings.{join}
use hcloud_operator.Kube.Client.{Client}
use hcloud_operator.Kube.Concrete.{plain_meta}
use hcloud_operator.Kube.Cluster.{
  conflict, plain_errors, retry_once, retry_once_done, retry_once_again,
}
use hcloud_operator.V1alpha1.Server.{HcloudServer, managed_server}
use hcloud_operator.Reconcile.Object.{CtrlResult, Scope, Resource}
use hcloud_operator.Reconcile.Loop.{
  Loop, BaseReconciler, no_requeue, converge, delegate, update_status_with_retry,
}
use hcloud_operator.Reconcile.Phases.{
  with_reconcile, with_delete, converge-with_reconcile, converge-with_delete,
}
use hcloud_operator.Reconcile.Outcome.{
  FailedFrom, SyncedFrom, delegate-FailedFrom, delegate-SyncedFrom,
}
use hcloud_operator.Reconcile.Retrying.{
  Versioned, updated, persisted, update_status_with_retry-stale,
}

abbrev finalizer : String
finalizer = "infra.hkc.io/finalizer"

abbrev server : Bool → List String → String → HcloudServer
server gone finalizers version = record {
  metadata = record {
    name = "web";
    deleting = gone;
    finalizers = finalizers;
    resource_version = version;
    labels = none;
  };
  spec = record {
    server_type = "cx22";
    image = "ubuntu-24.04";
    location = "fsn1";
    labels = none;
    ssh_keys = [];
    user_data = "";
    network_ref = none;
    placement_group_ref = none;
    upgrade_disk = false;
  };
  status = record {
    server_id = 0;
    state = "";
    applied_server_type = "";
    public_ipv4 = [];
    public_ipv6 = [];
    applied_network_id = 0;
    applied_placement_group_id = 0;
    conditions = [];
  };
}

-- The cluster is the object that it stores.
abbrev version_of : HcloudServer → String
version_of o = o.metadata.resource_version

abbrev store_client : Client HcloudServer HcloudServer
store_client = record {
  get = λ name w. (ok w, w);
  update = λ t w. (ok t, t);
  status_update = λ t w.
      if version_of t == version_of w
      then (ok t, record w { status = t.status })
      else (err conflict, w);
}

abbrev resource_of :
    Action (Scope HcloudServer HcloudServer) CtrlResult → Resource HcloudServer HcloudServer
resource_of r = record {
  new_object = server false [] "";
  finalizer_name = finalizer;
  kind = "HCloudServer";
  reconcile = r;
  delete = raise (foreign "api down");
}

abbrev base :
    Action (Scope HcloudServer HcloudServer) CtrlResult → BaseReconciler HcloudServer HcloudServer
base r = record {
  managed = managed_server;
  meta = plain_meta;
  client = store_client;
  api_errors = plain_errors;
  retry_on_conflict = retry_once;
  has_recorder = true;
  resource = resource_of r;
}

abbrev failing : Action (Scope HcloudServer HcloudServer) CtrlResult
failing = raise (foreign "api down")

abbrev succeeding : Action (Scope HcloudServer HcloudServer) CtrlResult
succeeding = pure no_requeue

abbrev start : Bool → List String → Loop HcloudServer HcloudServer
start gone finalizers = record {
  scope = record { world = server gone finalizers "7"; object = server gone finalizers "7" };
  events = [];
  metrics = [];
}

converge-with_reconcile_example :
    converge (with_reconcile (base failing) succeeding) (start true (finalizer ∷ []))
    ≡ converge (base failing) (start true (finalizer ∷ []))
converge-with_reconcile_example =
    converge-with_reconcile (base failing) (start true (finalizer ∷ [])) succeeding (inl refl)

converge-with_delete_example :
    converge (with_delete (base failing) (pure tt)) (start false (finalizer ∷ []))
    ≡ converge (base failing) (start false (finalizer ∷ []))
converge-with_delete_example =
    converge-with_delete (base failing) (start false (finalizer ∷ [])) (pure tt) (inl refl)

delegate-FailedFrom_example :
    (t : Loop HcloudServer HcloudServer) × FailedFrom
      (base failing)
      (foreign "api down")
      (start false (finalizer ∷ []))
      t
    × ((delegate (base failing) (start false (finalizer ∷ []))).1
        ≡ (update_status_with_retry (base failing) t).1)
    × (((update_status_with_retry (base failing) t).0 ≡ panic)
        ⊎ ((delegate (base failing) (start false (finalizer ∷ []))).0 ≡ err (foreign "api down")))
delegate-FailedFrom_example =
    delegate-FailedFrom (base failing) (start false (finalizer ∷ [])) (start false (finalizer ∷ []))
      (foreign "api down") refl

delegate-SyncedFrom_example :
    (t : Loop HcloudServer HcloudServer) × SyncedFrom
      (base succeeding)
      (start false (finalizer ∷ []))
      t
    × ((delegate (base succeeding) (start false (finalizer ∷ []))).1
        ≡ (update_status_with_retry (base succeeding) t).1)
    × (((update_status_with_retry (base succeeding) t).0 ≡ ok tt)
        ↔ ((delegate (base succeeding) (start false (finalizer ∷ []))).0 ≡ ok no_requeue))
delegate-SyncedFrom_example =
    delegate-SyncedFrom (base succeeding) (start false (finalizer ∷ []))
      (start false (finalizer ∷ [])) no_requeue refl

-- A cluster that stores objects by their names and checks versions; an accepted update gets a new
-- version.
abbrev next_version : String → String
next_version v = join (v ∷ "next" ∷ []) "-"

abbrev Cluster : Type 0
Cluster = Map String HcloudServer

abbrev found : Option HcloudServer → HcloudServer
found none = server false [] ""
found (some o) = o

abbrev found_version : Option HcloudServer → Option String
found_version none = none
found_version (some o) = some (version_of o)

abbrev version_in : String → Cluster → Option String
version_in name w = found_version (lookup name w)

abbrev with_status : HcloudServer → HcloudServer → HcloudServer
with_status t o = record o {
  metadata = record (o.metadata) { resource_version = next_version o.metadata.resource_version };
  status = t.status;
}

abbrev accepted_in : HcloudServer → Cluster → Cluster
accepted_in t w = insert t.metadata.name (with_status t (found (lookup t.metadata.name w))) w

abbrev answer_get : Cluster → Option HcloudServer → Result HcloudServer × Cluster
answer_get w none = (err (foreign "not found"), w)
answer_get w (some o) = (ok o, w)

abbrev answer_update : HcloudServer → Cluster → Option HcloudServer → Result HcloudServer × Cluster
answer_update t w none = (err (foreign "not found"), w)
answer_update t w (some o) =
    if version_of t == version_of o
    then (ok (with_status t o), accepted_in t w)
    else (err conflict, w)

abbrev named_client : Client Cluster HcloudServer
named_client = record {
  get = λ name w. answer_get w (lookup name w);
  update = λ t w. (ok t, insert t.metadata.name t w);
  status_update = λ t w. answer_update t w (lookup t.metadata.name w);
}

abbrev named_base : BaseReconciler Cluster HcloudServer
named_base = record {
  managed = managed_server;
  meta = plain_meta;
  client = named_client;
  api_errors = plain_errors;
  retry_on_conflict = retry_once;
  has_recorder = true;
  resource = record {
    new_object = server false [] "";
    finalizer_name = finalizer;
    kind = "HCloudServer";
    reconcile = pure no_requeue;
    delete = pure tt;
  };
}

stored_after :
    (t : HcloudServer) (w : Cluster)
    → lookup t.metadata.name (accepted_in t w)
      ≡ some (with_status t (found (lookup t.metadata.name w)))
stored_after t w =
    lookup-insert_self t.metadata.name (with_status t (found (lookup t.metadata.name w))) w

named_versioned : Versioned named_base conflict
named_versioned = record {
  version = version_in;
  stored = λ name w. found (lookup name w);
  accepted = accepted_in;
  refuses = λ t w v h stale. elim (Option-cases (lookup t.metadata.name w)) [
    | inl e ↦ ground arith
    | inr (o, e) ↦ ground (arith, eq_iff (version_of t) (version_of o))
  ];
  accepts = λ t w h. elim (Option-cases (lookup t.metadata.name w)) [
    | inl e ↦ ground arith
    | inr (o, e) ↦ ground (arith, eq_iff (version_of t) (version_of o), stored_after t w)
  ];
  stores = λ t w h. ground (arith, stored_after t w);
  reads = λ name w v h. elim (Option-cases (lookup name w)) [
    | inl e ↦ ground arith
    | inr (o, e) ↦ ground arith
  ];
  reads_version = λ name w v h. elim (Option-cases (lookup name w)) [
    | inl e ↦ ground arith
    | inr (o, e) ↦ ground arith
  ];
  conflicts = refl;
  retry_done = retry_once_done;
  retry_again = retry_once_again;
}

-- The object that is held is older than the one that is stored.
abbrev stale : Loop Cluster HcloudServer
stale = record {
  scope = record {
    world = ("web", server false (finalizer ∷ []) "8") ∷ [];
    object = server false (finalizer ∷ []) "7";
  };
  events = [];
  metrics = [];
}

versions_differ : ◌≢◌ {A = String} "7" "8"
versions_differ = ground (arith, eq_iff "7" "8")

version_8 : version_in "web" stale.world ≡ some "8"
unfolding lookup
version_8 = refl

update_status_with_retry-stale_example :
    (update_status_with_retry named_base stale
      ≡ (ok tt, persisted named_base stale conflict named_versioned))
    × (managed_server.conditions
          (named_versioned.stored "web" (updated named_base stale conflict named_versioned))
        ≡ [])
unfolding named_versioned
update_status_with_retry-stale_example =
    update_status_with_retry-stale named_base stale conflict named_versioned "8" version_8
      versions_differ
