-- ===== src/Reconcile/Object.antt =====
-- The objects that the loop manages (`Managed`), the domain contract (`Resource`), and ctrl.Result.
use hcloud_operator.Base.{ℕ, String, Bool, List, ◌≡◌}
use hcloud_operator.Go.Action.{Action}
use hcloud_operator.Hcloud.Types.{Labels}
use hcloud_operator.Kube.Condition.{Condition}

-- The part of metav1.ObjectMeta that the operator reads or writes.
pub record ObjectMeta : Type 0 where
  pub name : String
  -- !GetDeletionTimestamp().IsZero()
  pub deleting : Bool
  pub finalizers : List String
  pub resource_version : String
  pub labels : Labels

-- What the loop needs of a root type; the laws say that the two parts are stored apart.
pub record Managed (T : Type 0) : Type 0 where
  pub metadata : T → ObjectMeta
  pub set_metadata : ObjectMeta → T → T
  pub conditions : T → List Condition
  pub set_conditions : List Condition → T → T
  pub conditions-set : (cs : List Condition) (t : T) → conditions (set_conditions cs t) ≡ cs
  pub metadata-set : (m : ObjectMeta) (t : T) → metadata (set_metadata m t) ≡ m
  pub metadata-set_conditions :
      (cs : List Condition) (t : T) → metadata (set_conditions cs t) ≡ metadata t
  pub conditions-set_metadata :
      (m : ObjectMeta) (t : T) → conditions (set_metadata m t) ≡ conditions t

-- time.Duration, in nanoseconds
abbrev pub second : ℕ
second = 1_000_000_000

-- ctrl.Result
pub record CtrlResult : Type 0 where
  pub requeue : Bool
  pub requeue_after : ℕ

-- What the domain logic works on: the world outside, and the object that it is handed.
pub record Scope (W T : Type 0) : Type 0 where
  pub world : W
  pub object : T

pub record Resource (W T : Type 0) : Type 0 where
  pub new_object : T
  pub finalizer_name : String
  pub kind : String
  pub reconcile : Action (Scope W T) CtrlResult
  pub delete : Action (Scope W T) (Unit {0})
