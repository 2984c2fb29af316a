-- ===== src/Kube/Client.antt =====
-- The client of the API server, for objects of one type, over the state `W` of the cluster. Objects
-- are cluster-scoped, so a name is a key. `Get` fills the object that it is given and `Update` and
-- `Status().Update` overwrite it with the server's answer: they return the object.
use hcloud_operator.Base.{String, Bool}
use hcloud_operator.Go.Fault.{Fault}
use hcloud_operator.Go.Action.{Action}

pub record Client (W T : Type 0) : Type 0 where
  pub get : String → Action W T
  pub update : T → Action W T
  pub status_update : T → Action W T

-- apierrors.IsNotFound and apierrors.IsConflict
pub record ApiErrors : Type 0 where
  pub is_not_found : Fault → Bool
  pub is_conflict : Fault → Bool

-- retry.RetryOnConflict(retry.DefaultRetry, f)
abbrev pub Retry : Type 0 → Type 0
Retry S = Action S (Unit {0}) → Action S (Unit {0})
