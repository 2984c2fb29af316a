-- ===== src/Kube/Condition.antt =====
-- metav1.Condition, and what apimachinery's `meta` and controller-runtime's `controllerutil` offer on
-- conditions and finalizers. Time stamps are not modelled: no code of the operator reads them.
use hcloud_operator.Base.{String, Option, some, List, ◌≡◌, Bool, true, false, ◌≢◌}
use hcloud_operator.Go.Fault.{Text}

pub data ConditionStatus : Type 0 where
  condition_true condition_false : ConditionStatus

pub record Condition : Type 0 where
  pub type : String
  pub status : ConditionStatus
  pub reason : String
  pub message : Text

pub record Meta : Type 0 where
  -- meta.SetStatusCondition and meta.FindStatusCondition
  pub set_status_condition : List Condition → Condition → List Condition
  pub find_status_condition : List Condition → String → Option Condition
  -- controllerutil.ContainsFinalizer, AddFinalizer and RemoveFinalizer
  pub contains_finalizer : List String → String → Bool
  pub add_finalizer : List String → String → List String
  pub remove_finalizer : List String → String → List String
  -- A condition that was set is found, and one of another type is as it was.
  pub find-set_self :
      (cs : List Condition) (c : Condition)
      → find_status_condition (set_status_condition cs c) c.type ≡ some c
  pub find-set_ne :
      (cs : List Condition) (c : Condition) (t : String)
      → c.type ≢ t
      → find_status_condition (set_status_condition cs c) t ≡ find_status_condition cs t
  -- A finalizer that was added is there, and one that was removed is not; others are as they were.
  pub contains-add_self :
      (fs : List String) (f : String) → contains_finalizer (add_finalizer fs f) f ≡ true
  pub contains-remove_self :
      (fs : List String) (f : String) → contains_finalizer (remove_finalizer fs f) f ≡ false
  pub contains-remove_ne :
      (fs : List String) (f g : String)
      → f ≢ g
      → contains_finalizer (remove_finalizer fs f) g ≡ contains_finalizer fs g
