-- ===== src/Kube/Concrete.antt =====
-- Values of the parameters that meet their laws, for the examples of the theorems.
use hcloud_operator.Base.{
  String, Option, none, some, List, [], ◌∷◌, ◌≡◌, refl, Bool, true, false, ◌≢◌, ◌||◌, ◌==◌,
  string_eq, eq_iff, arith, if◌then◌else◌,
}
use hcloud_operator.Kube.Condition.{Condition, Meta}

abbrev pub set_condition : List Condition → Condition → List Condition
set_condition [] c = c ∷ []
set_condition (d ∷ cs) c = if d.type == c.type then c ∷ cs else d ∷ set_condition cs c

abbrev pub find_condition : List Condition → String → Option Condition
find_condition [] t = none
find_condition (d ∷ cs) t = if d.type == t then some d else find_condition cs t

abbrev pub contains : List String → String → Bool
contains [] f = false
contains (g ∷ fs) f = g == f || contains fs f

abbrev pub remove : List String → String → List String
remove [] f = []
remove (g ∷ fs) f = let rest = remove fs f in if g == f then rest else g ∷ rest

pub find-set_self :
    (cs : List Condition) (c : Condition) → find_condition (set_condition cs c) c.type ≡ some c
find-set_self [] c = ground (arith, eq_iff c.type c.type)
find-set_self (d ∷ cs) c =
    ground (arith, eq_iff c.type c.type, eq_iff d.type c.type, find-set_self cs c)

pub find-set_ne :
    (cs : List Condition) (c : Condition) (t : String)
    → c.type ≢ t
    → find_condition (set_condition cs c) t ≡ find_condition cs t
find-set_ne [] c t h = ground (arith, eq_iff c.type t)
find-set_ne (d ∷ cs) c t h =
    ground (arith, eq_iff c.type t, eq_iff d.type t, eq_iff d.type c.type, find-set_ne cs c t)

pub contains-add : (fs : List String) (f : String) → contains (f ∷ fs) f ≡ true
contains-add fs f = ground (arith, eq_iff f f)

pub contains-remove_self : (fs : List String) (f : String) → contains (remove fs f) f ≡ false
contains-remove_self [] f = refl
contains-remove_self (g ∷ fs) f = ground (arith, contains-remove_self fs f, eq_iff g f)

pub contains-remove_ne :
    (fs : List String) (f g : String) → f ≢ g → contains (remove fs f) g ≡ contains fs g
contains-remove_ne [] f g h = refl
contains-remove_ne (k ∷ fs) f g h =
    ground (arith, contains-remove_ne fs f g h, eq_iff k f, eq_iff k g)

abbrev pub plain_meta : Meta
plain_meta = record {
  set_status_condition = set_condition;
  find_status_condition = find_condition;
  contains_finalizer = contains;
  add_finalizer = λ fs f. f ∷ fs;
  remove_finalizer = remove;
  find-set_self = find-set_self;
  find-set_ne = find-set_ne;
  contains-add_self = contains-add;
  contains-remove_self = contains-remove_self;
  contains-remove_ne = contains-remove_ne;
}
