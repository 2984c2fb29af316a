-- ===== src/Firewall/Accepting.antt =====
-- The loop of desiredApplyResources over the IDs of the servers: which targets it collects.
use hcloud_operator.Base.{
  ℕ, Bool, not, ◌+◌, ◌&&◌, ◌||◌, ◌==◌, ◌≡◌, ◌⊎◌, inl, inr, refl, subst, ◌∙◌, List, [], ◌∷◌, ◌++◌,
  String, string_eq, nat_eq, arith, Bool-cases, if◌then◌else◌,
}
use hcloud_operator.Go.Fault.{Text, str, num}
use hcloud_operator.Go.Integer.{Int64, is_set}
use hcloud_operator.Go.Slice.{member}
use hcloud_operator.Go.Strings.{text_eq}
use hcloud_operator.Hcloud.Types.{FirewallApplyResource, key}
use hcloud_operator.Firewall.Controller.{
  Resolved, accept, server_target, selector_target, unresolved, selector_targets,
}

-- The targets after a list of server IDs.
unfoldable pub accept_all : List Int64 → Resolved → Resolved
accept_all [] acc = acc
accept_all (id ∷ ids) acc = accept_all ids (accept id acc)

-- How often a key stands among the targets.
unfoldable pub key_count : Text → List FirewallApplyResource → ℕ
key_count k [] = 0
key_count k (a ∷ more) = (if key a == k then 1 else 0) + key_count k more

-- Each target is the selector or a server.
unfoldable pub AllWanted : String → List FirewallApplyResource → Type 0
AllWanted selector [] = Unit
AllWanted selector (a ∷ more) =
    ((a ≡ selector_target selector) ⊎ ((id : Int64) × (a ≡ server_target id)))
    × AllWanted selector more

key_count-append :
    (k : Text) (xs : List FirewallApplyResource) (a : FirewallApplyResource)
    → key_count k (xs ++ a ∷ []) ≡ key_count k xs + (if key a == k then 1 else 0)
unfolding key_count
key_count-append k [] a = ground arith
key_count-append k (x ∷ xs) a = ground (arith, key_count-append k xs a)

AllWanted-append :
    (selector : String) (xs : List FirewallApplyResource) (id : Int64)
    → AllWanted selector xs
    → AllWanted selector (xs ++ server_target id ∷ [])
unfolding AllWanted
AllWanted-append selector [] id h = (inr (id, refl), tt)
AllWanted-append selector (x ∷ xs) id h = (h.0, AllWanted-append selector xs id h.1)

pub key-server_target : (id : Int64) → key (server_target id) ≡ str "server:" ∷ num id ∷ []
unfolding key
key-server_target id = refl

pub key-selector_target :
    (s : String) → key (selector_target s) ≡ str "label_selector:" ∷ str s ∷ []
unfolding key
key-selector_target s = refl

abbrev pub server_key : Int64 → Text
server_key id = str "server:" ∷ num id ∷ []

abbrev pub selector_key : String → Text
selector_key s = str "label_selector:" ∷ str s ∷ []

-- `1` or `0`
abbrev pub once_if : Bool → ℕ
once_if b = if b then 1 else 0

-- The IDs that were seen are those of the targets, each of which stands there once.
abbrev pub Tracks : Resolved → Type 0
Tracks acc = (id : Int64) → key_count (server_key id) acc.targets ≡ once_if (member id acc.seen)

accept-Tracks : (id : Int64) (acc : Resolved) → Tracks acc → Tracks (accept id acc)
unfolding accept member
accept-Tracks id acc h j = ground (
  arith,
  h j,
  key_count-append (server_key j) acc.targets (server_target id),
  key-server_target id,
  text_eq.same_iff (server_key id) (server_key j),
  nat_eq.same_iff id j,
)

accept-selector :
    (s : String) (id : Int64) (acc : Resolved)
    → key_count (selector_key s) (accept id acc).targets ≡ key_count (selector_key s) acc.targets
unfolding accept
accept-selector s id acc = ground (
  arith,
  key_count-append (selector_key s) acc.targets (server_target id),
  key-server_target id,
  text_eq.same_iff (server_key id) (selector_key s),
  string_eq.same_iff "server:" "label_selector:",
)

accept-AllWanted :
    (selector : String) (id : Int64) (acc : Resolved)
    → AllWanted selector acc.targets
    → AllWanted selector (accept id acc).targets
unfolding accept
accept-AllWanted selector id acc h = ground (arith, h, AllWanted-append selector acc.targets id h)

member-accept :
    (id j : Int64) (acc : Resolved)
    → member j (accept id acc).seen ≡ (member j acc.seen || (is_set id && id == j))
unfolding accept member
member-accept id j acc = ground arith

pub accept_all-Tracks :
    (ids : List Int64) (acc : Resolved) → Tracks acc → Tracks (accept_all ids acc)
unfolding accept_all
accept_all-Tracks [] acc h = h
accept_all-Tracks (id ∷ ids) acc h = accept_all-Tracks ids (accept id acc) (accept-Tracks id acc h)

pub accept_all-selector :
    (s : String) (ids : List Int64) (acc : Resolved)
    → key_count (selector_key s) (accept_all ids acc).targets
      ≡ key_count (selector_key s) acc.targets
unfolding accept_all
accept_all-selector s [] acc = refl
accept_all-selector s (id ∷ ids) acc =
    accept_all-selector s ids (accept id acc) ∙ accept-selector s id acc

pub accept_all-AllWanted :
    (selector : String) (ids : List Int64) (acc : Resolved)
    → AllWanted selector acc.targets
    → AllWanted selector (accept_all ids acc).targets
unfolding accept_all
accept_all-AllWanted selector [] acc h = h
accept_all-AllWanted selector (id ∷ ids) acc h =
    accept_all-AllWanted selector ids (accept id acc) (accept-AllWanted selector id acc h)

pub member-accept_all :
    (j : Int64) (ids : List Int64) (acc : Resolved)
    → member j (accept_all ids acc).seen ≡ (member j acc.seen || (is_set j && member j ids))
unfolding accept_all member
member-accept_all j [] acc = ground arith
member-accept_all j (id ∷ ids) acc =
    ground (arith, member-accept_all j ids (accept id acc), member-accept id j acc)

-- The start: the selector, if there is one, and no server.
pub start-Tracks : (selector : String) → Tracks (unresolved selector)
unfolding key_count member
start-Tracks selector id = ground (
  arith,
  key-selector_target selector,
  text_eq.same_iff (selector_key selector) (server_key id),
  string_eq.same_iff "label_selector:" "server:",
)

pub start-selector :
    (selector s : String)
    → key_count (selector_key s) (unresolved selector).targets
      ≡ once_if (not (selector == "") && selector == s)
unfolding key_count
start-selector selector s = ground (
  arith,
  key-selector_target selector,
  text_eq.same_iff (selector_key selector) (selector_key s),
  string_eq.same_iff selector s,
)

pub start-AllWanted : (selector : String) → AllWanted selector (unresolved selector).targets
unfolding AllWanted
start-AllWanted selector = elim (Bool-cases (selector == "")) [
  | inl bare ↦
      let e : [] ≡ selector_targets selector = ground (arith, bare) in
      subst (AllWanted selector) e tt
  | inr given ↦
      let e : selector_target selector ∷ [] ≡ selector_targets selector = ground (arith, given) in
      subst (AllWanted selector) e (inl refl, tt)
]
