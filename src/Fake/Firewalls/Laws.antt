-- ===== src/Fake/Firewalls/Laws.antt =====
-- The loops of ApplyFirewallResources and RemoveFirewallResources on the keys of the targets.
use hcloud_operator.Base.{
  Bool, false, not, ◌&&◌, ◌||◌, ◌==◌, List, [], ◌∷◌, ◌++◌, map, ◌≡◌, refl, arith, ap, ◌∙◌,
  if◌then◌else◌,
}
use hcloud_operator.Go.Fault.{Text}
use hcloud_operator.Go.Slice.{member}
use hcloud_operator.Go.Strings.{text_eq}
use hcloud_operator.Hcloud.Types.{FirewallApplyResource, key}
use hcloud_operator.Fake.Firewalls.{apply_all, remove_all}

-- Whether a target of that key is there.
unfoldable pub has_key : Text → List FirewallApplyResource → Bool
has_key k [] = false
has_key k (a ∷ more) = key a == k || has_key k more

pub member-map-key :
    (k : Text) (xs : List FirewallApplyResource) → member k (map key xs) ≡ has_key k xs
unfolding member has_key
member-map-key k [] = refl
member-map-key k (a ∷ more) = ap (λ b. key a == k || b) (member-map-key k more)

has_key-append_single :
    (k : Text) (a : FirewallApplyResource) (xs : List FirewallApplyResource)
    → has_key k (xs ++ a ∷ []) ≡ (key a == k || has_key k xs)
unfolding has_key
has_key-append_single k a [] = refl
has_key-append_single k a (x ∷ xs) = ground (arith, has_key-append_single k a xs)

pub has_key-apply_all :
    (k : Text) (xs ys : List FirewallApplyResource)
    → has_key k (apply_all xs ys) ≡ (has_key k xs || has_key k ys)
unfolding has_key apply_all
has_key-apply_all k xs [] = ground arith
has_key-apply_all k xs (y ∷ ys) =
    has_key-apply_all k (if member (key y) (map key xs) then xs else xs ++ y ∷ []) ys
    ∙ ground
        (arith, member-map-key (key y) xs, has_key-append_single k y xs, text_eq.same_iff (key y) k)

pub has_key-remove_all :
    (k : Text) (xs ys : List FirewallApplyResource)
    → has_key k (remove_all xs ys) ≡ (has_key k xs && not (has_key k ys))
unfolding has_key remove_all
has_key-remove_all k [] ys = refl
has_key-remove_all k (x ∷ xs) ys =
    ground
      (arith, has_key-remove_all k xs ys, member-map-key (key x) ys, text_eq.same_iff (key x) k)
