-- ===== src/Firewall/Resolving.antt =====
-- desiredApplyResources: it reads the cluster only, and what it makes of the servers that are there.
use hcloud_operator.Base.{
  false, not, ◌&&◌, ◌==◌, ◌≡◌, inl, inr, refl, ap, ◌∙◌, Option, none, some, List, [], ◌∷◌, String,
  string_eq, nat_eq, arith, Bool-cases, if◌then◌else◌,
}
use hcloud_operator.Go.Fault.{ok}
use hcloud_operator.Go.Action.{pure}
use hcloud_operator.Go.Action.Invariant.{continue_state}
use hcloud_operator.Go.Integer.{Int64, is_set}
use hcloud_operator.Go.Slice.{member}
use hcloud_operator.Go.Strings.{text_eq}
use hcloud_operator.Hcloud.Types.{FirewallApplyResource, key}
use hcloud_operator.V1alpha1.Server.{HcloudServer}
use hcloud_operator.V1alpha1.Firewall.{HcloudFirewallApplyTo}
use hcloud_operator.Firewall.Controller.{
  FirewallScope, HcloudFirewallReconciler, Resolved, accept, server_target, selector_target,
  unresolved, resolve_ref, resolve_refs, targets_of, desired_apply_resources,
}
use hcloud_operator.Firewall.Accepting.{
  accept_all, key_count, AllWanted, key-server_target, key-selector_target, once_if,
  accept_all-Tracks, accept_all-selector, accept_all-AllWanted, member-accept_all, start-Tracks,
  start-selector, start-AllWanted,
}

module _ {C K : Type 0} (r : HcloudFirewallReconciler C K) where
  abbrev pub Aside : FirewallScope C K → FirewallScope C K → Type 0
  Aside st st' = (st'.world.cloud ≡ st.world.cloud) × (st'.object ≡ st.object)

  resolve_ref-Aside :
      (name : String) (acc : Resolved) (st : FirewallScope C K)
      → Aside st (resolve_ref r name acc st).1
  unfolding resolve_ref
  resolve_ref-Aside name acc st = ground arith

  resolve_refs-Aside :
      (names : List String) (acc : Resolved) (st : FirewallScope C K)
      → Aside st (resolve_refs r names acc st).1
  unfolding resolve_refs
  resolve_refs-Aside [] acc st = (refl, refl)
  resolve_refs-Aside (name ∷ names) acc st =
      let first = resolve_ref-Aside name acc st in
      continue_state (Aside st) (resolve_refs r names) (resolve_ref r name acc st)
        (λ acc' e.
          let rest = resolve_refs-Aside names acc' (resolve_ref r name acc st).1 in
          (rest.0 ∙ first.0, rest.1 ∙ first.1))
        first

  targets_of-Aside :
      (to : Option HcloudFirewallApplyTo) (st : FirewallScope C K) → Aside st (targets_of r to st).1
  unfolding targets_of
  targets_of-Aside none st = (refl, refl)
  targets_of-Aside (some to) st =
      let acc = unresolved to.label_selector in
      let walk = resolve_refs-Aside to.server_refs acc st in
      continue_state (Aside st) (λ resolved. pure resolved.targets)
        (resolve_refs r to.server_refs acc st) (λ acc' e. walk) walk

  -- Neither the cloud nor the object is touched.
  pub desired_apply_resources-Aside :
      (st : FirewallScope C K) → Aside st (desired_apply_resources r st).1
  unfolding desired_apply_resources
  desired_apply_resources-Aside st = targets_of-Aside st.object.spec.apply_to st

-- The IDs that the servers of the references have; an empty name is no reference.
pub referenced_ids : (String → HcloudServer) → List String → List Int64
referenced_ids server [] = []
referenced_ids server (name ∷ names) =
    let rest = referenced_ids server names in
    if name == "" then rest else (server name).status.server_id ∷ rest

module _ {C K : Type 0} (r : HcloudFirewallReconciler C K) (server : String → HcloudServer) where
  -- The cluster has each server that is referred to.
  unfoldable pub AllFound : List String → K → Type 0
  AllFound [] k = Unit
  AllFound (name ∷ names) k =
      (name == "" ≡ false → r.get_server_object name k ≡ (ok (server name), k)) × AllFound names k

  resolve_refs_all :
      (names : List String) (acc : Resolved) (st : FirewallScope C K)
      → AllFound names st.world.cluster
      → resolve_refs r names acc st ≡ (ok (accept_all (referenced_ids server names) acc), st)
  unfolding resolve_refs resolve_ref referenced_ids accept_all AllFound
  resolve_refs_all [] acc st h = refl
  resolve_refs_all (name ∷ names) acc st h = elim (Bool-cases (name == "")) [
    | inl bare ↦ ground (arith, bare, resolve_refs_all names acc st h.1)
    | inr given ↦ ground (
      arith,
      given,
      h.0 given,
      resolve_refs_all names (accept (server name).status.server_id acc) st h.1,
    )
  ]

  -- The targets are the selector of the spec, once, if it has one, and once each server that is
  -- referred to and has an ID, however often it is referred to; there is no other target.
  pub record Desired (to : HcloudFirewallApplyTo) (targets : List FirewallApplyResource)
      : Type 0 where
    pub servers :
        (id : Int64)
        → key_count (key (server_target id)) targets
          ≡ once_if (is_set id && member id (referenced_ids server to.server_refs))
    pub selector :
        (s : String)
        → key_count (key (selector_target s)) targets
          ≡ once_if (not (to.label_selector == "") && to.label_selector == s)
    pub no_other : AllWanted to.label_selector targets

  -- Where the cluster has all the servers that the spec refers to, the resolution ends without an
  -- error and changes nothing. The targets are then the selector of the spec, once, if it has one, and
  -- once each server that is referred to and has an ID, however often it is referred to, and no other.
  pub desired_apply_resources_all :
      (to : HcloudFirewallApplyTo) (st : FirewallScope C K)
      → st.object.spec.apply_to ≡ some to
      → AllFound to.server_refs st.world.cluster
      → (targets : List FirewallApplyResource) × (desired_apply_resources r st ≡ (ok targets, st))
        × Desired to targets
  unfolding desired_apply_resources targets_of member
  desired_apply_resources_all to st e found =
      let ids = referenced_ids server to.server_refs in
      let acc = unresolved to.label_selector in
      let targets = (accept_all ids acc).targets in
      (
        targets,
        ground (arith, resolve_refs_all to.server_refs acc st found),
        record {
          servers = λ id.
              ap (λ k. key_count k targets) (key-server_target id)
              ∙ accept_all-Tracks ids acc (start-Tracks to.label_selector) id
              ∙ ap once_if (member-accept_all id ids acc);
          selector = λ s.
              ap (λ k. key_count k targets) (key-selector_target s)
              ∙ accept_all-selector s ids acc
              ∙ start-selector to.label_selector s;
          no_other =
              accept_all-AllWanted to.label_selector ids acc (start-AllWanted to.label_selector);
        },
      )
