-- ===== src/PlacementGroup/Settled.antt =====
-- Two runs in a row, against the in-memory cloud.
use hcloud_operator.Base.{
  true, ◌≡◌, refl, sym, subst, ap, ◌∙◌, Option, none, some, String, string_eq, nat_eq, arith,
  if◌then◌else◌, Option-cases, inl, inr,
}
use hcloud_operator.Go.Fault.{Result, ok}
use hcloud_operator.Go.Integer.{Int64, is_set}
use hcloud_operator.Go.Map.{Map, lookup, find_value}
use hcloud_operator.Go.Map.Laws.{lookup-insert_self}
use hcloud_operator.Kube.Condition.{Meta}
use hcloud_operator.Hcloud.Types.{PlacementGroupInfo}
use hcloud_operator.Fake.State.{FakeClient}
use hcloud_operator.Fake.PlacementGroups.{
  placement_group_api, placement_group_named, get_placement_group, get_placement_group_by_name,
  create_placement_group, new_placement_group,
}
use hcloud_operator.PlacementGroup.Controller.{
  GroupScope, HcloudPlacementGroupReconciler, group_opts, fetch_by_id, fetch_by_name, settle_group,
  reconcile_hcloud_placement_group,
}

-- Every group is stored under its own ID, and neither reads nor creations are refused.
pub record Sound (f : FakeClient) : Type 0 where
  pub own_id :
      (id : Int64) (pg : PlacementGroupInfo) → lookup id f.placement_groups ≡ some pg → pg.id ≡ id
  pub no_get_err : f.get_err ≡ none
  pub no_create_err : f.create_err ≡ none

abbrev or_else : Option PlacementGroupInfo → Option PlacementGroupInfo → Option PlacementGroupInfo
or_else none other = other
or_else (some pg) other = some pg

-- The group that a run works on, if there is one: that of the ID, or else that of the name.
abbrev pub seen : Map Int64 PlacementGroupInfo → Int64 → String → Option PlacementGroupInfo
seen m id name =
    or_else (if is_set id then lookup id m else none) (find_value (placement_group_named name) m)

-- The group that is found once is found again.
seen_again :
    (m : Map Int64 PlacementGroupInfo) (id : Int64) (name : String) (pg : PlacementGroupInfo)
    → ((i : Int64) (x : PlacementGroupInfo) → lookup i m ≡ some x → x.id ≡ i)
    → seen m id name ≡ some pg
    → (x : PlacementGroupInfo) × (seen m pg.id name ≡ some x)
seen_again m id name pg own h = elim (Option-cases (lookup id m)) [
  | inl e ↦ elim (Option-cases (seen m pg.id name)) [
    | inl gone ↦ absurd (ground arith)
    | inr found ↦ found
  ]
  | inr (y, e) ↦ elim (Option-cases (seen m pg.id name)) [
    | inl gone ↦ absurd (ground (arith, own id y e))
    | inr found ↦ found
  ]
]

unseen_name :
    (m : Map Int64 PlacementGroupInfo) (id : Int64) (name : String)
    → seen m id name ≡ none
    → find_value (placement_group_named name) m ≡ none
unseen_name m id name h = ground arith

module _ {K : Type 0} (meta : Meta) where
  abbrev pub fake_reconciler : HcloudPlacementGroupReconciler FakeClient K
  fake_reconciler = record { hcloud_client = placement_group_api; meta = meta }

  abbrev seen_by : GroupScope FakeClient K → Option PlacementGroupInfo
  seen_by st =
      seen st.world.cloud.placement_groups st.object.status.placement_group_id
        st.object.metadata.name

  run_settles :
      (st : GroupScope FakeClient K)
      → st.world.cloud.get_err ≡ none
      → reconcile_hcloud_placement_group fake_reconciler st
        ≡ settle_group fake_reconciler (seen_by st) st
  unfolding reconcile_hcloud_placement_group fetch_by_id fetch_by_name get_placement_group
      get_placement_group_by_name
  run_settles st h =
      elim (Option-cases
        (lookup st.object.status.placement_group_id st.world.cloud.placement_groups)) [
          | inl e ↦ ground (arith, h, e)
          | inr (pg, e) ↦ ground (arith, h, e)
        ]

  -- A run over a group that is there.
  abbrev pub Quiet : GroupScope FakeClient K → Result (Unit {0}) × GroupScope FakeClient K → Type 0
  Quiet st out = (out.0 ≡ ok tt) × (out.1.world.cloud ≡ st.world.cloud)

  -- The object then names the group `pg`.
  abbrev Names :
      PlacementGroupInfo
      → GroupScope FakeClient K
      → Result (Unit {0}) × GroupScope FakeClient K
      → Type 0
  Names pg st out =
      (out.1.object.status.placement_group_id ≡ pg.id)
      × (out.1.object.metadata.name ≡ st.object.metadata.name)

  found-Quiet :
      (st : GroupScope FakeClient K) (pg : PlacementGroupInfo)
      → st.world.cloud.get_err ≡ none
      → seen_by st ≡ some pg
      → Quiet st (reconcile_hcloud_placement_group fake_reconciler st)
        × Names pg st (reconcile_hcloud_placement_group fake_reconciler st)
  unfolding settle_group
  found-Quiet st pg h e =
      subst (λ out. Quiet st out × Names pg st out)
        (sym (run_settles st h ∙ ap (λ o. settle_group fake_reconciler o st) e))
        ((refl, refl), (refl, refl))

  abbrev created : GroupScope FakeClient K → PlacementGroupInfo
  created st = new_placement_group st.world.cloud.next_id (group_opts st.object)

  abbrev Creates : GroupScope FakeClient K → Result (Unit {0}) × GroupScope FakeClient K → Type 0
  Creates st out =
      (out.0 ≡ ok tt) × (out.1.world.cloud.get_err ≡ none) × (seen_by out.1 ≡ some (created st))

  -- Where the cloud has no group for the object, the run creates one and names it.
  create_names :
      (st : GroupScope FakeClient K)
      → Sound st.world.cloud
      → seen_by st ≡ none
      → is_set st.world.cloud.next_id ≡ true
      → let out = reconcile_hcloud_placement_group fake_reconciler st in
        (out.0 ≡ ok tt) × (out.1.world.cloud.get_err ≡ none) × (seen_by out.1 ≡ some (created st))
  unfolding settle_group create_placement_group
  create_names st h e set =
      let f = st.world.cloud in
      subst (Creates st)
        (sym (run_settles st h.no_get_err ∙ ap (λ o. settle_group fake_reconciler o st) e))
        (ground (
          arith,
          h.no_get_err,
          h.no_create_err,
          set,
          unseen_name f.placement_groups st.object.status.placement_group_id st.object.metadata.name
              e,
          lookup-insert_self f.next_id (created st) f.placement_groups,
        ))

  RunsTwice : GroupScope FakeClient K → Type 0
  RunsTwice st =
      let first = reconcile_hcloud_placement_group fake_reconciler st in
      (first.0 ≡ ok tt) × Quiet first.1 (reconcile_hcloud_placement_group fake_reconciler first.1)

  found-RunsTwice :
      (st : GroupScope FakeClient K) (pg : PlacementGroupInfo)
      → Sound st.world.cloud
      → seen_by st ≡ some pg
      → RunsTwice st
  unfolding RunsTwice
  found-RunsTwice st pg h e =
      let first = reconcile_hcloud_placement_group fake_reconciler st in
      let run = found-Quiet st pg h.no_get_err e in
      let quiet = run.0 in
      let id = run.1.0 in
      let name = run.1.1 in
      let m = st.world.cloud.placement_groups in
      let (x, found) =
        seen_again m st.object.status.placement_group_id st.object.metadata.name pg h.own_id e in
      let here : seen_by first.1 ≡ some x =
        ap
          (λ (c : FakeClient).
            seen c.placement_groups first.1.object.status.placement_group_id
              first.1.object.metadata.name)
          quiet.1
        ∙ ap (λ i. seen m i first.1.object.metadata.name) id
        ∙ ap (seen m pg.id) name
        ∙ found in
      let no_err : first.1.world.cloud.get_err ≡ none =
        ap (λ (c : FakeClient). c.get_err) quiet.1 ∙ h.no_get_err in
      (quiet.0, (found-Quiet first.1 x no_err here).0)

  -- A run ends without an error, whether it finds the group by its ID, by its name, or creates it, and
  -- a second run after it ends without an error and leaves the cloud exactly as it is: no second group
  -- is created. It asks that groups are stored under their own IDs, that neither reads nor creations
  -- are refused, and that the next ID is not 0.
  pub reconcile_hcloud_placement_group_again :
      (st : GroupScope FakeClient K)
      → Sound st.world.cloud
      → is_set st.world.cloud.next_id ≡ true
      → let first = reconcile_hcloud_placement_group fake_reconciler st in
        (first.0 ≡ ok tt) × Quiet first.1 (reconcile_hcloud_placement_group fake_reconciler first.1)
  unfolding RunsTwice
  reconcile_hcloud_placement_group_again st h set = elim (Option-cases (seen_by st)) [
    | inl e ↦
        let first = reconcile_hcloud_placement_group fake_reconciler st in
        let (done, no_err, here) = create_names st h e set in
        (done, (found-Quiet first.1 (created st) no_err here).0)
    | inr (pg, e) ↦ found-RunsTwice st pg h e
  ]
