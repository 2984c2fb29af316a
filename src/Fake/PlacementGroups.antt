-- ===== src/Fake/PlacementGroups.antt =====
-- The placement group methods of FakeClient.
use hcloud_operator.Base.{Bool, Option, [], ◌∷◌, String, ◌==◌, string_eq, nat_eq}
use hcloud_operator.Go.Fault.{ok, fail, str, quoted}
use hcloud_operator.Go.Action.{Action, raise}
use hcloud_operator.Go.Map.{lookup, insert, delete, find_value}
use hcloud_operator.Go.Integer.{Int64, increment}
use hcloud_operator.Hcloud.Types.{PlacementGroupInfo, PlacementGroupCreateOpts}
use hcloud_operator.Hcloud.Api.{PlacementGroupApi}
use hcloud_operator.Fake.State.{FakeClient, injected, found}

abbrev pub placement_group_named : String → PlacementGroupInfo → Bool
placement_group_named name pg = pg.name == name

unfoldable pub get_placement_group : Int64 → Action FakeClient (Option PlacementGroupInfo)
get_placement_group id f = injected f.get_err (λ f'. (ok (lookup id f'.placement_groups), f')) f

unfoldable pub get_placement_group_by_name : String → Action FakeClient (Option PlacementGroupInfo)
get_placement_group_by_name name f =
    injected f.get_err
      (λ f'. (ok (find_value (placement_group_named name) f'.placement_groups), f')) f

abbrev pub new_placement_group : Int64 → PlacementGroupCreateOpts → PlacementGroupInfo
new_placement_group id opts = record {
  id = id;
  name = opts.name;
  type = opts.type;
  labels = opts.labels;
}

unfoldable pub create_placement_group :
    PlacementGroupCreateOpts → Action FakeClient PlacementGroupInfo
create_placement_group opts f =
    injected f.create_err
      (λ f'.
        found (find_value (placement_group_named opts.name) f'.placement_groups)
          (λ g.
            let info = new_placement_group g.next_id opts in
            (
              ok info,
              record g {
                placement_groups = insert g.next_id info g.placement_groups;
                next_id = increment g.next_id;
              },
            ))
          (λ _. raise (
            fail (
              str "fake: placement group with name "
              ∷ quoted opts.name
              ∷ str " already exists"
              ∷ [])))
          f')
      f

unfoldable pub delete_placement_group : Int64 → Action FakeClient (Unit {0})
delete_placement_group id f =
    injected f.delete_err
      (λ f'. (ok tt, record f' { placement_groups = delete id f'.placement_groups })) f

abbrev pub placement_group_api : PlacementGroupApi FakeClient
placement_group_api = record {
  get_placement_group = get_placement_group;
  get_placement_group_by_name = get_placement_group_by_name;
  create_placement_group = create_placement_group;
  delete_placement_group = delete_placement_group;
}
