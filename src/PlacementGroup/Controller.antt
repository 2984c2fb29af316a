-- ===== src/PlacementGroup/Controller.antt =====
-- Reconcile, Delete and reconcileHCloudPlacementGroup.
use hcloud_operator.Base.{false, not, String, [], ◌∷◌, Option, none, some, nat_eq, if◌then◌else◌}
use hcloud_operator.Go.Fault.{Text, str, ok}
use hcloud_operator.Go.Action.{Action, pure, within, ◌>>=◌, ◌>>◌}
use hcloud_operator.Go.Integer.{is_set}
use hcloud_operator.Kube.Condition.{Meta, ConditionStatus, condition_true}
use hcloud_operator.Hcloud.Types.{PlacementGroupInfo, PlacementGroupCreateOpts}
use hcloud_operator.Hcloud.Api.{PlacementGroupApi}
use hcloud_operator.Reconcile.Object.{CtrlResult, Resource, Scope}
use hcloud_operator.Reconcile.World.{World, in_cloud, look}
use hcloud_operator.V1alpha1.PlacementGroup.{HcloudPlacementGroup, HcloudPlacementGroupStatus}
use hcloud_operator.Server.State.{requeue_delay, condition_type_ready}

abbrev pub hcloud_placement_group_finalizer : String
hcloud_placement_group_finalizer = "infra.hkc.io/placementgroup-finalizer"

abbrev pub GroupScope : Type 0 → Type 0 → Type 0
GroupScope C K = Scope (World C K) HcloudPlacementGroup

pub record HcloudPlacementGroupReconciler (C K : Type 0) : Type 0 where
  pub hcloud_client : PlacementGroupApi C
  pub meta : Meta

abbrev pub group_opts : HcloudPlacementGroup → PlacementGroupCreateOpts
group_opts o = record { name = o.metadata.name; type = o.spec.type; labels = o.spec.labels }

module _ {C K : Type 0} (r : HcloudPlacementGroupReconciler C K) where
  open r use {hcloud_client, meta}

  -- (*HCloudPlacementGroupReconciler).setPlacementGroupCondition, on the status
  abbrev pub set_placement_group_condition :
      String
      → ConditionStatus
      → String
      → Text
      → HcloudPlacementGroupStatus
      → HcloudPlacementGroupStatus
  set_placement_group_condition type status reason message s = record s {
    conditions =
        meta.set_status_condition s.conditions
          (record { type = type; status = status; reason = reason; message = message });
  }

  -- The three assignments that end both branches.
  abbrev pub record_group :
      String → String → PlacementGroupInfo → Action (GroupScope C K) (Unit {0})
  record_group reason message pg s =
      let status = record (s.object.status) { placement_group_id = pg.id; type = pg.type } in
      (
        ok tt,
        record s {
          object = record (s.object) {
            status =
                set_placement_group_condition condition_type_ready condition_true reason
                  (str message ∷ []) status;
          };
        },
      )

  unfoldable pub fetch_by_id : Action (GroupScope C K) (Option PlacementGroupInfo)
  fetch_by_id = look λ o.
      if is_set o.status.placement_group_id
      then within (str "fetch placement group by ID" ∷ [])
          (in_cloud (hcloud_client.get_placement_group o.status.placement_group_id))
      else pure none

  unfoldable pub fetch_by_name :
      Option PlacementGroupInfo → Action (GroupScope C K) (Option PlacementGroupInfo)
  fetch_by_name none = look λ o.
      within (str "fetch placement group by name" ∷ [])
        (in_cloud (hcloud_client.get_placement_group_by_name o.metadata.name))
  fetch_by_name (some pg) = pure (some pg)

  unfoldable pub settle_group : Option PlacementGroupInfo → Action (GroupScope C K) (Unit {0})
  settle_group none = do
    created ← look λ o.
        within (str "create Hetzner placement group" ∷ [])
          (in_cloud (hcloud_client.create_placement_group (group_opts o)))
    record_group "PlacementGroupCreated" "Placement group created in Hetzner" created
  settle_group (some pg) = record_group "PlacementGroupReady" "Placement group is provisioned" pg

  unfoldable pub reconcile_hcloud_placement_group : Action (GroupScope C K) (Unit {0})
  reconcile_hcloud_placement_group = do
    by_id ← fetch_by_id
    existing ← fetch_by_name by_id
    settle_group existing

  unfoldable pub reconcile : Action (GroupScope C K) CtrlResult
  reconcile = do
    reconcile_hcloud_placement_group
    pure (record { requeue = false; requeue_after = requeue_delay })

  unfoldable pub delete_hcloud_placement_group : Action (GroupScope C K) (Unit {0})
  delete_hcloud_placement_group = look λ o.
      if not (is_set o.status.placement_group_id)
      then pure tt
      else in_cloud (hcloud_client.delete_placement_group o.status.placement_group_id)

  -- HCloudPlacementGroupReconciler as the domain logic of the shared loop.
  abbrev pub placement_group_resource :
      HcloudPlacementGroup → Resource (World C K) HcloudPlacementGroup
  placement_group_resource empty = record {
    new_object = empty;
    finalizer_name = hcloud_placement_group_finalizer;
    kind = "HCloudPlacementGroup";
    reconcile = reconcile;
    delete = delete_hcloud_placement_group;
  }
