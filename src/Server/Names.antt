-- ===== src/Server/Names.antt =====
-- How many servers of a name there are: a run never adds a second one, in any cloud that keeps its
-- names.
use hcloud_operator.Base.{
  false, ◌≡◌, refl, ◌∙◌, sym, ap, subst, ◌⊎◌, inl, String, List, [], ◌∷◌, ◌++◌, Option, none, some,
  arith, string_eq, nat_eq,
}
use hcloud_operator.Go.Fault.{ok, str}
use hcloud_operator.Go.Action.{Action, within}
use hcloud_operator.Go.Action.Invariant.{continue_state}
use hcloud_operator.Go.Integer.{Int64}
use hcloud_operator.Go.Slice.{member}
use hcloud_operator.Hcloud.Types.{ServerInfo, ServerCreateOpts}
use hcloud_operator.Hcloud.Api.{ServerApi}
use hcloud_operator.V1alpha1.Server.{HcloudServer}
use hcloud_operator.Server.State.{HcloudServerReconciler, ServerScope, in_cloud, look}
use hcloud_operator.Server.Status.{update_server_status_with_retry}
use hcloud_operator.Server.Network.{resolve_placement_group_id}
use hcloud_operator.Server.Controller.{
  reconcile_existing_server, create_opts, create_in_group, create_hcloud_server, adopt_or_create,
  resume, find_or_create_server, reconcile_hcloud_server, reconcile,
}
use hcloud_operator.Server.Preservation.{Survives, existing_keeps}

-- What a run may do to the names of the servers: nothing, or add the one of the object, if no server
-- has it.
abbrev pub AddsMissing : String → List String → List String → Type 0
AddsMissing name before after =
    (after ≡ before) ⊎ ((after ≡ before ++ name ∷ []) × (member name before ≡ false))

-- A cloud with servers of some names, that need not check that a new name is not taken: the reads
-- change nothing, a look-up by name answers nil only if no server has the name, and a creation, where
-- the cloud is `Good`, adds a server of the name that is asked for, if it adds one.
pub record NamedCloud {C : Type 0} (api : ServerApi C) (names : C → List String) (Good : C → Type 0)
    : Type 0 where
  pub get_same : (id : Int64) (c : C) → (api.get_server id c).1 ≡ c
  pub by_name_same : (name : String) (c : C) → (api.get_server_by_name name c).1 ≡ c
  pub by_name_none :
      (name : String) (c : C)
      → (api.get_server_by_name name c).0 ≡ ok none
      → member name (names c) ≡ false
  pub create_adds :
      (opts : ServerCreateOpts) (c : C)
      → Good c
      → (names (api.create_server opts c).1 ≡ names c)
        ⊎ (names (api.create_server opts c).1 ≡ names c ++ opts.name ∷ [])
  pub names_survive : (ns : List String) → Survives api (λ c. names c ≡ ns)

module _ {C K : Type 0} (r : HcloudServerReconciler C K) (names : C → List String)
    (Good : C → Type 0) (named : NamedCloud r.hcloud_client names Good) where
  existing_names :
      (s : ServerInfo) (st : ServerScope C K)
      → names (reconcile_existing_server r s st).1.world.cloud ≡ names st.world.cloud
  existing_names s st = existing_keeps r _ (named.names_survive (names st.world.cloud)) s st refl

  -- The cloud and the object at the point of the creation are those of the start.
  resolve_same :
      (st : ServerScope C K)
      → ((resolve_placement_group_id r st).1.world.cloud ≡ st.world.cloud)
        × ((resolve_placement_group_id r st).1.object ≡ st.object)
  unfolding resolve_placement_group_id
  resolve_same st = ground arith

  -- What becomes of a cloud `c` for the object called `name`.
  abbrev Adds : String → C → ServerScope C K → Type 0
  Adds name c st = AddsMissing name (names c) (names st.world.cloud)

  create_in_group-Adds :
      (st : ServerScope C K) (c : C) (group : Int64)
      → st.world.cloud ≡ c
      → Good c
      → member st.object.metadata.name (names c) ≡ false
      → Adds st.object.metadata.name c (create_in_group r group st).1
  unfolding create_in_group update_server_status_with_retry
  create_in_group-Adds st c group e good missing =
      ground (arith, named.create_adds (create_opts r st.object group) c good)

  create_names :
      (st : ServerScope C K) (c : C)
      → st.world.cloud ≡ c
      → Good c
      → member st.object.metadata.name (names c) ≡ false
      → Adds st.object.metadata.name c (create_hcloud_server r st).1
  unfolding create_hcloud_server
  create_names st c e good missing =
      let (cloud, object) = resolve_same st in
      continue_state (Adds st.object.metadata.name c) (create_in_group r)
        (resolve_placement_group_id r st)
        (λ group _.
          subst
            (λ (o : HcloudServer).
              Adds o.metadata.name c
                (create_in_group r group (resolve_placement_group_id r st).1).1)
            object
            (create_in_group-Adds (resolve_placement_group_id r st).1 c group (cloud ∙ e) good
              (ap (λ (o : HcloudServer). member o.metadata.name (names c)) object ∙ missing)))
        (inl (ap names (cloud ∙ e)))

  -- The look-up by name, as the controller calls it.
  abbrev look_up : Action (ServerScope C K) (Option ServerInfo)
  look_up = look λ o.
      within (str "fetch server by name" ∷ [])
        (in_cloud (r.hcloud_client.get_server_by_name o.metadata.name))

  look_up_same :
      (st : ServerScope C K)
      → ((look_up st).1.world.cloud ≡ st.world.cloud) × ((look_up st).1.object ≡ st.object)
  look_up_same st = ground (arith, named.by_name_same st.object.metadata.name st.world.cloud)

  look_up-none :
      (st : ServerScope C K)
      → (look_up st).0 ≡ ok none
      → member st.object.metadata.name (names st.world.cloud) ≡ false
  look_up-none st h = named.by_name_none st.object.metadata.name st.world.cloud (ground arith)

  adopt_names :
      (found : Option ServerInfo) (st : ServerScope C K) (c : C)
      → st.world.cloud ≡ c
      → Good c
      → (found ≡ none → member st.object.metadata.name (names c) ≡ false)
      → Adds st.object.metadata.name c (adopt_or_create r found st).1
  unfolding adopt_or_create
  adopt_names none st c e good missing = create_names st c e good (missing refl)
  adopt_names (some s) st c e good missing = inl (existing_names s _ ∙ ap names e)

  find_or_create_names :
      (st : ServerScope C K)
      → Good st.world.cloud
      → Adds st.object.metadata.name st.world.cloud (find_or_create_server r st).1
  unfolding find_or_create_server
  find_or_create_names st good =
      let (cloud, object) = look_up_same st in
      continue_state (Adds st.object.metadata.name st.world.cloud) (adopt_or_create r) (look_up st)
        (λ found h.
          subst
            (λ (o : HcloudServer).
              Adds o.metadata.name st.world.cloud (adopt_or_create r found (look_up st).1).1)
            object
            (adopt_names found (look_up st).1 st.world.cloud cloud good (λ e.
              ap (λ (o : HcloudServer). member o.metadata.name (names st.world.cloud)) object
              ∙ look_up-none st (h ∙ ap ok e))))
        (inl (ap names cloud))

  resume_names :
      (found : Option ServerInfo) (st : ServerScope C K)
      → Good st.world.cloud
      → Adds st.object.metadata.name st.world.cloud (resume r found st).1
  unfolding resume
  resume_names none st good = find_or_create_names st good
  resume_names (some s) st good = inl (existing_names s st)

  fetch_same :
      (st : ServerScope C K) (id : Int64)
      → (within (str "fetch server by ID" ∷ []) (in_cloud (r.hcloud_client.get_server id)) st).1
        ≡ st
  fetch_same st id = ground (arith, named.get_same id st.world.cloud)

  resumed_names :
      (st : ServerScope C K)
      → Good st.world.cloud
      → Adds st.object.metadata.name st.world.cloud (reconcile_hcloud_server r st).1
  unfolding reconcile_hcloud_server
  resumed_names st good =
      let call : Action (ServerScope C K) (Option ServerInfo) =
        within (str "fetch server by ID" ∷ [])
          (in_cloud (r.hcloud_client.get_server st.object.status.server_id)) in
      let same = fetch_same st st.object.status.server_id in
      ground (
        arith,
        find_or_create_names st good,
        continue_state (Adds st.object.metadata.name st.world.cloud) (resume r) (call st)
            (λ found _.
              subst (λ t. Adds st.object.metadata.name st.world.cloud (resume r found t).1)
                (sym same) (resume_names found st good))
            (inl (ap (λ (t : ServerScope C K). names t.world.cloud) same)),
      )

  -- No run adds a second server of a name, because the controller looks the name up: over a cloud
  -- whose look-up by name answers nil only where no server has the name, and which need not itself
  -- refuse a name that is taken, whatever the status of the object says and however the run ends, the
  -- servers keep their names, or one with the object's name is added where no server had it. It asks
  -- that the cloud is good at the start (in FakeClient: that no server is stored under the next ID),
  -- so that a creation replaces no server.
  pub reconcile-AddsMissing :
      (st : ServerScope C K)
      → Good st.world.cloud
      → AddsMissing st.object.metadata.name
          (names st.world.cloud)
          (names (reconcile r st).1.world.cloud)
  unfolding reconcile
  reconcile-AddsMissing st good = ground (arith, resumed_names st good)
