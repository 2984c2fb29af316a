-- ===== src/Server/FakeNames.antt =====
-- FakeClient as a cloud whose servers have names.
use hcloud_operator.Base.{
  Bool, false, ◌≡◌, refl, ◌∙◌, ap, ◌⊎◌, inl, inr, String, List, [], ◌∷◌, ◌++◌, map, none, some,
  arith, string_eq, nat_eq, Option-cases,
}
use hcloud_operator.Go.Fault.{ok}
use hcloud_operator.Go.Integer.{Int64}
use hcloud_operator.Go.Slice.{sort, without, member}
use hcloud_operator.Go.Map.{Map, lookup, insert, find_value}
use hcloud_operator.Go.Map.Laws.{map-insert_same, insert_absent}
use hcloud_operator.Hcloud.Types.{ServerInfo, ServerCreateOpts}
use hcloud_operator.Fake.State.{FakeClient}
use hcloud_operator.Fake.Servers.{
  server_api, server_named, new_server, get_server, get_server_by_name, create_server,
  power_off_server, power_on_server, change_server_type, attach_server_to_network,
  detach_server_from_network,
}
use hcloud_operator.Server.Preservation.{Survives}
use hcloud_operator.Server.Names.{NamedCloud}

-- The names of the servers in the cloud.
abbrev pub server_names : FakeClient → List String
server_names f = map (λ p. p.1.name) f.servers

module _ (ns : List String) where
  abbrev Named : FakeClient → Type 0
  Named f = server_names f ≡ ns

  store_keeps :
      (id : Int64) (f : FakeClient) (s s' : ServerInfo)
      → lookup id f.servers ≡ some s
      → s'.name ≡ s.name
      → Named f
      → map (λ p. p.1.name) (insert id s' f.servers) ≡ ns
  store_keeps id f s s' stored same h =
      map-insert_same (λ x. x.name) id s s' f.servers stored same ∙ h

  power_off_names : (id : Int64) (f : FakeClient) → Named f → Named (power_off_server id f).1
  unfolding power_off_server
  power_off_names id f h = elim (Option-cases (lookup id f.servers)) [
    | inl e ↦ ground arith
    | inr (s, e) ↦ ground (arith, store_keeps id f s (record s { state = "off" }) e refl h)
  ]

  power_on_names : (id : Int64) (f : FakeClient) → Named f → Named (power_on_server id f).1
  unfolding power_on_server
  power_on_names id f h = elim (Option-cases (lookup id f.servers)) [
    | inl e ↦ ground arith
    | inr (s, e) ↦ ground (arith, store_keeps id f s (record s { state = "running" }) e refl h)
  ]

  change_type_names :
      (id : Int64) (t : String) (u : Bool) (f : FakeClient)
      → Named f
      → Named (change_server_type id t u f).1
  unfolding change_server_type
  change_type_names id t u f h = elim (Option-cases (lookup id f.servers)) [
    | inl e ↦ ground arith
    | inr (s, e) ↦ ground (arith, store_keeps id f s (record s { server_type = t }) e refl h)
  ]

  attach_names :
      (id n : Int64) (f : FakeClient) → Named f → Named (attach_server_to_network id n f).1
  unfolding attach_server_to_network
  attach_names id n f h = elim (Option-cases (lookup id f.servers)) [
    | inl e ↦ ground arith
    | inr (s, e) ↦ ground (
      arith,
      store_keeps id f s (record s { network_ids = sort (s.network_ids ++ n ∷ []) }) e refl h,
    )
  ]

  detach_names :
      (id n : Int64) (f : FakeClient) → Named f → Named (detach_server_from_network id n f).1
  unfolding detach_server_from_network
  detach_names id n f h = elim (Option-cases (lookup id f.servers)) [
    | inl e ↦ ground arith
    | inr (s, e) ↦
        ground
          (arith, store_keeps id f s (record s { network_ids = without n s.network_ids }) e refl h)
  ]

  get_names : (id : Int64) (f : FakeClient) → Named f → Named (get_server id f).1
  unfolding get_server
  get_names id f h = ground arith

  get_by_name_names :
      (name : String) (f : FakeClient) → Named f → Named (get_server_by_name name f).1
  unfolding get_server_by_name
  get_by_name_names name f h = ground arith

  names_survive : Survives server_api Named
  names_survive = record {
    get_keeps = get_names;
    get_by_name_keeps = get_by_name_names;
    power_off_keeps = power_off_names;
    power_on_keeps = power_on_names;
    change_type_keeps = change_type_names;
    attach_keeps = attach_names;
    detach_keeps = detach_names;
  }

map-append_single :
    (f : ServerInfo → String) (m : Map Int64 ServerInfo) (k : Int64) (v : ServerInfo)
    → map (λ p. f p.1) (m ++ (k, v) ∷ []) ≡ map (λ p. f p.1) m ++ f v ∷ []
map-append_single f [] k v = refl
map-append_single f (p ∷ m) k v = ap (◌∷◌ (f p.1)) (map-append_single f m k v)

unnamed :
    (name : String) (m : Map Int64 ServerInfo)
    → find_value (server_named name) m ≡ none
    → member name (map (λ p. p.1.name) m) ≡ false
unfolding find_value member
unnamed name [] h = refl
unnamed name ((k, s) ∷ m) h = ground (arith, unnamed name m)

-- No server is stored under the next ID.
abbrev pub Fresh : FakeClient → Type 0
Fresh f = lookup f.next_id f.servers ≡ none

fake_create :
    (opts : ServerCreateOpts) (f : FakeClient)
    → Fresh f
    → (server_names (create_server opts f).1 ≡ server_names f)
      ⊎ (server_names (create_server opts f).1 ≡ server_names f ++ opts.name ∷ [])
unfolding create_server
fake_create opts f fresh =
    let info = new_server f.next_id opts in
    ground (
      arith,
      insert_absent f.next_id info f.servers fresh,
      map-append_single (λ s. s.name) f.servers f.next_id info,
    )

fake_by_name :
    (name : String) (f : FakeClient)
    → (get_server_by_name name f).0 ≡ ok none
    → member name (server_names f) ≡ false
unfolding get_server_by_name
fake_by_name name f h = ground (arith, unnamed name f.servers)

fake_get : (id : Int64) (f : FakeClient) → (get_server id f).1 ≡ f
unfolding get_server
fake_get id f = ground arith

fake_get_by_name : (name : String) (f : FakeClient) → (get_server_by_name name f).1 ≡ f
unfolding get_server_by_name
fake_get_by_name name f = ground arith

pub fake_named : NamedCloud server_api server_names Fresh
fake_named = record {
  get_same = fake_get;
  by_name_same = fake_get_by_name;
  by_name_none = fake_by_name;
  create_adds = fake_create;
  names_survive = names_survive;
}
