-- ===== src/Fake/Servers.antt =====
-- The server methods of FakeClient.
pub mod Laws
use hcloud_operator.Base.{
  Bool, true, false, ◌&&◌, ◌||◌, not, Option, none, some, List, [], ◌∷◌, ◌++◌, String, ◌==◌,
  string_eq, nat_eq, if◌then◌else◌,
}
use hcloud_operator.Go.Fault.{Fault, Result, ok, err, Text, fail, str, quoted, num}
use hcloud_operator.Go.Action.{Action, pure, raise}
use hcloud_operator.Go.Map.{Map, lookup, insert, delete, find_value}
use hcloud_operator.Go.Integer.{Int64, increment}
use hcloud_operator.Go.Slice.{sort, member, without}
use hcloud_operator.Hcloud.Types.{ServerInfo, ServerCreateOpts, NetworkInfo}
use hcloud_operator.Hcloud.Api.{ServerApi}
use hcloud_operator.Fake.State.{FakeClient, injected, found}

abbrev pub server_named : String → ServerInfo → Bool
server_named name s = s.name == name

unfoldable pub get_server : Int64 → Action FakeClient (Option ServerInfo)
get_server id f = injected f.get_err (λ f'. (ok (lookup id f'.servers), f')) f

unfoldable pub get_server_by_name : String → Action FakeClient (Option ServerInfo)
get_server_by_name name f =
    injected f.get_err (λ f'. (ok (find_value (server_named name) f'.servers), f')) f

abbrev pub new_server : Int64 → ServerCreateOpts → ServerInfo
new_server id opts = record {
  id = id;
  name = opts.name;
  server_type = opts.server_type;
  state = "running";
  public_ipv4 = str "1.2.3." ∷ num id ∷ [];
  public_ipv6 = str "2001:db8::" ∷ num id ∷ str "/64" ∷ [];
  network_ids = [];
  placement_group_id = opts.placement_group_id;
}

unfoldable pub create_server : ServerCreateOpts → Action FakeClient ServerInfo
create_server opts f =
    injected f.create_err
      (λ f'.
        found (find_value (server_named opts.name) f'.servers)
          (λ g.
            let info = new_server g.next_id opts in
            (
              ok info,
              record g { servers = insert g.next_id info g.servers; next_id = increment g.next_id },
            ))
          (λ _.
            raise (
              fail (str "fake: server with name " ∷ quoted opts.name ∷ str " already exists" ∷ [])))
          f')
      f

unfoldable pub delete_server : Int64 → Action FakeClient (Unit {0})
delete_server id f =
    injected f.delete_err (λ f'. (ok tt, record f' { servers = delete id f'.servers })) f

abbrev pub server_missing : {A : Type 0} → Int64 → Action FakeClient A
server_missing id = raise (fail (str "fake: server " ∷ num id ∷ str " not found" ∷ []))

-- A change of a stored server, which the map holds by pointer.
abbrev pub store_server : Int64 → ServerInfo → Action FakeClient (Unit {0})
store_server id s f = (ok tt, record f { servers = insert id s f.servers })

unfoldable pub power_off_server : Int64 → Action FakeClient (Unit {0})
power_off_server id f =
    found (lookup id f.servers) (server_missing id)
      (λ s.
        if s.state == "off" || s.state == "stopping"
        then pure tt
        else store_server id (record s { state = "off" }))
      f

unfoldable pub power_on_server : Int64 → Action FakeClient (Unit {0})
power_on_server id f =
    found (lookup id f.servers) (server_missing id)
      (λ s.
        if s.state == "running" || s.state == "starting"
        then pure tt
        else store_server id (record s { state = "running" }))
      f

unfoldable pub change_server_type : Int64 → String → Bool → Action FakeClient (Unit {0})
change_server_type id server_type upgrade_disk f =
    found (lookup id f.servers) (server_missing id)
      (λ s.
        if s.server_type == server_type
        then pure tt
        else if not (s.state == "off")
        then raise (
            fail (
              str "fake: server "
              ∷ num id
              ∷ str " must be off to change type (state="
              ∷ str s.state
              ∷ str ")"
              ∷ []))
        else (λ g. (
          ok tt,
          record g {
            servers = insert id (record s { server_type = server_type }) g.servers;
            last_change_server_type_upgrade_disk =
                insert id upgrade_disk g.last_change_server_type_upgrade_disk;
          },
        )))
      f

unfoldable pub attach_server_to_network : Int64 → Int64 → Action FakeClient (Unit {0})
attach_server_to_network server_id network_id f =
    found (lookup server_id f.servers) (server_missing server_id)
      (λ s g.
        found (lookup network_id g.networks)
          (raise (fail (str "fake: network " ∷ num network_id ∷ str " not found" ∷ [])))
          (λ _.
            if member network_id s.network_ids
            then pure tt
            else store_server server_id
                (record s { network_ids = sort (s.network_ids ++ network_id ∷ []) }))
          g)
      f

unfoldable pub detach_server_from_network : Int64 → Int64 → Action FakeClient (Unit {0})
detach_server_from_network server_id network_id f =
    found (lookup server_id f.servers) (server_missing server_id)
      (λ s. store_server server_id (record s { network_ids = without network_id s.network_ids })) f

abbrev pub server_api : ServerApi FakeClient
server_api = record {
  get_server = get_server;
  get_server_by_name = get_server_by_name;
  create_server = create_server;
  delete_server = delete_server;
  power_off_server = power_off_server;
  power_on_server = power_on_server;
  change_server_type = change_server_type;
  attach_server_to_network = attach_server_to_network;
  detach_server_from_network = detach_server_from_network;
}
