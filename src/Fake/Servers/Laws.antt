-- ===== src/Fake/Servers/Laws.antt =====
-- The server methods on a stored server.
use hcloud_operator.Base.{Bool, ◌≡◌, ◌≢◌, String, none, some, string_eq, nat_eq, arith, eq_iff}
use hcloud_operator.Go.Fault.{ok}
use hcloud_operator.Go.Integer.{Int64}
use hcloud_operator.Go.Map.{lookup, insert}
use hcloud_operator.Hcloud.Types.{ServerInfo}
use hcloud_operator.Fake.State.{FakeClient}
use hcloud_operator.Fake.Servers.{get_server, power_off_server, power_on_server, change_server_type}

-- The cloud with a server written back.
abbrev pub with_server : Int64 → ServerInfo → FakeClient → FakeClient
with_server id s f = record f { servers = insert id s f.servers }

module _ (id : Int64) (s : ServerInfo) (f : FakeClient)
    (stored : lookup id f.servers ≡ some s) where
  pub get_server_stored : f.get_err ≡ none → get_server id f ≡ (ok (some s), f)
  unfolding get_server
  get_server_stored h = ground arith

  pub power_off_server_running :
      s.state ≡ "running"
      → power_off_server id f ≡ (ok tt, with_server id (record s { state = "off" }) f)
  unfolding power_off_server
  power_off_server_running h = ground (
    arith,
    eq_iff s.state "off",
    eq_iff s.state "stopping",
    eq_iff "running" "off",
    eq_iff "running" "stopping",
  )

  pub power_on_server_off :
      s.state ≡ "off"
      → power_on_server id f ≡ (ok tt, with_server id (record s { state = "running" }) f)
  unfolding power_on_server
  power_on_server_off h = ground (
    arith,
    eq_iff s.state "running",
    eq_iff s.state "starting",
    eq_iff "off" "running",
    eq_iff "off" "starting",
  )

  pub change_server_type_off :
      (server_type : String) (upgrade_disk : Bool)
      → s.state ≡ "off"
      → s.server_type ≢ server_type
      → change_server_type id server_type upgrade_disk f ≡ (
        ok tt,
        record f {
          servers = insert id (record s { server_type = server_type }) f.servers;
          last_change_server_type_upgrade_disk =
              insert id upgrade_disk f.last_change_server_type_upgrade_disk;
        },
      )
  unfolding change_server_type
  change_server_type_off t u h ne = ground (arith, eq_iff s.state "off", eq_iff s.server_type t)
