-- ===== src/Fake/Networks.antt =====
-- The network methods of FakeClient. Go's order on strings and net.ParseCIDR are parameters: `cidr_error`
-- is the error of the latter, if it has one.
use hcloud_operator.Base.{
  Bool, Option, none, some, [], ◌∷◌, ◌++◌, String, ◌==◌, string_eq, nat_eq, if◌then◌else◌,
}
use hcloud_operator.Go.Fault.{Fault, ok, fail, wrap, str, quoted, num}
use hcloud_operator.Go.Action.{Action, pure, raise}
use hcloud_operator.Go.Map.{lookup, insert, delete, find_value}
use hcloud_operator.Go.Integer.{Int64, increment}
use hcloud_operator.Go.Slice.{member, sort_by}
use hcloud_operator.Hcloud.Types.{NetworkInfo, NetworkCreateOpts}
use hcloud_operator.Hcloud.Api.{NetworkApi}
use hcloud_operator.Fake.State.{FakeClient, injected, found}

abbrev pub network_named : String → NetworkInfo → Bool
network_named name n = n.name == name

unfoldable pub get_network : Int64 → Action FakeClient (Option NetworkInfo)
get_network id f = injected f.get_err (λ f'. (ok (lookup id f'.networks), f')) f

unfoldable pub get_network_by_name : String → Action FakeClient (Option NetworkInfo)
get_network_by_name name f =
    injected f.get_err (λ f'. (ok (find_value (network_named name) f'.networks), f')) f

abbrev pub new_network : Int64 → NetworkCreateOpts → NetworkInfo
new_network id opts = record {
  id = id;
  name = opts.name;
  ip_range = opts.ip_range;
  subnet_zones = [];
  labels = opts.labels;
  expose_routes = opts.expose_routes_to_vswitch;
}

-- `if _, _, err := net.ParseCIDR(…); err != nil { … }` before the rest
abbrev cidr_checked :
    {A : Type 0} → String → Option Fault → Action FakeClient A → Action FakeClient A
cidr_checked ip_range none m = m
cidr_checked ip_range (some e) m =
    raise (wrap (str "fake: invalid ipRange " ∷ quoted ip_range ∷ []) e)

unfoldable pub delete_network : Int64 → Action FakeClient (Unit {0})
delete_network id f =
    injected f.delete_err (λ f'. (ok tt, record f' { networks = delete id f'.networks })) f

module _ (string_less : String → String → Bool) (cidr_error : String → Option Fault) where
  unfoldable pub create_network : NetworkCreateOpts → Action FakeClient NetworkInfo
  create_network opts f =
      injected f.create_err
        (cidr_checked opts.ip_range (cidr_error opts.ip_range) (λ f'.
          found (find_value (network_named opts.name) f'.networks)
            (λ g.
              let info = new_network g.next_id opts in
              (
                ok info,
                record g {
                  networks = insert g.next_id info g.networks;
                  next_id = increment g.next_id;
                },
              ))
            (λ _. raise (
              fail
                (str "fake: network with name " ∷ quoted opts.name ∷ str " already exists" ∷ [])))
            f'))
        f

  unfoldable pub add_network_cloud_subnet : Int64 → String → Action FakeClient (Unit {0})
  add_network_cloud_subnet network_id zone f =
      found (lookup network_id f.networks)
        (raise (fail (str "fake: network " ∷ num network_id ∷ str " not found" ∷ [])))
        (λ n. if member zone n.subnet_zones then pure tt else (λ g. (
          ok tt,
          record g {
            networks =
                insert network_id
                  (record n { subnet_zones = sort_by string_less (n.subnet_zones ++ zone ∷ []) })
                  g.networks;
          },
        )))
        f

  abbrev pub network_api : NetworkApi FakeClient
  network_api = record {
    get_network = get_network;
    get_network_by_name = get_network_by_name;
    create_network = create_network;
    delete_network = delete_network;
    add_network_cloud_subnet = add_network_cloud_subnet;
  }
