-- ===== src/Fake/FloatingIps.antt =====
-- The floating IP methods of FakeClient.
pub mod Ids
use hcloud_operator.Base.{
  Bool, not, Option, none, some, [], ◌∷◌, String, ◌==◌, string_eq, nat_eq, if◌then◌else◌,
}
use hcloud_operator.Go.Fault.{Text, ok, fail, str, quoted, num}
use hcloud_operator.Go.Action.{Action, pure, raise}
use hcloud_operator.Go.Map.{lookup, insert, delete, find_value}
use hcloud_operator.Go.Integer.{Int64, increment, is_set}
use hcloud_operator.Go.Strings.{text_eq}
use hcloud_operator.Hcloud.Types.{
  FloatingIpInfo, FloatingIpCreateOpts, FloatingIpUpdateOpts, Labels,
}
use hcloud_operator.Hcloud.Api.{FloatingIpApi}
use hcloud_operator.Fake.State.{FakeClient, injected, found}

abbrev pub floating_ip_named : String → FloatingIpInfo → Bool
floating_ip_named name ip = ip.name == name

unfoldable pub get_floating_ip : Int64 → Action FakeClient (Option FloatingIpInfo)
get_floating_ip id f = injected f.get_err (λ f'. (ok (lookup id f'.floating_ips), f')) f

unfoldable pub get_floating_ip_by_name : String → Action FakeClient (Option FloatingIpInfo)
get_floating_ip_by_name name f =
    injected f.get_err (λ f'. (ok (find_value (floating_ip_named name) f'.floating_ips), f')) f

abbrev address : Int64 → String → Text
address id type =
    if type == "ipv6"
    then str "2001:db8:floating::" ∷ num id ∷ []
    else str "203.0.113." ∷ num id ∷ []

abbrev pub new_floating_ip : Int64 → FloatingIpCreateOpts → FloatingIpInfo
new_floating_ip id opts = record {
  id = id;
  name = opts.name;
  type = opts.type;
  ip = address id opts.type;
  location = opts.location;
  description = opts.description;
  labels = opts.labels;
  server_id = opts.server_id;
  dns_ptr = [];
}

unfoldable pub create_floating_ip : FloatingIpCreateOpts → Action FakeClient FloatingIpInfo
create_floating_ip opts f =
    injected f.create_err
      (λ f'.
        found (find_value (floating_ip_named opts.name) f'.floating_ips)
          (λ g.
            let info = new_floating_ip g.next_id opts in
            (
              ok info,
              record g {
                floating_ips = insert g.next_id info g.floating_ips;
                next_id = increment g.next_id;
              },
            ))
          (λ _. raise (
            fail
              (str "fake: floating IP with name " ∷ quoted opts.name ∷ str " already exists" ∷ [])))
          f')
      f

unfoldable pub delete_floating_ip : Int64 → Action FakeClient (Unit {0})
delete_floating_ip id f =
    injected f.delete_err (λ f'. (ok tt, record f' { floating_ips = delete id f'.floating_ips })) f

-- A change of a stored address, which the map holds by pointer.
abbrev pub change_floating_ip :
    Int64 → (FloatingIpInfo → FloatingIpInfo) → Action FakeClient (Unit {0})
change_floating_ip id change f =
    found (lookup id f.floating_ips)
      (raise (fail (str "fake: floating IP " ∷ num id ∷ str " not found" ∷ [])))
      (λ ip g. (ok tt, record g { floating_ips = insert id (change ip) g.floating_ips })) f

-- `if opts.Labels != nil`
abbrev pub updated_labels : Labels → Labels → Labels
updated_labels none old = old
updated_labels (some m) old = some m

unfoldable pub update_floating_ip : Int64 → FloatingIpUpdateOpts → Action FakeClient (Unit {0})
update_floating_ip id opts = change_floating_ip id (λ ip. record ip {
  labels = updated_labels opts.labels ip.labels;
  description = opts.description;
})

unfoldable pub assign_floating_ip : Int64 → Int64 → Action FakeClient (Unit {0})
assign_floating_ip id server_id = change_floating_ip id (λ ip. record ip { server_id = server_id })

unfoldable pub unassign_floating_ip : Int64 → Action FakeClient (Unit {0})
unassign_floating_ip id f =
    found (lookup id f.floating_ips)
      (raise (fail (str "fake: floating IP " ∷ num id ∷ str " not found" ∷ [])))
      (λ ip. if not (is_set ip.server_id) then pure tt else (λ g. (
        ok tt,
        record g { floating_ips = insert id (record ip { server_id = 0 }) g.floating_ips },
      )))
      f

unfoldable pub change_floating_ip_dns_ptr : Int64 → Text → String → Action FakeClient (Unit {0})
change_floating_ip_dns_ptr id ip dns_ptr =
    change_floating_ip id (λ info. record info { dns_ptr = insert ip dns_ptr info.dns_ptr })

abbrev pub floating_ip_api : FloatingIpApi FakeClient
floating_ip_api = record {
  get_floating_ip = get_floating_ip;
  get_floating_ip_by_name = get_floating_ip_by_name;
  create_floating_ip = create_floating_ip;
  delete_floating_ip = delete_floating_ip;
  update_floating_ip = update_floating_ip;
  assign_floating_ip = assign_floating_ip;
  unassign_floating_ip = unassign_floating_ip;
  change_floating_ip_dns_ptr = change_floating_ip_dns_ptr;
}
