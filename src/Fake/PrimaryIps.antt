-- ===== src/Fake/PrimaryIps.antt =====
-- The primary IP methods of FakeClient.
use hcloud_operator.Base.{
  Bool, false, not, ◌&&◌, Option, none, some, [], ◌∷◌, String, ◌==◌, string_eq, nat_eq,
  if◌then◌else◌,
}
use hcloud_operator.Go.Fault.{Text, ok, fail, str, quoted, num}
use hcloud_operator.Go.Action.{Action, pure, raise}
use hcloud_operator.Go.Map.{lookup, insert, delete, find_value}
use hcloud_operator.Go.Integer.{Int64, increment, is_set}
use hcloud_operator.Go.Strings.{text_eq}
use hcloud_operator.Hcloud.Types.{PrimaryIpInfo, PrimaryIpCreateOpts, PrimaryIpUpdateOpts, Labels}
use hcloud_operator.Hcloud.Api.{PrimaryIpApi}
use hcloud_operator.Fake.State.{FakeClient, injected, found}

abbrev pub primary_ip_named : String → PrimaryIpInfo → Bool
primary_ip_named name ip = ip.name == name

unfoldable pub get_primary_ip : Int64 → Action FakeClient (Option PrimaryIpInfo)
get_primary_ip id f = injected f.get_err (λ f'. (ok (lookup id f'.primary_ips), f')) f

unfoldable pub get_primary_ip_by_name : String → Action FakeClient (Option PrimaryIpInfo)
get_primary_ip_by_name name f =
    injected f.get_err (λ f'. (ok (find_value (primary_ip_named name) f'.primary_ips), f')) f

abbrev address : Int64 → String → Text
address id type =
    if type == "ipv6" then str "2001:db8:primary::" ∷ num id ∷ [] else str "1.2.3." ∷ num id ∷ []

-- `*opts.AutoDelete`, which counts as false where it is nil
abbrev pub or_false : Option Bool → Bool
or_false none = false
or_false (some b) = b

-- primaryIPAssigneeType
unfoldable pub primary_ip_assignee_type : String → String
primary_ip_assignee_type type = if type == "" then "server" else type

abbrev pub new_primary_ip : Int64 → PrimaryIpCreateOpts → PrimaryIpInfo
new_primary_ip id opts = record {
  id = id;
  name = opts.name;
  type = opts.type;
  ip = address id opts.type;
  datacenter = opts.datacenter;
  labels = opts.labels;
  assignee_id = opts.assignee_id;
  assignee_type = primary_ip_assignee_type opts.assignee_type;
  auto_delete = or_false opts.auto_delete;
  dns_ptr = [];
}

unfoldable pub create_primary_ip : PrimaryIpCreateOpts → Action FakeClient PrimaryIpInfo
create_primary_ip opts f =
    injected f.create_err
      (λ f'.
        if not (opts.datacenter == "") && is_set opts.assignee_id
        then raise
            (fail (str "fake: cannot set datacenter and assignee_id on primary IP create" ∷ [])) f'
        else found (find_value (primary_ip_named opts.name) f'.primary_ips)
            (λ g.
              let info = new_primary_ip g.next_id opts in
              (
                ok info,
                record g {
                  primary_ips = insert g.next_id info g.primary_ips;
                  next_id = increment g.next_id;
                },
              ))
            (λ _. raise (
              fail (
                str "fake: primary IP with name " ∷ quoted opts.name ∷ str " already exists" ∷ [])))
            f')
      f

unfoldable pub delete_primary_ip : Int64 → Action FakeClient (Unit {0})
delete_primary_ip id f =
    injected f.delete_err (λ f'. (ok tt, record f' { primary_ips = delete id f'.primary_ips })) f

-- A change of a stored address, which the map holds by pointer.
abbrev pub change_primary_ip :
    Int64 → (PrimaryIpInfo → PrimaryIpInfo) → Action FakeClient (Unit {0})
change_primary_ip id change f =
    found (lookup id f.primary_ips)
      (raise (fail (str "fake: primary IP " ∷ num id ∷ str " not found" ∷ [])))
      (λ ip g. (ok tt, record g { primary_ips = insert id (change ip) g.primary_ips })) f

-- `if opts.Labels != nil`
abbrev pub updated_labels : Labels → Labels → Labels
updated_labels none old = old
updated_labels (some m) old = some m

-- `if opts.AutoDelete != nil`
abbrev pub updated_auto_delete : Option Bool → Bool → Bool
updated_auto_delete none old = old
updated_auto_delete (some new) old = new

unfoldable pub update_primary_ip : Int64 → PrimaryIpUpdateOpts → Action FakeClient (Unit {0})
update_primary_ip id opts = change_primary_ip id (λ ip. record ip {
  labels = updated_labels opts.labels ip.labels;
  auto_delete = updated_auto_delete opts.auto_delete ip.auto_delete;
})

unfoldable pub assign_primary_ip : Int64 → Int64 → String → Action FakeClient (Unit {0})
assign_primary_ip id assignee_id assignee_type = change_primary_ip id (λ ip. record ip {
  assignee_id = assignee_id;
  assignee_type = primary_ip_assignee_type assignee_type;
})

unfoldable pub unassign_primary_ip : Int64 → Action FakeClient (Unit {0})
unassign_primary_ip id f =
    found (lookup id f.primary_ips)
      (raise (fail (str "fake: primary IP " ∷ num id ∷ str " not found" ∷ [])))
      (λ ip. if not (is_set ip.assignee_id) then pure tt else (λ g. (
        ok tt,
        record g { primary_ips = insert id (record ip { assignee_id = 0 }) g.primary_ips },
      )))
      f

unfoldable pub change_primary_ip_dns_ptr : Int64 → Text → String → Action FakeClient (Unit {0})
change_primary_ip_dns_ptr id ip dns_ptr =
    change_primary_ip id (λ info. record info { dns_ptr = insert ip dns_ptr info.dns_ptr })

abbrev pub primary_ip_api : PrimaryIpApi FakeClient
primary_ip_api = record {
  get_primary_ip = get_primary_ip;
  get_primary_ip_by_name = get_primary_ip_by_name;
  create_primary_ip = create_primary_ip;
  delete_primary_ip = delete_primary_ip;
  update_primary_ip = update_primary_ip;
  assign_primary_ip = assign_primary_ip;
  unassign_primary_ip = unassign_primary_ip;
  change_primary_ip_dns_ptr = change_primary_ip_dns_ptr;
}
