-- ===== src/Fake/State.antt =====
-- The state of FakeClient, and the parts that its methods share.
use hcloud_operator.Base.{Bool, Option, none, some, [], string_eq, nat_eq}
use hcloud_operator.Go.Fault.{Fault}
use hcloud_operator.Go.Action.{Action, raise}
use hcloud_operator.Go.Map.{Map}
use hcloud_operator.Go.Integer.{Int64}
use hcloud_operator.Hcloud.Types.{
  LoadBalancerInfo, ServerInfo, VolumeInfo, NetworkInfo, PlacementGroupInfo, FirewallInfo,
  PrimaryIpInfo, FloatingIpInfo, CertificateInfo,
}

pub record FakeClient : Type 0 where
  pub servers : Map Int64 ServerInfo
  pub load_balancers : Map Int64 LoadBalancerInfo
  pub volumes : Map Int64 VolumeInfo
  pub networks : Map Int64 NetworkInfo
  pub firewalls : Map Int64 FirewallInfo
  pub primary_ips : Map Int64 PrimaryIpInfo
  pub floating_ips : Map Int64 FloatingIpInfo
  pub certificates : Map Int64 CertificateInfo
  pub placement_groups : Map Int64 PlacementGroupInfo
  pub next_id : Int64
  -- Injected errors.
  pub create_err : Option Fault
  pub get_err : Option Fault
  pub delete_err : Option Fault
  pub last_change_server_type_upgrade_disk : Map Int64 Bool

-- NewFakeClient, and what Reset leaves
abbrev pub new_fake_client : FakeClient
new_fake_client = record {
  servers = [];
  load_balancers = [];
  volumes = [];
  networks = [];
  firewalls = [];
  primary_ips = [];
  floating_ips = [];
  certificates = [];
  placement_groups = [];
  next_id = 1;
  create_err = none;
  get_err = none;
  delete_err = none;
  last_change_server_type_upgrade_disk = [];
}

-- `if f.XErr != nil { return f.XErr }` before the rest of a method
abbrev pub injected : {A : Type 0} → Option Fault → Action FakeClient A → Action FakeClient A
injected none m = m
injected (some e) m = raise e

-- `v, ok := m[id]; if !ok { missing }; present`
abbrev pub found :
    {V A : Type 0}
    → Option V
    → Action FakeClient A
    → (V → Action FakeClient A)
    → Action FakeClient A
found none missing present = missing
found (some v) missing present = present v
