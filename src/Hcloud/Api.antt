-- ===== src/Hcloud/Api.antt =====
-- The interface that the controllers call (client.go, `Interface`), over the state `C` of the cloud.
-- A nil answer is `none`.
use hcloud_operator.Base.{String, Bool, Option, List}
use hcloud_operator.Go.Fault.{Text}
use hcloud_operator.Go.Action.{Action}
use hcloud_operator.Go.Integer.{Int64}
use hcloud_operator.Hcloud.Types.{
  LoadBalancerInfo, LoadBalancerCreateOpts, LoadBalancerServiceInfo, CertificateInfo,
  CertificateCreateOpts, CertificateUpdateOpts, PrimaryIpInfo, PrimaryIpCreateOpts,
  PrimaryIpUpdateOpts, FloatingIpInfo, FloatingIpCreateOpts, FloatingIpUpdateOpts, ServerInfo,
  ServerCreateOpts, VolumeInfo, VolumeCreateOpts, NetworkInfo, NetworkCreateOpts,
  PlacementGroupInfo, PlacementGroupCreateOpts, FirewallInfo, FirewallCreateOpts, FirewallRuleInfo,
  FirewallApplyResource, Labels,
}

pub record ServerApi (C : Type 0) : Type 0 where
  pub get_server : Int64 → Action C (Option ServerInfo)
  pub get_server_by_name : String → Action C (Option ServerInfo)
  pub create_server : ServerCreateOpts → Action C ServerInfo
  pub delete_server : Int64 → Action C (Unit {0})
  pub power_off_server : Int64 → Action C (Unit {0})
  pub power_on_server : Int64 → Action C (Unit {0})
  pub change_server_type : Int64 → String → Bool → Action C (Unit {0})
  pub attach_server_to_network : Int64 → Int64 → Action C (Unit {0})
  pub detach_server_from_network : Int64 → Int64 → Action C (Unit {0})

pub record VolumeApi (C : Type 0) : Type 0 where
  pub get_volume : Int64 → Action C (Option VolumeInfo)
  pub get_volume_by_name : String → Action C (Option VolumeInfo)
  pub create_volume : VolumeCreateOpts → Action C VolumeInfo
  pub delete_volume : Int64 → Action C (Unit {0})
  pub attach_volume : Int64 → Int64 → Action C (Unit {0})
  pub detach_volume : Int64 → Action C (Unit {0})
  pub resize_volume : Int64 → Int64 → Action C (Unit {0})

pub record NetworkApi (C : Type 0) : Type 0 where
  pub get_network : Int64 → Action C (Option NetworkInfo)
  pub get_network_by_name : String → Action C (Option NetworkInfo)
  pub create_network : NetworkCreateOpts → Action C NetworkInfo
  pub delete_network : Int64 → Action C (Unit {0})
  pub add_network_cloud_subnet : Int64 → String → Action C (Unit {0})

pub record PlacementGroupApi (C : Type 0) : Type 0 where
  pub get_placement_group : Int64 → Action C (Option PlacementGroupInfo)
  pub get_placement_group_by_name : String → Action C (Option PlacementGroupInfo)
  pub create_placement_group : PlacementGroupCreateOpts → Action C PlacementGroupInfo
  pub delete_placement_group : Int64 → Action C (Unit {0})

pub record FirewallApi (C : Type 0) : Type 0 where
  pub get_firewall : Int64 → Action C (Option FirewallInfo)
  pub get_firewall_by_name : String → Action C (Option FirewallInfo)
  pub create_firewall : FirewallCreateOpts → Action C FirewallInfo
  pub delete_firewall : Int64 → Action C (Unit {0})
  pub update_firewall_labels : Int64 → Labels → Action C (Unit {0})
  pub set_firewall_rules : Int64 → List FirewallRuleInfo → Action C (Unit {0})
  pub apply_firewall_resources : Int64 → List FirewallApplyResource → Action C (Unit {0})
  pub remove_firewall_resources : Int64 → List FirewallApplyResource → Action C (Unit {0})

pub record PrimaryIpApi (C : Type 0) : Type 0 where
  pub get_primary_ip : Int64 → Action C (Option PrimaryIpInfo)
  pub get_primary_ip_by_name : String → Action C (Option PrimaryIpInfo)
  pub create_primary_ip : PrimaryIpCreateOpts → Action C PrimaryIpInfo
  pub delete_primary_ip : Int64 → Action C (Unit {0})
  pub update_primary_ip : Int64 → PrimaryIpUpdateOpts → Action C (Unit {0})
  pub assign_primary_ip : Int64 → Int64 → String → Action C (Unit {0})
  pub unassign_primary_ip : Int64 → Action C (Unit {0})
  pub change_primary_ip_dns_ptr : Int64 → Text → String → Action C (Unit {0})

pub record FloatingIpApi (C : Type 0) : Type 0 where
  pub get_floating_ip : Int64 → Action C (Option FloatingIpInfo)
  pub get_floating_ip_by_name : String → Action C (Option FloatingIpInfo)
  pub create_floating_ip : FloatingIpCreateOpts → Action C FloatingIpInfo
  pub delete_floating_ip : Int64 → Action C (Unit {0})
  pub update_floating_ip : Int64 → FloatingIpUpdateOpts → Action C (Unit {0})
  pub assign_floating_ip : Int64 → Int64 → Action C (Unit {0})
  pub unassign_floating_ip : Int64 → Action C (Unit {0})
  pub change_floating_ip_dns_ptr : Int64 → Text → String → Action C (Unit {0})

pub record CertificateApi (C : Type 0) : Type 0 where
  pub get_certificate : Int64 → Action C (Option CertificateInfo)
  pub get_certificate_by_name : String → Action C (Option CertificateInfo)
  pub create_certificate : CertificateCreateOpts → Action C CertificateInfo
  pub delete_certificate : Int64 → Action C (Unit {0})
  pub update_certificate : Int64 → CertificateUpdateOpts → Action C (Unit {0})

pub record LoadBalancerApi (C : Type 0) : Type 0 where
  pub get_load_balancer : Int64 → Action C (Option LoadBalancerInfo)
  pub get_load_balancer_by_name : String → Action C (Option LoadBalancerInfo)
  pub create_load_balancer : LoadBalancerCreateOpts → Action C LoadBalancerInfo
  pub delete_load_balancer : Int64 → Action C (Unit {0})
  pub attach_server_to_load_balancer : Int64 → Int64 → Action C (Unit {0})
  pub detach_server_from_load_balancer : Int64 → Int64 → Action C (Unit {0})
  pub sync_load_balancer_services : Int64 → List LoadBalancerServiceInfo → Action C (Unit {0})
