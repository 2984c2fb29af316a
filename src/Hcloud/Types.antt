-- ===== src/Hcloud/Types.antt =====
-- The SDK-agnostic views and creation options of internal/hcloud/client.go. A Go string that is put
-- together by fmt is a `Text`; a nil map is `none`.
use hcloud_operator.Base.{
  String, Bool, true, false, ◌&&◌, Option, none, some, List, [], ◌∷◌, ◌==◌, string_eq,
  if◌then◌else◌,
}
use hcloud_operator.Go.Fault.{Text, str, quoted, num}
use hcloud_operator.Go.Map.{Map, maps_equal}
use hcloud_operator.Go.Integer.{Int64}

-- t == ""
abbrev pub is_empty : Text → Bool
is_empty [] = true
is_empty (str s ∷ t) = s == "" && is_empty t
is_empty (quoted s ∷ t) = false
is_empty (num n ∷ t) = false

abbrev pub Labels : Type 0
Labels = Option (Map String String)

pub record ServerInfo : Type 0 where
  pub id : Int64
  pub name : String
  pub server_type : String
  pub state : String
  pub public_ipv4 : Text
  pub public_ipv6 : Text
  pub network_ids : List Int64
  pub placement_group_id : Int64

pub record ServerCreateOpts : Type 0 where
  pub name : String
  pub server_type : String
  pub image : String
  pub location : String
  pub labels : Labels
  pub ssh_keys : List String
  pub user_data : String
  pub placement_group_id : Int64

pub record VolumeInfo : Type 0 where
  pub id : Int64
  pub name : String
  pub size : Int64
  pub state : String
  -- 0 if unattached
  pub server_id : Int64
  pub linux_device : Text

pub record VolumeCreateOpts : Type 0 where
  pub name : String
  pub size : Int64
  pub server_id : Int64
  pub location : String
  pub format : String
  pub automount : Bool
  pub labels : Labels

pub record NetworkInfo : Type 0 where
  pub id : Int64
  pub name : String
  pub ip_range : String
  pub subnet_zones : List String
  pub labels : Labels
  pub expose_routes : Bool

pub record NetworkCreateOpts : Type 0 where
  pub name : String
  pub ip_range : String
  pub network_zones : List String
  pub labels : Labels
  pub expose_routes_to_vswitch : Bool

pub record PlacementGroupInfo : Type 0 where
  pub id : Int64
  pub name : String
  pub type : String
  pub labels : Labels

pub record PlacementGroupCreateOpts : Type 0 where
  pub name : String
  pub type : String
  pub labels : Labels

pub record FirewallRuleInfo : Type 0 where
  pub direction : String
  pub protocol : String
  pub port : Option String
  pub source_ips : List String
  pub destination_ips : List String
  pub description : Option String

pub record FirewallApplyResource : Type 0 where
  -- "server" or "label_selector"
  pub type : String
  pub server_id : Int64
  pub selector : String

pub record FirewallInfo : Type 0 where
  pub id : Int64
  pub name : String
  pub labels : Labels
  pub rules : List FirewallRuleInfo
  pub applied_to : List FirewallApplyResource

pub record FirewallCreateOpts : Type 0 where
  pub name : String
  pub labels : Labels
  pub rules : List FirewallRuleInfo
  pub apply_to : List FirewallApplyResource

-- FirewallApplyResource.Key
unfoldable pub key : FirewallApplyResource → Text
key a =
    if a.type == "server"
    then str "server:" ∷ num a.server_id ∷ []
    else if a.type == "label_selector"
    then str "label_selector:" ∷ str a.selector ∷ []
    else str "unknown:" ∷ str a.type ∷ []

-- The reverse DNS entries are read as of an empty map where the map is nil.
pub record PrimaryIpInfo : Type 0 where
  pub id : Int64
  pub name : String
  pub type : String
  pub ip : Text
  pub datacenter : String
  pub labels : Labels
  pub assignee_id : Int64
  pub assignee_type : String
  pub auto_delete : Bool
  pub dns_ptr : Map Text String

pub record PrimaryIpCreateOpts : Type 0 where
  pub name : String
  pub type : String
  pub datacenter : String
  pub labels : Labels
  pub auto_delete : Option Bool
  pub assignee_id : Int64
  pub assignee_type : String

pub record PrimaryIpUpdateOpts : Type 0 where
  pub labels : Labels
  pub auto_delete : Option Bool

pub record FloatingIpInfo : Type 0 where
  pub id : Int64
  pub name : String
  pub type : String
  pub ip : Text
  pub location : String
  pub description : String
  pub labels : Labels
  pub server_id : Int64
  pub dns_ptr : Map Text String

pub record FloatingIpCreateOpts : Type 0 where
  pub name : String
  pub type : String
  pub location : String
  pub labels : Labels
  pub description : String
  pub server_id : Int64

pub record FloatingIpUpdateOpts : Type 0 where
  pub labels : Labels
  pub description : String

-- A nil map is read as an empty one.
abbrev pub entries : Labels → Map String String
entries none = []
entries (some m) = m

-- mapsEqual of the controllers
unfoldable pub labels_equal : Labels → Labels → Bool
labels_equal a b = maps_equal (entries a) (entries b)

-- cloneStringMapController
abbrev pub clone_string_map_controller : Labels → Labels
clone_string_map_controller m = some (entries m)

-- A time that is none is the zero time, which IsZero tells.
pub record CertificateInfo : Type 0 where
  pub id : Int64
  pub name : String
  pub type : String
  pub labels : Labels
  pub domain_names : List String
  pub fingerprint : Text
  pub not_valid_before : Option Int64
  pub not_valid_after : Option Int64
  pub issuance_status : String

pub record CertificateCreateOpts : Type 0 where
  pub name : String
  pub type : String
  pub labels : Labels
  pub certificate : String
  pub private_key : String
  pub domain_names : List String

pub record CertificateUpdateOpts : Type 0 where
  pub labels : Labels

-- The constants CertificateTypeUploaded and CertificateStatusTypeCompleted of hcloud-go.
pub record CertificateConstants : Type 0 where
  pub uploaded : String
  pub completed : String

-- certificateReady, for an answer that is not nil
unfoldable pub certificate_ready : CertificateConstants → CertificateInfo → Bool
certificate_ready constants info =
    if info.type == constants.uploaded then true else info.issuance_status == constants.completed

-- A time.Duration, in nanoseconds, and an int are Int64 patterns.
pub record LoadBalancerHealthCheckHttpInfo : Type 0 where
  pub domain : Option String
  pub path : Option String
  pub response : Option String
  pub status_codes : List String
  pub tls : Option Bool

pub record LoadBalancerHealthCheckInfo : Type 0 where
  pub protocol : String
  pub port : Option Int64
  pub interval : Option Int64
  pub timeout : Option Int64
  pub retries : Option Int64
  pub http : Option LoadBalancerHealthCheckHttpInfo

pub record LoadBalancerServiceInfo : Type 0 where
  pub protocol : String
  pub listen_port : Int64
  pub destination_port : Int64
  pub proxyprotocol : Bool
  pub certificate_ids : List Int64
  pub health_check : Option LoadBalancerHealthCheckInfo

pub record LoadBalancerInfo : Type 0 where
  pub id : Int64
  pub name : String
  pub public_ipv4 : Text
  pub public_ipv6 : Text
  pub targets : List Int64
  pub services : List LoadBalancerServiceInfo

pub record LoadBalancerCreateOpts : Type 0 where
  pub name : String
  pub load_balancer_type : String
  pub location : String
  pub network_zone : String
  pub algorithm : String
  pub labels : Labels
