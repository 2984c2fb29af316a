-- ===== src/V1alpha1/Firewall.antt =====
-- api/v1alpha1/hcloudfirewall_types.go
use hcloud_operator.Base.{String, Option, List}
use hcloud_operator.Go.Integer.{Int64}
use hcloud_operator.Kube.Condition.{Condition}
use hcloud_operator.Hcloud.Types.{Labels}
use hcloud_operator.Reconcile.Object.{ObjectMeta}

pub record HcloudFirewallRule : Type 0 where
  pub direction : String
  pub protocol : String
  pub port : Option String
  pub source_ips : List String
  pub destination_ips : List String
  pub description : Option String

pub record HcloudFirewallApplyTo : Type 0 where
  -- the names in the references
  pub server_refs : List String
  pub label_selector : String

pub record HcloudFirewallSpec : Type 0 where
  pub labels : Labels
  pub rules : List HcloudFirewallRule
  pub apply_to : Option HcloudFirewallApplyTo

pub record HcloudFirewallStatus : Type 0 where
  pub firewall_id : Int64
  pub conditions : List Condition

pub record HcloudFirewall : Type 0 where
  pub metadata : ObjectMeta
  pub spec : HcloudFirewallSpec
  pub status : HcloudFirewallStatus
