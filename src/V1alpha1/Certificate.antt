-- ===== src/V1alpha1/Certificate.antt =====
-- api/v1alpha1/hcloudcertificate_types.go
use hcloud_operator.Base.{String, Option, List}
use hcloud_operator.Go.Fault.{Text}
use hcloud_operator.Go.Integer.{Int64}
use hcloud_operator.Kube.Condition.{Condition}
use hcloud_operator.Hcloud.Types.{Labels}
use hcloud_operator.Reconcile.Object.{ObjectMeta}

pub record HcloudCertificateSpec : Type 0 where
  pub type : String
  pub certificate : String
  pub private_key : String
  pub domain_names : List String
  pub labels : Labels

pub record HcloudCertificateStatus : Type 0 where
  pub certificate_id : Int64
  pub domain_names : List String
  pub fingerprint : Text
  pub not_valid_before : Option Int64
  pub not_valid_after : Option Int64
  pub issuance_status : String
  pub conditions : List Condition

pub record HcloudCertificate : Type 0 where
  pub metadata : ObjectMeta
  pub spec : HcloudCertificateSpec
  pub status : HcloudCertificateStatus
