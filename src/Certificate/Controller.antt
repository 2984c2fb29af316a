-- ===== src/Certificate/Controller.antt =====
-- Reconcile, Delete and reconcileHCloudCertificate.
use hcloud_operator.Base.{
  Bool, true, false, not, String, [], ◌∷◌, Option, none, some, nat_eq, string_eq, if◌then◌else◌,
}
use hcloud_operator.Go.Fault.{Text, str, num, ok, fail}
use hcloud_operator.Go.Action.{Action, pure, raise, within, ◌>>=◌, ◌>>◌}
use hcloud_operator.Go.Integer.{Int64, is_set}
use hcloud_operator.Kube.Condition.{Meta, ConditionStatus, condition_true, condition_false}
use hcloud_operator.Hcloud.Types.{
  CertificateInfo, CertificateCreateOpts, CertificateConstants, certificate_ready, labels_equal,
  clone_string_map_controller,
}
use hcloud_operator.Hcloud.Api.{CertificateApi}
use hcloud_operator.Reconcile.Object.{CtrlResult, Resource, Scope}
use hcloud_operator.Reconcile.World.{World, in_cloud, look}
use hcloud_operator.V1alpha1.Certificate.{HcloudCertificate, HcloudCertificateStatus}
use hcloud_operator.Server.State.{requeue_delay, condition_type_ready}

abbrev pub hcloud_certificate_finalizer : String
hcloud_certificate_finalizer = "infra.hkc.io/certificate-finalizer"

abbrev pub CertificateScope : Type 0 → Type 0 → Type 0
CertificateScope C K = Scope (World C K) HcloudCertificate

-- `constants` is what CertificateReady reads of the SDK.
pub record HcloudCertificateReconciler (C K : Type 0) : Type 0 where
  pub hcloud_client : CertificateApi C
  pub constants : CertificateConstants
  pub meta : Meta

abbrev pub create_opts : HcloudCertificate → CertificateCreateOpts
create_opts o = record {
  name = o.metadata.name;
  type = o.spec.type;
  labels = o.spec.labels;
  certificate = o.spec.certificate;
  private_key = o.spec.private_key;
  domain_names = o.spec.domain_names;
}

-- `if !t.IsZero() { old = &t }`
abbrev pub unless_zero : Option Int64 → Option Int64 → Option Int64
unless_zero none old = old
unless_zero (some t) old = some t

-- syncCertificateStatus
abbrev pub sync_certificate_status :
    CertificateInfo → HcloudCertificateStatus → HcloudCertificateStatus
sync_certificate_status existing st = record st {
  certificate_id = existing.id;
  domain_names = existing.domain_names;
  fingerprint = existing.fingerprint;
  issuance_status = existing.issuance_status;
  not_valid_before = unless_zero existing.not_valid_before st.not_valid_before;
  not_valid_after = unless_zero existing.not_valid_after st.not_valid_after;
}

abbrev pub after_delay : CtrlResult
after_delay = record { requeue = false; requeue_after = requeue_delay }

module _ {C K : Type 0} (r : HcloudCertificateReconciler C K) where
  open r use {hcloud_client, constants, meta}

  abbrev pub set_status :
      (HcloudCertificateStatus → HcloudCertificateStatus) → Action (CertificateScope C K) (Unit {0})
  set_status f s = (ok tt, record s { object = record (s.object) { status = f s.object.status } })

  -- (*HCloudCertificateReconciler).setCertificateCondition, on the status
  abbrev pub set_certificate_condition :
      String → ConditionStatus → String → Text → HcloudCertificateStatus → HcloudCertificateStatus
  set_certificate_condition type status reason message s = record s {
    conditions =
        meta.set_status_condition s.conditions
          (record { type = type; status = status; reason = reason; message = message });
  }

  abbrev pub set_ready :
      ConditionStatus → String → String → Action (CertificateScope C K) (Unit {0})
  set_ready status reason message =
      set_status (set_certificate_condition condition_type_ready status reason (str message ∷ []))

  unfoldable pub fetch_by_id : Action (CertificateScope C K) (Option CertificateInfo)
  fetch_by_id = look λ o.
      if is_set o.status.certificate_id
      then within (str "fetch certificate by ID" ∷ [])
          (in_cloud (hcloud_client.get_certificate o.status.certificate_id))
      else pure none

  unfoldable pub fetch_by_name :
      Option CertificateInfo → Action (CertificateScope C K) (Option CertificateInfo)
  fetch_by_name none = look λ o.
      within (str "fetch certificate by name" ∷ [])
        (in_cloud (hcloud_client.get_certificate_by_name o.metadata.name))
  fetch_by_name (some cert) = pure (some cert)

  unfoldable pub create_missing :
      Option CertificateInfo → Action (CertificateScope C K) CertificateInfo
  create_missing none = look λ o.
      within (str "create Hetzner certificate" ∷ [])
        (in_cloud (hcloud_client.create_certificate (create_opts o)))
  create_missing (some cert) = pure cert

  unfoldable pub ensure_certificate_metadata :
      CertificateInfo → Action (CertificateScope C K) (Unit {0})
  ensure_certificate_metadata existing = look λ o.
      if labels_equal existing.labels o.spec.labels
      then pure tt
      else within (str "update certificate metadata" ∷ []) (
          in_cloud (
            hcloud_client.update_certificate existing.id
              (record { labels = clone_string_map_controller o.spec.labels })))

  abbrev pub refreshed :
      Int64 → Option CertificateInfo → Action (CertificateScope C K) CertificateInfo
  refreshed id none =
      raise (fail (str "certificate " ∷ num id ∷ str " disappeared after metadata sync" ∷ []))
  refreshed id (some cert) = pure cert

  unfoldable pub finish_certificate : CertificateInfo → Action (CertificateScope C K) Bool
  finish_certificate cert = do
    set_status (sync_certificate_status cert)
    if not (certificate_ready constants cert) then pure true else (do
      set_ready condition_true "CertificateReady" "Certificate is provisioned"
      pure false)

  -- From ensureCertificateMetadata on.
  unfoldable pub settle_certificate : CertificateInfo → Action (CertificateScope C K) Bool
  settle_certificate existing = do
    ensure_certificate_metadata existing
    answer ←
        within (str "refresh certificate" ∷ [])
          (in_cloud (hcloud_client.get_certificate existing.id))
    cert ← refreshed existing.id answer
    finish_certificate cert

  -- The answer is whether the certificate is still awaited.
  unfoldable pub reconcile_hcloud_certificate : Action (CertificateScope C K) Bool
  reconcile_hcloud_certificate = do
    by_id ← fetch_by_id
    found ← fetch_by_name by_id
    existing ← create_missing found
    settle_certificate existing

  unfoldable pub report_pending : Bool → Action (CertificateScope C K) CtrlResult
  report_pending pending =
      if pending
      then (do
        set_ready condition_false "CertificatePending" "Waiting for managed certificate issuance"
        pure after_delay)
      else pure after_delay

  unfoldable pub reconcile : Action (CertificateScope C K) CtrlResult
  reconcile = do pending ← reconcile_hcloud_certificate; report_pending pending

  unfoldable pub delete_hcloud_certificate : Action (CertificateScope C K) (Unit {0})
  delete_hcloud_certificate = look λ o.
      if not (is_set o.status.certificate_id)
      then pure tt
      else in_cloud (hcloud_client.delete_certificate o.status.certificate_id)

  -- HCloudCertificateReconciler as the domain logic of the shared loop.
  abbrev pub certificate_resource : HcloudCertificate → Resource (World C K) HcloudCertificate
  certificate_resource empty = record {
    new_object = empty;
    finalizer_name = hcloud_certificate_finalizer;
    kind = "HCloudCertificate";
    reconcile = reconcile;
    delete = delete_hcloud_certificate;
  }
