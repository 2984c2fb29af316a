-- ===== src/Certificate/Reporting.antt =====
-- A run over a certificate that exists, against the in-memory cloud.
use hcloud_operator.Base.{
  Bool, true, false, ◌≡◌, refl, sym, subst, none, some, [], ◌∷◌, string_eq, nat_eq, arith,
  Bool-cases, inl, inr, if◌then◌else◌,
}
use hcloud_operator.Go.Fault.{Result, ok, str}
use hcloud_operator.Go.Action.{continue}
use hcloud_operator.Go.Integer.{is_set}
use hcloud_operator.Go.Map.{lookup, insert}
use hcloud_operator.Go.Map.Laws.{HasDistinctKeys, lookup-insert_self}
use hcloud_operator.Kube.Condition.{Condition, Meta, condition_true, condition_false}
use hcloud_operator.Hcloud.Types.{
  CertificateInfo, CertificateConstants, certificate_ready, labels_equal, entries,
  clone_string_map_controller,
}
use hcloud_operator.Fake.State.{FakeClient}
use hcloud_operator.Fake.Certificates.{certificate_api, get_certificate, update_certificate}
use hcloud_operator.Reconcile.Object.{CtrlResult}
use hcloud_operator.V1alpha1.Certificate.{HcloudCertificateSpec}
use hcloud_operator.Server.State.{condition_type_ready}
use hcloud_operator.FloatingIp.Agreement.{clone_equal}
use hcloud_operator.Certificate.Controller.{
  CertificateScope, HcloudCertificateReconciler, after_delay, fetch_by_id, fetch_by_name,
  create_missing, ensure_certificate_metadata, finish_certificate, settle_certificate,
  reconcile_hcloud_certificate, report_pending, reconcile,
}

-- The labels of the spec, where they differ.
abbrev pub labelled : HcloudCertificateSpec → CertificateInfo → CertificateInfo
labelled spec cert = record cert {
  labels =
      if labels_equal cert.labels spec.labels
      then cert.labels
      else clone_string_map_controller spec.labels;
}

-- Ready is True when the certificate can be used, and False while it is awaited.
abbrev pub readiness : Bool → Condition
readiness b =
    if b
    then record {
      type = condition_type_ready;
      status = condition_true;
      reason = "CertificateReady";
      message = str "Certificate is provisioned" ∷ [];
    }
    else record {
      type = condition_type_ready;
      status = condition_false;
      reason = "CertificatePending";
      message = str "Waiting for managed certificate issuance" ∷ [];
    }

-- The cloud has the certificate `cert`, and answers.
pub record Holds {K : Type 0} (cert : CertificateInfo) (st : CertificateScope FakeClient K)
    : Type 0 where
  pub stored : lookup cert.id st.world.cloud.certificates ≡ some cert
  pub no_get_err : st.world.cloud.get_err ≡ none

-- A run ends without an error, with `cert` stored and its state told in the status.
pub record Reported {K : Type 0} (meta : Meta) (constants : CertificateConstants)
    (cert : CertificateInfo) (st : CertificateScope FakeClient K)
    (out : Result CtrlResult × CertificateScope FakeClient K) : Type 0 where
  pub returned : out.0 ≡ ok after_delay
  pub holds : Holds cert out.1
  pub same_spec : out.1.object.spec ≡ st.object.spec
  pub certificate_id : out.1.object.status.certificate_id ≡ cert.id
  pub issuance_status : out.1.object.status.issuance_status ≡ cert.issuance_status
  pub ready :
      meta.find_status_condition out.1.object.status.conditions condition_type_ready
      ≡ some (readiness (certificate_ready constants cert))

module _ {K : Type 0} (constants : CertificateConstants) (meta : Meta) where
  abbrev pub fake_reconciler : HcloudCertificateReconciler FakeClient K
  fake_reconciler = record { hcloud_client = certificate_api; constants = constants; meta = meta }

  abbrev in_place : CertificateInfo → CertificateScope FakeClient K → CertificateScope FakeClient K
  in_place cert st = record st {
    world = record (st.world) {
      cloud = record (st.world.cloud) {
        certificates = insert cert.id cert st.world.cloud.certificates;
      };
    };
  }

  -- Once the labels are seen to, the run ends with the certificate as it is stored then.
  run_finishes :
      (cert w : CertificateInfo) (st st' : CertificateScope FakeClient K)
      → Holds cert st
      → st.object.status.certificate_id ≡ cert.id
      → is_set cert.id ≡ true
      → ensure_certificate_metadata fake_reconciler cert st ≡ (ok tt, st')
      → Holds w st'
      → w.id ≡ cert.id
      → reconcile fake_reconciler st
        ≡ continue (report_pending fake_reconciler) (finish_certificate fake_reconciler w st')
  unfolding reconcile reconcile_hcloud_certificate fetch_by_id fetch_by_name create_missing
      settle_certificate get_certificate
  run_finishes cert w st st' h e set done h' same =
      ground (arith, h.stored, h.no_get_err, e, set, done, h'.stored, h'.no_get_err, same)

  finish-Reported :
      (w : CertificateInfo) (st st' : CertificateScope FakeClient K)
      → Holds w st'
      → st'.object ≡ st.object
      → Reported meta constants w st
          (continue (report_pending fake_reconciler) (finish_certificate fake_reconciler w st'))
  unfolding finish_certificate report_pending
  finish-Reported w st st' h same = elim (Bool-cases (certificate_ready constants w)) [
    | inl usable ↦ record {
      returned = ground (arith, usable);
      holds = record {
        stored = ground (arith, usable, h.stored);
        no_get_err = ground (arith, usable, h.no_get_err);
      };
      same_spec = ground (arith, usable, same);
      certificate_id = ground (arith, usable);
      issuance_status = ground (arith, usable);
      ready =
          ground (arith, usable, meta.find-set_self st'.object.status.conditions (readiness true));
    }
    | inr awaited ↦ record {
      returned = ground (arith, awaited);
      holds = record {
        stored = ground (arith, awaited, h.stored);
        no_get_err = ground (arith, awaited, h.no_get_err);
      };
      same_spec = ground (arith, awaited, same);
      certificate_id = ground (arith, awaited);
      issuance_status = ground (arith, awaited);
      ready =
          ground
            (arith, awaited, meta.find-set_self st'.object.status.conditions (readiness false));
    }
  ]

  -- A run over a certificate that the status names ends without an error and asks to be repeated after
  -- the usual delay: the cloud has it with the labels of the spec, the status names it and its
  -- issuance, and Ready is True if the certificate can be used and False, with the reason
  -- CertificatePending, if it cannot. It asks that reads do not fail, and that the labels of the spec
  -- have distinct keys.
  pub reconcile-Reported :
      (cert : CertificateInfo) (st : CertificateScope FakeClient K)
      → Holds cert st
      → st.object.status.certificate_id ≡ cert.id
      → is_set cert.id ≡ true
      → HasDistinctKeys (entries st.object.spec.labels)
      → Reported meta constants (labelled st.object.spec cert) st (reconcile fake_reconciler st)
        × (labels_equal (labelled st.object.spec cert).labels st.object.spec.labels ≡ true)
  unfolding ensure_certificate_metadata update_certificate
  reconcile-Reported cert st h e set keys =
      let spec = st.object.spec in
      let w = labelled spec cert in
      let labels : labels_equal w.labels spec.labels ≡ true =
        ground (arith, clone_equal spec.labels keys) in
      elim (Bool-cases (labels_equal cert.labels spec.labels)) [
        | inl equal ↦
            let here : Holds w st = subst (λ c. Holds c st) (ground (arith, equal)) h in
            let path = run_finishes cert w st st h e set (ground (arith, equal)) here refl in
            (
              subst (Reported meta constants w st) (sym path) (finish-Reported w st st here refl),
              labels,
            )
        | inr differ ↦
            let st' = in_place w st in
            let here : Holds w st' = record {
              stored = lookup-insert_self cert.id w st.world.cloud.certificates;
              no_get_err = h.no_get_err;
            } in
            let path =
              run_finishes cert w st st' h e set (ground (arith, differ, h.stored)) here refl in
            (
              subst (Reported meta constants w st) (sym path) (finish-Reported w st st' here refl),
              labels,
            )
      ]
