-- ===== src/Certificate/Examples.antt =====
-- The theorem of the certificate controller at a concrete cloud.
use hcloud_operator.Base.{◌≡◌, refl, [], ◌∷◌, none, some, true, false, string_eq, nat_eq}
use hcloud_operator.Go.Map.{lookup}
use hcloud_operator.Go.Map.Laws.{HasDistinctKeys}
use hcloud_operator.Kube.Concrete.{plain_meta}
use hcloud_operator.Hcloud.Types.{CertificateInfo, CertificateConstants, entries, labels_equal}
use hcloud_operator.Fake.State.{FakeClient, new_fake_client}
use hcloud_operator.V1alpha1.Certificate.{HcloudCertificate}
use hcloud_operator.Certificate.Controller.{CertificateScope, reconcile}
use hcloud_operator.Certificate.Reporting.{
  Holds, Reported, fake_reconciler, labelled, reconcile-Reported,
}

abbrev constants : CertificateConstants
constants = record { uploaded = "uploaded"; completed = "completed" }

abbrev object : HcloudCertificate
object = record {
  metadata = record {
    name = "tls";
    deleting = false;
    finalizers = [];
    resource_version = "1";
    labels = none;
  };
  spec = record {
    type = "managed";
    certificate = "";
    private_key = "";
    domain_names = "example.org" ∷ [];
    labels = some (("role", "web") ∷ []);
  };
  status = record {
    certificate_id = 3;
    domain_names = [];
    fingerprint = [];
    not_valid_before = none;
    not_valid_after = none;
    issuance_status = "";
    conditions = [];
  };
}

-- It is not issued yet.
abbrev awaited : CertificateInfo
awaited = record {
  id = 3;
  name = "tls";
  type = "managed";
  labels = none;
  domain_names = "example.org" ∷ [];
  fingerprint = [];
  not_valid_before = none;
  not_valid_after = none;
  issuance_status = "pending";
}

abbrev scope : CertificateScope FakeClient HcloudCertificate
scope = record {
  world = record {
    cloud = record new_fake_client { certificates = (3, awaited) ∷ []; next_id = 4 };
    cluster = object;
  };
  object = object;
}

holds : Holds awaited scope
unfolding lookup
holds = record { stored = refl; no_get_err = refl }

keys : HasDistinctKeys (entries object.spec.labels)
unfolding HasDistinctKeys lookup
keys = (refl, tt)

reconcile-Reported_example :
    Reported plain_meta constants
      (labelled object.spec awaited)
      scope
      (reconcile (fake_reconciler constants plain_meta) scope)
    × (labels_equal (labelled object.spec awaited).labels object.spec.labels ≡ true)
reconcile-Reported_example =
    reconcile-Reported constants plain_meta awaited scope holds refl refl keys
