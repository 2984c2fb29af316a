-- ===== src/Fake/Certificates.antt =====
-- The certificate methods of FakeClient.
use hcloud_operator.Base.{Bool, Option, none, [], ◌∷◌, String, ◌==◌, string_eq, nat_eq}
use hcloud_operator.Go.Fault.{ok, fail, str, quoted, num}
use hcloud_operator.Go.Action.{Action, raise}
use hcloud_operator.Go.Map.{lookup, insert, delete, find_value}
use hcloud_operator.Go.Integer.{Int64, increment}
use hcloud_operator.Hcloud.Types.{CertificateInfo, CertificateCreateOpts, CertificateUpdateOpts}
use hcloud_operator.Hcloud.Api.{CertificateApi}
use hcloud_operator.Fake.State.{FakeClient, injected, found}
use hcloud_operator.Fake.FloatingIps.{updated_labels}

abbrev pub certificate_named : String → CertificateInfo → Bool
certificate_named name cert = cert.name == name

unfoldable pub get_certificate : Int64 → Action FakeClient (Option CertificateInfo)
get_certificate id f = injected f.get_err (λ f'. (ok (lookup id f'.certificates), f')) f

unfoldable pub get_certificate_by_name : String → Action FakeClient (Option CertificateInfo)
get_certificate_by_name name f =
    injected f.get_err (λ f'. (ok (find_value (certificate_named name) f'.certificates), f')) f

-- Both types are issued at once.
abbrev pub new_certificate : Int64 → CertificateCreateOpts → CertificateInfo
new_certificate id opts = record {
  id = id;
  name = opts.name;
  type = opts.type;
  labels = opts.labels;
  domain_names = opts.domain_names;
  fingerprint = str "fake-fingerprint-" ∷ num id ∷ [];
  not_valid_before = none;
  not_valid_after = none;
  issuance_status = "completed";
}

unfoldable pub create_certificate : CertificateCreateOpts → Action FakeClient CertificateInfo
create_certificate opts f =
    injected f.create_err
      (λ f'.
        found (find_value (certificate_named opts.name) f'.certificates)
          (λ g.
            let info = new_certificate g.next_id opts in
            (
              ok info,
              record g {
                certificates = insert g.next_id info g.certificates;
                next_id = increment g.next_id;
              },
            ))
          (λ _. raise (
            fail
              (str "fake: certificate with name " ∷ quoted opts.name ∷ str " already exists" ∷ [])))
          f')
      f

unfoldable pub delete_certificate : Int64 → Action FakeClient (Unit {0})
delete_certificate id f =
    injected f.delete_err (λ f'. (ok tt, record f' { certificates = delete id f'.certificates })) f

unfoldable pub update_certificate : Int64 → CertificateUpdateOpts → Action FakeClient (Unit {0})
update_certificate id opts f =
    found (lookup id f.certificates)
      (raise (fail (str "fake: certificate " ∷ num id ∷ str " not found" ∷ [])))
      (λ cert g. (
        ok tt,
        record g {
          certificates =
              insert id (record cert { labels = updated_labels opts.labels cert.labels })
                g.certificates;
        },
      ))
      f

abbrev pub certificate_api : CertificateApi FakeClient
certificate_api = record {
  get_certificate = get_certificate;
  get_certificate_by_name = get_certificate_by_name;
  create_certificate = create_certificate;
  delete_certificate = delete_certificate;
  update_certificate = update_certificate;
}
