-- ===== src/FloatingIp/Settled.antt =====
-- What each step of a run makes of a stored floating IP, against the in-memory cloud.
use hcloud_operator.Base.{
  true, false, not, ◌||◌, ◌&&◌, ◌≡◌, refl, sym, subst, Option, none, some, [], ◌∷◌, String, ◌==◌,
  string_eq, nat_eq, arith, Bool-cases, Option-cases, inl, inr, if◌then◌else◌,
}
use hcloud_operator.Go.Fault.{Result, Text, ok, str, num}
use hcloud_operator.Go.Action.{Action}
use hcloud_operator.Go.Integer.{Int64, is_set}
use hcloud_operator.Go.Map.{Map, lookup, insert}
use hcloud_operator.Go.Map.Laws.{lookup-insert_self}
use hcloud_operator.Go.Strings.{text_eq}
use hcloud_operator.Kube.Condition.{Meta, condition_true}
use hcloud_operator.Kube.Client.{ApiErrors}
use hcloud_operator.Hcloud.Types.{FloatingIpInfo, is_empty, clone_string_map_controller}
use hcloud_operator.Fake.State.{FakeClient}
use hcloud_operator.Fake.FloatingIps.{
  floating_ip_api, get_floating_ip, update_floating_ip, assign_floating_ip, unassign_floating_ip,
  change_floating_ip_dns_ptr,
}
use hcloud_operator.V1alpha1.Server.{HcloudServer}
use hcloud_operator.V1alpha1.FloatingIp.{HcloudFloatingIpSpec}
use hcloud_operator.Server.State.{condition_type_ready}
use hcloud_operator.FloatingIp.Controller.{
  FloatingIpScope, HcloudFloatingIpReconciler, labels_changed, description_changed, metadata_update,
  set_floating_ip_condition, ready_reason_floating_ip_assigned, ready_reason_floating_ip_unassigned,
  or_empty_text, ensure_floating_ip_metadata, ensure_floating_ip_assignment,
  ensure_floating_ip_dns_ptr, release_floating_ip, unassign_other, assign_to_target,
  point_floating_ip, ensure_pointer, refresh,
}

-- The labels and the description of the address after ensureFloatingIPMetadata.
abbrev pub described : HcloudFloatingIpSpec → FloatingIpInfo → FloatingIpInfo
described spec ip = record ip {
  labels = if labels_changed spec ip then clone_string_map_controller spec.labels else ip.labels;
  description =
      if labels_changed spec ip || description_changed spec ip
      then (metadata_update spec ip).description
      else ip.description;
}

-- The server after ensureFloatingIPAssignment, by the target and the one in the status.
abbrev pub assigned : Int64 → Int64 → FloatingIpInfo → FloatingIpInfo
assigned target applied ip = record ip {
  server_id =
      if is_set target
      then target
      else if is_set applied && ip.server_id == applied
      then 0
      else ip.server_id;
}

abbrev pub pointed_at : Option String → Text → Map Text String → Map Text String
pointed_at none ip m = m
pointed_at (some dns_ptr) ip m =
    if is_empty ip || or_empty_text (lookup ip m) == dns_ptr then m else insert ip dns_ptr m

-- The reverse DNS after ensureFloatingIPDNSPtr.
abbrev pub pointed : Option String → FloatingIpInfo → FloatingIpInfo
pointed dns_ptr ip = record ip { dns_ptr = pointed_at dns_ptr ip.ip ip.dns_ptr }

-- The cloud has the address `ip`, and answers.
pub record Holds {K : Type 0} (ip : FloatingIpInfo) (st : FloatingIpScope FakeClient K)
    : Type 0 where
  pub stored : lookup ip.id st.world.cloud.floating_ips ≡ some ip
  pub no_get_err : st.world.cloud.get_err ≡ none

-- A step ends without an error, with `ip` stored; the name, the spec and the ID are as they were.
pub record Lands {K : Type 0} (ip : FloatingIpInfo) (st : FloatingIpScope FakeClient K)
    (out : Result (Unit {0}) × FloatingIpScope FakeClient K) : Type 0 where
  pub returned : out.0 ≡ ok tt
  pub holds : Holds ip out.1
  pub same_spec : out.1.object.spec ≡ st.object.spec

module _ {K : Type 0} (get_server_object : String → Action K HcloudServer) (api_errors : ApiErrors)
    (meta : Meta) where
  abbrev pub fake_reconciler : HcloudFloatingIpReconciler FakeClient K
  fake_reconciler = record {
    hcloud_client = floating_ip_api;
    get_server_object = get_server_object;
    api_errors = api_errors;
    meta = meta;
  }

  abbrev pub in_place : FloatingIpInfo → FloatingIpScope FakeClient K → FloatingIpScope FakeClient K
  in_place ip st = record st {
    world = record (st.world) {
      cloud = record (st.world.cloud) {
        floating_ips = insert ip.id ip st.world.cloud.floating_ips;
      };
    };
  }

  stores :
      (ip : FloatingIpInfo) (st : FloatingIpScope FakeClient K)
      → st.world.cloud.get_err ≡ none
      → Holds ip (in_place ip st)
  stores ip st h = record {
    stored = lookup-insert_self ip.id ip st.world.cloud.floating_ips;
    no_get_err = h;
  }

  pub refresh_stored :
      (doing after : String) (old ip : FloatingIpInfo) (st : FloatingIpScope FakeClient K)
      → old.id ≡ ip.id
      → Holds ip st
      → refresh fake_reconciler doing after old st ≡ (ok ip, st)
  unfolding refresh get_floating_ip
  refresh_stored doing after old ip st e h = ground (arith, e, h.stored, h.no_get_err)

  -- A step that leaves everything as it is.
  stays :
      (ip w : FloatingIpInfo) (st : FloatingIpScope FakeClient K)
      (out : Result (Unit {0}) × FloatingIpScope FakeClient K)
      → Holds ip st
      → w ≡ ip
      → out ≡ (ok tt, st)
      → Lands w st out
  stays ip w st out h e o =
      subst (λ w. Lands w st out) (sym e)
        (subst (Lands ip st) (sym o) (record { returned = refl; holds = h; same_spec = refl }))

  -- A step that writes the address, and perhaps the status.
  writes :
      (w : FloatingIpInfo) (st st' : FloatingIpScope FakeClient K)
      (out : Result (Unit {0}) × FloatingIpScope FakeClient K)
      → Holds w st'
      → st'.object.spec ≡ st.object.spec
      → out ≡ (ok tt, st')
      → Lands w st out
  writes w st st' out h e o =
      subst (Lands w st) (sym o) (record { returned = refl; holds = h; same_spec = e })

  pub metadata-Lands :
      (ip : FloatingIpInfo) (st : FloatingIpScope FakeClient K)
      → Holds ip st
      → Lands (described st.object.spec ip) st (ensure_floating_ip_metadata fake_reconciler ip st)
  unfolding ensure_floating_ip_metadata update_floating_ip
  metadata-Lands ip st h =
      let spec = st.object.spec in
      let w = described spec ip in
      elim (Bool-cases (labels_changed spec ip)) [
        | inl new ↦
            writes w st (in_place w st) _ (stores w st h.no_get_err) refl
              (ground (arith, new, h.stored))
        | inr kept ↦ elim (Bool-cases (description_changed spec ip)) [
          | inl new ↦
              writes w st (in_place w st) _ (stores w st h.no_get_err) refl
                (ground (arith, kept, new, h.stored))
          | inr same ↦ stays ip w st _ h (ground (arith, kept, same)) (ground (arith, kept, same))
        ]
      ]

  pub metadata_object :
      (ip : FloatingIpInfo) (st : FloatingIpScope FakeClient K)
      → Holds ip st
      → (ensure_floating_ip_metadata fake_reconciler ip st).1.object ≡ st.object
  unfolding ensure_floating_ip_metadata update_floating_ip
  metadata_object ip st h =
      elim (Bool-cases
        (labels_changed st.object.spec ip || description_changed st.object.spec ip)) [
          | inl new ↦ ground (arith, new, h.stored)
          | inr kept ↦ ground (arith, kept)
        ]

  -- The address without its server, and with the target.
  abbrev free : FloatingIpInfo → FloatingIpInfo
  free ip = record ip { server_id = 0 }

  abbrev on : Int64 → FloatingIpInfo → FloatingIpInfo
  on target ip = record ip { server_id = target }

  unassign_other_other :
      (target : Int64) (ip : FloatingIpInfo) (st : FloatingIpScope FakeClient K)
      → Holds ip st
      → is_set ip.server_id && not (ip.server_id == target) ≡ true
      → unassign_other fake_reconciler target ip st ≡ (ok tt, in_place (free ip) st)
  unfolding unassign_other unassign_floating_ip
  unassign_other_other target ip st h e = ground (arith, h.stored, e)

  unassign_other_none :
      (target : Int64) (ip : FloatingIpInfo) (st : FloatingIpScope FakeClient K)
      → is_set ip.server_id && not (ip.server_id == target) ≡ false
      → unassign_other fake_reconciler target ip st ≡ (ok tt, st)
  unfolding unassign_other
  unassign_other_none target ip st e = ground (arith, e)

  -- The status after an assignment, or after one was given up.
  abbrev marked :
      Int64 → String → Text → FloatingIpScope FakeClient K → FloatingIpScope FakeClient K
  marked applied reason message st = record st {
    object = record (st.object) {
      status =
          set_floating_ip_condition fake_reconciler condition_type_ready condition_true reason
            message (record (st.object.status) { applied_server_id = applied });
    };
  }

  abbrev applied_to : Int64 → FloatingIpScope FakeClient K → FloatingIpScope FakeClient K
  applied_to target st = record st {
    object = record (st.object) {
      status = record (st.object.status) { applied_server_id = target };
    };
  }

  abbrev assigned_message : Int64 → Text
  assigned_message target = str "Floating IP assigned to server ID " ∷ num target ∷ []

  -- The assignment, once any other server has been given up.
  assign-Lands :
      (target : Int64) (ip now : FloatingIpInfo) (st st' : FloatingIpScope FakeClient K)
      → unassign_other fake_reconciler target ip st ≡ (ok tt, st')
      → Holds now st'
      → now.id ≡ ip.id
      → st'.object.spec ≡ st.object.spec
      → Lands (on target now) st (assign_to_target fake_reconciler target ip st)
  unfolding assign_to_target assign_floating_ip
  assign-Lands target ip now st st' e h same spec =
      let w = on target now in
      writes w st
        (marked target ready_reason_floating_ip_assigned (assigned_message target) (in_place w st'))
        _
        (record {
          stored = lookup-insert_self now.id w st'.world.cloud.floating_ips;
          no_get_err = h.no_get_err;
        })
        spec (ground (arith, e, h.stored, same))

  move-Lands :
      (target : Int64) (ip : FloatingIpInfo) (st : FloatingIpScope FakeClient K)
      → Holds ip st
      → Lands (on target ip) st (assign_to_target fake_reconciler target ip st)
  move-Lands target ip st h =
      elim (Bool-cases (is_set ip.server_id && not (ip.server_id == target))) [
        | inl other ↦
            assign-Lands target ip (free ip) st (in_place (free ip) st)
              (unassign_other_other target ip st h other) (stores (free ip) st h.no_get_err) refl
              refl
        | inr same ↦
            assign-Lands target ip ip st st (unassign_other_none target ip st same) h refl refl
      ]

  release-Lands :
      (target : Int64) (ip : FloatingIpInfo) (st : FloatingIpScope FakeClient K)
      → Holds ip st
      → is_set target ≡ false
      → Lands
          (assigned target st.object.status.applied_server_id ip)
          st
          (release_floating_ip fake_reconciler ip st)
  unfolding release_floating_ip unassign_floating_ip
  release-Lands target ip st h off =
      let applied = st.object.status.applied_server_id in
      let w = assigned target applied ip in
      elim (Bool-cases (is_set applied && ip.server_id == applied)) [
        | inl mine ↦
            writes w st
              (marked 0 ready_reason_floating_ip_unassigned
                (str "Floating IP unassigned from server" ∷ []) (in_place w st))
              _
              (record {
                stored = lookup-insert_self ip.id w st.world.cloud.floating_ips;
                no_get_err = h.no_get_err;
              })
              refl (ground (arith, off, mine, h.stored))
        | inr other ↦ stays ip w st _ h (ground (arith, off, other)) (ground (arith, off, other))
      ]

  pub assignment-Lands :
      (target : Int64) (ip : FloatingIpInfo) (st : FloatingIpScope FakeClient K)
      → Holds ip st
      → Lands
          (assigned target st.object.status.applied_server_id ip)
          st
          (ensure_floating_ip_assignment fake_reconciler target ip st)
  unfolding ensure_floating_ip_assignment
  assignment-Lands target ip st h =
      let applied = st.object.status.applied_server_id in
      let w = assigned target applied ip in
      elim (Bool-cases (is_set target)) [
        | inr off ↦ subst (Lands w st) (ground (arith, off)) (release-Lands target ip st h off)
        | inl set ↦ elim (Bool-cases (ip.server_id == target)) [
          | inl there ↦
              let e : w ≡ ip = ground (arith, set, there) in
              writes w st (applied_to target st) _
                (subst (λ w. Holds w (applied_to target st)) (sym e)
                  (record { stored = h.stored; no_get_err = h.no_get_err }))
                refl (ground (arith, set, there))
          | inr away ↦
              let e : on target ip ≡ w = ground (arith, set) in
              subst (λ w. Lands w st (ensure_floating_ip_assignment fake_reconciler target ip st)) e
                (subst (Lands (on target ip) st) (ground (arith, set, away))
                  (move-Lands target ip st h))
        ]
      ]

  pub pointer-Lands :
      (ip : FloatingIpInfo) (st : FloatingIpScope FakeClient K)
      → Holds ip st
      → Lands
          (pointed st.object.spec.dns_ptr ip)
          st
          (ensure_floating_ip_dns_ptr fake_reconciler ip st)
  unfolding ensure_floating_ip_dns_ptr ensure_pointer point_floating_ip change_floating_ip_dns_ptr
  pointer-Lands ip st h =
      let spec = st.object.spec in
      let w = pointed spec.dns_ptr ip in
      elim (Option-cases spec.dns_ptr) [
        | inl unset ↦ stays ip w st _ h (ground (arith, unset)) (ground (arith, unset))
        | inr (dns_ptr, wanted) ↦
            elim (Bool-cases
              (is_empty ip.ip || or_empty_text (lookup ip.ip ip.dns_ptr) == dns_ptr)) [
                | inl done ↦
                    stays ip w st _ h (ground (arith, wanted, done)) (ground (arith, wanted, done))
                | inr open_ ↦
                    writes w st (in_place w st) _ (stores w st h.no_get_err) refl
                      (ground (arith, wanted, open_, h.stored))
              ]
      ]
