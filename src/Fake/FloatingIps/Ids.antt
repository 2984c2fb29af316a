-- ===== src/Fake/FloatingIps/Ids.antt =====
-- The IDs of the floating IPs of FakeClient, along any sequence of calls.
use hcloud_operator.Base.{
  ◌≡◌, refl, sym, subst, ◌∙◌, some, List, [], ◌∷◌, String, ◌==◌, nat_eq, string_eq, arith,
  Bool-cases, Option-cases, inl, inr,
}
use hcloud_operator.Go.Fault.{Text}
use hcloud_operator.Go.Integer.{Int64, is_set, increment}
use hcloud_operator.Go.Map.{lookup, insert, delete, find_value}
use hcloud_operator.Go.Map.Laws.{lookup-insert, lookup-delete}
use hcloud_operator.Hcloud.Types.{FloatingIpInfo, FloatingIpCreateOpts, FloatingIpUpdateOpts}
use hcloud_operator.Fake.State.{FakeClient}
use hcloud_operator.Fake.FloatingIps.{
  floating_ip_named, new_floating_ip, create_floating_ip, delete_floating_ip, change_floating_ip,
  update_floating_ip, assign_floating_ip, unassign_floating_ip, change_floating_ip_dns_ptr,
}

-- The calls that write floating IPs.
pub data Call : Type 0 where
  create : FloatingIpCreateOpts → Call
  remove : Int64 → Call
  update : Int64 → FloatingIpUpdateOpts → Call
  assign : Int64 → Int64 → Call
  unassign : Int64 → Call
  change_dns_ptr : Int64 → Text → String → Call

-- The cloud after a call, whether or not it failed, and after a sequence of them.
unfoldable pub run : Call → FakeClient → FakeClient
run (create opts) f = (create_floating_ip opts f).1
run (remove id) f = (delete_floating_ip id f).1
run (update id opts) f = (update_floating_ip id opts f).1
run (assign id server_id) f = (assign_floating_ip id server_id f).1
run (unassign id) f = (unassign_floating_ip id f).1
run (change_dns_ptr id ip dns_ptr) f = (change_floating_ip_dns_ptr id ip dns_ptr f).1

unfoldable pub run_all : List Call → FakeClient → FakeClient
run_all [] f = f
run_all (call ∷ calls) f = run_all calls (run call f)

-- Every address is stored under its own ID.
unfoldable pub OwnIds : FakeClient → Type 0
OwnIds f = (id : Int64) (ip : FloatingIpInfo) → lookup id f.floating_ips ≡ some ip → ip.id ≡ id

insert_own :
    (k : Int64) (w : FloatingIpInfo) (f : FakeClient)
    → OwnIds f
    → w.id ≡ k
    → OwnIds (record f { floating_ips = insert k w f.floating_ips })
unfolding OwnIds
insert_own k w f own e id ip h = elim (Bool-cases (k == id)) [
  | inl same ↦ ground (arith, lookup-insert f.floating_ips k w id, same, nat_eq.same_iff k id, e, h)
  | inr other ↦ own id ip (ground (arith, lookup-insert f.floating_ips k w id, other, h))
]

stored_id :
    (id : Int64) (ip : FloatingIpInfo) (f : FakeClient)
    → OwnIds f
    → lookup id f.floating_ips ≡ some ip
    → ip.id ≡ id
unfolding OwnIds
stored_id id ip f own here = own id ip here

deleted_own :
    (k : Int64) (f : FakeClient)
    → OwnIds f
    → OwnIds (record f { floating_ips = delete k f.floating_ips })
unfolding OwnIds
deleted_own k f own id ip h = own id ip (ground (arith, lookup-delete k id f.floating_ips, h))

-- The counter has no part in it.
counted_own : (n : Int64) (f : FakeClient) → OwnIds f → OwnIds (record f { next_id = n })
unfolding OwnIds
counted_own n f own = own

change_own :
    (id : Int64) (change : FloatingIpInfo → FloatingIpInfo) (f : FakeClient)
    → OwnIds f
    → ((ip : FloatingIpInfo) → (change ip).id ≡ ip.id)
    → OwnIds (change_floating_ip id change f).1
change_own id change f own keeps = elim (Option-cases (lookup id f.floating_ips)) [
  | inl gone ↦
      let e : (change_floating_ip id change f).1 ≡ f = ground (arith, gone) in
      subst OwnIds (sym e) own
  | inr (ip, here) ↦
      let w = record f { floating_ips = insert id (change ip) f.floating_ips } in
      let e : (change_floating_ip id change f).1 ≡ w = ground (arith, here) in
      subst OwnIds (sym e) (insert_own id (change ip) f own (keeps ip ∙ stored_id id ip f own here))
]

unassign_own : (id : Int64) (f : FakeClient) → OwnIds f → OwnIds (unassign_floating_ip id f).1
unfolding unassign_floating_ip
unassign_own id f own = elim (Option-cases (lookup id f.floating_ips)) [
  | inl gone ↦
      let e : (unassign_floating_ip id f).1 ≡ f = ground (arith, gone) in subst OwnIds (sym e) own
  | inr (ip, here) ↦ elim (Bool-cases (is_set ip.server_id)) [
    | inl on ↦
        let free = record ip { server_id = 0 } in
        let w = record f { floating_ips = insert id free f.floating_ips } in
        let e : (unassign_floating_ip id f).1 ≡ w = ground (arith, here, on) in
        subst OwnIds (sym e) (insert_own id free f own (stored_id id ip f own here))
    | inr off ↦
        let e : (unassign_floating_ip id f).1 ≡ f = ground (arith, here, off) in
        subst OwnIds (sym e) own
  ]
]

delete_own : (id : Int64) (f : FakeClient) → OwnIds f → OwnIds (delete_floating_ip id f).1
unfolding delete_floating_ip
delete_own id f own = elim (Option-cases f.delete_err) [
  | inl allowed ↦
      let w = record f { floating_ips = delete id f.floating_ips } in
      let e : (delete_floating_ip id f).1 ≡ w = ground (arith, allowed) in
      subst OwnIds (sym e) (deleted_own id f own)
  | inr (fault, refused) ↦
      let e : (delete_floating_ip id f).1 ≡ f = ground (arith, refused) in subst OwnIds (sym e) own
]

create_own :
    (opts : FloatingIpCreateOpts) (f : FakeClient) → OwnIds f → OwnIds (create_floating_ip opts f).1
unfolding create_floating_ip
create_own opts f own = elim (Option-cases f.create_err) [
  | inr (fault, refused) ↦
      let e : (create_floating_ip opts f).1 ≡ f = ground (arith, refused) in
      subst OwnIds (sym e) own
  | inl allowed ↦ elim (Option-cases (find_value (floating_ip_named opts.name) f.floating_ips)) [
    | inr (taken, here) ↦
        let e : (create_floating_ip opts f).1 ≡ f = ground (arith, allowed, here) in
        subst OwnIds (sym e) own
    | inl vacant ↦
        let info = new_floating_ip f.next_id opts in
        let w = record f {
          floating_ips = insert f.next_id info f.floating_ips;
          next_id = increment f.next_id;
        } in
        let e : (create_floating_ip opts f).1 ≡ w = ground (arith, allowed, vacant) in
        subst OwnIds (sym e) (counted_own w.next_id _ (insert_own f.next_id info f own refl))
  ]
]

pub run-OwnIds : (call : Call) (f : FakeClient) → OwnIds f → OwnIds (run call f)
unfolding run update_floating_ip assign_floating_ip change_floating_ip_dns_ptr
run-OwnIds (create opts) f own = create_own opts f own
run-OwnIds (remove id) f own = delete_own id f own
run-OwnIds (update id opts) f own = change_own id _ f own (λ ip. refl)
run-OwnIds (assign id server_id) f own = change_own id _ f own (λ ip. refl)
run-OwnIds (unassign id) f own = unassign_own id f own
run-OwnIds (change_dns_ptr id ip dns_ptr) f own = change_own id _ f own (λ ip. refl)

-- Whatever calls are made, in whatever order, and whether they fail or not, every floating IP stays
-- stored under its own ID. It asks that this holds at the start.
pub run_all-OwnIds : (calls : List Call) (f : FakeClient) → OwnIds f → OwnIds (run_all calls f)
unfolding run_all
run_all-OwnIds [] f own = own
run_all-OwnIds (call ∷ calls) f own = run_all-OwnIds calls (run call f) (run-OwnIds call f own)
