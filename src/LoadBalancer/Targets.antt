-- ===== src/LoadBalancer/Targets.antt =====
-- The targets after the two loops, as lists of server IDs.
use hcloud_operator.Base.{
  not, ◌&&◌, ◌||◌, ◌≡◌, List, [], ◌∷◌, ◌++◌, ◌==◌, nat_eq, arith, if◌then◌else◌,
}
use hcloud_operator.Go.Integer.{Int64}
use hcloud_operator.Go.Slice.{member, without}
use hcloud_operator.LoadBalancer.Controller.{id_set}

-- What the attachment of each ID that is not in `current` makes of the targets.
unfoldable pub attached : List Int64 → List Int64 → List Int64 → List Int64
attached current [] targets = targets
attached current (id ∷ ids) targets =
    attached current ids
      (if member id current || member id targets then targets else targets ++ id ∷ [])

-- What the detachment of each ID that is not in `selected` makes of them.
unfoldable pub detached : List Int64 → List Int64 → List Int64 → List Int64
detached selected [] targets = targets
detached selected (id ∷ ids) targets =
    detached selected ids (if member id selected then targets else without id targets)

member-end :
    (k id : Int64) (ids : List Int64) → member k (ids ++ id ∷ []) ≡ (member k ids || id == k)
unfolding member
member-end k id [] = ground arith
member-end k id (x ∷ ids) = ground (arith, member-end k id ids)

member-without :
    (k id : Int64) (ids : List Int64) → member k (without id ids) ≡ (member k ids && not (id == k))
unfolding member without
member-without k id [] = ground arith
member-without k id (x ∷ ids) = ground (arith, member-without k id ids)

pub member-id_set :
    (k : Int64) (ids acc : List Int64) → member k (id_set ids acc) ≡ (member k ids || member k acc)
unfolding id_set member
member-id_set k [] acc = ground arith
member-id_set k (id ∷ ids) acc = ground (
  arith,
  member-id_set k ids acc,
  member-id_set k ids (acc ++ id ∷ []),
  member-end k id acc,
  nat_eq.same_iff id k,
)

member-attached :
    (k : Int64) (current ids targets : List Int64)
    → member k (attached current ids targets)
      ≡ (member k targets || member k ids && not (member k current))
unfolding attached member
member-attached k current [] targets = ground arith
member-attached k current (id ∷ ids) targets = ground (
  arith,
  member-attached k current ids targets,
  member-attached k current ids (targets ++ id ∷ []),
  member-end k id targets,
  nat_eq.same_iff id k,
)

member-detached :
    (k : Int64) (selected ids targets : List Int64)
    → member k (detached selected ids targets)
      ≡ (member k targets && (member k selected || not (member k ids)))
unfolding detached member
member-detached k selected [] targets = ground arith
member-detached k selected (id ∷ ids) targets = ground (
  arith,
  member-detached k selected ids targets,
  member-detached k selected ids (without id targets),
  member-without k id targets,
  nat_eq.same_iff id k,
)

-- The targets after both loops.
abbrev pub retargeted : List Int64 → List Int64 → List Int64
retargeted selected targets =
    detached (id_set selected []) (id_set targets [])
      (attached (id_set targets []) (id_set selected []) targets)

-- They are the selected ones.
pub member-retargeted :
    (k : Int64) (selected targets : List Int64)
    → member k (retargeted selected targets) ≡ member k selected
unfolding member
member-retargeted k selected targets =
    let cur = id_set targets [] in
    let sel = id_set selected [] in
    ground (
      arith,
      member-detached k sel cur (attached cur sel targets),
      member-attached k cur sel targets,
      member-id_set k targets [],
      member-id_set k selected [],
    )
