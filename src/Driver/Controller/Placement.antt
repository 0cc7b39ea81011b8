-- ===== src/Driver/Controller/Placement.antt =====
-- The volumes that CreateVolume describes.
use mathlib.Core.Path.{subst}
use lukscryptwalker_csi.Base.{
  ◌≡◌, refl, sym, ap, ◌⊎◌, inl, inr, Bool, true, false, ◌||◌, none, some, List, [], ◌∷◌, arith, All,
  any, Bool-cases, Option-cases,
}
use lukscryptwalker_csi.Base.Bytes.{Bytes, bytes_eq, bytes_eq_refl}
use lukscryptwalker_csi.Base.Dict.{Dict, lookup, put, lookup-put}
use lukscryptwalker_csi.Driver.Controller.{
  Capability, is_single_node, is_fs_type, validate_volume_capabilities, CreateRequest, Volume,
  CreateResult, created, invalid_argument, failed_precondition, segment_or_empty, first_node,
  topology_key_node, pinned_node_param, pick_topology_node, is_s3, volume_of, place, create_volume,
}

-- A capability the driver supports.
abbrev pub IsSupported : Capability → Type 0
IsSupported c =
    (c.is_mount ≡ true) × (is_single_node c.access_mode ≡ true) × (is_fs_type c.fs_type ≡ true)

validate-IsSupported :
    (cs : List Capability) → validate_volume_capabilities cs ≡ true → All IsSupported cs
unfolding validate_volume_capabilities
validate-IsSupported [] h = tt
validate-IsSupported (c ∷ cs) h = elim (Bool-cases c.is_mount) [
  | inl m ↦ elim (Bool-cases (is_single_node c.access_mode)) [
    | inl a ↦ elim (Bool-cases (is_fs_type c.fs_type)) [
      | inl f ↦ ((m, a, f), validate-IsSupported cs (ground arith))
      | inr f ↦ absurd (ground arith)
    ]
    | inr a ↦ absurd (ground arith)
  ]
  | inr m ↦ absurd (ground arith)
]

-- A topology offers the node.
abbrev pub offers : Bytes → Dict Bytes → Bool
offers node segments = bytes_eq node (segment_or_empty (lookup topology_key_node segments))

-- An S3 volume is pinned nowhere. Another is pinned to a node that a topology offers, both for the
-- scheduler and, in its context, for the node service.
abbrev pub IsPlaced : Bool → CreateRequest → Volume → Type 0
IsPlaced true r v = v.accessible_node ≡ none
IsPlaced false r v =
    (node : Bytes) × ((any (offers node) r.preferred || any (offers node) r.requisite) ≡ true)
    × (bytes_eq node [] ≡ false)
    × (v.accessible_node ≡ some node)
    × (lookup pinned_node_param v.volume_context ≡ some node)

or-true : (b : Bool) → (b || true) ≡ true
or-true true = refl
or-true false = refl

first_node-offers :
    (ts : List (Dict Bytes)) (default : Bytes)
    → (any (offers (first_node ts default)) ts ≡ true) ⊎ (first_node ts default ≡ default)
unfolding first_node any
first_node-offers [] default = inr refl
first_node-offers (t ∷ ts) default =
    let node = segment_or_empty (lookup topology_key_node t) in
    elim (Bool-cases (bytes_eq node [])) [
      | inl e ↦
          let same : first_node (t ∷ ts) default ≡ first_node ts default = rw e refl in
          elim (first_node-offers ts default) [
            | inl o ↦ inl (
                subst (λ n. any (offers n) (t ∷ ts) ≡ true) (sym same)
                  (rw o (or-true (offers (first_node ts default) t))))
            | inr d ↦ inr (rw e d)
          ]
      | inr e ↦ inl (rw (e, bytes_eq_refl node) refl)
    ]

pick-offers :
    (r : CreateRequest)
    → bytes_eq (pick_topology_node r) [] ≡ false
    → (any (offers (pick_topology_node r)) r.preferred
        || any (offers (pick_topology_node r)) r.requisite)
      ≡ true
unfolding pick_topology_node bytes_eq
pick-offers r h = elim (first_node-offers r.preferred (first_node r.requisite [])) [
  | inl o ↦ rw o refl
  | inr d ↦ elim (first_node-offers r.requisite []) [
    | inl o ↦ rw (d, o) (or-true (any (offers (first_node r.requisite [])) r.preferred))
    | inr e ↦ let q : bytes_eq [] [] ≡ false = rw (d, e) at h in absurd (ground arith)
  ]
]

volume_in : Volume → CreateResult → Volume
volume_in v (created w) = w
volume_in v invalid_argument = v
volume_in v failed_precondition = v

pinned : CreateRequest → Volume
unfolding volume_of
pinned r = record (volume_of r) {
  volume_context = put pinned_node_param (pick_topology_node r) (volume_of r).volume_context;
  accessible_node = some (pick_topology_node r);
}

place-IsPlaced :
    (r : CreateRequest) (v : Volume)
    → place r (volume_of r) ≡ created v
    → IsPlaced (is_s3 r.parameters) r v × (v.volume_id ≡ r.name)
unfolding place volume_of pinned volume_in
place-IsPlaced r v h =
    let is = ap (volume_in v) h in
    elim (Bool-cases (is_s3 r.parameters)) [
      | inl s ↦
          let same : volume_of r ≡ v = rw (s, place) at is in
          rw s (subst (λ u. IsPlaced true r u × (u.volume_id ≡ r.name)) same (refl, refl))
      | inr s ↦ elim (Bool-cases (bytes_eq (pick_topology_node r) [])) [
        | inl e ↦
            let q : failed_precondition ≡ created v = rw (s, place, e) at h in absurd (ground arith)
        | inr e ↦
            let same : pinned r ≡ v = rw (s, place, e) at is in
            let at =
              lookup-put pinned_node_param pinned_node_param (pick_topology_node r)
                (volume_of r).volume_context in
            rw s (
              subst (λ u. IsPlaced false r u × (u.volume_id ≡ r.name)) same
                (
                  (
                    pick_topology_node r,
                    pick-offers r e,
                    e,
                    refl,
                    (rw (bytes_eq_refl pinned_node_param) at at),
                  ),
                  refl,
                ))
      ]
    ]

-- A volume that CreateVolume describes has the name of the request, and all the capabilities asked for
-- are ones the driver supports. An S3 volume is pinned nowhere; any other is pinned, for the scheduler
-- and in its context, to one node that the request's topologies offer, whatever the parameters hold.
pub create_volume-IsPlaced :
    (r : CreateRequest) (v : Volume)
    → create_volume r ≡ created v
    → ((caps : List Capability) × (r.capabilities ≡ some caps) × All IsSupported caps)
      × (bytes_eq r.name [] ≡ false)
      × (v.volume_id ≡ r.name)
      × IsPlaced (is_s3 r.parameters) r v
unfolding create_volume
create_volume-IsPlaced r v h =
    let made = ap is_created h in
    elim (Bool-cases (bytes_eq r.name [])) [
      | inl e ↦ let q : false ≡ true = rw (e, create_volume) at made in absurd (ground arith)
      | inr e ↦ elim (Option-cases r.capabilities) [
        | inl n ↦ let q : false ≡ true = rw (e, create_volume, n) at made in absurd (ground arith)
        | inr (caps, n) ↦ elim (Bool-cases (validate_volume_capabilities caps)) [
          | inl c ↦
              let (p, name) = place-IsPlaced r v (rw (e, create_volume, n, c) at h) in
              ((caps, n, validate-IsSupported caps c), e, name, p)
          | inr c ↦
              let q : false ≡ true = rw (e, create_volume, n, c) at made in absurd (ground arith)
        ]
      ]
    ]
  where
    is_created : CreateResult → Bool
    is_created (created v) = true
    is_created invalid_argument = false
    is_created failed_precondition = false
