-- ===== src/Driver/Consumers/Paths.antt =====
-- The paths that parseConsumerBinds takes for consumer binds.
use lukscryptwalker_csi.Base.{
  ◌≡◌, refl, sym, ap, ◌∙◌, inl, inr, false, not, ◌||◌, Option, none, some, List, [], ◌∷◌, ◌++◌,
  arith, length, some_injective, Bool-cases, Option-cases, All,
}
use lukscryptwalker_csi.Base.Bytes.{
  Bytes, codes, bytes_eq, bytes_eq→eq, has_prefix, contains, cut_prefix,
}
use lukscryptwalker_csi.Base.Cut.{cut, cut_prefix-append, cut-append}
use lukscryptwalker_csi.Rclone.Mounts.{HostMount, Table, topmost}
use lukscryptwalker_csi.Driver.Consumers.{
  ConsumerBind, csi_segment, pods_prefix, pv_of_rest, pod_of_rest, parse_bind_path, bind_at,
  parse_consumer_binds,
}

-- <root>/pods/<uid>/volumes/kubernetes.io~csi/<pv>/mount
abbrev pub bind_path : Bytes → Bytes → Bytes → Bytes
bind_path kubelet_root pod_uid pv_name =
    pods_prefix kubelet_root
    ++ (pod_uid ++ (csi_segment ++ (pv_name ++ (codes "/" ++ codes "mount"))))

pv_of_rest-some :
    (o : Option (Bytes × Bytes)) (pv : Bytes)
    → pv_of_rest o ≡ some pv
    → (o ≡ some (pv, codes "mount")) × (bytes_eq pv [] ≡ false)
unfolding pv_of_rest
pv_of_rest-some none pv h = absurd (ground arith)
pv_of_rest-some (some (name, leaf)) pv h = elim (Bool-cases (bytes_eq leaf (codes "mount"))) [
  | inl e ↦ elim (Bool-cases (bytes_eq name [])) [
    | inl z ↦ let q : none ≡ some pv = rw (e, z) at h in absurd (ground arith)
    | inr z ↦
        let q : some name ≡ some pv = rw (e, z) at h in
        let same : name ≡ pv = ground arith in
        (rw (same, bytes_eq→eq leaf (codes "mount") e) refl, rw (sym same) z)
  ]
  | inr e ↦ let q : none ≡ some pv = rw e at h in absurd (ground arith)
]

pod_of_rest-some :
    (o : Option (Bytes × Bytes)) (uid pv : Bytes)
    → pod_of_rest o ≡ some (uid, pv)
    → ((rest : Bytes) × (o ≡ some (uid, rest)) × (rest ≡ pv ++ (codes "/" ++ codes "mount")))
      × ((bytes_eq uid [] || contains uid (codes "/")) ≡ false)
      × (bytes_eq pv [] ≡ false)
unfolding pod_of_rest
pod_of_rest-some none uid pv h = absurd (ground arith)
pod_of_rest-some (some (name, rest)) uid pv h =
    elim (Bool-cases (bytes_eq name [] || contains name (codes "/"))) [
      | inl e ↦ let q : none ≡ some (uid, pv) = rw e at h in absurd (ground arith)
      | inr e ↦ elim (Option-cases (pv_of_rest (cut rest (codes "/")))) [
        | inl n ↦ let q : none ≡ some (uid, pv) = rw (e, n) at h in absurd (ground arith)
        | inr (found, n) ↦
            let q : some (name, found) ≡ some (uid, pv) = rw (e, n) at h in
            let u : name ≡ uid = ground arith in
            let p : found ≡ pv = ground arith in
            let (at, full) = pv_of_rest-some (cut rest (codes "/")) found n in
            (
              (rest, rw u refl, rw (sym p) (cut-append rest (codes "/") found (codes "mount") at)),
              rw (sym u) e,
              rw (sym p) full,
            )
      ]
    ]

parse_bind_path-some :
    (root path uid pv : Bytes)
    → parse_bind_path root path ≡ some (uid, pv)
    → (path ≡ bind_path root uid pv)
      × ((bytes_eq uid [] || contains uid (codes "/")) ≡ false)
      × (bytes_eq pv [] ≡ false)
unfolding parse_bind_path
parse_bind_path-some root path uid pv h = elim (Option-cases (cut_prefix path (pods_prefix root))) [
  | inl n ↦ let q : none ≡ some (uid, pv) = rw (n, parse_bind_path) at h in absurd (ground arith)
  | inr (rest, n) ↦
      let ((tail, at, is), u, p) =
        pod_of_rest-some (cut rest csi_segment) uid pv (rw (n, parse_bind_path) at h) in
      let front = cut_prefix-append path (pods_prefix root) rest n in
      let middle = cut-append rest csi_segment uid tail at in
      (
        front ∙ ap (λ z. pods_prefix root ++ z) (middle ∙ ap (λ z. uid ++ (csi_segment ++ z)) is),
        u,
        p,
      )
]

-- The bind's path spells its pod and its volume, the pod's UID is one element and neither is empty.
abbrev pub NamesItsPath : Bytes → ConsumerBind → Type 0
NamesItsPath root b =
    (b.path ≡ bind_path root b.pod_uid b.pv_name)
    × ((bytes_eq b.pod_uid [] || contains b.pod_uid (codes "/")) ≡ false)
    × (bytes_eq b.pv_name [] ≡ false)

bind_at-some :
    (root path : Bytes) (mounts : List HostMount) (b : ConsumerBind)
    → bind_at root path mounts ≡ some b
    → NamesItsPath root b
unfolding bind_at
bind_at-some root path mounts b h = elim (Option-cases (topmost mounts)) [
  | inl n ↦ let q : none ≡ some b = rw (n, bind_at) at h in absurd (ground arith)
  | inr (top, n) ↦ elim (Bool-cases (not (has_prefix top.fs_type (codes "fuse")))) [
    | inl f ↦ let q : none ≡ some b = rw (n, bind_at, f) at h in absurd (ground arith)
    | inr f ↦ elim (Option-cases (parse_bind_path root path)) [
      | inl p ↦ let q : none ≡ some b = rw (n, bind_at, f, p) at h in absurd (ground arith)
      | inr (names, p) ↦
          let made : ConsumerBind = record {
            path = path;
            pod_uid = names.0;
            pv_name = names.1;
            depth = length mounts;
            dev = top.dev;
          } in
          let q : some made ≡ some b = rw (n, bind_at, f, p) at h in
          rw (sym (some_injective made b q)) (parse_bind_path-some root path names.0 names.1 p)
    ]
  ]
]

-- Every consumer bind that the driver picks out of a mount table is mounted at
-- <root>/pods/<uid>/volumes/kubernetes.io~csi/<pv>/mount for the pod UID and the PV name it records,
-- whatever else is mounted and whichever directory kubelet's root is: repairs reach no other path.
pub parse_consumer_binds-paths :
    (stacks : Table) (root : Bytes) → All (NamesItsPath root) (parse_consumer_binds stacks root)
unfolding parse_consumer_binds
parse_consumer_binds-paths [] root = tt
parse_consumer_binds-paths ((path, mounts) ∷ stacks) root =
    let rest = parse_consumer_binds-paths stacks root in
    elim (Option-cases (bind_at root path mounts)) [
      | inl n ↦ rw (n, parse_consumer_binds) rest
      | inr (b, n) ↦ rw (n, parse_consumer_binds) (bind_at-some root path mounts b n, rest)
    ]
