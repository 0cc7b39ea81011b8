-- ===== src/Driver/Publish/Live.antt =====
-- What a publish and an unwinding that succeed have seen.
use lukscryptwalker_csi.Base.{
  ℕ, zero, suc, ◌<◌, ◌≡◌, refl, ap, ◌∙◌, ◌⊎◌, inl, inr, Bool, true, false, not, ◌&&◌, ◌||◌, some,
  [], arith, ◌==◌, Bool-cases, Option-cases,
}
use lukscryptwalker_csi.Base.Bytes.{Bytes, bytes_eq}
use lukscryptwalker_csi.Driver.Publish.{
  Liveness, verify_s3_staging_live, PublishWorld, ensure_volume_staged, PublishStatus, published,
  bind_status, bind_mount, node_publish_volume, UnwindTurn, unwind_from, unmount_host_stack,
  max_mount_stack_unwind,
}

-- The staging path is a FUSE mount in the host's table, and statfs on it succeeded.
abbrev pub IsLive : Liveness → Type 0
IsLive l = (l.fuse_mount ≡ some true) × (l.statfs ≡ some true)

verify-IsLive : (l : Liveness) → verify_s3_staging_live l ≡ true → IsLive l
unfolding verify_s3_staging_live
verify-IsLive l h = ground arith

ensure-Live :
    (w : PublishWorld)
    → ensure_volume_staged w ≡ true
    → IsLive w.first ⊎ ((w.mounts_known ≡ true) × (w.restored ≡ true))
unfolding ensure_volume_staged
ensure-Live w h = elim (Bool-cases (verify_s3_staging_live w.first)) [
  | inl e ↦ inl (verify-IsLive w.first e)
  | inr e ↦ inr (ground arith)
]

abbrev pub is_published : PublishStatus → Bool
is_published status = elim status [ published ↦ true | _ ↦ false ]

-- The commands of bindMount that are asked for all succeed.
abbrev pub is_bound_as_asked : PublishWorld → Bool → Bool
is_bound_as_asked w readonly = w.dir_made && (w.bound && (not readonly || w.remounted))

bind_mount-status :
    (w : PublishWorld) (readonly : Bool)
    → (is_published (bind_status (bind_mount w readonly).0) || (bind_mount w readonly).1) ≡ true
    → (bind_status (bind_mount w readonly).0 ≡ bind_status (is_bound_as_asked w readonly))
      × ((bind_mount w readonly).1 ≡ true)
unfolding bind_mount
bind_mount-status w readonly h = elim (Bool-cases w.dir_made) [
  | inr d ↦ let q : false ≡ true = rw (d, bind_mount) at h in cc
  | inl d ↦ elim (Bool-cases w.bound) [
    | inr b ↦ rw (d, b) (refl, refl)
    | inl b ↦ elim (Bool-cases w.remounted) [
      | inl m ↦ elim (Bool-cases readonly) [
        | inl r ↦ rw (d, b, m, r) (refl, refl)
        | inr r ↦ rw (d, b, m, r) (refl, refl)
      ]
      | inr m ↦ elim (Bool-cases readonly) [
        | inl r ↦ rw (d, b, m, r) (refl, refl)
        | inr r ↦ rw (d, b, m, r) (refl, refl)
      ]
    ]
  ]
]

-- Whenever NodePublishVolume on an S3 volume runs mount --bind, or reports success: it has run mount --bind,
-- the gate just before it has seen the staging path as a FUSE mount of the host that answers statfs, and
-- that path was live to begin with or was restored while the mount table was readable. It reports success
-- exactly when mkdir, the bind and, where that was asked for, the read-only remount succeeded; else Internal.
pub node_publish_volume-IsLive :
    (w : PublishWorld) (v staging target : Bytes) (readonly : Bool)
    → (is_published (node_publish_volume w v staging target readonly).0
        || (node_publish_volume w v staging target readonly).1)
      ≡ true
    → ((node_publish_volume w v staging target readonly).1 ≡ true)
      × ((node_publish_volume w v staging target readonly).0
          ≡ bind_status (is_bound_as_asked w readonly))
      × IsLive w.second
      × (IsLive w.first ⊎ ((w.mounts_known ≡ true) × (w.restored ≡ true)))
unfolding node_publish_volume
node_publish_volume-IsLive w v staging target readonly h =
    elim (Bool-cases (bytes_eq v [] || bytes_eq staging [] || bytes_eq target [])) [
      | inl a ↦ let q : false ≡ true = rw (a, node_publish_volume) at h in absurd (ground arith)
      | inr a ↦ elim (Bool-cases (ensure_volume_staged w)) [
        | inl e ↦ elim (Bool-cases (verify_s3_staging_live w.second)) [
          | inl l ↦
              let (status, ran) =
                bind_mount-status w readonly (rw (a, node_publish_volume, e, l) at h) in
              rw (a, node_publish_volume, e, l)
                (ran, status, verify-IsLive w.second l, ensure-Live w e)
          | inr l ↦
              let q : false ≡ true = rw (a, node_publish_volume, e, l) at h in absurd (ground arith)
        ]
        | inr e ↦
            let q : false ≡ true = rw (a, node_publish_volume, e) at h in absurd (ground arith)
      ]
    ]

-- Every turn before the one that is reached removed a mount of a known depth.
abbrev pub Unwound : (ℕ → UnwindTurn) → ℕ → ℕ → Type 0
Unwound world i zero = (world i).depth ≡ some 0
Unwound world i (suc k) = ((world i).unmounted ≡ true) × Unwound world (suc i) k

unwind_from-Unwound :
    (turns : ℕ) (world : ℕ → UnwindTurn) (i : ℕ)
    → unwind_from turns world i ≡ true
    → (k : ℕ) × (k < turns) × Unwound world i k
unfolding unwind_from
unwind_from-Unwound zero world i h = absurd (ground arith)
unwind_from-Unwound (suc turns) world i h = elim (Option-cases (world i).depth) [
  | inl n ↦ let q : false ≡ true = rw (n, unwind_from) at h in absurd (ground arith)
  | inr (depth, n) ↦ elim (Bool-cases (depth == 0)) [
    | inl z ↦ let is : depth ≡ 0 = ground arith in (0, omega arith, (n ∙ ap some is))
    | inr z ↦ elim (Bool-cases (world i).unmounted) [
      | inl u ↦
          let (k, l, rest) =
            unwind_from-Unwound turns world (suc i) (rw (n, unwind_from, z, u) at h) in
          (suc k, omega arith, (u, rest))
      | inr u ↦ let q : false ≡ true = rw (n, unwind_from, z, u) at h in absurd (ground arith)
    ]
  ]
]

-- unmountHostStack succeeds only at a turn, among its ten, at which the readable mount table showed no
-- mount left at the path, and every turn before it removed one.
pub unmount_host_stack-Unwound :
    (world : ℕ → UnwindTurn)
    → unmount_host_stack world ≡ true
    → (k : ℕ) × (k < max_mount_stack_unwind) × Unwound world 0 k
unfolding unmount_host_stack
unmount_host_stack-Unwound world h = unwind_from-Unwound max_mount_stack_unwind world 0 h
