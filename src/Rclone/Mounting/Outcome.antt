-- ===== src/Rclone/Mounting/Outcome.antt =====
-- What a Mount leaves behind, on every branch.
use lukscryptwalker_csi.Base.{
  ℕ, ◌≡◌, refl, inl, inr, true, ◌&&◌, some, List, [], ◌∷◌, arith, if◌then◌else◌, take, Bool-cases,
  Bool, false,
}
use lukscryptwalker_csi.Base.Bytes.{Bytes}
use lukscryptwalker_csi.Rclone.Drain.{CacheDisk, short_drain_wait}
use lukscryptwalker_csi.Rclone.Drain.Unmount.{unmount-returns}
use lukscryptwalker_csi.Rclone.Exclusive.{Outcome, takes, refuses, ensure_exclusive_vfs_name}
use lukscryptwalker_csi.Rclone.Exclusive.Generation.{Justified, ensure_exclusive_vfs_name-Justified}
use lukscryptwalker_csi.Rclone.Exposure.Serving.{Serves}
use lukscryptwalker_csi.Rclone.VfsName.{vfs_name_for}
use lukscryptwalker_csi.Rclone.Mounting.{
  Mounter, MountWorld, MountError, mount_timed_out, MountStatus, already_mounted, now_mounted,
  failed, no_free_name, MountResult, Call, validates_cache, mount, take_name, at_generation,
  no_session, no_mount_point, mount_failed, not_usable, gives_up, no_crypt_config, no_s3_config,
}
use lukscryptwalker_csi.Rclone.Mounting.Requested.{nothing_requested, note_calls}
use lukscryptwalker_csi.Rclone.Mounting.Cleanup.{
  requested_by, is_now_mounted, has_name, with_name-Leaves,
}

-- Why a Mount that looks for a name has the one it ends with.
abbrev pub Named : MountWorld → Bytes → ℕ → MountStatus → ℕ → Type 0
Named w v first already_mounted g = Unit
Named w v first (failed no_free_name) g = Justified v w.turns first (refuses g)
Named w v first _ g = Justified v w.turns first (takes g)

has_name-Named :
    (w : MountWorld) (v : Bytes) (first : ℕ) (status : MountStatus) (g : ℕ)
    → has_name status ≡ true
    → Justified v w.turns first (takes g)
    → Named w v first status g
has_name-Named w v first now_mounted g h j = j
has_name-Named w v first already_mounted g h j = tt
has_name-Named w v first (failed e) g h j = failed-Named e h
  where
    failed-Named : (e : MountError) → has_name (failed e) ≡ true → Named w v first (failed e) g
    failed-Named no_free_name h = absurd (ground arith)
    failed-Named no_mount_point h = j
    failed-Named no_session h = j
    failed-Named no_s3_config h = j
    failed-Named no_crypt_config h = j
    failed-Named mount_timed_out h = j
    failed-Named mount_failed h = j
    failed-Named not_usable h = j

-- The first call after the search for a name.
abbrev pub opening : Bytes → MountStatus → ℕ → List Call
opening v status g = if has_name status then validates_cache (vfs_name_for v g) ∷ [] else []

abbrev pub Ends : MountWorld → Mounter → MountResult → Type 0
Ends w s r =
    (note_calls nothing_requested r.calls ≡ requested_by r.status w.new_session r.mounter)
    × Serves r.mounter.mount_point w.ready (is_now_mounted r.status)
    × Named w s.volume_id s.generation r.status r.mounter.generation
    × (take 1 r.calls ≡ opening s.volume_id r.status r.mounter.generation)

-- A Mount of a volume that is mounted (the flag, and /proc/mounts) does nothing.
abbrev pub Untouched : Bool → Mounter → CacheDisk → MountResult → Type 0
Untouched true s disk r =
    r ≡ record { status = already_mounted; mounter = s; disk = disk; calls = [] }
Untouched false s disk r = Unit

mounted-Untouched :
    (b : Bool) (s : Mounter) (disk : CacheDisk)
    → b ≡ true
    → Untouched b s disk (record { status = already_mounted; mounter = s; disk = disk; calls = [] })
mounted-Untouched true s disk h = refl
mounted-Untouched false s disk h = tt

otherwise-Untouched :
    (b : Bool) (s : Mounter) (disk : CacheDisk) (r : MountResult) → b ≡ false → Untouched b s disk r
otherwise-Untouched true s disk r h = cc
otherwise-Untouched false s disk r h = tt

take_name-Ends :
    (w : MountWorld) (s : Mounter) (disk : CacheDisk)
    → (r : MountResult) × (take_name w s disk ≡ some r) × Ends w s r
unfolding take_name at_generation note_calls
take_name-Ends w s disk =
    let (o, e, j) = ensure_exclusive_vfs_name-Justified s.volume_id w.turns s.generation in
    take_outcome o e j
  where
    take_outcome :
        (o : Outcome)
        → ensure_exclusive_vfs_name s.volume_id w.turns s.generation ≡ some o
        → Justified s.volume_id w.turns s.generation o
        → (r : MountResult) × (take_name w s disk ≡ some r) × Ends w s r
    take_outcome (refuses g) e j = (
      gives_up no_free_name (at_generation g s) disk [],
      rw (e, take_name) refl,
      (refl, tt, j, refl),
    )
    take_outcome (takes g) e j =
        let (r, f, (made, serves, same, has), first) =
          with_name-Leaves w disk (at_generation g s) in
        let named : Justified s.volume_id w.turns s.generation (takes r.mounter.generation) =
          rw same j in
        (
          r,
          rw (e, take_name) f,
          (
            made,
            serves,
            has_name-Named w s.volume_id s.generation r.status r.mounter.generation has named,
            rw (has, same) first,
          ),
        )

-- Mount always returns. When it fails it has asked to undo all that it asked for: for each configuration
-- created the last call is its deletion, for the session served its unmount, and for the session's directory
-- its removal, unless mount/mount timed out and still holds it (whether these calls take effect is not
-- stated, the source ignores their errors). When it succeeds, the session became a mountpoint and the host
-- was seen to resolve that very device, a FUSE one that lists, on top of the staging path; and its name was
-- not known to be taken. Its first act under a name is to validate that name's cache. A volume that is
-- marked mounted and whose staging path is a mountpoint is left alone: no call, no change.
pub mount-Ends :
    (w : MountWorld) (s : Mounter) (disk : CacheDisk)
    → (r : MountResult) × (mount w s disk ≡ some r)
      × Ends w s r
      × Untouched (s.session.mounted && w.is_mount_point) s disk r
unfolding mount note_calls
mount-Ends w s disk = elim (Bool-cases (s.session.mounted && w.is_mount_point)) [
  | inl e ↦ (
    record { status = already_mounted; mounter = s; disk = disk; calls = [] },
    simp e,
    (refl, tt, tt, refl),
    mounted-Untouched (s.session.mounted && w.is_mount_point) s disk e,
  )
  | inr e ↦ elim (Bool-cases w.is_stale) [
    | inl stale ↦
        let (u, d) =
          unmount-returns short_drain_wait s.session (record w.teardown { before = disk }) in
        let (r, f, ends) = take_name-Ends w (record s { session = u.1 }) u.2 in
        (
          r,
          simp (e, stale, d, f),
          ends,
          otherwise-Untouched (s.session.mounted && w.is_mount_point) s disk r e,
        )
    | inr stale ↦
        let (r, f, ends) = take_name-Ends w s disk in
        (
          r,
          simp (e, stale, f),
          ends,
          otherwise-Untouched (s.session.mounted && w.is_mount_point) s disk r e,
        )
  ]
]
