-- ===== src/Rclone/Drain/Unmount.antt =====
-- What an unmount may delete.
use lukscryptwalker_csi.Base.{
  ℕ, ◌≡◌, refl, sym, ap, inl, inr, Bool, true, false, not, ◌&&◌, some, List, [], ◌∷◌, arith,
  if◌then◌else◌, Bool-cases,
}
use lukscryptwalker_csi.Base.Bytes.{Bytes, bytes_eq, bytes_eq→eq}
use lukscryptwalker_csi.Rclone.CacheDir.{Visit, has_dirty_cache_items}
use lukscryptwalker_csi.Rclone.Drain.{
  wait_for_pending_uploads, unmount, settle, Manager, Teardown, CacheDisk, walk_of, remove_all,
  has_dirty_cache_on_disk, cleanup_vfs_cache_dir,
}
use lukscryptwalker_csi.Rclone.Drain.Confirmed.{ConfirmedAt, wait_for_pending_uploads-confirmed}
use lukscryptwalker_csi.Rclone.Drain.Termination.{wait_for_pending_uploads-returns}

-- Whether the cache named so holds unuploaded writes.
abbrev pub dirty_at : Bytes → CacheDisk → Bool
dirty_at name d = has_dirty_cache_items (walk_of name d.caches)

walk_of-remove_all :
    (name other : Bytes) (cs : List (Bytes × List Visit))
    → bytes_eq other name ≡ false
    → walk_of other (remove_all name cs) ≡ walk_of other cs
unfolding walk_of remove_all
walk_of-remove_all name other [] h = refl
walk_of-remove_all name other ((n, visits) ∷ cs) h =
    let rest = walk_of-remove_all name other cs h in
    elim (Bool-cases (bytes_eq name n)) [
      | inl e ↦
          let off : bytes_eq other n ≡ false = rw (sym (bytes_eq→eq name n e)) h in rw (e, off) rest
      | inr e ↦ elim (Bool-cases (bytes_eq other n)) [
        | inl o ↦ rw (e, o) refl
        | inr o ↦ rw (e, o) rest
      ]
    ]

cleanup-keeps :
    (name other : Bytes) (d : CacheDisk)
    → bytes_eq other name ≡ false
    → dirty_at other (cleanup_vfs_cache_dir name d) ≡ dirty_at other d
unfolding cleanup_vfs_cache_dir
cleanup-keeps [] other d h = refl
cleanup-keeps (c ∷ name) other d h =
    ap has_dirty_cache_items (walk_of-remove_all (c ∷ name) other d.caches h)

cleanup_clean-keeps :
    (name other : Bytes) (d : CacheDisk)
    → has_dirty_cache_on_disk name d ≡ false
    → dirty_at other d ≡ true
    → dirty_at other (cleanup_vfs_cache_dir name d) ≡ true
unfolding has_dirty_cache_on_disk
cleanup_clean-keeps [] other d c h = unfold cleanup_vfs_cache_dir in h
cleanup_clean-keeps (k ∷ name) other d c h = elim (Bool-cases (bytes_eq other (k ∷ name))) [
  | inl e ↦ let q = ap (λ z. dirty_at z d) (bytes_eq→eq other (k ∷ name) e) in absurd (ground arith)
  | inr e ↦ rw (cleanup-keeps (k ∷ name) other d e) h
]

settle-keeps :
    (waited : Bool) (m : Manager) (disk : CacheDisk) (name : Bytes)
    → dirty_at name disk ≡ true
    → dirty_at name (settle waited m disk).2 ≡ true
unfolding settle
settle-keeps false m disk name h = h
settle-keeps true m disk name h = elim (Bool-cases (has_dirty_cache_on_disk m.vfs_name disk)) [
  | inl e ↦ rw e h
  | inr e ↦ rw e (cleanup_clean-keeps m.vfs_name name disk e h)
]

-- The disk that an unmount looks at: as it starts where there is nothing to unmount, else once the VFS has
-- shut down.
abbrev pub disk_seen : Manager → Teardown → CacheDisk
disk_seen m t = if not m.mounted && not t.is_mount_point then t.before else t.settled

-- Unmount always returns, and it keeps every cache, the volume's own and those of others, in which an
-- item with unuploaded writes is on disk when the VFS has shut down (when it starts, where there is
-- nothing to unmount).
pub unmount-keeps_dirty :
    (drain_budget : ℕ) (m : Manager) (t : Teardown) (name : Bytes)
    → dirty_at name (disk_seen m t) ≡ true
    → (r : Bool × Manager × CacheDisk) × (unmount drain_budget m t ≡ some r)
      × (dirty_at name r.2 ≡ true)
unfolding unmount
unmount-keeps_dirty budget m t name h =
    let w =
      wait_for_pending_uploads-returns budget m.write_back (not (bytes_eq m.session_path []))
        t.world t.now in
    elim (Bool-cases (not m.mounted && not t.is_mount_point)) [
      | inl e ↦
          ((not (has_dirty_cache_on_disk m.vfs_name t.before), m, t.before), rw e refl, rw e at h)
      | inr e ↦
          (settle w.0 m t.settled, rw (e, w.1) refl, settle-keeps w.0 m t.settled name (rw e at h))
    ]

pub unmount-returns :
    (drain_budget : ℕ) (m : Manager) (t : Teardown)
    → (r : Bool × Manager × CacheDisk) × (unmount drain_budget m t ≡ some r)
unfolding unmount
unmount-returns budget m t =
    let w =
      wait_for_pending_uploads-returns budget m.write_back (not (bytes_eq m.session_path []))
        t.world t.now in
    elim (Bool-cases (not m.mounted && not t.is_mount_point)) [
      | inl e ↦ ((not (has_dirty_cache_on_disk m.vfs_name t.before), m, t.before), rw e refl)
      | inr e ↦ (settle w.0 m t.settled, rw (e, w.1) refl)
    ]

settle-drained :
    (waited : Bool) (m : Manager) (disk : CacheDisk)
    → (settle waited m disk).0 ≡ true
    → (waited ≡ true) × (has_dirty_cache_on_disk m.vfs_name disk ≡ false)
unfolding settle
settle-drained false m disk h = absurd (ground arith)
settle-drained true m disk h = elim (Bool-cases (has_dirty_cache_on_disk m.vfs_name disk)) [
  | inl e ↦ absurd (ground arith)
  | inr e ↦ (refl, e)
]

-- Unmount reports a mounted volume drained only when at some poll, at which it had a session or a mount point,
-- vfs/stats answered with no count of uploads above zero (a reply without a diskCache section is one of
-- these), and no item of its cache was unuploaded after the VFS had shut down: the two together, neither
-- alone.
pub unmount-drained :
    (drain_budget : ℕ) (m : Manager) (t : Teardown) (r : Bool × Manager × CacheDisk)
    → (not m.mounted && not t.is_mount_point) ≡ false
    → unmount drain_budget m t ≡ some r
    → r.0 ≡ true
    → ((j : ℕ) × ConfirmedAt (not (bytes_eq m.session_path [])) t.world j)
      × (has_dirty_cache_on_disk m.vfs_name t.settled ≡ false)
unfolding unmount
unmount-drained budget m t r e u d =
    let s = not (bytes_eq m.session_path []) in
    let w = wait_for_pending_uploads-returns budget m.write_back s t.world t.now in
    let q : some (settle w.0 m t.settled) ≡ some r = rw (e, w.1) at u in
    let both = settle-drained w.0 m t.settled (ground arith) in
    let yes : wait_for_pending_uploads budget m.write_back s t.world t.now ≡ some true =
      rw both.0 at w.1 in
    (wait_for_pending_uploads-confirmed budget m.write_back s t.world t.now yes, both.1)
