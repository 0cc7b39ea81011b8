-- ===== src/Driver/Unstage/Answers.antt =====
-- What a success of NodeUnstageVolume says about the data on the node.
use lukscryptwalker_csi.Base.{
  ℕ, ◌≡◌, refl, sym, ap, inl, inr, Bool, true, false, not, ◌&&◌, ◌||◌, Option, none, some, [], ◌∷◌,
  arith, if◌then◌else◌, Bool-cases, Option-cases,
}
use lukscryptwalker_csi.Base.Bytes.{Bytes, bytes_eq}
use lukscryptwalker_csi.Base.Dict.{lookup, delete}
use lukscryptwalker_csi.Rclone.CacheDir.{has_unuploaded_data}
use lukscryptwalker_csi.Rclone.Drain.{
  Manager, CacheDisk, Teardown, unmount, has_dirty_cache_on_disk, is_upload_queue_empty,
  short_drain_wait,
}
use lukscryptwalker_csi.Rclone.Drain.Unmount.{
  dirty_at, disk_seen, unmount-keeps_dirty, unmount-returns, unmount-drained,
}
use lukscryptwalker_csi.Driver.Drains.{is_background_draining, start_background_drain}
use lukscryptwalker_csi.Driver.Unstage.{
  Node, UnstageWorld, Cleanup, cleaned, unuploaded_data, UnstageStatus, ok, listing_of,
  force_unstage_requested, force_cleanup_s3_sync, after_unmount, resume_stranded_drain,
  cleanup_s3_sync, cleanup_unmanaged, cleanup_managed, unmount_within, node_unstage_volume,
  status_of,
}

resume-disk :
    (w : UnstageWorld) (v staging : Bytes) (n : Node)
    → (resume_stranded_drain w v staging n).1.disk ≡ n.disk
unfolding resume_stranded_drain
resume-disk w v [] n = refl
resume-disk w v (c ∷ path) n = elim (Bool-cases (not w.context_readable)) [
  | inl e ↦ rw e refl
  | inr e ↦ rw e refl
]

after_unmount-disk :
    (w : UnstageWorld) (v staging : Bytes) (n : Node) (r : Bool × Manager × CacheDisk)
    → (after_unmount w v staging n r).1.disk ≡ r.2
unfolding after_unmount
after_unmount-disk w v staging n (drained, m, disk) =
    elim (Bool-cases (not drained && not (bytes_eq staging []))) [
      | inl e ↦
          rw (e, after_unmount)
            (resume-disk w v staging (record n { managers = delete v n.managers; disk = disk }))
      | inr e ↦ rw (e, after_unmount) refl
    ]

-- A name's cache is dirty before the call and once a VFS that is shut down in it has settled.
abbrev pub DirtyThroughout : Bytes → UnstageWorld → Node → Type 0
DirtyThroughout name w n = (dirty_at name n.disk ≡ true) × (dirty_at name w.teardown.settled ≡ true)

pub unmount_within-keeps :
    (budget : ℕ) (w : UnstageWorld) (m : Manager) (n : Node) (name : Bytes)
    → DirtyThroughout name w n
    → (r : Bool × Manager × CacheDisk) × (unmount_within budget w m n.disk ≡ some r)
      × (dirty_at name r.2 ≡ true)
unfolding unmount_within
unmount_within-keeps budget w m n name h =
    let t : Teardown = record w.teardown { before = n.disk } in
    let seen : dirty_at name (disk_seen m t) ≡ true =
      elim (Bool-cases (not m.mounted && not w.teardown.is_mount_point)) [
        | inl e ↦ rw e h.0
        | inr e ↦ rw e h.1
      ] in
    unmount-keeps_dirty budget m t name seen

abbrev Keeps : Bytes → Option (Cleanup × Node) → Type 0
Keeps name o = (r : Cleanup × Node) × (o ≡ some r) × (dirty_at name r.1.disk ≡ true)

force-Keeps :
    (w : UnstageWorld) (v : Bytes) (n : Node) (name : Bytes)
    → DirtyThroughout name w n
    → Keeps name (force_cleanup_s3_sync w v n)
unfolding force_cleanup_s3_sync
force-Keeps w v n name h =
    let forgotten = record n { managers = delete v n.managers } in
    elim (Option-cases (lookup v n.managers)) [
      | inl e ↦ ((cleaned, forgotten), rw (e, force_cleanup_s3_sync) refl, h.0)
      | inr (m, e) ↦
          let (r, q, d) = unmount_within-keeps short_drain_wait w m n name h in
          ((cleaned, record forgotten { disk = r.2 }), rw (e, force_cleanup_s3_sync, q) refl, d)
    ]

unmanaged-disk :
    (w : UnstageWorld) (v staging : Bytes) (n : Node)
    → (cleanup_unmanaged w v staging n).1.disk ≡ n.disk
unfolding cleanup_unmanaged
unmanaged-disk w v staging n =
    elim (Bool-cases (bytes_eq staging [] || not (has_unuploaded_data (listing_of n.disk) v))) [
      | inl e ↦ rw (e, cleanup_unmanaged) refl
      | inr e ↦ rw (e, cleanup_unmanaged) (resume-disk w v staging n)
    ]

managed-Keeps :
    (w : UnstageWorld) (v staging : Bytes) (n : Node) (m : Manager) (name : Bytes)
    → DirtyThroughout name w n
    → Keeps name (cleanup_managed w v staging n m)
unfolding cleanup_managed
managed-Keeps w v staging n m name h =
    let (r, q, d) = unmount_within-keeps short_drain_wait w m n name h in
    let kept = after_unmount-disk w v staging n r in
    elim (Bool-cases (
      is_upload_queue_empty w.queue_mount_point (has_dirty_cache_on_disk m.vfs_name n.disk)
        w.queue_reply)) [
          | inl e ↦ (after_unmount w v staging n r, rw (e, cleanup_managed, q) refl, rw kept d)
          | inr e ↦ (
            (unuploaded_data, record n { drains = (start_background_drain v n.drains).1 }),
            rw (e, cleanup_managed) refl,
            h.0,
          )
        ]

-- cleanupS3Sync always returns, and no branch of it, the forced one included, deletes a cache that holds
-- unuploaded writes when it starts and when the VFS it shuts down has settled.
pub cleanup_s3_sync-keeps_dirty :
    (w : UnstageWorld) (v staging : Bytes) (n : Node) (name : Bytes)
    → (dirty_at name n.disk ≡ true) × (dirty_at name w.teardown.settled ≡ true)
    → (r : Cleanup × Node) × (cleanup_s3_sync w v staging n ≡ some r)
      × (dirty_at name r.1.disk ≡ true)
unfolding cleanup_s3_sync
cleanup_s3_sync-keeps_dirty w v staging n name h =
    let dirty = has_unuploaded_data (listing_of n.disk) v in
    elim (Bool-cases
      ((is_background_draining v n.drains || dirty) && force_unstage_requested w.client w.pv)) [
        | inl f ↦ let (r, q, d) = force-Keeps w v n name h in (r, rw (f, cleanup_s3_sync) q, d)
        | inr f ↦ elim (Bool-cases (is_background_draining v n.drains)) [
          | inl b ↦ ((unuploaded_data, n), rw (f, cleanup_s3_sync, b) refl, h.0)
          | inr b ↦ elim (Option-cases (lookup v n.managers)) [
            | inl l ↦ (
              cleanup_unmanaged w v staging n,
              rw (f, cleanup_s3_sync, b, l) refl,
              rw (unmanaged-disk w v staging n) h.0,
            )
            | inr (m, l) ↦
                let (r, q, d) = managed-Keeps w v staging n m name h in
                (r, rw (f, cleanup_s3_sync, b, l) q, d)
          ]
        ]
      ]

unmount_within-returns :
    (budget : ℕ) (w : UnstageWorld) (m : Manager) (n : Node)
    → (r : Bool × Manager × CacheDisk) × (unmount_within budget w m n.disk ≡ some r)
unfolding unmount_within
unmount_within-returns budget w m n =
    unmount-returns budget m (record w.teardown { before = n.disk })

force-returns :
    (w : UnstageWorld) (v : Bytes) (n : Node)
    → (r : Cleanup × Node) × (force_cleanup_s3_sync w v n ≡ some r)
unfolding force_cleanup_s3_sync
force-returns w v n =
    let forgotten = record n { managers = delete v n.managers } in
    elim (Option-cases (lookup v n.managers)) [
      | inl e ↦ ((cleaned, forgotten), rw (e, force_cleanup_s3_sync) refl)
      | inr (m, e) ↦
          let (r, q) = unmount_within-returns short_drain_wait w m n in
          ((cleaned, record forgotten { disk = r.2 }), rw (e, force_cleanup_s3_sync, q) refl)
    ]

managed-returns :
    (w : UnstageWorld) (v staging : Bytes) (n : Node) (m : Manager)
    → (r : Cleanup × Node) × (cleanup_managed w v staging n m ≡ some r)
unfolding cleanup_managed
managed-returns w v staging n m =
    let (r, q) = unmount_within-returns short_drain_wait w m n in
    elim (Bool-cases (
      is_upload_queue_empty w.queue_mount_point (has_dirty_cache_on_disk m.vfs_name n.disk)
        w.queue_reply)) [
          | inl e ↦ (after_unmount w v staging n r, rw (e, cleanup_managed, q) refl)
          | inr e ↦ (
            (unuploaded_data, record n { drains = (start_background_drain v n.drains).1 }),
            rw (e, cleanup_managed) refl,
          )
        ]

pub cleanup_s3_sync-returns :
    (w : UnstageWorld) (v staging : Bytes) (n : Node)
    → (r : Cleanup × Node) × (cleanup_s3_sync w v staging n ≡ some r)
unfolding cleanup_s3_sync
cleanup_s3_sync-returns w v staging n =
    let dirty = has_unuploaded_data (listing_of n.disk) v in
    elim (Bool-cases
      ((is_background_draining v n.drains || dirty) && force_unstage_requested w.client w.pv)) [
        | inl f ↦ let (r, q) = force-returns w v n in (r, rw (f, cleanup_s3_sync) q)
        | inr f ↦ elim (Bool-cases (is_background_draining v n.drains)) [
          | inl b ↦ ((unuploaded_data, n), rw (f, cleanup_s3_sync, b) refl)
          | inr b ↦ elim (Option-cases (lookup v n.managers)) [
            | inl l ↦ (cleanup_unmanaged w v staging n, rw (f, cleanup_s3_sync, b, l) refl)
            | inr (m, l) ↦
                let (r, q) = managed-returns w v staging n m in (r, rw (f, cleanup_s3_sync, b, l) q)
          ]
        ]
      ]

-- What is known of the volume when a cleanup that was not forced succeeds: where it had no manager, no
-- generation of its cache holds unuploaded writes; where it had one, the manager's own cache holds none
-- once its VFS has settled, unless the manager was not mounted, when it holds none at the start.
abbrev pub Uploaded : UnstageWorld → Bytes → Node → Option Manager → Type 0
Uploaded w v n none = has_unuploaded_data (listing_of n.disk) v ≡ false
Uploaded w v n (some m) =
    has_dirty_cache_on_disk m.vfs_name
      (if not m.mounted && not w.teardown.is_mount_point then n.disk else w.teardown.settled)
    ≡ false

unmount_within-drained :
    (budget : ℕ) (w : UnstageWorld) (v : Bytes) (n : Node) (m : Manager)
    (r : Bool × Manager × CacheDisk)
    → unmount_within budget w m n.disk ≡ some r
    → r.0 ≡ true
    → Uploaded w v n (some m)
unfolding unmount_within unmount
unmount_within-drained budget w v n m r q d =
    let t : Teardown = record w.teardown { before = n.disk } in
    elim (Bool-cases (not m.mounted && not w.teardown.is_mount_point)) [
      | inl e ↦
          let u : some (not (has_dirty_cache_on_disk m.vfs_name n.disk), m, n.disk) ≡ some r =
            rw (e, unmount) at q in
          rw e (ground arith)
      | inr e ↦ rw e (unmount-drained budget m t r e q d).1
    ]

abbrev succeeded : Option (Cleanup × Node) → Bool
succeeded none = false
succeeded (some (cleaned, n)) = true
succeeded (some (unuploaded_data, n)) = false

after_unmount-drained :
    (w : UnstageWorld) (v : Bytes) (c : ℕ) (path : Bytes) (n : Node)
    (r : Bool × Manager × CacheDisk)
    → succeeded (some (after_unmount w v (c ∷ path) n r)) ≡ true
    → r.0 ≡ true
unfolding after_unmount bytes_eq
after_unmount-drained w v c path n (true, m, d) h = refl
after_unmount-drained w v c path n (false, m, d) h = absurd (ground arith)

managed-Uploaded :
    (w : UnstageWorld) (v : Bytes) (c : ℕ) (path : Bytes) (n : Node) (m : Manager)
    → succeeded (cleanup_managed w v (c ∷ path) n m) ≡ true
    → Uploaded w v n (some m)
unfolding cleanup_managed
managed-Uploaded w v c path n m h =
    elim (Bool-cases (
      is_upload_queue_empty w.queue_mount_point (has_dirty_cache_on_disk m.vfs_name n.disk)
        w.queue_reply)) [
          | inl e ↦ elim (Option-cases (unmount_within short_drain_wait w m n.disk)) [
            | inl u ↦
                let q : false ≡ true = rw (e, cleanup_managed, u) at h in absurd (ground arith)
            | inr (r, u) ↦
                unmount_within-drained short_drain_wait w v n m r u
                  (after_unmount-drained w v c path n r (rw (e, cleanup_managed, u) at h))
          ]
          | inr e ↦ let q : false ≡ true = rw (e, cleanup_managed) at h in absurd (ground arith)
        ]

unmanaged-Uploaded :
    (w : UnstageWorld) (v : Bytes) (c : ℕ) (path : Bytes) (n : Node)
    → succeeded (some (cleanup_unmanaged w v (c ∷ path) n)) ≡ true
    → Uploaded w v n none
unfolding cleanup_unmanaged bytes_eq
unmanaged-Uploaded w v c path n h = elim (Bool-cases (has_unuploaded_data (listing_of n.disk) v)) [
  | inl e ↦ let q : false ≡ true = rw (e, cleanup_unmanaged) at h in absurd (ground arith)
  | inr e ↦ e
]

cleanup_s3_sync-Uploaded :
    (w : UnstageWorld) (v : Bytes) (c : ℕ) (path : Bytes) (n n' : Node)
    → force_unstage_requested w.client w.pv ≡ false
    → cleanup_s3_sync w v (c ∷ path) n ≡ some (cleaned, n')
    → (is_background_draining v n.drains ≡ false) × Uploaded w v n (lookup v n.managers)
unfolding cleanup_s3_sync
cleanup_s3_sync-Uploaded w v c path n n' f h =
    let yes = ap succeeded h in
    let dirty = has_unuploaded_data (listing_of n.disk) v in
    let g : ((is_background_draining v n.drains || dirty) && force_unstage_requested w.client w.pv)
        ≡ false =
      rw f (ground arith) in
    elim (Bool-cases (is_background_draining v n.drains)) [
      | inl b ↦ let q : false ≡ true = rw (g, cleanup_s3_sync, b) at yes in absurd (ground arith)
      | inr b ↦ elim (Option-cases (lookup v n.managers)) [
        | inl l ↦ rw l (b, unmanaged-Uploaded w v c path n (rw (g, cleanup_s3_sync, b, l) at yes))
        | inr (m, l) ↦
            rw l (b, managed-Uploaded w v c path n m (rw (g, cleanup_s3_sync, b, l) at yes))
      ]
    ]

abbrev is_ok : Option (UnstageStatus × Node) → Bool
is_ok (some (ok, n)) = true
is_ok _ = false

status_of-ok :
    (b : Bool) (r : Cleanup × Node)
    → is_ok (some (status_of b r.0, r.1)) ≡ true
    → (b ≡ true) × (r.0 ≡ cleaned)
status_of-ok true (cleaned, n) h = (refl, refl)
status_of-ok false (cleaned, n) h = absurd (ground arith)
status_of-ok b (unuploaded_data, n) h = absurd (ground arith)

-- When NodeUnstageVolume succeeds and the operator has not asked to force it, the staging was cleaned
-- up, no drain of the volume was running, and nothing was unuploaded where the driver looked: in every
-- generation's cache where the volume had no manager, in the manager's own cache, once its VFS had
-- settled, where it had one.
pub node_unstage_volume-ok :
    (w : UnstageWorld) (staging_cleaned : Bool) (v staging : Bytes) (n n' : Node)
    → force_unstage_requested w.client w.pv ≡ false
    → node_unstage_volume w staging_cleaned v staging n ≡ some (ok, n')
    → (staging_cleaned ≡ true)
      × (is_background_draining v n.drains ≡ false)
      × Uploaded w v n (lookup v n.managers)
unfolding node_unstage_volume bytes_eq
node_unstage_volume-ok w b [] staging n n' f h = let q = ap is_ok h in absurd (ground arith)
node_unstage_volume-ok w b (a ∷ v) [] n n' f h = let q = ap is_ok h in absurd (ground arith)
node_unstage_volume-ok w b (a ∷ v) (c ∷ path) n n' f h =
    let yes = ap is_ok h in
    elim (Option-cases (cleanup_s3_sync w (a ∷ v) (c ∷ path) n)) [
      | inl e ↦ let q : false ≡ true = rw (e, node_unstage_volume) at yes in absurd (ground arith)
      | inr (r, e) ↦
          let both = status_of-ok b r (rw (e, node_unstage_volume) at yes) in
          let done : cleanup_s3_sync w (a ∷ v) (c ∷ path) n ≡ some (cleaned, r.1) =
            rw (sym both.1) e in
          let up = cleanup_s3_sync-Uploaded w (a ∷ v) c path n r.1 f done in (both.0, up.0, up.1)
    ]
