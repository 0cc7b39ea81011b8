-- ===== src/Driver/Unstage/Generations.antt =====
-- Cleanups and the caches of other generations.
use lukscryptwalker_csi.Base.{
  ℕ, ◌≡◌, refl, sym, ap, ◌∙◌, inl, inr, Bool, true, false, ◌&&◌, ◌||◌, Option, none, some, List, [],
  ◌∷◌, map, arith, any, Bool-cases,
}
use lukscryptwalker_csi.Base.Bytes.{Bytes, bytes_eq, bytes_eq→eq, bytes_eq_refl}
use lukscryptwalker_csi.Rclone.VfsName.{volume_id_of_vfs_name}
use lukscryptwalker_csi.Rclone.CacheDir.{
  Visit, has_unuploaded_data, holds_dirty_for, has_dirty_cache_items,
}
use lukscryptwalker_csi.Base.Dict.{lookup, delete}
use lukscryptwalker_csi.Driver.Drains.{is_background_draining}
use lukscryptwalker_csi.Rclone.Drain.{
  CacheDisk, Manager, walk_of, is_upload_queue_empty, has_dirty_cache_on_disk, short_drain_wait,
}
use lukscryptwalker_csi.Rclone.Drain.Unmount.{dirty_at}
use lukscryptwalker_csi.Driver.Unstage.{
  Node, UnstageWorld, Cleanup, cleaned, listing_of, entry_of, cleanup_s3_sync, cleanup_managed,
  after_unmount, unmount_within, force_unstage_requested,
}
use lukscryptwalker_csi.Driver.Unstage.Answers.{cleanup_s3_sync-keeps_dirty}

any-dirty :
    (c : ℕ) (v name : Bytes) (cs : List (Bytes × List Visit))
    → volume_id_of_vfs_name name ≡ c ∷ v
    → has_dirty_cache_items (walk_of name cs) ≡ true
    → any (holds_dirty_for (c ∷ v)) (map entry_of cs) ≡ true
unfolding walk_of any has_dirty_cache_items
any-dirty c v name [] e h = absurd (ground arith)
any-dirty c v name ((other, visits) ∷ cs) e h = elim (Bool-cases (bytes_eq name other)) [
  | inl q ↦
      let here : has_dirty_cache_items visits ≡ true = rw q at h in
      let id : volume_id_of_vfs_name other ≡ c ∷ v = rw (sym (bytes_eq→eq name other q)) e in
      rw (id, bytes_eq_refl (c ∷ v), here) refl
  | inr q ↦ let rest = any-dirty c v name cs e (rw q at h) in rw rest (ground arith)
]

-- A cleanup succeeds while another generation's cache still holds unuploaded writes of the volume: it
-- is enough that the volume has a manager whose queue is empty and whose own cache drains, that no drain
-- runs and that nothing is forced. HasUnuploadedData says so of the node it leaves. The name is of the
-- volume, and its cache is dirty when the cleanup starts and when the VFS it shuts down has settled.
pub cleanup_s3_sync-misses_generation :
    (w : UnstageWorld) (c : ℕ) (v staging : Bytes) (n : Node) (m : Manager)
    (r : Bool × Manager × CacheDisk) (name : Bytes)
    → volume_id_of_vfs_name name ≡ c ∷ v
    → (dirty_at name n.disk ≡ true) × (dirty_at name w.teardown.settled ≡ true)
    → is_background_draining (c ∷ v) n.drains ≡ false
    → force_unstage_requested w.client w.pv ≡ false
    → lookup (c ∷ v) n.managers ≡ some m
    → is_upload_queue_empty w.queue_mount_point
        (has_dirty_cache_on_disk m.vfs_name n.disk)
        w.queue_reply
      ≡ true
    → unmount_within short_drain_wait w m n.disk ≡ some r
    → r.0 ≡ true
    → (left : Node) × (cleanup_s3_sync w (c ∷ v) staging n ≡ some (cleaned, left))
      × (has_unuploaded_data (listing_of left.disk) (c ∷ v) ≡ true)
unfolding has_unuploaded_data cleanup_s3_sync cleanup_managed after_unmount
cleanup_s3_sync-misses_generation w c v staging n m r name e h b f l q u d =
    let (found, k, dirty) = cleanup_s3_sync-keeps_dirty w (c ∷ v) staging n name h in
    let forced : ((is_background_draining (c ∷ v) n.drains
            || has_unuploaded_data (listing_of n.disk) (c ∷ v))
          && force_unstage_requested w.client w.pv)
        ≡ false =
      rw f (ground arith) in
    let left = record n { managers = delete (c ∷ v) n.managers; disk = r.2 } in
    let done : cleanup_s3_sync w (c ∷ v) staging n ≡ some (cleaned, left) =
      rw (forced, cleanup_s3_sync, b, l, q, cleanup_managed, u, after_unmount, d) refl in
    let same : r.2 ≡ found.1.disk = ap (disk_in r.2) (sym done ∙ k) in
    (left, done, any-dirty c v name r.2.caches e (rw same dirty))
  where
    disk_in : CacheDisk → Option (Cleanup × Node) → CacheDisk
    disk_in d none = d
    disk_in d (some (x, n)) = n.disk
