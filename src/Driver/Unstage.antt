-- ===== src/Driver/Unstage.antt =====
-- pkg/driver/node_s3.go and node.go: what unstaging an S3 volume does, up to the answer kubelet gets. The
-- API server, rclone and the clock are what the world shows; MountManager.unmount's error is always nil
-- in the source, so that branch is not here.
pub mod Answers
pub mod Generations
use lukscryptwalker_csi.Base.{
  ℕ, Bool, true, false, not, ◌&&◌, ◌||◌, Option, none, some, List, [], ◌∷◌, map, if◌then◌else◌,
}
use lukscryptwalker_csi.Base.Bytes.{Bytes, codes, bytes_eq}
use lukscryptwalker_csi.Base.Dict.{Dict, lookup, put, delete}
use lukscryptwalker_csi.Rclone.CacheDir.{Visit, MetaEntry, MetaListing, listed, has_unuploaded_data}
use lukscryptwalker_csi.Rclone.Drain.{
  Manager, CacheDisk, Teardown, StatsReply, unmount, has_dirty_cache_on_disk, is_upload_queue_empty,
  short_drain_wait, max_drain_wait,
}
use lukscryptwalker_csi.Driver.Drains.{
  Drains, start_background_drain, is_background_draining, finish_background_drain,
}

-- The node server's state that unstaging touches.
pub record Node : Type 0 where
  pub drains : Drains
  pub managers : Dict Manager
  pub disk : CacheDisk

abbrev pub entry_of : Bytes × List Visit → MetaEntry
entry_of (name, visits) = record { name = name; is_dir = true; visits = visits }

-- os.ReadDir of vfsMeta on a disk that can be read
abbrev pub listing_of : CacheDisk → MetaListing
listing_of d = listed (map entry_of d.caches)

-- A PV as far as forceUnstageRequested reads it: its annotation, and the claim it is bound to, with the
-- claim's annotation where the PVC can be read.
pub record VolumeObject : Type 0 where
  pub annotation : Option Bytes
  pub claim : Option (Option (Option Bytes))

abbrev pub says_true : Option Bytes → Bool
says_true none = false
says_true (some v) = bytes_eq v (codes "true")

abbrev pub claim_forces : Option (Option (Option Bytes)) → Bool
claim_forces none = false
claim_forces (some none) = false
claim_forces (some (some annotation)) = says_true annotation

-- forceUnstageRequested: whether there is a client, and the PV when it can be read
unfoldable pub force_unstage_requested : Bool → Option VolumeObject → Bool
force_unstage_requested false pv = false
force_unstage_requested true none = false
force_unstage_requested true (some pv) =
    if says_true pv.annotation then true else claim_forces pv.claim

-- What one call meets: the API's answers, IsUploadQueueEmpty's mount point and reply, and the unmount.
pub record UnstageWorld : Type 0 where
  pub client : Bool
  pub pv : Option VolumeObject
  pub context_readable : Bool
  pub queue_mount_point : Bool
  pub queue_reply : StatsReply
  pub teardown : Teardown

-- nil, or ErrUnuploadedData
pub data Cleanup : Type 0 where
  cleaned : Cleanup
  unuploaded_data : Cleanup

-- resumeStrandedDrain up to its goroutine: whether that is started, and the claimed slot
unfoldable pub resume_stranded_drain : UnstageWorld → Bytes → Bytes → Node → Bool × Node
unfolding start_background_drain
resume_stranded_drain w v [] n = (false, n)
resume_stranded_drain w v (c ∷ path) n =
    if not w.context_readable
    then (false, n)
    else let (started, drains) = start_background_drain v n.drains in
      (started, record n { drains = drains })

-- MountManager.unmount, on the disk as it is
unfoldable pub unmount_within :
    ℕ → UnstageWorld → Manager → CacheDisk → Option (Bool × Manager × CacheDisk)
unmount_within budget w m disk = unmount budget m (record w.teardown { before = disk })

-- forceCleanupS3Sync
unfoldable pub force_cleanup_s3_sync : UnstageWorld → Bytes → Node → Option (Cleanup × Node)
unfolding unmount_within
force_cleanup_s3_sync w v n =
    let forgotten = record n { managers = delete v n.managers } in
    elim (lookup v n.managers) [
      | none ↦ some (cleaned, forgotten)
      | some m ↦ elim (unmount_within short_drain_wait w m n.disk) [
        | none ↦ none
        | some r ↦ some (cleaned, record forgotten { disk = r.2 })
      ]
    ]

-- The fast path of cleanupS3Sync after UnmountWithin.
unfoldable pub after_unmount :
    UnstageWorld → Bytes → Bytes → Node → Bool × Manager × CacheDisk → Cleanup × Node
unfolding resume_stranded_drain
after_unmount w v staging n (drained, m, disk) =
    let gone = record n { managers = delete v n.managers; disk = disk } in
    if not drained && not (bytes_eq staging [])
    then (unuploaded_data, (resume_stranded_drain w v staging gone).1)
    else (cleaned, gone)

-- cleanupS3Sync where the volume has no mount manager
unfoldable pub cleanup_unmanaged : UnstageWorld → Bytes → Bytes → Node → Cleanup × Node
unfolding resume_stranded_drain
cleanup_unmanaged w v staging n =
    if bytes_eq staging [] || not (has_unuploaded_data (listing_of n.disk) v)
    then (cleaned, n)
    else (unuploaded_data, (resume_stranded_drain w v staging n).1)

-- cleanupS3Sync where it has one: the fast path, or a background drain
unfoldable pub cleanup_managed :
    UnstageWorld → Bytes → Bytes → Node → Manager → Option (Cleanup × Node)
unfolding after_unmount start_background_drain unmount_within
cleanup_managed w v staging n m =
    if is_upload_queue_empty w.queue_mount_point (has_dirty_cache_on_disk m.vfs_name n.disk)
      w.queue_reply
    then elim (unmount_within short_drain_wait w m n.disk) [
      | none ↦ none
      | some r ↦ some (after_unmount w v staging n r)
    ]
    else some (unuploaded_data, record n { drains = (start_background_drain v n.drains).1 })

-- cleanupS3Sync; `none` is an unmount that is out of fuel
unfoldable pub cleanup_s3_sync : UnstageWorld → Bytes → Bytes → Node → Option (Cleanup × Node)
unfolding force_cleanup_s3_sync cleanup_unmanaged cleanup_managed is_background_draining
cleanup_s3_sync w v staging n =
    if (is_background_draining v n.drains || has_unuploaded_data (listing_of n.disk) v)
      && force_unstage_requested w.client w.pv
    then force_cleanup_s3_sync w v n
    else if is_background_draining v n.drains
    then some (unuploaded_data, n)
    else elim (lookup v n.managers) [
      | none ↦ some (cleanup_unmanaged w v staging n)
      | some m ↦ cleanup_managed w v staging n m
    ]

-- The goroutine that cleanupS3Sync starts, when it ends.
unfoldable pub background_drain : UnstageWorld → Bytes → Node → Option Node
unfolding finish_background_drain unmount_within
background_drain w v n = elim (lookup v n.managers) [
  | none ↦ some (record n { drains = finish_background_drain v false n.drains })
  | some m ↦ elim (unmount_within max_drain_wait w m n.disk) [
    | none ↦ none
    | some r ↦ some (record {
      drains = finish_background_drain v r.0 n.drains;
      managers = delete v n.managers;
      disk = r.2;
    })
  ]
]

-- The goroutine that resumeStrandedDrain starts, when it ends; `mounted` is the manager that its mount
-- has registered, where that succeeded.
unfoldable pub resumed_drain : UnstageWorld → Bytes → Option Manager → Node → Option Node
unfolding background_drain finish_background_drain
resumed_drain w v none n = some (record n { drains = finish_background_drain v false n.drains })
resumed_drain w v (some m) n = background_drain w v (record n { managers = put v m n.managers })

-- The status of NodeUnstageVolume.
pub data UnstageStatus : Type 0 where
  ok : UnstageStatus
  invalid_argument : UnstageStatus
  failed_precondition : UnstageStatus
  internal : UnstageStatus

-- NodeUnstageVolume after cleanupS3Sync; `staging_cleaned` is cleanupVolumeStaging's success
abbrev pub status_of : Bool → Cleanup → UnstageStatus
status_of staging_cleaned unuploaded_data = failed_precondition
status_of true cleaned = ok
status_of false cleaned = internal

-- NodeUnstageVolume, validateUnstageVolumeRequest with it
unfoldable pub node_unstage_volume :
    UnstageWorld → Bool → Bytes → Bytes → Node → Option (UnstageStatus × Node)
unfolding cleanup_s3_sync
node_unstage_volume w staging_cleaned v staging n =
    if bytes_eq v [] || bytes_eq staging []
    then some (invalid_argument, n)
    else elim (cleanup_s3_sync w v staging n) [
      | none ↦ none
      | some r ↦ some (status_of staging_cleaned r.0, r.1)
    ]
