-- ===== src/Rclone/Drain.antt =====
-- pkg/rclone/syncmanager.go: the write-back queue's drain and the unmount. rclone's vfs/stats, the host
-- mount table and the clock are what the world shows at each poll. Times are nanoseconds.
pub mod Termination
pub mod Unmount
pub mod Confirmed
use lukscryptwalker_csi.Base.{
  ℕ, zero, suc, ◌+◌, ◌-◌, ◌*◌, ◌/◌, ◌^◌, min, Bool, true, false, not, ◌&&◌, ◌||◌, Option, none,
  some, List, [], ◌∷◌, ltb, leb, ◌==◌, if◌then◌else◌, is_some,
}
use lukscryptwalker_csi.Base.Bytes.{Bytes, codes, contains, bytes_eq}
use lukscryptwalker_csi.Base.Decimal.{ℤ, pos, negsuc}
use lukscryptwalker_csi.Rclone.Units.{parse_duration_to_ns}
use lukscryptwalker_csi.Rclone.CacheDir.{Visit, has_dirty_cache_items}

-- time.Second
abbrev pub second : ℕ
second = 10 ^ 9

-- rpcStatsTimeout, maxDrainWait, ShortDrainWait
abbrev pub rpc_stats_timeout : ℕ
rpc_stats_timeout = 120 * second

abbrev pub max_drain_wait : ℕ
max_drain_wait = 21600 * second

abbrev pub short_drain_wait : ℕ
short_drain_wait = 60 * second

abbrev pub poll_interval : ℕ
poll_interval = 2 * second

-- isNoVFSError, isAmbiguousVFSError
unfoldable pub is_no_vfs_error : Bytes → Bool
is_no_vfs_error err = contains err (codes "no VFS found")

unfoldable pub is_ambiguous_vfs_error : Bytes → Bool
is_ambiguous_vfs_error err = contains err (codes "more than one VFS active")

-- The diskCache section of vfs/stats; a field is `none` when it is missing or no number.
pub record DiskCache : Type 0 where
  pub uploads_in_progress : Option ℕ
  pub uploads_queued : Option ℕ

-- What RPCWithTimeout returns for vfs/stats: an error, or an output with or without a diskCache.
pub data StatsReply : Type 0 where
  rpc_error : Bytes → StatsReply
  stats : Option DiskCache → StatsReply

abbrev pub or_zero : Option ℕ → ℕ
or_zero none = 0
or_zero (some n) = n

-- What waitForPendingUploads reads from a reply: both counts start at zero.
unfoldable pub shows_empty : Option DiskCache → Bool
shows_empty none = true
shows_empty (some dc) = or_zero dc.uploads_in_progress == 0 && or_zero dc.uploads_queued == 0

-- What one poll of the loop meets: whether the staging path is a mount point, how long after the
-- loop's test the budget is computed, the reply and how long the call took.
pub record Poll : Type 0 where
  pub is_mount_point : Bool
  pub delay : ℕ
  pub reply : StatsReply
  pub took : ℕ

pub data PollResult : Type 0 where
  confirmed : PollResult
  gave_up : PollResult
  again : ℕ → PollResult

-- What a poll makes of the reply; `later` is the time after the call and the sleep.
unfoldable pub after_reply : ℕ → StatsReply → PollResult
unfolding is_no_vfs_error is_ambiguous_vfs_error shows_empty
after_reply later (rpc_error err) =
    if is_no_vfs_error err
    then gave_up
    else if is_ambiguous_vfs_error err
    then gave_up
    else again later
after_reply later (stats dc) = if shows_empty dc then confirmed else again later

-- One iteration at time `now`, before the deadline. `again t`: the loop's test is made at t.
unfoldable pub poll_once : Bool → ℕ → ℕ → Poll → PollResult
unfolding after_reply
poll_once has_session deadline now p =
    if not has_session && not p.is_mount_point
    then gave_up
    else if leb deadline (now + p.delay)
    then gave_up
    else after_reply (now + p.delay + p.took + poll_interval) p.reply

-- The loop, on fuel; `none` is out of fuel. `world i` is what the i-th poll meets.
unfoldable pub poll_loop : ℕ → Bool → ℕ → (ℕ → Poll) → ℕ → ℕ → Option Bool
unfolding poll_once
poll_loop zero has_session deadline world i now = none
poll_loop (suc fuel) has_session deadline world i now =
    if ltb now deadline
    then elim (poll_once has_session deadline now (world i)) [
      | confirmed ↦ some true
      | gave_up ↦ some false
      | again later ↦ poll_loop fuel has_session deadline world (suc i) later
    ]
    else some false

-- writeBackWait in seconds; a negative delay is a wait of less than the two seconds added to it
abbrev pub seconds_of : Option ℤ → ℕ
seconds_of none = 5 + 2
seconds_of (some (pos ns)) = ns / 10 ^ 9 + 2
seconds_of (some (negsuc ns)) = 2 - (ns + 1) / 10 ^ 9

unfoldable pub write_back_wait : Bytes → ℕ
write_back_wait [] = 5 + 2
write_back_wait (c ∷ s) = seconds_of (parse_duration_to_ns (c ∷ s))

-- min(time.Duration(writeBackWait)*time.Second, maxWait): a product of 2^63 or more wraps to a
-- negative number, and time.Sleep of it returns at once.
unfoldable pub flush_wait : Bytes → ℕ → ℕ
unfolding write_back_wait
flush_wait write_back max_wait =
    if ltb (write_back_wait write_back * second) (2 ^ 63)
    then min (write_back_wait write_back * second) max_wait
    else 0

-- The fuel for a budget: each poll sleeps for two seconds.
unfoldable pub polls_within : ℕ → ℕ
polls_within max_wait = suc (max_wait / poll_interval + 1)

-- waitForPendingUploads from time `now`
unfoldable pub wait_for_pending_uploads : ℕ → Bytes → Bool → (ℕ → Poll) → ℕ → Option Bool
unfolding poll_loop polls_within flush_wait
wait_for_pending_uploads zero write_back has_session world now = some false
wait_for_pending_uploads (suc n) write_back has_session world now =
    let max_wait = suc n in
    poll_loop (polls_within max_wait) has_session (now + max_wait) world 0
      (now + flush_wait write_back max_wait)

-- IsUploadQueueEmpty: `dirty` is hasDirtyCacheOnDisk at that moment
unfoldable pub is_upload_queue_empty : Bool → Bool → StatsReply → Bool
unfolding is_no_vfs_error is_ambiguous_vfs_error shows_empty
is_upload_queue_empty false dirty reply = not dirty
is_upload_queue_empty true dirty (rpc_error err) =
    if is_no_vfs_error err || is_ambiguous_vfs_error err then not dirty else false
is_upload_queue_empty true dirty (stats none) = false
is_upload_queue_empty true dirty (stats (some dc)) = shows_empty (some dc)

abbrev pub shown_zero : Option ℕ → Bool
shown_zero none = false
shown_zero (some n) = n == 0

-- uploadQueueConfirmedEmpty
unfoldable pub upload_queue_confirmed_empty : Bool → StatsReply → Bool
upload_queue_confirmed_empty false reply = false
upload_queue_confirmed_empty true (rpc_error err) = false
upload_queue_confirmed_empty true (stats none) = false
upload_queue_confirmed_empty true (stats (some dc)) =
    shown_zero dc.uploads_in_progress && shown_zero dc.uploads_queued

-- The fields of MountManager that the unmount reads and writes.
pub record Manager : Type 0 where
  pub vfs_name : Bytes
  pub write_back : Bytes
  pub mounted : Bool
  pub session_path : Bytes

-- The cache trees of the node by name, and the persisted map's entry of the volume.
pub record CacheDisk : Type 0 where
  pub caches : List (Bytes × List Visit)
  pub named : Bool

-- The walk below vfsMeta/<name>; a missing tree is a walk that fails with "does not exist".
unfoldable pub walk_of : Bytes → List (Bytes × List Visit) → List Visit
walk_of name [] = Visit.failure true ∷ []
walk_of name ((other, visits) ∷ rest) =
    let w = walk_of name rest in if bytes_eq name other then visits else w

-- os.RemoveAll of vfs/<name> and vfsMeta/<name>
unfoldable pub remove_all : Bytes → List (Bytes × List Visit) → List (Bytes × List Visit)
remove_all name [] = []
remove_all name ((other, visits) ∷ rest) =
    let r = remove_all name rest in if bytes_eq name other then r else (other, visits) ∷ r

-- hasDirtyCacheOnDisk
unfoldable pub has_dirty_cache_on_disk : Bytes → CacheDisk → Bool
unfolding has_dirty_cache_items walk_of
has_dirty_cache_on_disk [] d = false
has_dirty_cache_on_disk (c ∷ name) d = has_dirty_cache_items (walk_of (c ∷ name) d.caches)

-- cleanupVFSCacheDir, where the removals succeed
unfoldable pub cleanup_vfs_cache_dir : Bytes → CacheDisk → CacheDisk
unfolding remove_all
cleanup_vfs_cache_dir [] d = d
cleanup_vfs_cache_dir (c ∷ name) d = record d {
  caches = remove_all (c ∷ name) d.caches;
  named = false;
}

-- What happens around one unmount: whether the staging path is a mount point when it starts, the polls
-- of the drain, and the disk before it and once the VFS has shut down (uploads finish, writes arrive).
pub record Teardown : Type 0 where
  pub is_mount_point : Bool
  pub world : ℕ → Poll
  pub now : ℕ
  pub before : CacheDisk
  pub settled : CacheDisk

-- The end of unmount, from the drain's result on.
unfoldable pub settle : Bool → Manager → CacheDisk → Bool × Manager × CacheDisk
unfolding cleanup_vfs_cache_dir has_dirty_cache_on_disk
settle waited m disk =
    let drained = waited && not (has_dirty_cache_on_disk m.vfs_name disk) in
    (
      drained,
      record m { mounted = false; session_path = [] },
      if drained then cleanup_vfs_cache_dir m.vfs_name disk else disk,
    )

-- unmount; `none` is a drain that is out of fuel
unfoldable pub unmount : ℕ → Manager → Teardown → Option (Bool × Manager × CacheDisk)
unfolding settle wait_for_pending_uploads has_dirty_cache_on_disk
unmount drain_budget m t =
    if not m.mounted && not t.is_mount_point
    then some (not (has_dirty_cache_on_disk m.vfs_name t.before), m, t.before)
    else elim (wait_for_pending_uploads drain_budget m.write_back (not (bytes_eq m.session_path []))
        t.world t.now) [ none ↦ none | some waited ↦ some (settle waited m t.settled) ]
