-- ===== src/Rclone/Eviction.antt =====
-- pkg/rclone/syncmanager.go: the cache monitor's eviction pass. The files are those the walk of the cache
-- directory reports; their sizes are of one disk and add up below 2^63.
pub mod Outcome
use lukscryptwalker_csi.Base.{
  ℕ, ◌+◌, ◌-◌, ◌*◌, ◌/◌, ◌%◌, ◌^◌, Bool, true, false, not, ◌&&◌, ◌||◌, Option, none, some, List, [],
  ◌∷◌, ltb, leb, if◌then◌else◌,
}
use lukscryptwalker_csi.Base.Bytes.{Bytes}
use lukscryptwalker_csi.Rclone.Drain.{StatsReply, upload_queue_confirmed_empty}

pub record CachedFile : Type 0 where
  pub path : Bytes
  pub size : ℕ
  pub mod_time : ℕ

unfoldable pub total_size : List CachedFile → ℕ
total_size [] = 0
total_size (f ∷ fs) = f.size + total_size fs

-- sort.Slice by modification time
unfoldable pub insert_by_age : CachedFile → List CachedFile → List CachedFile
insert_by_age f [] = f ∷ []
insert_by_age f (g ∷ gs) =
    let rest = insert_by_age f gs in if ltb g.mod_time f.mod_time then g ∷ rest else f ∷ g ∷ gs

unfoldable pub oldest_first : List CachedFile → List CachedFile
unfolding insert_by_age
oldest_first [] = []
oldest_first (f ∷ fs) = insert_by_age f (oldest_first fs)

-- totalSize * 7 / 10 on int64; `none` is a product that wraps to a negative number
unfoldable pub shed_size : ℕ → Option ℕ
shed_size total = if ltb (total * 7 % 2 ^ 64) (2 ^ 63) then some (total * 7 % 2 ^ 64 / 10) else none

-- totalSize <= maxBytes, where a limit of `none` is negative
abbrev pub within : ℕ → Option ℕ → Bool
within total none = false
within total (some max_bytes) = leb total max_bytes

abbrev pub smaller_limit : Option ℕ → ℕ → Option ℕ
smaller_limit none max_bytes = none
smaller_limit (some shed) max_bytes = if ltb shed max_bytes then some shed else some max_bytes

-- The limit of a pass: less than a tenth of the disk's blocks free means that a third is shed. `blocks` are
-- the available and all the blocks, where statfs brings them.
unfoldable pub limit_of : Option (ℕ × ℕ) → ℕ → ℕ → Option ℕ
unfolding shed_size
limit_of none total max_bytes = some max_bytes
limit_of (some (available, blocks)) total max_bytes =
    if ltb 0 blocks && ltb (available * 10) blocks
    then smaller_limit (shed_size total) max_bytes
    else some max_bytes

-- What the loop meets: which files some process holds open, and which os.Remove removes.
pub record Files : Type 0 where
  pub is_open : CachedFile → Bool
  pub is_removable : CachedFile → Bool

abbrev pub gone :
    CachedFile → ℕ × List CachedFile × List CachedFile → ℕ × List CachedFile × List CachedFile
gone f (total, evicted, left) = (total, f ∷ evicted, left)

abbrev pub stays :
    CachedFile → ℕ × List CachedFile × List CachedFile → ℕ × List CachedFile × List CachedFile
stays f (total, evicted, left) = (total, evicted, f ∷ left)

-- The loop: the size that is left, the files evicted, and the files that stay.
unfoldable pub evict :
    Files → Option ℕ → ℕ → List CachedFile → ℕ × List CachedFile × List CachedFile
evict w limit total [] = (total, [], [])
evict w limit total (f ∷ fs) =
    if within total limit
    then (total, [], f ∷ fs)
    else let held = w.is_open f || not (w.is_removable f) in
      let rest = evict w limit (if held then total else total - f.size) fs in
      if held then stays f rest else gone f rest

-- The lists of core/stats: how many entries each has, where it is there and a list
pub record CoreStats : Type 0 where
  pub transferring : Option ℕ
  pub checking : Option ℕ

abbrev pub non_empty : Option ℕ → Bool
non_empty none = false
non_empty (some n) = ltb 0 n

-- The answer to core/stats: an error, no output, or an output.
pub data CoreReply : Type 0 where
  core_error : CoreReply
  no_output : CoreReply
  core_stats : CoreStats → CoreReply

-- hasActiveTransfers
unfoldable pub has_active_transfers : CoreReply → Bool
has_active_transfers core_error = true
has_active_transfers no_output = false
has_active_transfers (core_stats s) =
    if non_empty s.transferring then true else non_empty s.checking

-- core/stats, uploadQueueConfirmedEmpty, the walk, statfs, and the scan of open files, which
-- may fail.
pub record EvictionPass : Type 0 where
  pub core_reply : CoreReply
  pub is_mount_point : Bool
  pub reply : StatsReply
  pub files : List CachedFile
  pub blocks : Option (ℕ × ℕ)
  pub scan_ok : Bool
  pub world : Files

-- evictCacheIfNeeded
unfoldable pub evict_cache_if_needed : EvictionPass → ℕ → ℕ × List CachedFile × List CachedFile
unfolding evict oldest_first limit_of total_size has_active_transfers
evict_cache_if_needed p max_bytes =
    let total = total_size p.files in
    if has_active_transfers p.core_reply
      || not (upload_queue_confirmed_empty p.is_mount_point p.reply)
    then (total, [], p.files)
    else if within total (limit_of p.blocks total max_bytes)
    then (total, [], p.files)
    else if not p.scan_ok
    then (total, [], p.files)
    else evict p.world (limit_of p.blocks total max_bytes) total (oldest_first p.files)
