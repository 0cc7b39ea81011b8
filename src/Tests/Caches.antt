-- ===== src/Tests/Caches.antt =====
-- Caches, drains and VFS names in use, at concrete inputs.
use lukscryptwalker_csi.Base.{
  ℕ, ◌&&◌, ◌*◌, ◌^◌, ◌≡◌, ◌≢◌, refl, Bool, true, false, Option, none, some, List, [], ◌∷◌, arith,
  count,
}
use lukscryptwalker_csi.Base.Bytes.{Bytes, codes, bytes_eq}
use lukscryptwalker_csi.Base.Decimal.{pos}
use lukscryptwalker_csi.Base.Sets.{member}
use lukscryptwalker_csi.Rclone.CacheDir.{
  CacheItem, Metadata, parsed, unreadable, is_cache_item_dirty, validate_vfs_cache, directory, file,
  has_dirty_cache_items, MetaEntry, listed, has_unuploaded_data, volumes_with_unuploaded_data,
}
use lukscryptwalker_csi.Rclone.CacheDir.Scan.{volumes_with_unuploaded_data-member}
use lukscryptwalker_csi.Rclone.CacheDir.Validate.{
  validate_vfs_cache-keeps_dirty, validate_vfs_cache-sorts, metas_kept, datas_kept, has_data,
  Sorted,
}
use lukscryptwalker_csi.Rclone.Drain.{
  Poll, StatsReply, stats, rpc_error, Manager, CacheDisk, Teardown, unmount,
  wait_for_pending_uploads, second, walk_of, has_dirty_cache_on_disk, upload_queue_confirmed_empty,
}
use lukscryptwalker_csi.Rclone.Drain.Termination.{wait_for_pending_uploads-returns}
use lukscryptwalker_csi.Rclone.Drain.Confirmed.{ConfirmedAt, wait_for_pending_uploads-confirmed}
use lukscryptwalker_csi.Rclone.Drain.Unmount.{dirty_at, unmount-keeps_dirty, unmount-drained}
use lukscryptwalker_csi.Rclone.Eviction.{
  CachedFile, Files, EvictionPass, core_stats, evict_cache_if_needed, has_active_transfers,
  limit_of, total_size,
}
use lukscryptwalker_csi.Rclone.Eviction.Outcome.{Evicts, evict_cache_if_needed-Evicts}
use lukscryptwalker_csi.Rclone.Sweep.{VfsEntry}
use lukscryptwalker_csi.Rclone.Exclusive.{Turn, Outcome, ensure_exclusive_vfs_name}
use lukscryptwalker_csi.Rclone.Exclusive.Generation.{Justified, ensure_exclusive_vfs_name-Justified}

abbrev dirty_metadata : Metadata
dirty_metadata = parsed (record { size = pos 4; is_dirty = true; ranges = [] })

abbrev past_end : Bool → Metadata
past_end dirty = parsed (record {
  size = pos 4;
  is_dirty = dirty;
  ranges = record { start = pos 0; extent = pos 9 } ∷ [];
})

-- Of the first only the metadata can be moved aside, the second has no data file, and the third is clean
-- and cannot be removed.
abbrev items : List CacheItem
items =
    record {
      rel = codes "a";
      is_walked = true;
      metadata = past_end true;
      reread = past_end true;
      data_size = some (pos 4);
      quarantine_made = true;
      data_moved = false;
      meta_moved = true;
      meta_removed = true;
      data_removed = true;
    }
    ∷ record {
      rel = codes "b";
      is_walked = true;
      metadata = unreadable;
      reread = unreadable;
      data_size = none;
      quarantine_made = true;
      data_moved = true;
      meta_moved = true;
      meta_removed = true;
      data_removed = true;
    }
    ∷ record {
      rel = codes "c";
      is_walked = true;
      metadata = past_end false;
      reread = past_end false;
      data_size = some (pos 4);
      quarantine_made = true;
      data_moved = true;
      meta_moved = true;
      meta_removed = false;
      data_removed = true;
    }
    ∷ []

abbrev dirty_item : CacheItem → Bool
dirty_item i = is_cache_item_dirty i.reread

dirty_item_dirty : (i : CacheItem) → dirty_item i ≡ true → is_cache_item_dirty i.reread ≡ true
dirty_item_dirty i h = h

validate_vfs_cache-keeps_dirty_example :
    (metas_kept dirty_item (validate_vfs_cache items) ≡ count dirty_item items)
    × (datas_kept dirty_item (validate_vfs_cache items)
        ≡ count (λ i. has_data i && dirty_item i) items)
validate_vfs_cache-keeps_dirty_example =
    validate_vfs_cache-keeps_dirty dirty_item items dirty_item_dirty

validate_vfs_cache-sorts_example : Sorted (validate_vfs_cache items)
validate_vfs_cache-sorts_example = validate_vfs_cache-sorts items

abbrev entries : List MetaEntry
entries =
    record { name = codes "v.g1"; is_dir = true; visits = directory ∷ file dirty_metadata ∷ [] }
    ∷ []

v_full : codes "v" ≢ []
v_full e = absurd (ground arith)

volumes_with_unuploaded_data-member_example :
    member (codes "v") (volumes_with_unuploaded_data (listed entries))
    ≡ has_unuploaded_data (listed entries) (codes "v")
volumes_with_unuploaded_data-member_example =
    volumes_with_unuploaded_data-member (codes "v") entries v_full

abbrev empty_queue : StatsReply
empty_queue = stats (some (record { uploads_in_progress = some 0; uploads_queued = some 0 }))

abbrev quiet_world : ℕ → Poll
quiet_world i = record { is_mount_point = true; delay = 1; reply = empty_queue; took = 10 }

abbrev failing_world : ℕ → Poll
failing_world i = record {
  is_mount_point = true;
  delay = 0;
  reply = rpc_error (codes "connection refused");
  took = 10 ^ 9;
}

wait_for_pending_uploads-returns_example :
    (b : Bool) × (wait_for_pending_uploads (60 * second) (codes "5s") false failing_world 0
      ≡ some b)
wait_for_pending_uploads-returns_example =
    wait_for_pending_uploads-returns (60 * second) (codes "5s") false failing_world 0

quiet_drain : wait_for_pending_uploads (60 * second) (codes "") true quiet_world 0 ≡ some true
unfolding wait_for_pending_uploads
quiet_drain = refl

wait_for_pending_uploads-confirmed_example : (j : ℕ) × ConfirmedAt true quiet_world j
wait_for_pending_uploads-confirmed_example =
    wait_for_pending_uploads-confirmed (60 * second) (codes "") true quiet_world 0 quiet_drain

abbrev manager : Manager
manager = record {
  vfs_name = codes "v";
  write_back = codes "";
  mounted = true;
  session_path = codes "/s";
}

abbrev dirty_disk : CacheDisk
dirty_disk = record { caches = (codes "v", file dirty_metadata ∷ []) ∷ []; named = true }

abbrev clean_disk : CacheDisk
clean_disk = record { caches = (codes "v", directory ∷ []) ∷ []; named = true }

abbrev dirty_teardown : Teardown
dirty_teardown = record {
  is_mount_point = true;
  world = quiet_world;
  now = 0;
  before = dirty_disk;
  settled = dirty_disk;
}

abbrev clean_teardown : Teardown
clean_teardown = record {
  is_mount_point = true;
  world = quiet_world;
  now = 0;
  before = dirty_disk;
  settled = clean_disk;
}

unmount-keeps_dirty_example :
    (r : Bool × Manager × CacheDisk) × (unmount (60 * second) manager dirty_teardown ≡ some r)
    × (dirty_at (codes "v") r.2 ≡ true)
unfolding has_dirty_cache_items walk_of bytes_eq
unmount-keeps_dirty_example =
    unmount-keeps_dirty (60 * second) manager dirty_teardown (codes "v") refl

abbrev clean_end : Bool × Manager × CacheDisk
clean_end = (
  true,
  record { vfs_name = codes "v"; write_back = codes ""; mounted = false; session_path = [] },
  record { caches = []; named = false },
)

clean_unmount : unmount (60 * second) manager clean_teardown ≡ some clean_end
unfolding unmount bytes_eq
clean_unmount = refl

unmount-drained_example :
    ((j : ℕ) × ConfirmedAt true quiet_world j)
    × (has_dirty_cache_on_disk (codes "v") clean_disk ≡ false)
unfolding bytes_eq
unmount-drained_example =
    unmount-drained (60 * second) manager clean_teardown clean_end refl clean_unmount refl

abbrev taken_turn : ℕ → Turn
taken_turn i = record { listed = some (some (codes "v:") ∷ []); ended = 0; relisted = none }

ensure_exclusive_vfs_name-Justified_example :
    (o : Outcome) × (ensure_exclusive_vfs_name (codes "v") taken_turn 0 ≡ some o)
    × Justified (codes "v") taken_turn 0 o
ensure_exclusive_vfs_name-Justified_example =
    ensure_exclusive_vfs_name-Justified (codes "v") taken_turn 0

abbrev vfses : List (Option Bytes)
vfses = some (codes "v:[0]") ∷ some (codes "w:") ∷ none ∷ some (codes "v:[1]") ∷ []

abbrev old_file : CachedFile
old_file = record { path = codes "a"; size = 10; mod_time = 1 }

abbrev new_file : CachedFile
new_file = record { path = codes "b"; size = 10; mod_time = 2 }

abbrev all_closed : Files
all_closed = record { is_open = λ f. false; is_removable = λ f. true }

abbrev eviction : EvictionPass
eviction = record {
  core_reply = core_stats (record { transferring = some 0; checking = none });
  is_mount_point = true;
  reply = empty_queue;
  files = new_file ∷ old_file ∷ [];
  blocks = some (50, 100);
  scan_ok = true;
  world = all_closed;
}

evicts_oldest : evict_cache_if_needed eviction 15 ≡ (10, old_file ∷ [], new_file ∷ [])
unfolding evict_cache_if_needed upload_queue_confirmed_empty
evicts_oldest = refl

evict_cache_if_needed-Evicts_example :
    (has_active_transfers (core_stats (record { transferring = some 0; checking = none })) ≡ false)
    × (upload_queue_confirmed_empty true empty_queue ≡ true)
    × (true ≡ true)
    × Evicts all_closed
        (limit_of (some (50, 100)) (total_size (new_file ∷ old_file ∷ [])) 15)
        (10, old_file ∷ [], new_file ∷ [])
evict_cache_if_needed-Evicts_example =
    evict_cache_if_needed-Evicts eviction 15 old_file [] (new_file ∷ []) 10 evicts_oldest

abbrev none_active : Bytes → Bool
none_active v = false

abbrev left_over : Option (List VfsEntry)
left_over = some (record { name = codes "v.g1"; is_dir = true } ∷ [])
