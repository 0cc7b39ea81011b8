-- ===== src/Tests/Nodes.antt =====
-- The node server at concrete inputs.
use lukscryptwalker_csi.Base.{
  zero, suc, ◌^◌, All, ◌⊎◌, ℕ, ◌+◌, ◌*◌, ◌≤◌, ◌≡◌, refl, Bool, true, false, none, some, List, [],
  ◌∷◌, arith,
}
use lukscryptwalker_csi.Base.Bytes.{Bytes, codes, bytes_eq, last_index}
use lukscryptwalker_csi.Base.Decimal.{parse_int, pos, itoa}
use lukscryptwalker_csi.Base.Dict.{lookup, put, delete}
use lukscryptwalker_csi.Base.Sets.{member}
use lukscryptwalker_csi.Rclone.VfsName.{volume_id_of_vfs_name}
use lukscryptwalker_csi.Rclone.CacheDir.{
  unreadable, directory, file, has_unuploaded_data, has_dirty_cache_items,
}
use lukscryptwalker_csi.Rclone.Drain.{
  Poll, stats, Manager, CacheDisk, walk_of, unmount, short_drain_wait, is_upload_queue_empty,
}
use lukscryptwalker_csi.Rclone.Drain.Unmount.{dirty_at}
use lukscryptwalker_csi.Driver.Publish.{
  Liveness, PublishWorld, node_publish_volume, bind_mount, bind_status, UnwindTurn,
}
use lukscryptwalker_csi.Driver.Publish.Live.{IsLive, is_bound_as_asked, node_publish_volume-IsLive}
use lukscryptwalker_csi.Driver.Controller.{
  Capability, CreateRequest, Volume, create_volume, created, single_node_writer, topology_key_node,
  pinned_node_param, is_s3,
}
use lukscryptwalker_csi.Driver.Controller.Placement.{IsSupported, IsPlaced, create_volume-IsPlaced}
use lukscryptwalker_csi.Driver.Drains.{
  DrainEvent, starts, finishes, forgets, clears, restarts, run, load_pending_drains,
  is_background_draining,
}
use lukscryptwalker_csi.Driver.Unstage.{
  Node, UnstageWorld, cleaned, ok, cleanup_s3_sync, node_unstage_volume, listing_of,
  force_unstage_requested, unmount_within,
}
use lukscryptwalker_csi.Driver.Unstage.Answers.{node_unstage_volume-ok, Uploaded}
use lukscryptwalker_csi.Driver.Unstage.Generations.{cleanup_s3_sync-misses_generation}
use lukscryptwalker_csi.Driver.History
use lukscryptwalker_csi.Driver.History.{
  NodeEvent, unstages, drain_ends, resumed_ends, cache_changes, driver_restarts,
}
use lukscryptwalker_csi.Driver.History.Preservation.{run-keeps_dirty}
use lukscryptwalker_csi.Driver.Backoff.{
  ReconcileAttempt, run_attempts, attempts_let_through, granted, minute,
}
use lukscryptwalker_csi.Driver.Backoff.Spacing.{spent, run_attempts-spaced, Gaps, granted-Gaps}

abbrev v : Bytes
v = codes "v"

abbrev events : List DrainEvent
events =
    starts v
    ∷ restarts
    ∷ forgets v
    ∷ starts (codes "w")
    ∷ clears v
    ∷ finishes (codes "w") false
    ∷ []

abbrev quiet_world : ℕ → Poll
quiet_world i = record {
  is_mount_point = true;
  delay = 1;
  took = 10;
  reply = stats (some (record { uploads_in_progress = some 0; uploads_queued = some 0 }));
}

abbrev manager : Manager
manager = record { vfs_name = v; write_back = codes ""; mounted = true; session_path = codes "/s" }

-- The volume's first generation is uploaded, the second holds an item that is not.
abbrev disk : CacheDisk
disk = record {
  caches = (v, directory ∷ []) ∷ (codes "v.g1", file unreadable ∷ []) ∷ [];
  named = true;
}

abbrev disk_left : CacheDisk
disk_left = record { caches = (codes "v.g1", file unreadable ∷ []) ∷ []; named = false }

abbrev node : Node
node = record { drains = load_pending_drains []; managers = (v, manager) ∷ []; disk = disk }

abbrev world : UnstageWorld
world = record {
  client = true;
  pv = none;
  context_readable = true;
  queue_mount_point = true;
  queue_reply = stats (some (record { uploads_in_progress = some 0; uploads_queued = some 0 }));
  teardown = record {
    is_mount_point = true;
    world = quiet_world;
    now = 0;
    before = disk;
    settled = disk;
  };
}

abbrev node_events : List NodeEvent
node_events =
    unstages world true v (codes "/staging")
    ∷ driver_restarts
    ∷ resumed_ends world v (some manager)
    ∷ cache_changes disk
    ∷ drain_ends world v
    ∷ []

run-keeps_dirty_example :
    (end : Node) × (History.run node node_events ≡ some end)
    × (dirty_at (codes "v.g1") end.disk ≡ true)
unfolding has_dirty_cache_items walk_of bytes_eq
run-keeps_dirty_example =
    run-keeps_dirty (codes "v.g1") node_events node refl (refl, (tt, (refl, (refl, (refl, tt)))))

abbrev node_left : Node
node_left = record { drains = load_pending_drains []; managers = []; disk = disk_left }

unstaged : node_unstage_volume world true v (codes "/staging") node ≡ some (ok, node_left)
unfolding node_unstage_volume load_pending_drains has_unuploaded_data force_unstage_requested lookup
    is_upload_queue_empty bytes_eq member volume_id_of_vfs_name last_index has_dirty_cache_items
    parse_int unmount delete
unstaged = refl

node_unstage_volume-ok_example :
    (true ≡ true)
    × (is_background_draining v node.drains ≡ false)
    × Uploaded world v node (lookup v node.managers)
unfolding force_unstage_requested
node_unstage_volume-ok_example =
    node_unstage_volume-ok world true v (codes "/staging") node node_left refl unstaged

abbrev unmounted : Bool × Manager × CacheDisk
unmounted = (
  true,
  record { vfs_name = v; write_back = codes ""; mounted = false; session_path = [] },
  disk_left,
)

drained_unmount : unmount_within short_drain_wait world manager disk ≡ some unmounted
unfolding unmount_within unmount bytes_eq
drained_unmount = refl

cleanup_s3_sync-misses_generation_example :
    (left : Node) × (cleanup_s3_sync world v (codes "/staging") node ≡ some (cleaned, left))
    × (has_unuploaded_data (listing_of left.disk) v ≡ true)
unfolding has_dirty_cache_items walk_of bytes_eq load_pending_drains is_background_draining member
    force_unstage_requested lookup is_upload_queue_empty volume_id_of_vfs_name last_index parse_int
cleanup_s3_sync-misses_generation_example =
    cleanup_s3_sync-misses_generation world b'v' [] (codes "/staging") node manager unmounted
      (codes "v.g1") refl (refl, refl) refl refl refl refl drained_unmount refl

abbrev attempts : List (Bytes × ℕ)
attempts = (v, 10) ∷ (codes "w", 11) ∷ (v, 20) ∷ (v, 30) ∷ (v, 20 + 2 * minute) ∷ []

abbrev last_attempt : ReconcileAttempt
last_attempt = record { count = 3; last = 20 + 2 * minute }

run_attempts-spaced_example :
    (last_attempt.count ≡ attempts_let_through v [] attempts)
    × (10 + spent (attempts_let_through v [] attempts) ≤ last_attempt.last)
unfolding lookup run_attempts put bytes_eq
run_attempts-spaced_example =
    run_attempts-spaced v 10 attempts [] last_attempt refl
      (omega arith, (omega arith, (omega arith, (omega arith, (omega arith, tt))))) refl

abbrev requests : List (Bool × Bytes × ℕ)
requests = (true, v, 10) ∷ (true, v, 20) ∷ (false, v, 20 * minute) ∷ (true, v, 30 * minute) ∷ []

granted-Gaps_example : Gaps (lookup v []) (granted v [] requests)
granted-Gaps_example = granted-Gaps v [] requests

abbrev live : Liveness
live = record { fuse_mount = some true; statfs = some true }

abbrev dead : Liveness
dead = record { fuse_mount = some false; statfs = none }

abbrev publishing : PublishWorld
publishing = record {
  first = dead;
  mounts_known = true;
  restored = true;
  second = live;
  dir_made = true;
  bound = true;
  remounted = false;
}

node_publish_volume-IsLive_example :
    ((node_publish_volume publishing v (codes "/staging") (codes "/target") true).1 ≡ true)
    × ((node_publish_volume publishing v (codes "/staging") (codes "/target") true).0
        ≡ bind_status (is_bound_as_asked publishing true))
    × IsLive live
    × (IsLive dead ⊎ ((true ≡ true) × (true ≡ true)))
unfolding node_publish_volume bytes_eq bind_mount
node_publish_volume-IsLive_example =
    node_publish_volume-IsLive publishing v (codes "/staging") (codes "/target") true refl

abbrev two_mounts : ℕ → UnwindTurn
two_mounts zero = record { depth = some 2; unmounted = true }
two_mounts (suc zero) = record { depth = some 1; unmounted = true }
two_mounts (suc (suc i)) = record { depth = some 0; unmounted = true }

abbrev request : CreateRequest
request = record {
  name = v;
  capacity_range = none;
  parameters = [];
  requisite = [];
  capabilities =
      some
        (record { is_mount = true; access_mode = single_node_writer; fs_type = codes "ext4" } ∷ []);
  preferred = ((topology_key_node, codes "node-a") ∷ []) ∷ [];
}

abbrev volume : Volume
volume = record {
  volume_id = v;
  capacity_bytes = pos (1024 ^ 3);
  accessible_node = some (codes "node-a");
  volume_context =
      (pinned_node_param, codes "node-a") ∷ (codes "capacity", codes "1073741824") ∷ [];
}

created_volume : create_volume request ≡ created volume
unfolding create_volume lookup put bytes_eq itoa
created_volume = refl

create_volume-IsPlaced_example :
    ((caps : List Capability) × (request.capabilities ≡ some caps) × All IsSupported caps)
    × (bytes_eq v [] ≡ false)
    × (volume.volume_id ≡ v)
    × IsPlaced (is_s3 []) request volume
create_volume-IsPlaced_example = create_volume-IsPlaced request volume created_volume
