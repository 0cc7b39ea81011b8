-- ===== src/Tests/Repairs.antt =====
-- Mounts and repairs at concrete inputs.
use lukscryptwalker_csi.Base.{ℕ, ◌≡◌, ◌&&◌, ◌≢◌, refl, true, false, none, some, [], ◌∷◌, arith}
use lukscryptwalker_csi.Base.Bytes.{Bytes, codes}
use lukscryptwalker_csi.Base.Decimal.{pos}
use lukscryptwalker_csi.Rclone.Drain.{CacheDisk, Teardown, stats}
use lukscryptwalker_csi.Rclone.Exposure.{Look, Readiness, SessionWorld, nothing_there}
use lukscryptwalker_csi.Rclone.Mounting.{Mounter, MountWorld, MountResult, answered, mount}
use lukscryptwalker_csi.Rclone.Mounting.Outcome.{Ends, Untouched, mount-Ends}
use lukscryptwalker_csi.Rclone.Mounts.{Table}
use lukscryptwalker_csi.Rclone.Options.{default_vfs_cache_config, build_vfs_opt, owned_by}
use lukscryptwalker_csi.Rclone.Options.Fresh.{build_vfs_opt-distinct}
use lukscryptwalker_csi.Driver.Drains.{load_pending_drains}
use lukscryptwalker_csi.Driver.Pods.{Pod, other_phase}
use lukscryptwalker_csi.Driver.Publish.{Liveness}
use lukscryptwalker_csi.Driver.Setup.{MountState, SetupWorld}
use lukscryptwalker_csi.Driver.Reconcile.{
  ConsumerWorld, device, ReconcileWorld, Reconciled, reconcile_s3_mount,
}
use lukscryptwalker_csi.Driver.Reconcile.Gentle.{IsGentle, reconcile_s3_mount-IsGentle}
use lukscryptwalker_csi.Driver.Checker.{Tick, Entry, EntryOutcome, dead, takes_long, check_entry}
use lukscryptwalker_csi.Driver.Checker.Justified.{IsJustified, check_entry-IsJustified}

abbrev v : Bytes
v = codes "v"

abbrev staging : Bytes
staging = codes "/staging"

abbrev session : Bytes
session = codes "/var/lib/lukscrypt-cache/sessions/v/v@1"

abbrev table : Table
table = (staging, record { dev = codes "0:7"; fs_type = codes "fuse.rclone" } ∷ []) ∷ []

abbrev quick_look : ℕ → Look
quick_look i = record { stacks = some table; lists = true; took = 1 }

abbrev ready : Readiness
ready = record {
  devices = λ i. some (codes "0:7", true);
  took = λ i. 1;
  bound = true;
  looks = quick_look;
}

abbrev no_cache : CacheDisk
no_cache = record { caches = []; named = false }

abbrev teardown : Teardown
teardown = record {
  is_mount_point = false;
  world = λ i. record { is_mount_point = true; delay = 0; reply = stats none; took = 1 };
  now = 0;
  before = no_cache;
  settled = no_cache;
}

abbrev mount_world : MountWorld
mount_world = record {
  is_mount_point = false;
  is_stale = false;
  teardown = teardown;
  turns = λ i. record { listed = some []; ended = 0; relisted = some [] };
  path_made = true;
  new_session = some session;
  s3_created = true;
  crypt_created = true;
  reply = answered;
  ready = ready;
  now = 0;
  stale_cache = false;
}

abbrev mounter : Mounter
mounter = record {
  volume_id = v;
  mount_point = staging;
  s3_base_path = codes "volumes/v/files";
  crypt_config = record { password = codes "p"; password2 = codes "p-v" };
  generation = 0;
  session = record { vfs_name = v; write_back = codes "3s"; mounted = false; session_path = [] };
}

mount-Ends_example :
    (r : MountResult) × (mount mount_world mounter no_cache ≡ some r)
    × Ends mount_world mounter r
    × Untouched (mounter.session.mounted && mount_world.is_mount_point) mounter no_cache r
mount-Ends_example = mount-Ends mount_world mounter no_cache

build_vfs_opt-distinct_example :
    owned_by none (build_vfs_opt default_vfs_cache_config (pos 5) 0)
    ≢ owned_by none (build_vfs_opt default_vfs_cache_config (pos 5) 1)
build_vfs_opt-distinct_example =
    build_vfs_opt-distinct default_vfs_cache_config default_vfs_cache_config (pos 5) (pos 5) none
      none 0 1 refl (omega arith) (omega arith)

abbrev pub live : Liveness
live = record { fuse_mount = some true; statfs = some true }

abbrev consumer_world : ConsumerWorld
consumer_world = record {
  is_published = true;
  unwinds = λ i. record { depth = some 0; unmounted = true };
  first = live;
  second = live;
  bound = true;
  depth = some 1;
  wanted = some (codes "0:7");
  looks = λ i. device (codes "0:7");
  now = 0;
  pods = some [];
  processes = [];
  killed = λ pid. true;
}

abbrev pod : Pod
pod = record {
  uid = codes "u";
  phase = other_phase;
  deletion = none;
  has_controller = true;
  restarts_never = false;
  volumes = (codes "data", some (codes "claim")) ∷ [];
  containers = [];
  init_containers = [];
  fs_group = none;
}

abbrev session_world : SessionWorld
session_world = record {
  mount_points = none;
  vfses = none;
  device = none;
  lists = false;
  again = none;
  unbinds = λ i. record { plain = nothing_there; detached = true };
  bound = false;
  looks = quick_look;
  now = 0;
}

abbrev pub setup_world : SetupWorld
setup_world = record {
  finished = false;
  drained = false;
  session = session_world;
  secrets = some (record { bucket = codes "b"; passphrase = codes "p" });
  context = [];
  names = [];
  mount = mount_world;
}

abbrev reconcile_world : ReconcileWorld
reconcile_world = record {
  session = session_world;
  claim = codes "claim";
  pv_name = v;
  consumers = pod ∷ [];
  setup = setup_world;
  registered = true;
  now = 100;
  is_mount_point = false;
  bound_pods = codes "u" ∷ [];
  delete_now = λ uid. 0;
  delete_pods = λ uid. some (pod ∷ []);
  at = λ p. consumer_world;
}

abbrev pub state : MountState
state = record {
  managers = (v, mounter) ∷ [];
  drains = load_pending_drains [];
  in_setup = [];
  disk = no_cache;
  attempts = [];
  restarts = [];
  strikes = [];
}

reconcile_s3_mount-IsGentle_example :
    (r : Reconciled) × (reconcile_s3_mount reconcile_world v staging true state ≡ some r)
    × IsGentle reconcile_world v state r
reconcile_s3_mount-IsGentle_example =
    reconcile_s3_mount-IsGentle reconcile_world v staging true state

abbrev tick : Tick
tick = record { io_stalled = false; mounts_known = true; vfses = some []; names = [] }

abbrev entry : Entry
entry = record {
  is_dir = true;
  staging = staging;
  statfs = dead;
  is_fuse = true;
  probe = takes_long;
  volume_id = v;
  has_s3_context = true;
  consumers = pod ∷ [];
  now = 100;
  reconcile = reconcile_world;
}

check_entry-IsJustified_example :
    (q : EntryOutcome × MountState) × (check_entry tick entry state ≡ some q)
    × IsJustified tick entry state q.0
check_entry-IsJustified_example = check_entry-IsJustified tick entry state
