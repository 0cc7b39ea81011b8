-- ===== src/Tests/Recoveries.antt =====
-- The sweeps for stranded volumes and consumers at concrete inputs.
use lukscryptwalker_csi.Base.{
  ◌≡◌, ◌≢◌, refl, true, false, ◌&&◌, ◌||◌, Option, none, some, List, [], ◌∷◌, arith,
}
use lukscryptwalker_csi.Base.Bytes.{Bytes, codes, bytes_eq}
use lukscryptwalker_csi.Base.Sets.{member, insert}
use lukscryptwalker_csi.Rclone.CacheDir.{
  MetaEntry, unreadable, directory, file, listed, has_unuploaded_data,
}
use lukscryptwalker_csi.Rclone.Drain.{CacheDisk, stats}
use lukscryptwalker_csi.Rclone.Mounts.{Table}
use lukscryptwalker_csi.Driver.Consumers.{ConsumerBind}
use lukscryptwalker_csi.Driver.Drains.{load_pending_drains, is_background_draining}
use lukscryptwalker_csi.Driver.Controller.{driver_name}
use lukscryptwalker_csi.Base.Decimal.{pos}
use lukscryptwalker_csi.Driver.Pods.{Pod, other_phase, ClaimWorld}
use lukscryptwalker_csi.Driver.Publish.{Liveness}
use lukscryptwalker_csi.Driver.Reconcile.{ConsumerWorld, device}
use lukscryptwalker_csi.Driver.Repair.{BindWorld, RepairWorld, StagedVolume}
use lukscryptwalker_csi.Driver.Stranded.{
  Recovery, RecoveryWorld, StagingListing, entries, staged_volume_ids, recover_stranded_volumes,
}
use lukscryptwalker_csi.Driver.Stranded.Exact.{may_recover}
use lukscryptwalker_csi.Driver.Stranded.Recovered.{recover_stranded_volumes-exact}
use lukscryptwalker_csi.Driver.Unstage.{UnstageWorld}

abbrev v : Bytes
v = codes "v"

abbrev caches : List MetaEntry
caches =
    record { name = codes "v.g1"; is_dir = true; visits = directory ∷ file unreadable ∷ [] } ∷ []

abbrev no_cache : CacheDisk
no_cache = record { caches = []; named = false }

abbrev pub unstage_world : UnstageWorld
unstage_world = record {
  client = true;
  pv = none;
  context_readable = true;
  queue_mount_point = false;
  queue_reply = stats none;
  teardown = record {
    is_mount_point = false;
    world = λ i. record { is_mount_point = true; delay = 0; reply = stats none; took = 1 };
    now = 0;
    before = no_cache;
    settled = no_cache;
  };
}

abbrev recovery_world : RecoveryWorld
recovery_world = record { in_setup = []; now = λ volume. 7; at = λ volume. unstage_world }

abbrev recovery : Recovery
recovery = record {
  node = record { drains = load_pending_drains []; managers = []; disk = no_cache };
  retry = [];
}

abbrev staging : StagingListing
staging = entries ((true, codes "w") ∷ [])

v_full : v ≢ []
v_full e = absurd (ground arith)

recover_stranded_volumes-exact_example :
    (member v (recover_stranded_volumes recovery_world (listed caches) staging recovery).0 ≡ (
      has_unuploaded_data (listed caches) v
      && may_recover recovery_world (codes "w" ∷ []) v recovery))
    × (is_background_draining v
          (recover_stranded_volumes recovery_world (listed caches) staging recovery).1.node.drains
        ≡ (is_background_draining v recovery.node.drains
            || (true
                && (has_unuploaded_data (listed caches) v
                    && may_recover recovery_world (codes "w" ∷ []) v recovery))))
unfolding staged_volume_ids bytes_eq insert member
recover_stranded_volumes-exact_example =
    recover_stranded_volumes-exact recovery_world caches staging (codes "w" ∷ []) recovery v v_full
      refl

abbrev bind_path : Bytes
bind_path = codes "/k/pods/u/volumes/kubernetes.io~csi/pv/mount"

abbrev stacks : Table
stacks =
    (
      bind_path,
      record { dev = codes "0:7"; fs_type = codes "fuse.rclone" }
          ∷ record { dev = codes "0:8"; fs_type = codes "fuse.rclone" }
          ∷ [],
    )
    ∷ []

abbrev pod : Pod
pod = record {
  uid = codes "u";
  phase = other_phase;
  deletion = none;
  has_controller = true;
  restarts_never = false;
  volumes = [];
  containers = [];
  init_containers = [];
  fs_group = none;
}

abbrev live : Liveness
live = record { fuse_mount = some true; statfs = some true }

abbrev consumer_world : ConsumerWorld
consumer_world = record {
  is_published = true;
  unwinds = λ i. record { depth = some 0; unmounted = true };
  first = live;
  second = live;
  bound = true;
  depth = some 1;
  wanted = some (codes "0:8");
  looks = λ i. device (codes "0:8");
  now = 0;
  pods = some [];
  processes = [];
  killed = λ pid. true;
}

-- The container still holds the buried mount, of device 0:7.
abbrev mount_info : List (Option Bytes)
mount_info = some (codes "1 1 0:7 / /data rw - fuse.rclone r rw") ∷ []

abbrev staged_volume : StagedVolume
staged_volume = record {
  volume_id = v;
  globalmount_path = codes "/g";
  pvc_namespace = codes "n";
  pvc_name = codes "c";
}

abbrev bind_world : BindWorld
bind_world = record {
  consumers = pod ∷ [];
  consumer = consumer_world;
  table = none;
  files = mount_info;
  registered = true;
  now = 100;
}

abbrev repair_world : RepairWorld
repair_world = record {
  staged = (codes "pv", staged_volume) ∷ [];
  in_setup = [];
  drains = load_pending_drains [];
  at = λ (b : ConsumerBind). bind_world;
}

-- A pod of a StatefulSet whose teardown hangs since the start, and that uses this driver's volume.
abbrev stuck_pod : Pod
stuck_pod = record {
  uid = codes "u";
  phase = other_phase;
  deletion = some (record { timestamp = 0; grace_seconds = some (pos 30) });
  has_controller = true;
  restarts_never = false;
  volumes = (codes "data", some (codes "claim")) ∷ [];
  containers = [];
  init_containers = [];
  fs_group = none;
}

abbrev claim_world : ClaimWorld
claim_world = record { volume_of = λ claim. some v; driver_of = λ volume. some driver_name }
