-- ===== src/Driver/Repair.antt =====
-- pkg/driver/node_s3.go: repairStrandedConsumers, which re-points consumer binds whose mount the host no
-- longer resolves. The mount table, /proc, the API server and the clock are what the world shows.
pub mod Staggered
use lukscryptwalker_csi.Driver.Controller.{driver_name}
use lukscryptwalker_csi.Base.{
  ℕ, zero, suc, Bool, true, false, not, ◌&&◌, ◌||◌, Option, none, some, List, [], ◌∷◌, ◌++◌, ltb,
  leb, if◌then◌else◌,
}
use lukscryptwalker_csi.Base.Bytes.{Bytes, bytes_eq}
use lukscryptwalker_csi.Base.Dict.{Dict, lookup, put}
use lukscryptwalker_csi.Base.Sets.{member}
use lukscryptwalker_csi.Rclone.Mounts.{Table}
use lukscryptwalker_csi.Driver.Backoff.{consumer_restart_allowed}
use lukscryptwalker_csi.Driver.Consumers.{
  ConsumerBind, parse_consumer_binds, live_mount_devices, stranded_in_mount_info,
}
use lukscryptwalker_csi.Driver.Drains.{Drains, is_background_draining}
use lukscryptwalker_csi.Driver.Pods.{Pod, PodCall, is_terminating, pod_by_uid}
use lukscryptwalker_csi.Driver.Pods.Healing.{recover_consumer_pod}
use lukscryptwalker_csi.Driver.Reconcile.{ConsumerWorld, rebind_consumer_mount}

-- stagedVolume
pub record StagedVolume : Type 0 where
  pub volume_id : Bytes
  pub globalmount_path : Bytes
  pub pvc_namespace : Bytes
  pub pvc_name : Bytes

-- A PV as the list shows it: its CSI driver and handle where it has them, and its claim.
pub record PersistentVolume : Type 0 where
  pub name : Bytes
  pub csi : Option (Bytes × Bytes)
  pub claim : Option (Bytes × Bytes)

abbrev pub claim_or_empty : Option (Bytes × Bytes) → Bytes × Bytes
claim_or_empty none = ([], [])
claim_or_empty (some c) = c

abbrev pub staged_as : PersistentVolume → Bytes → Option Bytes → Option StagedVolume
staged_as pv handle none = none
staged_as pv handle (some path) = some (record {
  volume_id = handle;
  globalmount_path = path;
  pvc_namespace = (claim_or_empty pv.claim).0;
  pvc_name = (claim_or_empty pv.claim).1;
})

-- One PV of the loop: `none` where it is skipped; `paths` are the staging paths by volume ID
unfoldable pub staged_volume_of : Dict Bytes → PersistentVolume → Option StagedVolume
staged_volume_of paths pv = elim pv.csi [
  | none ↦ none
  | some csi ↦
      if not (bytes_eq csi.0 driver_name) then none else staged_as pv csi.1 (lookup csi.1 paths)
]

-- The loop of stagedVolumesByPV over the PVs; a later PV of a name would win
unfoldable pub staged_volumes_by_pv : Dict Bytes → List PersistentVolume → Dict StagedVolume
unfolding staged_volume_of
staged_volumes_by_pv paths [] = []
staged_volumes_by_pv paths (pv ∷ pvs) =
    let rest = staged_volumes_by_pv paths pvs in
    elim (staged_volume_of paths pv) [ none ↦ rest | some sv ↦ rest ++ ((pv.name, sv) ∷ []) ]

abbrev pub mount_info_devices : Option Bytes → List Bytes → List Bytes
mount_info_devices none live = []
mount_info_devices (some mountinfo) live = stranded_in_mount_info mountinfo live

-- the loop over strandedInMountInfo, `seen` with it
unfoldable pub add_unseen : List Bytes → List Bytes → List Bytes
add_unseen devices [] = devices
add_unseen devices (d ∷ ds) =
    add_unseen (if member d devices then devices else devices ++ (d ∷ [])) ds

-- containerStrandedDevices on the mountinfo files of the pod's processes; one that cannot be read is `none`
unfoldable pub stranded_from : List Bytes → List (Option Bytes) → List Bytes → List Bytes
unfolding add_unseen
stranded_from devices [] live = devices
stranded_from devices (f ∷ fs) live =
    stranded_from (add_unseen devices (mount_info_devices f live)) fs live

unfoldable pub container_stranded_devices : List (Option Bytes) → List Bytes → List Bytes
unfolding stranded_from
container_stranded_devices files live = stranded_from [] files live

abbrev pub is_empty : List Bytes → Bool
is_empty [] = true
is_empty (d ∷ ds) = false

-- A bind that is to be repaired, with the devices its containers hold.
pub record BrokenBind : Type 0 where
  pub bind : ConsumerBind
  pub stranded : List Bytes

-- The first loop: `files` are the mountinfo files by pod.
unfoldable pub find_broken :
    (Bytes → List (Option Bytes)) → List Bytes → List ConsumerBind → List BrokenBind
unfolding container_stranded_devices
find_broken files live [] = []
find_broken files live (b ∷ bs) =
    let rest = find_broken files live bs in
    let stranded = container_stranded_devices (files b.pod_uid) live in
    if ltb 1 b.depth || not (is_empty stranded)
    then record { bind = b; stranded = stranded } ∷ rest
    else rest

-- What the second loop meets at a bind: the consumers of its claim, the bind itself, the table after the
-- re-bind (`none` when it is unknown) with the mountinfo files then, the registration's health and the clock.
pub record BindWorld : Type 0 where
  pub consumers : List Pod
  pub consumer : ConsumerWorld
  pub table : Option Table
  pub files : List (Option Bytes)
  pub registered : Bool
  pub now : ℕ

pub record RepairWorld : Type 0 where
  pub staged : Dict StagedVolume
  pub in_setup : List Bytes
  pub drains : Drains
  pub at : ConsumerBind → BindWorld

-- What becomes of a broken bind.
pub data BindOutcome : Type 0 where
  not_staged : BindOutcome
  owned : BindOutcome
  left_to_kubelet : BindOutcome
  not_rebound : BindOutcome
  rebound : BindOutcome
  healed : BindOutcome
  deferred : BindOutcome
  cools_down : BindOutcome
  restarted : List PodCall → BindOutcome

-- The table is known, and the containers hold no stranded device any more.
unfoldable pub has_healed : BindWorld → Bool
has_healed w = elim w.table [
  | none ↦ false
  | some t ↦ is_empty (container_stranded_devices w.files (live_mount_devices t))
]

-- maxStrandedRestartsPerSweep
abbrev pub max_stranded_restarts_per_sweep : ℕ
max_stranded_restarts_per_sweep = 1

-- The end of the second loop's body, once the bind has been re-pointed: the outcome, how many restarts
-- this sweep has made, and the times of the restarts.
unfoldable pub restart_stranded : BindWorld → Bytes → Pod → ℕ → Dict ℕ → BindOutcome × ℕ × Dict ℕ
restart_stranded w v p restarts times =
    let (allowed, later) = consumer_restart_allowed w.registered v w.now times in
    if has_healed w
    then (healed, restarts, times)
    else if leb max_stranded_restarts_per_sweep restarts
    then (deferred, restarts, times)
    else if not allowed
    then (cools_down, restarts, later)
    else (
      restarted (
          recover_consumer_pod w.consumer.now w.consumer.processes w.consumer.killed w.consumer.pods
            p),
      suc restarts,
      later,
    )

unfoldable pub repoint :
    BindWorld → BrokenBind → Bytes → Option Pod → ℕ → Dict ℕ → BindOutcome × ℕ × Dict ℕ
repoint w b v none restarts times = (left_to_kubelet, restarts, times)
repoint w b v (some p) restarts times =
    if is_terminating p
    then (left_to_kubelet, restarts, times)
    else if not (rebind_consumer_mount w.consumer b.bind.pv_name)
    then (not_rebound, restarts, times)
    else if is_empty b.stranded
    then (rebound, restarts, times)
    else restart_stranded w v p restarts times

unfoldable pub repair_staged :
    RepairWorld → BrokenBind → Option StagedVolume → ℕ → Dict ℕ → BindOutcome × ℕ × Dict ℕ
repair_staged w b none restarts times = (not_staged, restarts, times)
repair_staged w b (some sv) restarts times =
    if member sv.volume_id w.in_setup || is_background_draining sv.volume_id w.drains
    then (owned, restarts, times)
    else repoint (w.at b.bind) b sv.volume_id (pod_by_uid (w.at b.bind).consumers b.bind.pod_uid)
        restarts times

-- The second loop.
unfoldable pub repair_each :
    RepairWorld → List BrokenBind → ℕ → Dict ℕ → List (BrokenBind × BindOutcome) × Dict ℕ
repair_each w [] restarts times = ([], times)
repair_each w (b ∷ bs) restarts times =
    let (o, more, later) = repair_staged w b (lookup b.bind.pv_name w.staged) restarts times in
    let (rest, end) = repair_each w bs more later in ((b, o) ∷ rest, end)

-- repairStrandedConsumers; the table is `none` when it is unknown
unfoldable pub repair_stranded_consumers :
    RepairWorld
    → Bytes
    → (Bytes → List (Option Bytes))
    → Option Table
    → Dict ℕ
    → List (BrokenBind × BindOutcome) × Dict ℕ
repair_stranded_consumers w kubelet_root files none times = ([], times)
repair_stranded_consumers w kubelet_root files (some t) times =
    repair_each w (find_broken files (live_mount_devices t) (parse_consumer_binds t kubelet_root)) 0
      times
