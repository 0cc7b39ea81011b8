-- ===== src/Driver/Checker.antt =====
-- pkg/driver/node_s3.go: one tick of the stale-mount checker, cleanupStaleS3Mounts, with the probes it makes
-- of each staging path. The host, rclone and the API server are what the world shows; times are
-- nanoseconds of one clock.
pub mod Judged
pub mod Justified
use lukscryptwalker_csi.Base.{
  ℕ, ◌*◌, ◌-◌, ◌^◌, Bool, true, false, not, ◌&&◌, ◌||◌, Option, none, some, List, [], ◌∷◌, ltb,
  if◌then◌else◌,
}
use lukscryptwalker_csi.Base.Bytes.{Bytes, codes, bytes_eq}
use lukscryptwalker_csi.Base.Dict.{Dict, lookup}
use lukscryptwalker_csi.Base.Sets.{member}
use lukscryptwalker_csi.Rclone.Exclusive.{registered_vfs_names, zero_or}
use lukscryptwalker_csi.Rclone.Mounting.{Mounter, or_empty, crypt_config_name}
use lukscryptwalker_csi.Rclone.VfsName.{vfs_names_for, generation_of_vfs_name}
use lukscryptwalker_csi.Driver.Backoff.{
  RegistryTick, vfs_registry_missing, reconcile_allowed, reconcile_succeeded, minute,
}
use lukscryptwalker_csi.Driver.Drains.{is_background_draining}
use lukscryptwalker_csi.Driver.Pods.{Pod}
use lukscryptwalker_csi.Driver.Reconcile.{ReconcileWorld, Reconciled, reconcile_s3_mount}
use lukscryptwalker_csi.Driver.Setup.{MountState}

-- What statfsBounded brings of a staging path: it blocks, succeeds, or fails with ENOENT, with an error
-- that isMountDeadErr knows, or with another one.
pub data StatfsReply : Type 0 where
  blocks : StatfsReply
  answers : StatfsReply
  not_found : StatfsReply
  dead : StatfsReply
  other_error : StatfsReply

-- timedOut || isMountDeadErr(statErr)
abbrev pub looks_dead : StatfsReply → Bool
looks_dead blocks = true
looks_dead dead = true
looks_dead _ = false

abbrev pub is_answer : StatfsReply → Bool
is_answer answers = true
is_answer _ = false

abbrev pub is_not_found : StatfsReply → Bool
is_not_found not_found = true
is_not_found _ = false

-- vfsProbeStuckAfter
abbrev pub vfs_probe_stuck_after : ℕ
vfs_probe_stuck_after = 2 * minute

-- The read probe: one that is in flight since a time, or a new one that ends (with its success) or not
-- within five seconds.
pub data ReadProbe : Type 0 where
  in_flight : ℕ → ReadProbe
  ends : Bool → ReadProbe
  takes_long : ReadProbe

-- mountVFSResponsive
unfoldable pub mount_vfs_responsive : ℕ → ReadProbe → Bool
mount_vfs_responsive now (in_flight since) = not (ltb vfs_probe_stuck_after (now - since))
mount_vfs_responsive now (ends ok) = ok
mount_vfs_responsive now takes_long = true

-- FSNameForVolume on the persisted map
unfoldable pub fs_name_for_volume : Bytes → Dict Bytes → Bytes
fs_name_for_volume v names =
    (vfs_names_for v (generation_of_vfs_name v (or_empty (lookup v names)))).2

-- expectedFSName
unfoldable pub expected_fs_name : Bytes → Option Mounter → Dict Bytes → Bytes
unfolding fs_name_for_volume
expected_fs_name v none names = fs_name_for_volume v names
expected_fs_name v (some m) names = crypt_config_name m

-- What a tick meets once: whether the node's I/O stalls, whether the mount table is known, vfs/list, and
-- the persisted map of VFS names.
pub record Tick : Type 0 where
  pub io_stalled : Bool
  pub mounts_known : Bool
  pub vfses : Option (List (Option Bytes))
  pub names : Dict Bytes

-- What it meets at one entry of the plugin's directory: statfs of the staging path, whether the host has a
-- FUSE mount there, the read probe, the volume ID of vol_data.json ("" where it is unknown), whether the
-- PV gives an S3 volume context, the consumers on this node, and the reconcile.
pub record Entry : Type 0 where
  pub is_dir : Bool
  pub staging : Bytes
  pub statfs : StatfsReply
  pub is_fuse : Bool
  pub probe : ReadProbe
  pub volume_id : Bytes
  pub has_s3_context : Bool
  pub consumers : List Pod
  pub now : ℕ
  pub reconcile : ReconcileWorld

-- What the tick does at an entry.
pub data EntryOutcome : Type 0 where
  ignores : EntryOutcome
  finds_healthy : EntryOutcome
  unmounts_only : EntryOutcome
  leaves_to_owner : EntryOutcome
  leaves_to_kubelet : EntryOutcome
  backs_off : EntryOutcome
  reconciles : Bool → Reconciled → EntryOutcome

abbrev pub counts_of : Option (Dict ℕ) → Dict ℕ
counts_of none = []
counts_of (some counts) = counts

abbrev pub is_known : Option (Dict ℕ) → Bool
is_known none = false
is_known (some counts) = true

-- The question put to rclone's registry at an entry.
unfoldable pub registry_tick : Tick → Entry → MountState → RegistryTick
unfolding expected_fs_name
registry_tick t e s =
    let v = e.volume_id in
    let vfses = registered_vfs_names t.vfses in
    record {
      known = is_known vfses;
      volume_id = v;
      in_setup = member v s.in_setup;
      draining = is_background_draining v s.drains;
      registered =
          zero_or (lookup (expected_fs_name v (lookup v s.managers) t.names) (counts_of vfses));
    }

-- isStaleFUSE, with the state after the registry was asked; the registry and the read probe are asked only
-- of a FUSE mount that answers statfs
unfoldable pub judge : Tick → Entry → MountState → Bool × MountState
unfolding registry_tick
judge t e s =
    let (is_zombie, strikes) = vfs_registry_missing (registry_tick t e s) s.strikes in
    let asked : MountState = record s { strikes = strikes } in
    if looks_dead e.statfs
    then (true, s)
    else if not (is_answer e.statfs && e.is_fuse)
    then (false, s)
    else if is_zombie
    then (true, asked)
    else (not (mount_vfs_responsive e.now e.probe), asked)

abbrev pub has_any : List Pod → Bool
has_any [] = false
has_any (p ∷ ps) = true

-- The repair of a volume that is stale or missing, after the backoff.
unfoldable pub repair : Entry → Bool → MountState → Option (EntryOutcome × MountState)
repair e is_missing s =
    let (allowed, attempts) = reconcile_allowed e.volume_id e.now s.attempts in
    let tried : MountState = record s { attempts = attempts } in
    if not allowed
    then some (backs_off, tried)
    else elim (reconcile_s3_mount e.reconcile e.volume_id e.staging is_missing tried) [
      | none ↦ none
      | some r ↦ some (reconciles is_missing r, r.state)
    ]

-- An entry whose mount is stale (`true`) or missing.
unfoldable pub check_faulty : Entry → Bool → MountState → Option (EntryOutcome × MountState)
check_faulty e is_stale s =
    let v = e.volume_id in
    let unmount_only : EntryOutcome = if is_stale then unmounts_only else ignores in
    if bytes_eq v []
    then some (unmount_only, s)
    else if member v s.in_setup || is_background_draining v s.drains
    then some (leaves_to_owner, s)
    else if not e.has_s3_context
    then some (unmount_only, s)
    else if not is_stale && not (has_any e.consumers)
    then some (leaves_to_kubelet, s)
    else repair e (not is_stale) s

abbrev pub succeeded_for : Bytes → MountState → MountState
succeeded_for v s =
    if bytes_eq v [] then s else record s { attempts = reconcile_succeeded v s.attempts }

-- The loop's body; `none` is a wait that is out of fuel
unfoldable pub check_entry : Tick → Entry → MountState → Option (EntryOutcome × MountState)
check_entry t e s =
    let (is_stale, asked) = judge t e s in
    let is_missing = is_answer e.statfs && not e.is_fuse in
    if not e.is_dir || is_not_found e.statfs
    then some (ignores, s)
    else if not is_stale && not is_missing
    then some (finds_healthy, succeeded_for e.volume_id asked)
    else check_faulty e is_stale asked

unfoldable pub check_entries :
    Tick → List Entry → MountState → Option (List EntryOutcome × MountState)
check_entries t [] s = some ([], s)
check_entries t (e ∷ es) s = elim (check_entry t e s) [
  | none ↦ none
  | some (o, s') ↦ elim (check_entries t es s') [
    | none ↦ none
    | some (os, s'') ↦ some (o ∷ os, s'')
  ]
]

-- cleanupStaleS3Mounts; the entries are `none` where the plugin's directory is missing or unreadable
unfoldable pub cleanup_stale_s3_mounts :
    Tick → Option (List Entry) → MountState → Option (List EntryOutcome × MountState)
cleanup_stale_s3_mounts t none s = some ([], s)
cleanup_stale_s3_mounts t (some es) s =
    if t.io_stalled || not t.mounts_known then some ([], s) else check_entries t es s
