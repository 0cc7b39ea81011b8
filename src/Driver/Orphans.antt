-- ===== src/Driver/Orphans.antt =====
-- pkg/driver/node.go, node_luks.go and utils.go: giving back a volume's layers on the host, at its unstaging
-- and when its PV is gone.
pub mod Reclaimed
use lukscryptwalker_csi.Base.{
  ℕ, Bool, true, false, not, ◌&&◌, ◌||◌, Option, none, some, List, [], ◌∷◌, ◌++◌, map, leb, length,
  if◌then◌else◌,
}
use lukscryptwalker_csi.Base.Bytes.{Bytes, codes, bytes_eq, has_prefix, trim_space}
use lukscryptwalker_csi.Base.Cut.{cut}
use lukscryptwalker_csi.Base.Split.{split_at}
use lukscryptwalker_csi.Driver.Publish.{UnwindTurn, unmount_path}
use lukscryptwalker_csi.Driver.Luks.{
  DeviceCall, unmounts, syncs, detaches_loop, removes_dir, Done, and_then, LuksWorld, close_luks,
  generate_mapper_name,
}
use lukscryptwalker_csi.Driver.Unstage.{Cleanup, UnstageWorld, Node, cleanup_s3_sync}

-- parseLosetupJ, on the lines
unfoldable pub parse_losetup_j : List Bytes → List Bytes
parse_losetup_j [] = []
parse_losetup_j (line ∷ lines) =
    let rest = parse_losetup_j lines in
    elim (cut (trim_space line) (codes ":")) [
      | none ↦ rest
      | some p ↦ if has_prefix p.0 (codes "/dev/") then p.0 ∷ rest else rest
    ]

-- detachLoopDevicesFor; losetup's output is `none` where the command fails
unfoldable pub detach_loop_devices : Option Bytes → List DeviceCall
detach_loop_devices none = []
detach_loop_devices (some output) = map detaches_loop (parse_losetup_j (split_at 10 output))

-- What cleanupVolumeStaging meets.
pub record ReleaseWorld : Type 0 where
  pub is_mount_point : Bool
  pub depth : Option ℕ
  pub unwinds : ℕ → UnwindTurn
  pub luks : LuksWorld
  pub loops : Option Bytes

-- The unmount of the staging path, "" for an orphan.
unfoldable pub release_staging : ReleaseWorld → Bytes → Done
release_staging w [] = (true, [])
release_staging w (c ∷ path) =
    if w.is_mount_point
    then (unmount_path w.unwinds w.depth, syncs (c ∷ path) ∷ unmounts (c ∷ path) ∷ [])
    else (true, [])

unfoldable pub remove_staging : Bytes → List DeviceCall
remove_staging [] = []
remove_staging (c ∷ path) = removes_dir (c ∷ path) ∷ []

-- cleanupVolumeStaging
unfoldable pub cleanup_volume_staging : ReleaseWorld → Bytes → Bytes → Done
cleanup_volume_staging w v staging = and_then (release_staging w staging) (
    and_then (close_luks w.luks (generate_mapper_name v))
      (true, detach_loop_devices w.loops ++ remove_staging staging))

-- the insertion of a target that is not longer than those before it
unfoldable pub insert_by_length : Bytes → List Bytes → List Bytes
insert_by_length t [] = t ∷ []
insert_by_length t (u ∷ us) =
    let rest = insert_by_length t us in if leb (length u) (length t) then t ∷ u ∷ us else u ∷ rest

-- mountsBackedBy on the mountpoints that findmnt names, deepest first
unfoldable pub deepest_first : List Bytes → List Bytes
deepest_first [] = []
deepest_first (t ∷ ts) = insert_by_length t (deepest_first ts)

-- releaseVolumeMounts
unfoldable pub release_volume_mounts : List Bytes → List DeviceCall
release_volume_mounts targets = map unmounts (deepest_first targets)

-- The API's answer to a look-up of a PV.
pub data PvReply : Type 0 where
  found : PvReply
  not_found : PvReply
  unavailable : PvReply

-- What the sweep meets at one entry of the local path; os.Stat of the backing file did not say ENOENT
-- (an error of another kind counts as there).
pub record OrphanEntry : Type 0 where
  pub name : Bytes
  pub is_dir : Bool
  pub backing_file_not_absent : Bool
  pub pv : PvReply
  pub unstage : UnstageWorld
  pub targets : List Bytes
  pub release : ReleaseWorld
  pub removed : Bool

-- The volume's directory is removed, and the commands that were run before.
pub data Reclaim : Type 0 where
  skipped : Reclaim
  kept : List DeviceCall → Reclaim
  removed_all : List DeviceCall → Reclaim

abbrev pub removal_of : Bool → List DeviceCall → Reclaim
removal_of true calls = removed_all calls
removal_of false calls = kept calls

-- reclaimOrphanedVolume past cleanupS3Sync, whose error is only logged
unfoldable pub reclaim_released : OrphanEntry → Reclaim
reclaim_released e =
    let mounts = release_volume_mounts e.targets in
    let (cleaned, calls) = cleanup_volume_staging e.release e.name [] in
    removal_of (cleaned && e.removed) (mounts ++ calls)

-- reclaimOrphanedVolume; `none` is a drain that is out of fuel
unfoldable pub reclaim_orphaned_volume : OrphanEntry → Node → Option (Reclaim × Node)
reclaim_orphaned_volume e n = elim (cleanup_s3_sync e.unstage e.name [] n) [
  | none ↦ none
  | some r ↦ some (reclaim_released e, r.1)
]

abbrev pub is_gone : PvReply → Bool
is_gone found = false
is_gone not_found = true
is_gone unavailable = false

-- The guards of the loop's body.
unfoldable pub is_orphan : OrphanEntry → Bool
is_orphan e =
    e.is_dir && (has_prefix e.name (codes "pvc-") && (e.backing_file_not_absent && is_gone e.pv))

unfoldable pub sweep_entry : OrphanEntry → Node → Option (Reclaim × Node)
sweep_entry e n = if is_orphan e then reclaim_orphaned_volume e n else some (skipped, n)

unfoldable pub sweep_entries : List OrphanEntry → Node → Option (List Reclaim × Node)
sweep_entries [] n = some ([], n)
sweep_entries (e ∷ es) n = elim (sweep_entry e n) [
  | none ↦ none
  | some (o, n') ↦ elim (sweep_entries es n') [ none ↦ none | some (os, n'') ↦ some (o ∷ os, n'') ]
]

-- cleanupOrphanedVolumes: whether there is a client, and the local path's entries where it can be read
unfoldable pub cleanup_orphaned_volumes :
    Bool → Option (List OrphanEntry) → Node → Option (List Reclaim × Node)
cleanup_orphaned_volumes client none n = some ([], n)
cleanup_orphaned_volumes client (some es) n =
    if not client then some ([], n) else sweep_entries es n
