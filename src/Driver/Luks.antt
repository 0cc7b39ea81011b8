-- ===== src/Driver/Luks.antt =====
-- pkg/luks/luks.go, pkg/driver/node_luks.go and utils.go: a LUKS volume's layers on the host. What each
-- command answers is data of the model; what is proved is about which commands are run, and when.
pub mod Calls
pub mod Expand
use lukscryptwalker_csi.Base.{
  ℕ, ◌*◌, ◌^◌, Bool, true, false, not, ◌&&◌, ◌||◌, Option, none, some, List, [], ◌∷◌, ◌++◌, ltb,
  if◌then◌else◌,
}
use lukscryptwalker_csi.Base.Bytes.{Bytes, codes, bytes_eq, trim_space}
use lukscryptwalker_csi.Base.Decimal.{ℤ, pos, negsuc, parse_int}
use lukscryptwalker_csi.Driver.Publish.{UnwindTurn, unmount_path}

-- A command that changes something on the host.
pub data DeviceCall : Type 0 where
  allocates : Bytes → DeviceCall
  truncates : Bytes → DeviceCall
  removes_file : Bytes → DeviceCall
  formats_luks : Bytes → DeviceCall
  opens_luks : Bytes → Bytes → DeviceCall
  closes_luks : Bytes → DeviceCall
  resizes_luks : Bytes → DeviceCall
  makes_fs : Bytes → Bytes → DeviceCall
  grows_fs : Bytes → DeviceCall
  mounts : Bytes → Bytes → DeviceCall
  unmounts : Bytes → DeviceCall
  syncs : Bytes → DeviceCall
  chowns : ℤ → Bytes → DeviceCall
  chmods : Bytes → Bytes → DeviceCall
  refreshes_loop : Bytes → DeviceCall
  detaches_loop : Bytes → DeviceCall
  removes_dir : Bytes → DeviceCall

-- Whether an operation returns nil, and the commands it has run.
abbrev pub Done : Type 0
Done = Bool × List DeviceCall

-- if err := first; err != nil { return err }; rest
unfoldable pub and_then : Done → Done → Done
and_then (true, calls) rest = (rest.0, calls ++ rest.1)
and_then (false, calls) rest = (false, calls)

-- How a command under a time limit ends.
pub data CommandReply : Type 0 where
  exits_zero : CommandReply
  exits_nonzero : CommandReply
  times_out : CommandReply

abbrev pub succeeds : CommandReply → Bool
succeeds exits_zero = true
succeeds exits_nonzero = false
succeeds times_out = false

-- cryptsetup, and what it answers when it is run again
pub record Crypt : Type 0 where
  pub first : CommandReply
  pub again : CommandReply

-- runCryptsetup returns nil
unfoldable pub run_cryptsetup : Crypt → Bool
run_cryptsetup c = elim c.first [
  | exits_zero ↦ true
  | exits_nonzero ↦ false
  | times_out ↦ succeeds c.again
]

-- GenerateMapperName and GetMappedDevicePath
abbrev pub generate_mapper_name : Bytes → Bytes
generate_mapper_name v = codes "luks-" ++ v

abbrev pub mapped_device_path : Bytes → Bytes
mapped_device_path mapper = codes "/dev/mapper/" ++ mapper

-- GenerateBackingFilePath, in a clean directory
abbrev pub generate_backing_file_path : Bytes → Bytes → Bytes
generate_backing_file_path local_path v = local_path ++ (codes "/luks-" ++ (v ++ codes ".img"))

-- What luksManager meets: isLuks, whether the mapper exists, luksFormat, luksOpen and luksClose.
pub record LuksWorld : Type 0 where
  pub is_luks : CommandReply
  pub opened : Bool
  pub luks_format : Crypt
  pub luks_open : Crypt
  pub luks_close : Crypt

-- IsLUKSDevice: a command that times out is a no
abbrev pub is_luks_device : LuksWorld → Bool
is_luks_device w = succeeds w.is_luks

-- OpenLUKS
unfoldable pub open_luks : LuksWorld → Bytes → Bytes → Done
open_luks w device mapper =
    if w.opened then (true, []) else (run_cryptsetup w.luks_open, opens_luks device mapper ∷ [])

-- FormatAndOpenLUKS
unfoldable pub format_and_open_luks : LuksWorld → Bytes → Bytes → Done
format_and_open_luks w device mapper =
    if is_luks_device w
    then open_luks w device mapper
    else and_then (run_cryptsetup w.luks_format, formats_luks device ∷ [])
        (open_luks w device mapper)

-- CloseLUKS
unfoldable pub close_luks : LuksWorld → Bytes → Done
close_luks w mapper =
    if not w.opened then (true, []) else (run_cryptsetup w.luks_close, closes_luks mapper ∷ [])

-- What the file system commands meet: blkid, mkfs, the host's mount at the target and the device behind it,
-- the unmount of a stale mount, and mkdir, mount, chown, chmod.
pub record FsWorld : Type 0 where
  pub has_fs : Bool
  pub made_fs : Bool
  pub is_mount_point : Bool
  pub mounted_from : Bool
  pub depth : Option ℕ
  pub unwinds : ℕ → UnwindTurn
  pub dir_made : Bool
  pub mounted : Bool
  pub chowned : Bool
  pub chmodded : Bool

-- fsType, "ext4" where the capability names none
unfoldable pub fs_type_or_default : Bytes → Bytes
fs_type_or_default [] = codes "ext4"
fs_type_or_default (c ∷ s) = c ∷ s

unfoldable pub can_make : Bytes → Bool
can_make fs = bytes_eq fs (codes "ext4") || bytes_eq fs (codes "ext3") || bytes_eq fs (codes "xfs")

-- formatDevice; the capability is `none` when it is not a mount's
unfoldable pub format_device : FsWorld → Bytes → Option Bytes → Done
format_device w device none = (false, [])
format_device w device (some fs) =
    if w.has_fs
    then (true, [])
    else if not (can_make (fs_type_or_default fs))
    then (false, [])
    else (w.made_fs, makes_fs (fs_type_or_default fs) device ∷ [])

-- mountDevice
unfoldable pub mount_device : FsWorld → Bytes → Bytes → Option Bytes → Done
mount_device w device target none = (false, [])
mount_device w device target (some fs) =
    let cleared : Done =
      if w.is_mount_point
      then (unmount_path w.unwinds w.depth, unmounts target ∷ [])
      else (true, []) in
    if w.is_mount_point && w.mounted_from
    then (true, [])
    else and_then cleared
        (if not w.dir_made then (false, []) else (w.mounted, mounts device target ∷ []))

-- applyFsGroupPermissions
unfoldable pub apply_fs_group : FsWorld → Bytes → Option ℤ → Bytes → Done
apply_fs_group w target none mode = (true, [])
apply_fs_group w target (some gid) mode =
    and_then (w.chowned, chowns gid target ∷ []) (w.chmodded, chmods mode target ∷ [])

-- mountAndConfigureVolume
unfoldable pub mount_and_configure :
    FsWorld → Bytes → Bytes → Option Bytes → Option ℤ → Bytes → Done
mount_and_configure w device target fs gid mode =
    and_then (format_device w device fs)
      (and_then (mount_device w device target fs) (apply_fs_group w target gid mode))

-- What a backing file's commands meet: fallocate, the bytes available (`none` where statfs fails),
-- truncate, and the stat after them.
pub record FileWorld : Type 0 where
  pub allocated : Bool
  pub available : Option ℤ
  pub truncated : Bool
  pub stat_after : Bool

-- a < b on integers
unfoldable pub less : ℤ → ℤ → Bool
less (pos a) (pos b) = ltb a b
less (pos a) (negsuc b) = false
less (negsuc a) (pos b) = true
less (negsuc a) (negsuc b) = ltb b a

-- ensureFreeSpace returns nil
unfoldable pub ensure_free_space : Option ℤ → ℤ → Bool
ensure_free_space none need = false
ensure_free_space (some available) need = not (less available need)

-- the guard of the sparse fallback; a size that is no number is not guarded
unfoldable pub may_truncate : Option ℤ → Option ℤ → Bool
may_truncate available none = true
may_truncate available (some size) = ensure_free_space available size

-- CreateBackingFile
unfoldable pub create_backing_file : FileWorld → Bytes → Bytes → Done
create_backing_file w file size =
    let fallback : Done =
      if not (may_truncate w.available (parse_int (trim_space size)))
      then (false, allocates file ∷ [])
      else (w.truncated, allocates file ∷ truncates file ∷ []) in
    and_then (if w.allocated then (true, allocates file ∷ []) else fallback) (w.stat_after, [])

-- os.Stat of the backing file
pub data FileStat : Type 0 where
  absent : FileStat
  unreadable : FileStat
  sized : ℕ → FileStat

-- minSize
abbrev pub min_backing_size : ℕ
min_backing_size = 16 * 2 ^ 20

-- What ensureBackingFileExists meets.
pub record BackingWorld : Type 0 where
  pub stat : FileStat
  pub removed : Bool
  pub file : FileWorld

-- the volume is pinned to another node
abbrev pub is_pinned_elsewhere : Bytes → Bytes → Bool
is_pinned_elsewhere pinned node_id = not (bytes_eq pinned []) && not (bytes_eq pinned node_id)

-- ensureBackingFileExists; `pinned` is the node that the volume context names, "" for none
unfoldable pub ensure_backing_file : BackingWorld → Bytes → Bytes → Bytes → Bytes → Done
ensure_backing_file w file size pinned node_id = elim w.stat [
  | absent ↦
      if is_pinned_elsewhere pinned node_id
      then (false, [])
      else create_backing_file w.file file size
  | unreadable ↦ (false, [])
  | sized n ↦
      if ltb n min_backing_size
      then and_then (w.removed, removes_file file ∷ []) (create_backing_file w.file file size)
      else (true, [])
]
