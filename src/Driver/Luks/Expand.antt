-- ===== src/Driver/Luks/Expand.antt =====
-- pkg/driver/node_luks.go, utils.go and node.go: NodeExpandVolume, layer by layer.
pub mod Climbing
pub mod Layers
use lukscryptwalker_csi.Base.{
  ℕ, zero, suc, ◌+◌, ◌-◌, ◌*◌, ◌%◌, ◌^◌, Bool, true, false, not, ◌&&◌, ◌||◌, Option, none, some,
  List, [], ◌∷◌, if◌then◌else◌,
}
use lukscryptwalker_csi.Base.Bytes.{Bytes, codes, bytes_eq, trim_space}
use lukscryptwalker_csi.Base.Cut.{cut}
use lukscryptwalker_csi.Base.Split.{split_at}
use lukscryptwalker_csi.Base.Decimal.{ℤ, pos, negsuc}
use lukscryptwalker_csi.Rclone.Units.{to_word, of_word}
use lukscryptwalker_csi.Driver.Luks.{
  DeviceCall, allocates, truncates, resizes_luks, grows_fs, refreshes_loop, Done, and_then, Crypt,
  run_cryptsetup, generate_mapper_name, mapped_device_path, generate_backing_file_path, less,
  ensure_free_space,
}

-- a - b on int64
unfoldable pub sub_int64 : ℤ → ℤ → ℤ
sub_int64 a b = of_word ((to_word a + (2 ^ 64 - to_word b)) % 2 ^ 64)

-- What one expansion meets: the StorageClass's parameters, whether the mapper exists, at first and when it
-- is resized, the backing file's size before and after fallocate (`none` where stat fails), the space
-- available, losetup -j, losetup -c, the passphrase, cryptsetup, the mapper's size, blkid and the resize.
pub record ExpandWorld : Type 0 where
  pub parameters_found : Bool
  pub opened : Bool
  pub opened_again : Bool
  pub size : Option ℤ
  pub allocated : Bool
  pub size_again : Option ℤ
  pub available : Option ℤ
  pub truncated : Bool
  pub loops : Option Bytes
  pub refreshed : Bool
  pub has_passphrase : Bool
  pub resize : Crypt
  pub mapped_size : Option ℤ
  pub fs_type : Option Bytes
  pub grown : Bool

-- NodeExpandVolumeRequest; a capacity range is its required and its limit bytes
pub record ExpandRequest : Type 0 where
  pub volume_id : Bytes
  pub volume_path : Bytes
  pub capacity : Option (ℤ × ℤ)

abbrev pub size_or_zero : Option ℤ → ℤ
size_or_zero none = pos 0
size_or_zero (some n) = n

-- err == nil && size >= want
unfoldable pub has_size : Option ℤ → ℤ → Bool
has_size none want = false
has_size (some n) want = not (less n want)

-- ExpandBackingFile
unfoldable pub expand_backing_file : ExpandWorld → Bytes → ℤ → Done
expand_backing_file w file want =
    let delta = sub_int64 want (size_or_zero w.size_again) in
    if has_size w.size want
    then (true, [])
    else if w.allocated
    then (true, allocates file ∷ [])
    else if less (pos 0) delta && not (ensure_free_space w.available delta)
    then (false, allocates file ∷ [])
    else (w.truncated, allocates file ∷ truncates file ∷ [])

-- the first device that losetup's lines name
unfoldable pub first_loop : List Bytes → Option Bytes
first_loop [] = none
first_loop (line ∷ lines) =
    let rest = first_loop lines in
    elim (cut line (codes ":")) [ none ↦ rest | some p ↦ some (trim_space p.0) ]

unfoldable pub refresh_named : Bool → Option Bytes → Done
refresh_named refreshed none = (false, [])
refresh_named refreshed (some device) = (refreshed, refreshes_loop device ∷ [])

-- refreshLoopDevice
unfoldable pub refresh_loop_device : ExpandWorld → Done
refresh_loop_device w = elim w.loops [
  | none ↦ (false, [])
  | some output ↦
      if bytes_eq (trim_space output) []
      then (false, [])
      else refresh_named w.refreshed (first_loop (split_at 10 (trim_space output)))
]

-- ResizeLUKS, with the passphrase that it needs
unfoldable pub resize_luks : ExpandWorld → Bytes → Done
resize_luks w mapper =
    if not w.has_passphrase || not w.opened_again
    then (false, [])
    else (run_cryptsetup w.resize, resizes_luks mapper ∷ [])

-- luksHeaderSlack
abbrev pub luks_header_slack : ℤ
luks_header_slack = pos (64 * 2 ^ 20)

-- The mapper has the size that was asked for, less the header.
unfoldable pub mapper_reached : Option ℤ → ℤ → Bool
mapper_reached none want = false
mapper_reached (some mapped) want = not (less mapped (sub_int64 want luks_header_slack))

-- The argument of the command that resizes a file system: its device, or its path.
unfoldable pub resize_target : Bytes → Bytes → Bytes → Option Bytes
resize_target fs device path =
    if bytes_eq fs (codes "ext2") || bytes_eq fs (codes "ext3") || bytes_eq fs (codes "ext4")
    then some device
    else if bytes_eq fs (codes "xfs")
    then some path
    else none

unfoldable pub grow_target : Bool → Option Bytes → Done
grow_target grown none = (false, [])
grow_target grown (some target) = (grown, grows_fs target ∷ [])

-- resizeFilesystem
unfoldable pub resize_filesystem : ExpandWorld → Bytes → Bytes → Done
resize_filesystem w device path = elim w.fs_type [
  | none ↦ (false, [])
  | some fs ↦ grow_target w.grown (resize_target (trim_space fs) device path)
]

-- performVolumeExpansion
unfoldable pub perform_volume_expansion : ExpandWorld → Bytes → Bytes → Bytes → ℤ → Done
perform_volume_expansion w local_path v path want =
    let mapper = generate_mapper_name v in
    let grow : Done =
      if not (mapper_reached w.mapped_size want)
      then (false, [])
      else resize_filesystem w (mapped_device_path mapper) path in
    and_then (expand_backing_file w (generate_backing_file_path local_path v) want)
      (and_then (refresh_loop_device w) (and_then (resize_luks w mapper) grow))

-- if requestedBytes == 0 { requestedBytes = LimitBytes }
unfoldable pub requested_bytes : ℤ × ℤ → ℤ
requested_bytes (pos zero, limit) = limit
requested_bytes (pos (suc n), limit) = pos (suc n)
requested_bytes (negsuc n, limit) = negsuc n

pub data ExpandStatus : Type 0 where
  expanded : ℤ → ExpandStatus
  invalid_argument : ExpandStatus
  failed_precondition : ExpandStatus
  internal : ExpandStatus

abbrev pub expand_result : ℤ → Done → ExpandStatus × List DeviceCall
expand_result want (true, calls) = (expanded want, calls)
expand_result want (false, calls) = (internal, calls)

-- NodeExpandVolume past the checks of its fields
unfoldable pub expand_known :
    ExpandWorld → Bytes → ExpandRequest → ℤ → ExpandStatus × List DeviceCall
expand_known w local_path r want =
    if not w.parameters_found || not w.opened
    then (failed_precondition, [])
    else expand_result want (perform_volume_expansion w local_path r.volume_id r.volume_path want)

-- NodeExpandVolume, validateAndPrepareExpansionRequest with it: the status, and the commands in their order
unfoldable pub node_expand_volume :
    ExpandWorld → Bytes → ExpandRequest → ExpandStatus × List DeviceCall
node_expand_volume w local_path r =
    if bytes_eq r.volume_id [] || bytes_eq r.volume_path []
    then (invalid_argument, [])
    else elim r.capacity [
      | none ↦ (invalid_argument, [])
      | some range ↦ expand_known w local_path r (requested_bytes range)
    ]
