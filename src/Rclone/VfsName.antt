-- ===== src/Rclone/VfsName.antt =====
-- pkg/rclone/syncmanager.go: the rclone names of a volume at a generation, and back.
pub mod RoundTrip
use lukscryptwalker_csi.Base.{
  ℕ, zero, suc, ◌+◌, Bool, Option, none, some, List, [], ◌∷◌, ◌++◌, ◌||◌, ltb, if◌then◌else◌,
  length, take, drop,
}
use lukscryptwalker_csi.Base.Bytes.{Bytes, codes, bytes_eq, last_index, cut_prefix}
use lukscryptwalker_csi.Base.Decimal.{ℤ, pos, negsuc, itoa, parse_int}

-- what stands between a volume's name and its generation
abbrev pub generation_mark : Bytes
generation_mark = codes ".g"

unfoldable pub vfs_name_for : Bytes → ℕ → Bytes
vfs_name_for volume_id generation =
    if ltb 0 generation then volume_id ++ (generation_mark ++ itoa generation) else volume_id

-- the VFS name, the name of the S3 config and the name of the crypt config
unfoldable pub vfs_names_for : Bytes → ℕ → Bytes × Bytes × Bytes
unfolding vfs_name_for
vfs_names_for volume_id generation =
    let vfs_name = vfs_name_for volume_id generation in
    (vfs_name, vfs_name ++ codes "-s3", vfs_name)

-- vfsName[i+2:] must be a number; `i + 2` is written by successors, which compute
strip_at : Bytes → Option ℕ → Bytes
strip_at vfs_name none = vfs_name
strip_at vfs_name (some zero) = vfs_name
strip_at vfs_name (some (suc i)) = elim (parse_int (drop (suc (suc (suc i))) vfs_name)) [
  | none ↦ vfs_name
  | some _ ↦ take (suc i) vfs_name
]

unfoldable pub volume_id_of_vfs_name : Bytes → Bytes
unfolding strip_at
volume_id_of_vfs_name vfs_name = strip_at vfs_name (last_index vfs_name generation_mark)

-- what strconv.Atoi gives, with errors and negative numbers read as generation 0
abbrev non_negative : Option ℤ → ℕ
non_negative none = 0
non_negative (some (pos n)) = n
non_negative (some (negsuc n)) = 0

abbrev generation_in : Option Bytes → ℕ
generation_in none = 0
generation_in (some suffix) = non_negative (parse_int suffix)

unfoldable pub generation_of_vfs_name : Bytes → Bytes → ℕ
generation_of_vfs_name volume_id vfs_name =
    if bytes_eq vfs_name [] || bytes_eq vfs_name volume_id
    then 0
    else generation_in (cut_prefix vfs_name (volume_id ++ generation_mark))
