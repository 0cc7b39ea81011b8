-- ===== src/Rclone/Sweep.antt =====
-- pkg/rclone/vfscache.go: the persisted map from volumes to VFS names, and the clean-up of cache
-- directories that no live volume needs.
pub mod Kept
use lukscryptwalker_csi.Base.{
  ℕ, Bool, true, false, not, ◌&&◌, ◌||◌, Option, none, some, List, [], ◌∷◌, ◌++◌, if◌then◌else◌,
  is_some,
}
use lukscryptwalker_csi.Base.Bytes.{Bytes, bytes_eq}
use lukscryptwalker_csi.Base.Dict.{Dict, lookup, put, delete}
use lukscryptwalker_csi.Base.Sets.{member}
use lukscryptwalker_csi.Rclone.VfsName.{volume_id_of_vfs_name}
use lukscryptwalker_csi.Rclone.CacheDir.{Visit, has_dirty_cache_items}
use lukscryptwalker_csi.Rclone.Drain.{walk_of}

-- LoadVFSNameMap: `none` is a file that cannot be read or parsed
unfoldable pub load_vfs_name_map : Option (Dict Bytes) → Dict Bytes
load_vfs_name_map none = []
load_vfs_name_map (some m) = m

-- SaveVFSName and RemoveVFSName, up to the write
unfoldable pub save_vfs_name : Bytes → Bytes → Option (Dict Bytes) → Dict Bytes
unfolding load_vfs_name_map
save_vfs_name v name file = put v name (load_vfs_name_map file)

unfoldable pub remove_vfs_name : Bytes → Option (Dict Bytes) → Option (Dict Bytes)
unfolding load_vfs_name_map
remove_vfs_name v file =
    if is_some (lookup v (load_vfs_name_map file))
    then some (delete v (load_vfs_name_map file))
    else none

-- The entries of the map, as the loop ranges over them: the names it removes, and the map it leaves.
unfoldable pub drop_inactive : (Bytes → Bool) → Dict Bytes → List Bytes × Dict Bytes
drop_inactive is_active [] = ([], [])
drop_inactive is_active ((v, name) ∷ m) =
    let rest = drop_inactive is_active m in
    if is_active v then (rest.0, (v, name) ∷ rest.1) else (name ∷ rest.0, rest.1)

unfoldable pub names_of : Dict Bytes → List Bytes
names_of [] = []
names_of ((v, name) ∷ m) = name ∷ names_of m

-- An entry of the vfs directory.
pub record VfsEntry : Type 0 where
  pub name : Bytes
  pub is_dir : Bool

-- Whether the sweep reclaims an entry.
unfoldable pub is_reclaimed :
    (Bytes → Bool) → List Bytes → List (Bytes × List Visit) → VfsEntry → Bool
unfolding has_dirty_cache_items walk_of
is_reclaimed is_active mapped caches e =
    if not e.is_dir || member e.name mapped
    then false
    else if is_active (volume_id_of_vfs_name e.name)
        && bytes_eq e.name (volume_id_of_vfs_name e.name)
    then false
    else if has_dirty_cache_items (walk_of e.name caches)
    then false
    else true

-- sweepUnmappedVFSCacheDirsAt: the names it removes; `none` is a directory that cannot be listed
unfoldable pub reclaim :
    (Bytes → Bool) → List Bytes → List (Bytes × List Visit) → List VfsEntry → List Bytes
unfolding is_reclaimed
reclaim is_active mapped caches [] = []
reclaim is_active mapped caches (e ∷ es) =
    let rest = reclaim is_active mapped caches es in
    if is_reclaimed is_active mapped caches e then e.name ∷ rest else rest

unfoldable pub sweep_unmapped :
    (Bytes → Bool) → Dict Bytes → List (Bytes × List Visit) → Option (List VfsEntry) → List Bytes
unfolding reclaim names_of
sweep_unmapped is_active m caches none = []
sweep_unmapped is_active m caches (some es) = reclaim is_active (names_of m) caches es

-- CleanupOrphanedVFSCacheDirs: the map it leaves, the mapped names it removes and those the sweep does.
-- The walks below vfsMeta are taken after the first removals.
unfoldable pub cleanup_orphaned :
    (Bytes → Bool)
    → Option (Dict Bytes)
    → List (Bytes × List Visit)
    → Option (List VfsEntry)
    → Dict Bytes × List Bytes × List Bytes
unfolding drop_inactive load_vfs_name_map sweep_unmapped
cleanup_orphaned is_active file caches entries =
    let (removed, m) = drop_inactive is_active (load_vfs_name_map file) in
    (m, removed, sweep_unmapped is_active m caches entries)
