-- ===== src/Rclone/CacheDir.antt =====
-- pkg/rclone/cachecheck.go and the dirty-cache scans of pkg/rclone/vfscache.go: rclone's metadata files
-- under vfsMeta/<name> and the data files under vfs/<name>. What a read of the disk brings (a file's
-- bytes, a directory walk) is data of the model, errors included.
pub mod Scan
pub mod Validate
use lukscryptwalker_csi.Base.{
  ℕ, ◌+◌, ◌^◌, ◌%◌, Bool, true, false, not, ◌&&◌, ◌||◌, Option, none, some, List, [], ◌∷◌, ltb,
  if◌then◌else◌, any, is_some,
}
use lukscryptwalker_csi.Base.Bytes.{Bytes, bytes_eq}
use lukscryptwalker_csi.Base.Decimal.{ℤ, pos, negsuc}
use lukscryptwalker_csi.Base.Sets.{member, sort_strings}
use lukscryptwalker_csi.Rclone.VfsName.{volume_id_of_vfs_name}
use lukscryptwalker_csi.Rclone.Units.{to_word, of_word}

pub record CacheRange : Type 0 where
  pub start : ℤ
  pub extent : ℤ

-- cacheItemInfo
pub record CacheItemInfo : Type 0 where
  pub size : ℤ
  pub is_dirty : Bool
  pub ranges : List CacheRange

-- os.ReadFile and json.Unmarshal of a metadata file
pub data Metadata : Type 0 where
  unreadable : Metadata
  unparseable : Metadata
  parsed : CacheItemInfo → Metadata

-- a > b on int64
abbrev pub greater : ℤ → ℤ → Bool
greater (pos a) (pos b) = ltb b a
greater (pos a) (negsuc b) = true
greater (negsuc a) (pos b) = false
greater (negsuc a) (negsuc b) = ltb a b

-- a + b on int64
unfoldable pub add_int64 : ℤ → ℤ → ℤ
unfolding to_word of_word
add_int64 a b = of_word ((to_word a + to_word b) % 2 ^ 64)

-- The reasons of corruptReason; `healthy` is "".
pub data Reason : Type 0 where
  healthy : Reason
  unreadable_metadata : Reason
  unparseable_metadata : Reason
  missing_data : Reason
  range_past_end : CacheRange → ℤ → Reason

-- reason == ""
abbrev pub is_healthy : Reason → Bool
is_healthy healthy = true
is_healthy _ = false

unfoldable pub check_ranges : ℤ → List CacheRange → Reason
unfolding add_int64
check_ranges data_size [] = healthy
check_ranges data_size (r ∷ rs) =
    let rest = check_ranges data_size rs in
    if greater (add_int64 r.start r.extent) data_size then range_past_end r data_size else rest

-- corruptReason; the data file is `none` when os.Stat fails
unfoldable pub corrupt_reason : Metadata → Option ℤ → Reason
unfolding check_ranges
corrupt_reason unreadable data_size = unreadable_metadata
corrupt_reason unparseable data_size = unparseable_metadata
corrupt_reason (parsed info) (some data_size) = check_ranges data_size info.ranges
corrupt_reason (parsed info) none = elim info.ranges [ [] ↦ healthy | r ∷ rs ↦ missing_data ]

unfoldable pub is_cache_item_dirty : Metadata → Bool
is_cache_item_dirty unreadable = true
is_cache_item_dirty unparseable = true
is_cache_item_dirty (parsed info) = info.is_dirty

-- One cached item: its path below vfsMeta/<name>, its metadata file as it is read twice, its data file's
-- size where os.Stat finds one; whether the walk gets to it (an error at it or above it is passed over); and
-- whether os.MkdirAll of its quarantine directory, the two os.Rename and the two os.Remove succeed.
pub record CacheItem : Type 0 where
  pub rel : Bytes
  pub is_walked : Bool
  pub metadata : Metadata
  pub reread : Metadata
  pub data_size : Option ℤ
  pub quarantine_made : Bool
  pub data_moved : Bool
  pub meta_moved : Bool
  pub meta_removed : Bool
  pub data_removed : Bool

-- The items whose metadata file, and whose data file, is in the volume's cache, and in quarantine/<name>.
pub record VolumeCache : Type 0 where
  pub metas : List CacheItem
  pub datas : List CacheItem
  pub quarantined_metas : List CacheItem
  pub quarantined_datas : List CacheItem

unfoldable pub add_if : Bool → CacheItem → List CacheItem → List CacheItem
add_if b i is = if b then i ∷ is else is

-- The item stays as it is.
unfoldable pub leave_item : CacheItem → VolumeCache → VolumeCache
unfolding add_if
leave_item i c = record c { metas = i ∷ c.metas; datas = add_if (is_some i.data_size) i c.datas }

-- The two os.Rename, whose errors are ignored: each moves its file or leaves it
unfoldable pub move_item : CacheItem → VolumeCache → VolumeCache
unfolding add_if
move_item i c = record {
  metas = add_if (not i.meta_moved) i c.metas;
  datas = add_if (is_some i.data_size && not i.data_moved) i c.datas;
  quarantined_metas = add_if i.meta_moved i c.quarantined_metas;
  quarantined_datas = add_if (is_some i.data_size && i.data_moved) i c.quarantined_datas;
}

-- quarantineCacheItem
unfoldable pub quarantine_cache_item : CacheItem → VolumeCache → VolumeCache
unfolding leave_item move_item
quarantine_cache_item i c = if not i.quarantine_made then leave_item i c else move_item i c

-- The two os.Remove, whose errors are ignored
unfoldable pub remove_item : CacheItem → VolumeCache → VolumeCache
unfolding add_if
remove_item i c = record c {
  metas = add_if (not i.meta_removed) i c.metas;
  datas = add_if (is_some i.data_size && not i.data_removed) i c.datas;
}

-- What the walk does with one item
unfoldable pub validate_item : CacheItem → VolumeCache → VolumeCache
unfolding leave_item quarantine_cache_item remove_item
validate_item i c =
    if not i.is_walked
    then leave_item i c
    else if is_healthy (corrupt_reason i.metadata i.data_size)
    then leave_item i c
    else if is_cache_item_dirty i.reread
    then quarantine_cache_item i c
    else remove_item i c

-- validateVFSCacheAt, over the items on disk
unfoldable pub validate_vfs_cache : List CacheItem → VolumeCache
unfolding validate_item
validate_vfs_cache [] = record {
  metas = [];
  datas = [];
  quarantined_metas = [];
  quarantined_datas = [];
}
validate_vfs_cache (i ∷ is) = validate_item i (validate_vfs_cache is)

-- The calls filepath.WalkDir makes of its function: a directory, a file with what reading it would
-- bring, or an error, with whether it says the path does not exist.
pub data Visit : Type 0 where
  directory : Visit
  file : Metadata → Visit
  failure : Bool → Visit

-- hasDirtyCacheItemsAt: an error ends the walk, so does a dirty item
unfoldable pub has_dirty_cache_items : List Visit → Bool
unfolding is_cache_item_dirty
has_dirty_cache_items [] = false
has_dirty_cache_items (directory ∷ vs) = has_dirty_cache_items vs
has_dirty_cache_items (file m ∷ vs) = is_cache_item_dirty m || has_dirty_cache_items vs
has_dirty_cache_items (failure not_exist ∷ vs) = not not_exist

-- An entry of vfsMeta and the walk below it.
pub record MetaEntry : Type 0 where
  pub name : Bytes
  pub is_dir : Bool
  pub visits : List Visit

-- os.ReadDir of vfsMeta
pub data MetaListing : Type 0 where
  listed : List MetaEntry → MetaListing
  absent : MetaListing
  unlistable : MetaListing

abbrev pub holds_dirty_for : Bytes → MetaEntry → Bool
holds_dirty_for v e =
    e.is_dir && (bytes_eq v (volume_id_of_vfs_name e.name) && has_dirty_cache_items e.visits)

-- hasUnuploadedDataAt
unfoldable pub has_unuploaded_data : MetaListing → Bytes → Bool
unfolding any
has_unuploaded_data listing [] = false
has_unuploaded_data (listed es) (c ∷ v) = any (holds_dirty_for (c ∷ v)) es
has_unuploaded_data absent (c ∷ v) = false
has_unuploaded_data unlistable (c ∷ v) = true

-- The loop of volumesWithUnuploadedDataAt, `seen` with it.
unfoldable pub collect_volumes : List Bytes → List MetaEntry → List Bytes
unfolding has_dirty_cache_items member
collect_volumes seen [] = []
collect_volumes seen (e ∷ es) =
    let volume_id = volume_id_of_vfs_name e.name in
    let found = e.is_dir && not (member volume_id seen || not (has_dirty_cache_items e.visits)) in
    let rest = collect_volumes (if found then volume_id ∷ seen else seen) es in
    if found then volume_id ∷ rest else rest

-- volumesWithUnuploadedDataAt
unfoldable pub volumes_with_unuploaded_data : MetaListing → List Bytes
unfolding collect_volumes sort_strings
volumes_with_unuploaded_data (listed es) = sort_strings (collect_volumes [] es)
volumes_with_unuploaded_data absent = []
volumes_with_unuploaded_data unlistable = []
