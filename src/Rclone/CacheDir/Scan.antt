-- ===== src/Rclone/CacheDir/Scan.antt =====
-- The two scans for unuploaded data, and a walk that is cut short.
use lukscryptwalker_csi.Base.{
  ◌≡◌, ◌≢◌, refl, inl, inr, true, false, not, ◌&&◌, List, [], ◌∷◌, ◌++◌, arith, any, Bool-cases,
}
use lukscryptwalker_csi.Base.Bytes.{Bytes, bytes_eq}
use lukscryptwalker_csi.Base.Sets.{member, member-eq, member-sort}
use lukscryptwalker_csi.Rclone.VfsName.{volume_id_of_vfs_name}
use lukscryptwalker_csi.Rclone.CacheDir.{
  MetaEntry, listed, Visit, directory, file, failure, has_dirty_cache_items, is_cache_item_dirty,
  holds_dirty_for, has_unuploaded_data, collect_volumes, volumes_with_unuploaded_data,
}

member-collect :
    (v : Bytes) (seen : List Bytes) (es : List MetaEntry)
    → member v (collect_volumes seen es) ≡ (not (member v seen) && any (holds_dirty_for v) es)
unfolding collect_volumes member any
member-collect v seen [] = elim (Bool-cases (member v seen)) [
  | inl e ↦ rw e refl
  | inr e ↦ rw e refl
]
member-collect v seen (e ∷ es) =
    let w = volume_id_of_vfs_name e.name in
    let same : bytes_eq v w ≡ true → member v seen ≡ member w seen = member-eq v w seen in
    let kept = member-collect v seen es in
    let added = member-collect v (w ∷ seen) es in
    elim (Bool-cases e.is_dir) [
      | inl d ↦ elim (Bool-cases (member w seen)) [
        | inl m ↦ elim (Bool-cases (bytes_eq v w)) [
          | inl q ↦ ground arith
          | inr q ↦ rw (d, m, q) kept
        ]
        | inr m ↦ elim (Bool-cases (has_dirty_cache_items e.visits)) [
          | inl h ↦ elim (Bool-cases (bytes_eq v w)) [ inl q ↦ ground arith | inr q ↦ ground arith ]
          | inr h ↦ elim (Bool-cases (bytes_eq v w)) [ inl q ↦ ground arith | inr q ↦ ground arith ]
        ]
      ]
      | inr d ↦ rw d kept
    ]

-- Where vfsMeta can be listed, VolumesWithUnuploadedData names exactly the volumes of which
-- HasUnuploadedData says that some generation's cache still holds unuploaded writes; the empty volume
-- ID is set apart, HasUnuploadedData never looks for it.
pub volumes_with_unuploaded_data-member :
    (v : Bytes) (es : List MetaEntry)
    → v ≢ []
    → member v (volumes_with_unuploaded_data (listed es)) ≡ has_unuploaded_data (listed es) v
unfolding volumes_with_unuploaded_data has_unuploaded_data
volumes_with_unuploaded_data-member [] es h = absurd (h refl)
volumes_with_unuploaded_data-member (c ∷ v) es h =
    rw (member-sort (c ∷ v) (collect_volumes [] es), member-collect (c ∷ v) [] es, member) refl

-- A directory that vanishes while the tree is walked ends the walk as a clean one: when no item before
-- it is dirty, the cache counts as uploaded whatever items the rest of the walk would have shown.
pub has_dirty_cache_items-vanished :
    (before after : List Visit)
    → has_dirty_cache_items before ≡ false
    → has_dirty_cache_items (before ++ failure true ∷ after) ≡ false
unfolding has_dirty_cache_items
has_dirty_cache_items-vanished [] after h = refl
has_dirty_cache_items-vanished (directory ∷ vs) after h = has_dirty_cache_items-vanished vs after h
has_dirty_cache_items-vanished (file m ∷ vs) after h = elim (Bool-cases (is_cache_item_dirty m)) [
  | inl d ↦ ground arith
  | inr d ↦ rw d (has_dirty_cache_items-vanished vs after (ground arith))
]
has_dirty_cache_items-vanished (failure b ∷ vs) after h = h
