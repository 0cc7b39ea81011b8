-- ===== src/Rclone/CacheDir/Validate.antt =====
-- Validation before a mount: what it keeps and where, file by file.
use lukscryptwalker_csi.Base.{
  ℕ, ◌+◌, ◌≡◌, refl, inl, inr, Bool, true, false, not, ◌||◌, ◌&&◌, List, [], ◌∷◌, arith, All, count,
  bit, is_some, Bool-cases, and_false, if◌then◌else◌,
}
use lukscryptwalker_csi.Rclone.CacheDir.{
  CacheItem, VolumeCache, add_if, leave_item, quarantine_cache_item, move_item, remove_item,
  is_healthy, corrupt_reason, is_cache_item_dirty, validate_item, validate_vfs_cache,
}

count-add_if :
    (p : CacheItem → Bool) (b : Bool) (i : CacheItem) (is : List CacheItem)
    → count p (add_if b i is) ≡ bit (b && p i) + count p is
unfolding add_if count
count-add_if p true i is = refl
count-add_if p false i is = omega arith

abbrev pub has_data : CacheItem → Bool
has_data i = is_some i.data_size

-- How many metadata files, and data files, of items that pass are in the cache and in the quarantine.
abbrev pub metas_kept : (CacheItem → Bool) → VolumeCache → ℕ
metas_kept p c = count p c.metas + count p c.quarantined_metas

abbrev pub datas_kept : (CacheItem → Bool) → VolumeCache → ℕ
datas_kept p c = count p c.datas + count p c.quarantined_datas

abbrev Adds : (CacheItem → Bool) → CacheItem → VolumeCache → VolumeCache → Type 0
Adds p i c after =
    (metas_kept p after ≡ bit (p i) + metas_kept p c)
    × (datas_kept p after ≡ bit (has_data i && p i) + datas_kept p c)

leave-Adds : (p : CacheItem → Bool) (i : CacheItem) (c : VolumeCache) → Adds p i c (leave_item i c)
unfolding leave_item count
leave-Adds p i c =
    let data_file = count-add_if p (has_data i) i c.datas in (omega arith, omega (arith, data_file))

by_cases :
    (P : VolumeCache → Type 0) (b : Bool) (x y : VolumeCache)
    → (b ≡ false → P x)
    → (b ≡ true → P y)
    → P (if not b then x else y)
by_cases P true x y f g = g refl
by_cases P false x y f g = f refl

move-Adds : (p : CacheItem → Bool) (i : CacheItem) (c : VolumeCache) → Adds p i c (move_item i c)
unfolding move_item
move-Adds p i c =
    let m = count-add_if p (not i.meta_moved) i c.metas in
    let qm = count-add_if p i.meta_moved i c.quarantined_metas in
    let d = count-add_if p (has_data i && not i.data_moved) i c.datas in
    let qd = count-add_if p (has_data i && i.data_moved) i c.quarantined_datas in
    let metas = split i.meta_moved (p i) in
    let datas = split_data (has_data i) i.data_moved (p i) in
    (omega (arith, m, qm, metas), omega (arith, d, qd, datas))
  where
    split : (moved b : Bool) → bit (not moved && b) + bit (moved && b) ≡ bit b
    split true true = refl
    split true false = refl
    split false true = refl
    split false false = refl

    split_data :
        (there moved b : Bool)
        → bit ((there && not moved) && b) + bit ((there && moved) && b) ≡ bit (there && b)
    split_data true moved b = split moved b
    split_data false moved b = refl

quarantine-Adds :
    (p : CacheItem → Bool) (i : CacheItem) (c : VolumeCache)
    → Adds p i c (quarantine_cache_item i c)
unfolding quarantine_cache_item
quarantine-Adds p i c =
    by_cases (Adds p i c) i.quarantine_made (leave_item i c) (move_item i c)
      (λ unmade. leave-Adds p i c) (λ made. move-Adds p i c)

remove-Adds :
    (p : CacheItem → Bool) (i : CacheItem) (c : VolumeCache)
    → p i ≡ false
    → Adds p i c (remove_item i c)
unfolding remove_item
remove-Adds p i c h =
    let m = count-add_if p (not i.meta_removed) i c.metas in
    let d = count-add_if p (has_data i && not i.data_removed) i c.datas in
    let no_meta : bit (not i.meta_removed && p i) ≡ 0 =
      rw (h, and_false (not i.meta_removed)) refl in
    let no_data : bit ((has_data i && not i.data_removed) && p i) ≡ 0 =
      rw (h, and_false (has_data i && not i.data_removed)) refl in
    let none_here : bit (p i) ≡ 0 = rw h refl in
    let no_file : bit (has_data i && p i) ≡ 0 = rw (h, and_false (has_data i)) refl in
    (omega (arith, m, no_meta, none_here), omega (arith, d, no_data, no_file))

item-Adds :
    (p : CacheItem → Bool) (i : CacheItem) (c : VolumeCache)
    → ((i : CacheItem) → p i ≡ true → is_cache_item_dirty i.reread ≡ true)
    → Adds p i c (validate_item i c)
unfolding validate_item
item-Adds p i c only_dirty = elim (Bool-cases (not i.is_walked)) [
  | inl u ↦ rw (u, validate_item) (leave-Adds p i c)
  | inr u ↦ elim (Bool-cases (is_healthy (corrupt_reason i.metadata i.data_size))) [
    | inl g ↦ rw (u, validate_item, g) (leave-Adds p i c)
    | inr g ↦ elim (Bool-cases (is_cache_item_dirty i.reread)) [
      | inl d ↦ rw (u, validate_item, g, d) (quarantine-Adds p i c)
      | inr d ↦
          rw (u, validate_item, g, d)
            (remove-Adds p i c
              (elim (Bool-cases (p i)) [ inl e ↦ let dirty = only_dirty i e in cc | inr e ↦ e ]))
    ]
  ]
]

-- ValidateVFSCache loses no file of an item with unuploaded writes: for every test on items that only
-- items read as unuploaded pass, as many metadata files of items that pass it are in the cache and in the
-- quarantine together after it as were in the cache before, and as many data files that os.Stat finds,
-- whatever part of the walk, the quarantine directories, the renames and the removals fails.
pub validate_vfs_cache-keeps_dirty :
    (p : CacheItem → Bool) (is : List CacheItem)
    → ((i : CacheItem) → p i ≡ true → is_cache_item_dirty i.reread ≡ true)
    → (metas_kept p (validate_vfs_cache is) ≡ count p is)
      × (datas_kept p (validate_vfs_cache is) ≡ count (λ i. has_data i && p i) is)
unfolding count validate_vfs_cache
validate_vfs_cache-keeps_dirty p [] h = (refl, refl)
validate_vfs_cache-keeps_dirty p (i ∷ is) h =
    let (metas, datas) = validate_vfs_cache-keeps_dirty p is h in
    let (m, d) = item-Adds p i (validate_vfs_cache is) h in
    (omega (arith, metas, m), omega (arith, datas, d))

-- Why a file of an item is still in the cache: the walk did not get to it, rclone can reload the item, or
-- the call that was to move it (for an unuploaded item) or to remove it (for another) failed.
abbrev pub stays_by : CacheItem → Bool → Bool → Bool
stays_by i moved removed =
    not i.is_walked
    || is_healthy (corrupt_reason i.metadata i.data_size)
    || (if is_cache_item_dirty i.reread then not i.quarantine_made || not moved else not removed)

abbrev pub MetaStays : CacheItem → Type 0
MetaStays i = stays_by i i.meta_moved i.meta_removed ≡ true

abbrev pub DataStays : CacheItem → Type 0
DataStays i = stays_by i i.data_moved i.data_removed ≡ true

abbrev pub SetAside : CacheItem → Type 0
SetAside i =
    (is_healthy (corrupt_reason i.metadata i.data_size) ≡ false)
    × (is_cache_item_dirty i.reread ≡ true)

abbrev pub Sorted : VolumeCache → Type 0
Sorted c =
    All MetaStays c.metas
    × All DataStays c.datas
    × All SetAside c.quarantined_metas
    × All SetAside c.quarantined_datas

All-add_if :
    (P : CacheItem → Type 0) (b : Bool) (i : CacheItem) (is : List CacheItem)
    → (b ≡ true → P i)
    → All P is
    → All P (add_if b i is)
unfolding add_if
All-add_if P true i is h all = (h refl, all)
All-add_if P false i is h all = all

second : (a b : Bool) → (a && b) ≡ true → b ≡ true
second a b h = ground arith

leave-Sorted :
    (i : CacheItem) (c : VolumeCache)
    → MetaStays i
    → DataStays i
    → Sorted c
    → Sorted (leave_item i c)
unfolding leave_item
leave-Sorted i c meta_stays data_stays (ms, ds, qms, qds) = (
  (meta_stays, ms),
  All-add_if DataStays (is_some i.data_size) i c.datas (λ h. data_stays) ds,
  qms,
  qds,
)

move-Sorted :
    (i : CacheItem) (c : VolumeCache)
    → SetAside i
    → (not i.meta_moved ≡ true → MetaStays i)
    → (not i.data_moved ≡ true → DataStays i)
    → Sorted c
    → Sorted (move_item i c)
unfolding move_item
move-Sorted i c aside meta_stays data_stays (ms, ds, qms, qds) = (
  All-add_if MetaStays (not i.meta_moved) i c.metas meta_stays ms,
  All-add_if DataStays (has_data i && not i.data_moved) i c.datas
      (λ h. data_stays (second (has_data i) (not i.data_moved) h)) ds,
  All-add_if SetAside i.meta_moved i c.quarantined_metas (λ h. aside) qms,
  All-add_if SetAside (has_data i && i.data_moved) i c.quarantined_datas (λ h. aside) qds,
)

stays_unmade :
    (i : CacheItem) (moved removed : Bool)
    → is_cache_item_dirty i.reread ≡ true
    → i.quarantine_made ≡ false
    → stays_by i moved removed ≡ true
stays_unmade i moved removed d q = ground (arith, d, q)

stays_unmoved :
    (i : CacheItem) (moved removed : Bool)
    → is_cache_item_dirty i.reread ≡ true
    → not moved ≡ true
    → stays_by i moved removed ≡ true
stays_unmoved i moved removed d m = ground (arith, d, m)

quarantine-Sorted :
    (i : CacheItem) (c : VolumeCache) → SetAside i → Sorted c → Sorted (quarantine_cache_item i c)
unfolding quarantine_cache_item
quarantine-Sorted i c aside sorted =
    by_cases Sorted i.quarantine_made (leave_item i c) (move_item i c)
      (λ q.
        leave-Sorted i c (stays_unmade i i.meta_moved i.meta_removed aside.1 q)
          (stays_unmade i i.data_moved i.data_removed aside.1 q) sorted)
      (λ q.
        move-Sorted i c aside (stays_unmoved i i.meta_moved i.meta_removed aside.1)
          (stays_unmoved i i.data_moved i.data_removed aside.1) sorted)

item-Sorted : (i : CacheItem) (c : VolumeCache) → Sorted c → Sorted (validate_item i c)
unfolding validate_item remove_item
item-Sorted i c sorted = elim (Bool-cases (not i.is_walked)) [
  | inl u ↦ rw (u, validate_item) (leave-Sorted i c (rw u refl) (rw u refl) sorted)
  | inr u ↦ elim (Bool-cases (is_healthy (corrupt_reason i.metadata i.data_size))) [
    | inl g ↦ rw (u, validate_item, g) (leave-Sorted i c (rw (u, g) refl) (rw (u, g) refl) sorted)
    | inr g ↦ elim (Bool-cases (is_cache_item_dirty i.reread)) [
      | inl d ↦ rw (u, validate_item, g, d) (quarantine-Sorted i c (g, d) sorted)
      | inr d ↦
          let (ms, ds, qms, qds) = sorted in
          rw (u, validate_item, g, d)
            (
              All-add_if MetaStays (not i.meta_removed) i c.metas (λ h. rw (u, g, d) h) ms,
              All-add_if DataStays (has_data i && not i.data_removed) i c.datas
                  (λ h. rw (u, g, d) (second (has_data i) (not i.data_removed) h)) ds,
              qms,
              qds,
            )
    ]
  ]
]

-- After ValidateVFSCache every metadata and every data file still in the cache is of an item that the walk
-- did not get to, of one that rclone can reload, of an unuploaded one whose quarantine directory could not
-- be made or that could not be renamed, or of one that could not be removed; and only files of corrupt items
-- with unuploaded writes are in the quarantine.
pub validate_vfs_cache-sorts : (is : List CacheItem) → Sorted (validate_vfs_cache is)
unfolding validate_vfs_cache
validate_vfs_cache-sorts [] = (tt, tt, tt, tt)
validate_vfs_cache-sorts (i ∷ is) =
    item-Sorted i (validate_vfs_cache is) (validate_vfs_cache-sorts is)
