-- ===== src/Rclone/Sweep/Kept.antt =====
-- Which cache directories the clean-up leaves alone.
use lukscryptwalker_csi.Base.{◌≡◌, Bool, true, false, ◌&&◌, List, All}
use lukscryptwalker_csi.Base.Bytes.{Bytes, bytes_eq}
use lukscryptwalker_csi.Base.Dict.{Dict}
use lukscryptwalker_csi.Base.Sets.{member}
use lukscryptwalker_csi.Rclone.VfsName.{volume_id_of_vfs_name}
use lukscryptwalker_csi.Rclone.CacheDir.{Visit, has_dirty_cache_items}
use lukscryptwalker_csi.Rclone.Drain.{walk_of}

-- What may be said of a name that the sweep removes.
abbrev pub Abandoned : (Bytes → Bool) → List Bytes → List (Bytes × List Visit) → Bytes → Type 0
Abandoned is_active mapped caches name =
    (member name mapped ≡ false)
    × (has_dirty_cache_items (walk_of name caches) ≡ false)
    × ((is_active (volume_id_of_vfs_name name) && bytes_eq name (volume_id_of_vfs_name name))
        ≡ false)

-- The names the map is left with are of volumes that are active.
abbrev pub AllActive : (Bytes → Bool) → Dict Bytes → Type 0
AllActive is_active m = All (λ e. is_active e.0 ≡ true) m
