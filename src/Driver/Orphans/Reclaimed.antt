-- ===== src/Driver/Orphans/Reclaimed.antt =====
-- Which directories the sweep for orphaned volumes removes, and what it leaves in the caches.
use lukscryptwalker_csi.Base.{◌≡◌, Bool, true, false, ◌&&◌, List, [], ◌∷◌, ◌++◌, map, if◌then◌else◌}
use lukscryptwalker_csi.Base.Bytes.{Bytes, codes, has_prefix}
use lukscryptwalker_csi.Rclone.Drain.Unmount.{dirty_at}
use lukscryptwalker_csi.Driver.Luks.{
  DeviceCall, unmounts, closes_luks, LuksWorld, run_cryptsetup, generate_mapper_name,
}
use lukscryptwalker_csi.Driver.Orphans.{
  OrphanEntry, Reclaim, skipped, kept, removed_all, not_found, is_gone, deepest_first,
  detach_loop_devices,
}

-- The luksClose that an open mapper needs.
abbrev pub closing : LuksWorld → Bytes → List DeviceCall
closing w v = if w.opened then closes_luks (generate_mapper_name v) ∷ [] else []

-- The mapper was not open, or luksClose succeeded.
abbrev pub is_closed : LuksWorld → Bool
is_closed w = if w.opened then run_cryptsetup w.luks_close else true

-- A directory whose backing file was not seen to be absent, and whose PV does not exist.
abbrev pub IsOrphaned : OrphanEntry → Type 0
IsOrphaned e =
    (e.is_dir ≡ true)
    × (has_prefix e.name (codes "pvc-") ≡ true)
    × (e.backing_file_not_absent ≡ true)
    × (e.pv ≡ not_found)

abbrev pub Reclaims : OrphanEntry → Reclaim → Type 0
Reclaims e skipped =
    (e.is_dir && (has_prefix e.name (codes "pvc-") && (e.backing_file_not_absent && is_gone e.pv)))
    ≡ false
Reclaims e (kept calls) = IsOrphaned e × ((is_closed e.release.luks && e.removed) ≡ false)
Reclaims e (removed_all calls) =
    IsOrphaned e
    × (is_closed e.release.luks ≡ true)
    × (calls
        ≡ map unmounts (deepest_first e.targets)
          ++ (closing e.release.luks e.name ++ detach_loop_devices e.release.loops))

-- For each entry its outcome.
abbrev pub Outcomes : List OrphanEntry → List Reclaim → Type 0
Outcomes [] [] = Unit
Outcomes [] (o ∷ os) = ⊥
Outcomes (e ∷ es) [] = ⊥
Outcomes (e ∷ es) (o ∷ os) = Reclaims e o × Outcomes es os

-- Where all of these hold, a VFS that the sweep shuts down leaves the cache of that name dirty.
abbrev pub stays_dirty : Bytes → List OrphanEntry → Bool
stays_dirty name [] = true
stays_dirty name (e ∷ es) = dirty_at name e.unstage.teardown.settled && stays_dirty name es
