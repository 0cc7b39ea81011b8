-- ===== src/Driver/Checker/Judged.antt =====
-- Why a tick of the checker takes a mount for stale.
use lukscryptwalker_csi.Base.{
  ℕ, ◌≤◌, ◌<◌, ◌-◌, ◌≡◌, ◌⊎◌, inl, inr, Bool, true, false, not, ◌&&◌, arith, ltb, Bool-cases,
}
use lukscryptwalker_csi.Base.Dict.{Dict, lookup}
use lukscryptwalker_csi.Driver.Backoff.{
  RegistryTick, vfs_registry_missing, next_strike, zombie_vfs_confirmations,
}
use lukscryptwalker_csi.Driver.Setup.{MountState}
use lukscryptwalker_csi.Driver.Checker.{
  looks_dead, is_answer, vfs_probe_stuck_after, ReadProbe, in_flight, ends, takes_long,
  mount_vfs_responsive, Tick, Entry, registry_tick, judge,
}

-- rclone's registry was readable and showed no VFS of the volume's name, for the second time since it last
-- showed one.
abbrev pub IsZombie : RegistryTick → Dict ℕ → Type 0
IsZombie r strikes =
    (r.known ≡ true)
    × (ltb 0 r.registered ≡ false)
    × (zombie_vfs_confirmations ≤ next_strike (lookup r.volume_id strikes))

vfs_registry_missing-IsZombie :
    (r : RegistryTick) (strikes : Dict ℕ)
    → (vfs_registry_missing r strikes).0 ≡ true
    → IsZombie r strikes
unfolding vfs_registry_missing
vfs_registry_missing-IsZombie r strikes h = ground arith

-- The read probe failed, or has been parked for more than two minutes.
abbrev pub ProbeFails : ℕ → ReadProbe → Type 0
ProbeFails now (in_flight since) = vfs_probe_stuck_after < now - since
ProbeFails now (ends ok) = ok ≡ false
ProbeFails now takes_long = ⊥

unresponsive-ProbeFails :
    (now : ℕ) (p : ReadProbe) → not (mount_vfs_responsive now p) ≡ true → ProbeFails now p
unfolding mount_vfs_responsive
unresponsive-ProbeFails now (in_flight since) h = ground arith
unresponsive-ProbeFails now (ends ok) h = ground arith
unresponsive-ProbeFails now takes_long h = ground arith

-- Why a mount counts as stale.
abbrev pub IsStale : Tick → Entry → MountState → Type 0
IsStale t e s =
    (looks_dead e.statfs ≡ true)
    ⊎ (((is_answer e.statfs && e.is_fuse) ≡ true)
        × (IsZombie (registry_tick t e s) s.strikes ⊎ ProbeFails e.now e.probe))

abbrev pub Judged : Tick → Entry → MountState → Bool → Type 0
Judged t e s true = IsStale t e s
Judged t e s false = looks_dead e.statfs ≡ false

pub judge-Judged :
    (t : Tick) (e : Entry) (s : MountState)
    → (b : Bool) × (strikes : Dict ℕ) × (judge t e s ≡ (b, record s { strikes = strikes }))
      × Judged t e s b
unfolding judge
judge-Judged t e s = elim (Bool-cases (looks_dead e.statfs)) [
  | inl d ↦ (true, s.strikes, simp d, inl d)
  | inr d ↦ elim (Bool-cases (is_answer e.statfs && e.is_fuse)) [
    | inl f ↦
        let r = vfs_registry_missing (registry_tick t e s) s.strikes in
        elim (Bool-cases r.0) [
          | inl z ↦ (
            true,
            r.1,
            simp (d, f, z),
            inr (f, inl (vfs_registry_missing-IsZombie (registry_tick t e s) s.strikes z)),
          )
          | inr z ↦ elim (Bool-cases (not (mount_vfs_responsive e.now e.probe))) [
            | inl p ↦ (
              true,
              r.1,
              simp (d, f, z, p),
              inr (f, inr (unresponsive-ProbeFails e.now e.probe p)),
            )
            | inr p ↦ (false, r.1, simp (d, f, z, p), d)
          ]
        ]
    | inr f ↦ (false, s.strikes, simp (d, f), d)
  ]
]
