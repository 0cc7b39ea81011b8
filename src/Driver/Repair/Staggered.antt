-- ===== src/Driver/Repair/Staggered.antt =====
-- Which consumers a sweep restarts, and how many.
use lukscryptwalker_csi.Base.{ℕ, zero, suc, ◌+◌, ◌≡◌, Bool, true, false, ◌&&◌, some, leb, bit}
use lukscryptwalker_csi.Base.Bytes.{Bytes}
use lukscryptwalker_csi.Base.Dict.{Dict, lookup}
use lukscryptwalker_csi.Base.Sets.{member}
use lukscryptwalker_csi.Driver.Backoff.{consumer_restart_allowed}
use lukscryptwalker_csi.Driver.Drains.{is_background_draining}
use lukscryptwalker_csi.Driver.Pods.{Pod, is_terminating, pod_by_uid}
use lukscryptwalker_csi.Driver.Reconcile.{rebind_consumer_mount}
use lukscryptwalker_csi.Driver.Repair.{
  StagedVolume, BrokenBind, BindWorld, RepairWorld, BindOutcome, restarted, has_healed, is_empty,
  max_stranded_restarts_per_sweep,
}

abbrev pub is_restart : BindOutcome → Bool
is_restart (restarted calls) = true
is_restart _ = false

abbrev pub restarts_one : BrokenBind × BindOutcome → Bool
restarts_one (b, o) = is_restart o

-- What a restart of a bind's pod needs, when the volumes' last restarts were at these times.
abbrev pub IsRestartable : RepairWorld → Dict ℕ → BrokenBind → Type 0
IsRestartable w times b =
    let at = w.at b.bind in
    (sv : StagedVolume) × (p : Pod) × (lookup b.bind.pv_name w.staged ≡ some sv)
    × (member sv.volume_id w.in_setup ≡ false)
    × (is_background_draining sv.volume_id w.drains ≡ false)
    × (pod_by_uid at.consumers b.bind.pod_uid ≡ some p)
    × (is_terminating p ≡ false)
    × (rebind_consumer_mount at.consumer b.bind.pv_name ≡ true)
    × (is_empty b.stranded ≡ false)
    × (has_healed at ≡ false)
    × ((consumer_restart_allowed at.registered sv.volume_id at.now times).0 ≡ true)

abbrev pub IsCalledFor : RepairWorld → Dict ℕ → BrokenBind × BindOutcome → Type 0
IsCalledFor w times (b, restarted calls) = IsRestartable w times b
IsCalledFor w times (b, _) = Unit

-- The times on record are the given ones until a restart is granted.
abbrev Unchanged : ℕ → Dict ℕ → Dict ℕ → Type 0
Unchanged zero given times = given ≡ times
Unchanged (suc n) given times = Unit

-- The restarts so far and what an outcome adds; `given` are the times before the sweep.
abbrev Counts : RepairWorld → BrokenBind → ℕ → Dict ℕ → BindOutcome × ℕ × Dict ℕ → Type 0
Counts w b restarts given (o, more, later) =
    (more ≡ bit (is_restart o) + restarts)
    × ((is_restart o && leb max_stranded_restarts_per_sweep restarts) ≡ false)
    × IsCalledFor w given (b, o)
    × Unchanged more given later

module _ (w : RepairWorld) (b : BrokenBind) (sv : StagedVolume) (restarts : ℕ)
    (given times : Dict ℕ) (same : Unchanged restarts given times) where
  abbrev at : BindWorld
  at = w.at b.bind
