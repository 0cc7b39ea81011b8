-- ===== src/Driver/Checker/Justified.antt =====
-- Why a tick of the checker does what it does.
use lukscryptwalker_csi.Base.{
  ℕ, ◌≡◌, ◌⊎◌, inl, inr, Bool, true, false, not, ◌&&◌, ◌||◌, Option, some, [], arith, Bool-cases,
  neither, if◌then◌else◌,
}
use lukscryptwalker_csi.Base.Bytes.{Bytes, bytes_eq}
use lukscryptwalker_csi.Base.Dict.{Dict, lookup}
use lukscryptwalker_csi.Base.Sets.{member}
use lukscryptwalker_csi.Driver.Backoff.{reconcile_allowed, attempt_allowed, attempt_or_none}
use lukscryptwalker_csi.Driver.Drains.{is_background_draining}
use lukscryptwalker_csi.Driver.Reconcile.Gentle.{IsGentle, reconcile_s3_mount-IsGentle}
use lukscryptwalker_csi.Driver.Setup.{MountState}
use lukscryptwalker_csi.Driver.Checker.{
  looks_dead, is_answer, is_not_found, Tick, Entry, EntryOutcome, ignores, finds_healthy,
  unmounts_only, leaves_to_owner, leaves_to_kubelet, backs_off, reconciles, has_any, repair,
  check_faulty, check_entry, succeeded_for,
}
use lukscryptwalker_csi.Driver.Checker.Judged.{IsStale, Judged, judge-Judged}

-- What a repair needs besides its reason: nobody else owns the volume, it is an S3 volume of this driver,
-- and the backoff lets it through.
abbrev pub IsOurs : Entry → MountState → Type 0
IsOurs e s =
    (bytes_eq e.volume_id [] ≡ false)
    × (member e.volume_id s.in_setup ≡ false)
    × (is_background_draining e.volume_id s.drains ≡ false)
    × (e.has_s3_context ≡ true)

abbrev pub IsReady : Entry → MountState → Type 0
IsReady e s =
    IsOurs e s × (attempt_allowed (attempt_or_none (lookup e.volume_id s.attempts)) e.now ≡ true)

abbrev pub IsMissing : Entry → Type 0
IsMissing e = (is_answer e.statfs && not e.is_fuse) ≡ true

-- Whose business a volume is that is only unmounted: it has no ID, or no S3 context and no owner.
abbrev pub IsNobodys : Entry → MountState → Type 0
IsNobodys e s =
    (bytes_eq e.volume_id [] ≡ true)
    ⊎ ((member e.volume_id s.in_setup ≡ false)
        × (is_background_draining e.volume_id s.drains ≡ false)
        × (e.has_s3_context ≡ false))

abbrev pub IsJustified : Tick → Entry → MountState → EntryOutcome → Type 0
IsJustified t e s (reconciles true r) =
    IsMissing e × (has_any e.consumers ≡ true) × IsReady e s × IsGentle e.reconcile e.volume_id s r
IsJustified t e s (reconciles false r) =
    IsStale t e s × IsReady e s × IsGentle e.reconcile e.volume_id s r
IsJustified t e s unmounts_only = IsStale t e s × IsNobodys e s
IsJustified t e s finds_healthy =
    (looks_dead e.statfs ≡ false) × ((is_answer e.statfs && not e.is_fuse) ≡ false)
IsJustified t e s leaves_to_kubelet = IsMissing e × (has_any e.consumers ≡ false) × IsOurs e s
IsJustified t e s leaves_to_owner =
    (member e.volume_id s.in_setup || is_background_draining e.volume_id s.drains) ≡ true
IsJustified t e s _ = Unit

-- The reason to look at an entry: stale, or missing.
abbrev Faulty : Tick → Entry → MountState → Bool → Type 0
Faulty t e s true = IsStale t e s
Faulty t e s false = IsMissing e

reconcile_allowed-allowed :
    (v : Bytes) (now : ℕ) (s : MountState)
    → (reconcile_allowed v now s.attempts).0 ≡ true
    → attempt_allowed (attempt_or_none (lookup v s.attempts)) now ≡ true
unfolding reconcile_allowed
reconcile_allowed-allowed v now s h = ground arith

module _ (t : Tick) (e : Entry) (s : MountState) (strikes : Dict ℕ) where
  abbrev asked : MountState
  asked = record s { strikes = strikes }

  abbrev Answers : Option (EntryOutcome × MountState) → Type 0
  Answers o = (q : EntryOutcome × MountState) × (o ≡ some q) × IsJustified t e s q.0

  repair-Justified :
      (stale : Bool)
      → Faulty t e s stale
      → (not stale && not (has_any e.consumers)) ≡ false
      → IsOurs e s
      → Answers (repair e (not stale) asked)
  unfolding repair
  repair-Justified true why kept ours =
      let tried : MountState = record asked {
        attempts = (reconcile_allowed e.volume_id e.now s.attempts).1;
      } in
      let (r, f, gentle) =
        reconcile_s3_mount-IsGentle e.reconcile e.volume_id e.staging false tried in
      elim (Bool-cases (reconcile_allowed e.volume_id e.now s.attempts).0) [
        | inl a ↦ (
          (reconciles false r, r.state),
          simp (a, f),
          (why, (ours, reconcile_allowed-allowed e.volume_id e.now s a), gentle),
        )
        | inr a ↦ ((backs_off, tried), simp a, tt)
      ]
  repair-Justified false why kept ours =
      let tried : MountState = record asked {
        attempts = (reconcile_allowed e.volume_id e.now s.attempts).1;
      } in
      let (r, f, gentle) =
        reconcile_s3_mount-IsGentle e.reconcile e.volume_id e.staging true tried in
      elim (Bool-cases (reconcile_allowed e.volume_id e.now s.attempts).0) [
        | inl a ↦ (
          (reconciles true r, r.state),
          simp (a, f),
          (
            why,
            (let consumed = kept in ground arith),
            (ours, reconcile_allowed-allowed e.volume_id e.now s a),
            gentle,
          ),
        )
        | inr a ↦ ((backs_off, tried), simp a, tt)
      ]

  unmount-Justified :
      (stale : Bool)
      → Faulty t e s stale
      → IsNobodys e s
      → IsJustified t e s (if stale then unmounts_only else ignores)
  unmount-Justified true why nobody = (why, nobody)
  unmount-Justified false why nobody = tt

  check_faulty-Justified :
      (stale : Bool) → Faulty t e s stale → Answers (check_faulty e stale asked)
  unfolding check_faulty
  check_faulty-Justified stale why =
      let unmount : EntryOutcome = if stale then unmounts_only else ignores in
      elim (Bool-cases (bytes_eq e.volume_id [])) [
        | inl no_id ↦ ((unmount, asked), simp no_id, unmount-Justified stale why (inl no_id))
        | inr has_id ↦
            elim (Bool-cases
              (member e.volume_id s.in_setup || is_background_draining e.volume_id s.drains)) [
                | inl owned ↦ ((leaves_to_owner, asked), simp (has_id, owned), owned)
                | inr free ↦
                    let (not_set_up, not_draining) =
                      neither (member e.volume_id s.in_setup)
                        (is_background_draining e.volume_id s.drains) free in
                    elim (Bool-cases e.has_s3_context) [
                      | inr foreign ↦ (
                        (unmount, asked),
                        simp (has_id, free, foreign),
                        unmount-Justified stale why (inr (not_set_up, not_draining, foreign)),
                      )
                      | inl ours ↦
                          let owned : IsOurs e s = (has_id, not_set_up, not_draining, ours) in
                          elim (Bool-cases (not stale && not (has_any e.consumers))) [
                            | inl idle ↦ (
                              (leaves_to_kubelet, asked),
                              simp (has_id, free, ours, idle),
                              idle_missing stale why idle owned,
                            )
                            | inr used ↦
                                let (q, f, j) = repair-Justified stale why used owned in
                                (q, simp (has_id, free, ours, used, f), j)
                          ]
                    ]
              ]
      ]
    where
      idle_missing :
          (stale : Bool)
          → Faulty t e s stale
          → (not stale && not (has_any e.consumers)) ≡ true
          → IsOurs e s
          → IsJustified t e s leaves_to_kubelet
      idle_missing true why idle owned = cc
      idle_missing false why idle owned = (why, (let none_left = idle in ground arith), owned)

well_found :
    (t : Tick) (e : Entry) (s : MountState) (stale : Bool)
    → Judged t e s stale
    → (not stale && not (is_answer e.statfs && not e.is_fuse)) ≡ true
    → IsJustified t e s finds_healthy
well_found t e s true judged well = cc
well_found t e s false judged well = (judged, let present = well in ground arith)

ill_found :
    (t : Tick) (e : Entry) (s : MountState) (stale : Bool)
    → Judged t e s stale
    → (not stale && not (is_answer e.statfs && not e.is_fuse)) ≡ false
    → Faulty t e s stale
ill_found t e s true judged ill = judged
ill_found t e s false judged ill = let absent = ill in ground arith

-- What a tick does at an entry, it has a reason for, and it always goes on to the next entry. It
-- reconciles a stale mount when statfs blocks or shows it dead, or when it answers as a FUSE mount and
-- either rclone's registry shows no VFS of its name for the second time since it last showed one, or the
-- read probe failed or hangs; and a missing one, where statfs answers without a FUSE mount, when a consumer is on the node.
-- In both cases the volume has an ID and an S3 context, is neither being set up nor draining, its backoff
-- has gone by, and the reconcile is gentle with its consumers. It only unmounts a stale mount when nobody
-- owns the volume and it has no ID or no S3 context. It takes a mount for healthy only when statfs does
-- not show it dead and it is not missing.
pub check_entry-IsJustified :
    (t : Tick) (e : Entry) (s : MountState)
    → (q : EntryOutcome × MountState) × (check_entry t e s ≡ some q) × IsJustified t e s q.0
unfolding check_entry
check_entry-IsJustified t e s =
    let (stale, strikes, j, judged) = judge-Judged t e s in
    elim (Bool-cases (not e.is_dir || is_not_found e.statfs)) [
      | inl skip ↦ ((ignores, s), simp skip, tt)
      | inr look ↦ elim (Bool-cases (not stale && not (is_answer e.statfs && not e.is_fuse))) [
        | inl well ↦ (
          (finds_healthy, succeeded_for e.volume_id (record s { strikes = strikes })),
          simp (look, j, well),
          well_found t e s stale judged well,
        )
        | inr ill ↦
            let (q, f, why) =
              check_faulty-Justified t e s strikes stale (ill_found t e s stale judged ill) in
            (q, simp (look, j, ill, f), why)
      ]
    ]
