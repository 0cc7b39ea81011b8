-- ===== src/Driver/Reconcile/Gentle.antt =====
-- What a reconcile may do to the volume's consumers, and what it leaves.
use mathlib.Core.Path.{subst}
use lukscryptwalker_csi.Base.{
  ◌≡◌, refl, sym, ap, ◌∙◌, inl, inr, Bool, true, false, not, ◌&&◌, ◌||◌, Option, none, some, List,
  [], ◌∷◌, All, any, is_some, Bool-cases, and_false, not-false,
}
use lukscryptwalker_csi.Base.Bytes.{Bytes, bytes_eq_refl}
use lukscryptwalker_csi.Base.Dict.{lookup, delete, lookup-delete}
use lukscryptwalker_csi.Base.Sets.{member, insert, remove, member-remove}
use lukscryptwalker_csi.Rclone.Mounting.{Mounter}
use lukscryptwalker_csi.Driver.Backoff.{consumer_restart_allowed}
use lukscryptwalker_csi.Driver.Pods.{
  Pod, PodCall, kills, deletes, force_deletes, unbinds, rebinds, is_terminating,
}
use lukscryptwalker_csi.Driver.Pods.Healing.{pod_self_heals}
use lukscryptwalker_csi.Driver.Setup.{MountState}
use lukscryptwalker_csi.Driver.Setup.Total.{Sets, setup_s3_sync-Sets, reexpose_live_session-returns}
use lukscryptwalker_csi.Driver.Reconcile.{
  consumer_mount_healthy, treat_consumer, treat_consumers, ReconcileWorld, ReconcileCall,
  Reconciled, after_setup, remount, reconcile_s3_mount, teardown_calls, untouched_by,
}

-- A call that ends a consumer's processes or its pod.
abbrev pub harms : PodCall → Bool
harms (kills pid) = true
harms (deletes uid) = true
harms (force_deletes uid) = true
harms (unbinds uid) = false
harms (rebinds uid) = false

abbrev pub granted_now : ReconcileWorld → Bytes → MountState → Bool
granted_now w v s = (consumer_restart_allowed w.registered v w.now s.restarts).0

-- A consumer that runs is harmed only if a restart was granted and it does not heal by itself.
abbrev pub IsSpared : ReconcileWorld → Bool → Pod × List PodCall → Type 0
IsSpared w budget (p, calls) =
    (any harms calls
      && (not (is_terminating p)
          && not (
              budget
              && not (pod_self_heals p w.claim && consumer_mount_healthy (w.at p) w.pv_name))))
    ≡ false

treat_consumer-IsSpared :
    (w : ReconcileWorld) (budget : Bool) (p : Pod)
    → IsSpared w budget (p, treat_consumer (w.at p) budget w.claim w.pv_name p)
unfolding treat_consumer any
treat_consumer-IsSpared w budget p = elim (Bool-cases (is_terminating p)) [
  | inl t ↦ rw (t, and_false) refl
  | inr t ↦
      elim (Bool-cases (pod_self_heals p w.claim && consumer_mount_healthy (w.at p) w.pv_name)) [
        | inl healthy ↦ simp (t, healthy)
        | inr sick ↦ elim (Bool-cases budget) [
          | inl b ↦ simp (t, sick, b, and_false)
          | inr b ↦ simp (t, sick, b)
        ]
      ]
]

treat_consumers-IsSpared :
    (w : ReconcileWorld) (budget : Bool) (ps : List Pod)
    → All (IsSpared w budget) (treat_consumers w budget ps)
unfolding treat_consumers
treat_consumers-IsSpared w budget [] = tt
treat_consumers-IsSpared w budget (p ∷ ps) =
    (treat_consumer-IsSpared w budget p, treat_consumers-IsSpared w budget ps)

abbrev pub is_empty : List ReconcileCall → Bool
is_empty [] = true
is_empty (c ∷ cs) = false

-- What a reconcile of v from state s leaves.
abbrev pub IsGentle : ReconcileWorld → Bytes → MountState → Reconciled → Type 0
IsGentle w v s r =
    All (IsSpared w (granted_now w v s)) r.treated
    × ((any harms r.restarted_all && not (granted_now w v s && not r.remounted)) ≡ false)
    × (is_some (lookup v r.state.managers) ≡ (r.remounted || is_empty r.calls))
    × (member v r.state.in_setup ≡ false)

gone : (v : Bytes) (xs : List Bytes) → member v (remove v xs) ≡ false
gone v xs = rw (member-remove v v xs, bytes_eq_refl v) refl

-- With the times of restarts as they were when the reconcile began.
after_setup-IsGentle :
    (w : ReconcileWorld) (v : Bytes) (c : ReconcileCall) (calls : List ReconcileCall)
    (s : MountState) (q : Bool × MountState)
    → Sets v s q
    → IsGentle w v s (after_setup w v (c ∷ calls) q)
unfolding after_setup any
after_setup-IsGentle w v c calls s (true, q) (same, held) =
    let budget = (consumer_restart_allowed w.registered v w.now q.restarts).0 in
    let spared = treat_consumers-IsSpared w budget w.consumers in
    let kept : is_some (lookup v q.managers) ≡ true =
      not-false (is_some (lookup v q.managers)) held in
    (
      subst
          (λ times.
            All (IsSpared w (consumer_restart_allowed w.registered v w.now times).0)
              (treat_consumers w budget w.consumers))
          same spared,
      refl,
      kept,
      gone v q.in_setup,
    )
after_setup-IsGentle w v c calls s (false, q) (same, held) =
    let same_budget = ap (λ times. (consumer_restart_allowed w.registered v w.now times).0) same in
    let dropped : lookup v (delete v q.managers) ≡ none =
      rw (lookup-delete v v q.managers, bytes_eq_refl v) refl in
    (
      tt,
      elim (Bool-cases (consumer_restart_allowed w.registered v w.now q.restarts).0) [
        | inl yes_granted ↦
            let now_granted : granted_now w v s ≡ true = sym same_budget ∙ yes_granted in
            rw (now_granted, and_false) refl
        | inr not_granted ↦ rw not_granted refl
      ],
      ap is_some dropped,
      gone v q.in_setup,
    )

after_teardown-IsGentle :
    (w : ReconcileWorld) (v : Bytes) (old : Option Mounter) (s : MountState) (q : Bool × MountState)
    → Sets v s q
    → IsGentle w v s (after_setup w v (teardown_calls old) q)
after_teardown-IsGentle w v none s q sets = after_setup-IsGentle w v _ _ s q sets
after_teardown-IsGentle w v (some m) s q sets = after_setup-IsGentle w v _ _ s q sets

remount-IsGentle :
    (w : ReconcileWorld) (v staging : Bytes) (s : MountState)
    → (r : Reconciled) × (remount w v staging s ≡ some r) × IsGentle w v s r
unfolding remount
remount-IsGentle w v staging s =
    let dropped : MountState = record s { managers = delete v s.managers } in
    let (q, e, sets) = setup_s3_sync-Sets w.setup v staging dropped in
    (
      after_setup w v (teardown_calls (lookup v s.managers)) q,
      rw (e, remount) refl,
      after_teardown-IsGentle w v (lookup v s.managers) dropped q sets,
    )

-- A reconcile returns. It kills or deletes a consumer that runs only if a restart of the volume's
-- consumers was granted now, and never one that healed by itself: its pod mounts the volume with
-- propagation and its bind shows the device of the repaired staging path. It restarts all of them only if
-- that was granted and the mount could not be made. It ends with a manager registered exactly when the
-- volume was mounted again or its live session only had to be exposed again, and with the volume no
-- longer marked as being set up.
pub reconcile_s3_mount-IsGentle :
    (w : ReconcileWorld) (v staging : Bytes) (is_missing : Bool) (s : MountState)
    → (r : Reconciled) × (reconcile_s3_mount w v staging is_missing s ≡ some r) × IsGentle w v s r
unfolding reconcile_s3_mount any
reconcile_s3_mount-IsGentle w v staging false s =
    remount-IsGentle w v staging (record s { in_setup = insert v s.in_setup })
reconcile_s3_mount-IsGentle w v staging true s =
    let marked : MountState = record s { in_setup = insert v s.in_setup } in
    let (b, e, held) = reexpose_live_session-returns v staging w.session (lookup v s.managers) in
    let (r, f, gentle) = remount-IsGentle w v staging marked in
    elim (Bool-cases b) [
      | inl live ↦
          let kept : is_some (lookup v s.managers) ≡ true =
            not-false (is_some (lookup v s.managers)) (rw live at held) in
          (
            untouched_by v marked,
            rw (e, reconcile_s3_mount, live) refl,
            (tt, refl, kept, gone v (insert v s.in_setup)),
          )
      | inr no_session ↦ (r, rw (e, reconcile_s3_mount, no_session) f, gentle)
    ]
