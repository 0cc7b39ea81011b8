-- ===== src/Driver/Setup/Total.antt =====
-- A setup returns, and what it leaves.
use lukscryptwalker_csi.Base.{
  ◌+◌, ◌≡◌, refl, inl, inr, Bool, true, false, not, ◌&&◌, ◌||◌, Option, none, some, [], arith,
  is_some, Bool-cases, Option-cases,
}
use lukscryptwalker_csi.Base.Bytes.{Bytes, bytes_eq, bytes_eq_refl}
use lukscryptwalker_csi.Base.Dict.{Dict, lookup, put, lookup-put}
use lukscryptwalker_csi.Rclone.Exposure.{
  SessionWorld, session_serving, reexpose, mounted_device, mount_ready_timeout, max_staging_unwind,
  reexposed_as, Reexposed, untouched,
}
use lukscryptwalker_csi.Rclone.Exposure.Serving.{expose-Exposes}
use lukscryptwalker_csi.Rclone.Mounting.{Mounter, MountStatus, already_mounted, now_mounted, failed}
use lukscryptwalker_csi.Rclone.Mounting.Outcome.{mount-Ends}
use lukscryptwalker_csi.Rclone.Drain.{CacheDisk}
use lukscryptwalker_csi.Driver.Drains.{Drains, is_background_draining, take_over}
use lukscryptwalker_csi.Driver.Setup.{
  MountState, SetupWorld, VolumeSecrets, is_exposed, reexpose_live_session, manager_for,
  mount_with_secrets, register, mount_s3_volume, setup_gated, setup_s3_sync, drains_after_wait,
}

reexpose-returns :
    (mount_point : Bytes) (w : SessionWorld) → (r : Reexposed) × (reexpose mount_point w ≡ some r)
unfolding reexpose
reexpose-returns mount_point w = elim (Option-cases (mounted_device w.again)) [
  | inl e ↦ (untouched, rw (e, reexpose) refl)
  | inr (dev, e) ↦
      let (b, f, seen) =
        expose-Exposes w.bound mount_point dev (w.now + mount_ready_timeout) w.looks w.now in
      (reexposed_as (λ i. w.unbinds (i + max_staging_unwind)) b, rw (e, reexpose, f) refl)
]

-- Re-exposing a session returns, and repairs nothing where there is no manager.
pub reexpose_live_session-returns :
    (v staging : Bytes) (w : SessionWorld) (m : Option Mounter)
    → (b : Bool) × (reexpose_live_session v staging w m ≡ some b) × ((b && not (is_some m)) ≡ false)
unfolding reexpose_live_session
reexpose_live_session-returns v staging w none = (false, refl, refl)
reexpose_live_session-returns v staging w (some m) =
    let (r, e) = reexpose-returns staging w in
    let serving = session_serving v m.generation m.session.session_path w in
    elim (Bool-cases (not (bytes_eq m.mount_point staging) || not serving)) [
      | inl no_session ↦ (false, rw no_session refl, refl)
      | inr live ↦ (is_exposed r, rw (live, e) refl, ground arith)
    ]

-- What a setup returns: the restart times stay, and the volume has a manager where it succeeds.
abbrev pub Sets : Bytes → MountState → Bool × MountState → Type 0
Sets v s q = (q.1.restarts ≡ s.restarts) × ((q.0 && not (is_some (lookup v q.1.managers))) ≡ false)

put_back : (v : Bytes) (m : Mounter) (ms : Dict Mounter) → is_some (lookup v (put v m ms)) ≡ true
put_back v m ms = rw (lookup-put v v m ms, bytes_eq_refl v) refl

register-Sets :
    (v : Bytes) (s : MountState) (m : Mounter) (disk : CacheDisk) (status : MountStatus)
    → Sets v s (register v s m disk status)
unfolding register
register-Sets v s m disk (failed e) = (refl, refl)
register-Sets v s m disk now_mounted = (refl, rw (put_back v m s.managers) refl)
register-Sets v s m disk already_mounted = (refl, rw (put_back v m s.managers) refl)

mount_with_secrets-Sets :
    (o : Option VolumeSecrets) (w : SetupWorld) (v staging : Bytes) (s : MountState)
    → (q : Bool × MountState) × (mount_with_secrets o w v staging s ≡ some q) × Sets v s q
unfolding mount_with_secrets
mount_with_secrets-Sets none w v staging s = ((false, s), refl, (refl, refl))
mount_with_secrets-Sets (some secrets) w v staging s =
    let (r, e, ends, alone) =
      mount-Ends w.mount (manager_for w v staging secrets.passphrase) s.disk in
    elim (Bool-cases (bytes_eq secrets.bucket [] || bytes_eq secrets.passphrase [])) [
      | inl unset ↦ ((false, s), rw unset refl, (refl, refl))
      | inr set ↦ (
        register v s r.mounter r.disk r.status,
        rw (set, e) refl,
        register-Sets v s r.mounter r.disk r.status,
      )
    ]

setup_gated-Sets :
    (w : SetupWorld) (v staging : Bytes) (s : MountState) (o : Option Drains)
    → (q : Bool × MountState) × (setup_gated w v staging s o ≡ some q) × Sets v s q
unfolding setup_gated mount_s3_volume
setup_gated-Sets w v staging s none = ((false, s), refl, (refl, refl))
setup_gated-Sets w v staging s (some drains) =
    let taken : MountState = record s { drains = drains } in
    let (b, e, held) = reexpose_live_session-returns v staging w.session (lookup v s.managers) in
    let (q, f, sets) = mount_with_secrets-Sets w.secrets w v staging taken in
    elim (Bool-cases b) [
      | inl yes_live ↦
          ((true, taken), rw (e, setup_gated, yes_live) refl, (refl, rw yes_live at held))
      | inr no_live ↦ (q, rw (e, setup_gated, no_live) f, sets)
    ]

-- setupS3Sync returns.
pub setup_s3_sync-Sets :
    (w : SetupWorld) (v staging : Bytes) (s : MountState)
    → (q : Bool × MountState) × (setup_s3_sync w v staging s ≡ some q) × Sets v s q
unfolding setup_s3_sync
setup_s3_sync-Sets w v staging s =
    let (q, e, sets) =
      setup_gated-Sets w v staging s (take_over v (drains_after_wait w v s.drains)) in
    elim (Bool-cases (is_background_draining v s.drains && not w.finished)) [
      | inl drains ↦ ((false, s), simp drains, (refl, refl))
      | inr free ↦ (q, simp (free, e), sets)
    ]
