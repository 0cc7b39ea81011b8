-- ===== src/Rclone/Exposure/Serving.antt =====
-- What holds when a session is exposed.
use lukscryptwalker_csi.Base.{
  ℕ, zero, suc, ◌+◌, ◌-◌, ◌*◌, ◌≤◌, ◌≡◌, ◌≢◌, refl, inl, inr, Bool, true, false, none, some, arith,
  ltb, ltb→lt, Bool-cases, Option-cases,
}
use lukscryptwalker_csi.Base.Bytes.{Bytes, codes, bytes_eq, bytes_eq→eq, contains}
use lukscryptwalker_csi.Rclone.Mounts.{HostMount, Table, stack_at, topmost}
use lukscryptwalker_csi.Rclone.Exposure.{
  Look, top_usable, mount_usable, expose_loop, turns_within, expose, Readiness, ready_loop,
  wait_for_mount_ready, mounted_device, DeviceReply, ready_interval, mount_ready_timeout,
}

-- A look sees the device on top of the staging path's stack as a FUSE mount that lists.
abbrev pub Sees : Bytes → Bytes → Look → Type 0
Sees mount_point dev l =
    (t : Table) × (l.stacks ≡ some t)
    × ((top : HostMount) × (topmost (stack_at mount_point t) ≡ some top)
        × (contains top.fs_type (codes "fuse") ≡ true)
        × (top.dev ≡ dev))
    × (l.lists ≡ true)

top_usable_sound :
    (dev : Bytes) (lists : Bool) (top : HostMount)
    → top_usable dev lists (some top) ≡ true
    → (contains top.fs_type (codes "fuse") ≡ true) × (top.dev ≡ dev) × (lists ≡ true)
unfolding top_usable
top_usable_sound dev lists top h = elim (Bool-cases (contains top.fs_type (codes "fuse"))) [
  | inl f ↦ elim (Bool-cases (bytes_eq top.dev dev)) [
    | inl e ↦ (f, bytes_eq→eq top.dev dev e, rw (f, e) at h)
    | inr e ↦ absurd (let no_way = rw (f, e) at h in ground arith)
  ]
  | inr f ↦ absurd (let no_way = rw f at h in ground arith)
]

top_usable-none : (dev : Bytes) (lists : Bool) → top_usable dev lists none ≢ true
unfolding top_usable
top_usable-none dev lists h = cc

mount_usable-Sees :
    (mount_point dev : Bytes) (l : Look)
    → mount_usable mount_point dev l ≡ true
    → Sees mount_point dev l
unfolding mount_usable
mount_usable-Sees mount_point dev l h = elim (Option-cases l.stacks) [
  | inl e ↦ absurd (let no_way = rw e at h in ground arith)
  | inr (t, e) ↦
      let at = rw e at h in
      elim (Option-cases (topmost (stack_at mount_point t))) [
        | inl o ↦ absurd (let no_way = top_usable-none dev l.lists (rw o at at) in no_way)
        | inr (top, o) ↦
            let (fuse, same, lists) = top_usable_sound dev l.lists top (rw o at at) in
            (t, e, (top, o, fuse, same), lists)
      ]
]

-- Some look has seen it.
abbrev pub Exposes : Bytes → Bytes → (ℕ → Look) → Bool → Type 0
Exposes mount_point dev looks false = Unit
Exposes mount_point dev looks true = (i : ℕ) × Sees mount_point dev (looks i)

expose_loop-Exposes :
    (fuel : ℕ) (mount_point dev : Bytes) (deadline : ℕ) (world : ℕ → Look) (i now : ℕ)
    → deadline - now + ready_interval ≤ ready_interval * fuel
    → (b : Bool) × (expose_loop fuel mount_point dev deadline world i now ≡ some b)
      × Exposes mount_point dev world b
unfolding expose_loop
expose_loop-Exposes zero mount_point dev deadline world i now h = absurd (omega arith)
expose_loop-Exposes (suc fuel) mount_point dev deadline world i now h =
    elim (Bool-cases (ltb now deadline)) [
      | inl l ↦ elim (Bool-cases (mount_usable mount_point dev (world i))) [
        | inl u ↦ (true, rw (l, u) refl, (i, mount_usable-Sees mount_point dev (world i) u))
        | inr u ↦
            let (b, e, s) =
              expose_loop-Exposes fuel mount_point dev deadline world (suc i)
                (now + (world i).took + ready_interval)
                (let before = ltb→lt now deadline l in omega arith) in
            (b, rw (l, u) e, s)
      ]
      | inr l ↦ (false, rw l refl, tt)
    ]

enough_turns : (w : ℕ) → w + ready_interval ≤ ready_interval * turns_within w
unfolding turns_within
enough_turns w = omega arith

-- expose returns, whatever the host shows and however long its looks take; it succeeds only once a look
-- has seen this session's device as the topmost mount of the staging path.
pub expose-Exposes :
    (bound : Bool) (mount_point dev : Bytes) (deadline : ℕ) (looks : ℕ → Look) (now : ℕ)
    → (b : Bool) × (expose bound mount_point dev deadline looks now ≡ some b)
      × Exposes mount_point dev looks b
unfolding expose
expose-Exposes false mount_point dev deadline looks now = (false, refl, tt)
expose-Exposes true mount_point dev deadline looks now =
    expose_loop-Exposes (turns_within (deadline - now)) mount_point dev deadline looks 0 now
      (enough_turns (deadline - now))

-- The session became a mountpoint of some device, and the host was seen to serve that device.
abbrev pub Serves : Bytes → Readiness → Bool → Type 0
Serves mount_point r false = Unit
Serves mount_point r true =
    (i : ℕ) × (j : ℕ) × (dev : Bytes) × (r.devices i ≡ some (dev, true))
    × Sees mount_point dev (r.looks j)

mounted_device-some :
    (d : DeviceReply) (dev : Bytes) → mounted_device d ≡ some dev → d ≡ some (dev, true)
mounted_device-some none dev h = cc
mounted_device-some (some (d, false)) dev h = cc
mounted_device-some (some (d, true)) dev h = cc

Exposes-Serves :
    (mount_point : Bytes) (r : Readiness) (i : ℕ) (dev : Bytes) (b : Bool)
    → r.devices i ≡ some (dev, true)
    → Exposes mount_point dev r.looks b
    → Serves mount_point r b
Exposes-Serves mount_point r i dev false d s = tt
Exposes-Serves mount_point r i dev true d (j, s) = (i, j, dev, d, s)

ready_loop-Serves :
    (fuel : ℕ) (mount_point : Bytes) (r : Readiness) (deadline i now : ℕ)
    → deadline - now + ready_interval ≤ ready_interval * fuel
    → (b : Bool) × (ready_loop fuel mount_point r deadline i now ≡ some b) × Serves mount_point r b
unfolding ready_loop
ready_loop-Serves zero mount_point r deadline i now h = absurd (omega arith)
ready_loop-Serves (suc fuel) mount_point r deadline i now h = elim (Bool-cases (ltb now deadline)) [
  | inl l ↦ elim (Option-cases (mounted_device (r.devices i))) [
    | inl d ↦
        let (b, e, s) =
          ready_loop-Serves fuel mount_point r deadline (suc i) (now + r.took i + ready_interval)
            (let before = ltb→lt now deadline l in omega arith) in
        (b, rw (l, d) e, s)
    | inr (dev, d) ↦
        let (b, e, s) = expose-Exposes r.bound mount_point dev deadline r.looks (now + r.took i) in
        (
          b,
          rw (l, d) e,
          Exposes-Serves mount_point r i dev b (mounted_device-some (r.devices i) dev d) s,
        )
  ]
  | inr l ↦ (false, rw l refl, tt)
]

-- waitForMountReady returns, whatever the host shows and however long its calls take. It succeeds only
-- when the session became a mountpoint, and the host was seen to resolve that very device, a FUSE one that
-- lists, on top of the staging path.
pub wait_for_mount_ready-Serves :
    (mount_point : Bytes) (r : Readiness) (now : ℕ)
    → (b : Bool) × (wait_for_mount_ready mount_point r now ≡ some b) × Serves mount_point r b
unfolding wait_for_mount_ready
wait_for_mount_ready-Serves mount_point r now =
    ready_loop-Serves (turns_within mount_ready_timeout) mount_point r (now + mount_ready_timeout) 0
      now (let enough = enough_turns mount_ready_timeout in omega (arith, enough))
