-- ===== src/Rclone/Exposure.antt =====
-- pkg/rclone/syncmanager.go: how a mount's session is exposed at the staging path, and when it serves
-- there. What the host's table, stat, bind and unmount answer at each turn is what the world shows.
pub mod Serving
use lukscryptwalker_csi.Base.{
  ℕ, zero, suc, ◌+◌, ◌-◌, ◌*◌, ◌/◌, ◌^◌, Bool, true, false, not, ◌||◌, Option, none, some, List, [],
  ◌∷◌, ltb, ◌==◌, if◌then◌else◌,
}
use lukscryptwalker_csi.Base.Bytes.{Bytes, codes, bytes_eq, contains}
use lukscryptwalker_csi.Base.Sets.{member}
use lukscryptwalker_csi.Rclone.Mounts.{HostMount, Table, stack_at, topmost}
use lukscryptwalker_csi.Rclone.Drain.{second}
use lukscryptwalker_csi.Rclone.Session.{live_sessions}
use lukscryptwalker_csi.Rclone.Exclusive.{count_registered_vfs}

-- mountReadyTimeout, and the sleep between two looks
abbrev pub mount_ready_timeout : ℕ
mount_ready_timeout = 20 * second

abbrev pub ready_interval : ℕ
ready_interval = 5 * 10 ^ 8

-- What mountedDevice returns: `none` for an error, or the device and whether the path is a mountpoint.
abbrev pub DeviceReply : Type 0
DeviceReply = Option (Bytes × Bool)

-- err == nil && mounted
abbrev pub mounted_device : DeviceReply → Option Bytes
mounted_device none = none
mounted_device (some (dev, false)) = none
mounted_device (some (dev, true)) = some dev

-- One look of the wait for the host: the table (`none` when it is unreadable), whether the staging path
-- can be listed, and how long the look takes.
pub record Look : Type 0 where
  pub stacks : Option Table
  pub lists : Bool
  pub took : ℕ

-- mountUsable on the topmost mount of the staging path
unfoldable pub top_usable : Bytes → Bool → Option HostMount → Bool
top_usable dev lists none = false
top_usable dev lists (some top) =
    if not (contains top.fs_type (codes "fuse"))
    then false
    else if not (bytes_eq top.dev dev)
    then false
    else lists

-- mountUsable returns nil
unfoldable pub mount_usable : Bytes → Bytes → Look → Bool
unfolding top_usable stack_at topmost
mount_usable mount_point dev l = elim l.stacks [
  | none ↦ false
  | some t ↦ top_usable dev l.lists (topmost (stack_at mount_point t))
]

-- The loop of expose, on fuel; `none` is out of fuel. `world i` is the i-th look.
unfoldable pub expose_loop : ℕ → Bytes → Bytes → ℕ → (ℕ → Look) → ℕ → ℕ → Option Bool
unfolding mount_usable
expose_loop zero mount_point dev deadline world i now = none
expose_loop (suc fuel) mount_point dev deadline world i now =
    if ltb now deadline
    then elim (mount_usable mount_point dev (world i)) [
      | true ↦ some true
      | false ↦
          expose_loop fuel mount_point dev deadline world (suc i)
            (now + (world i).took + ready_interval)
    ]
    else some false

-- Enough turns for a budget: each one sleeps for half a second.
unfoldable pub turns_within : ℕ → ℕ
turns_within budget = suc (budget / ready_interval + 1)

-- expose at time `now`; `bound` says whether the bind succeeds
unfoldable pub expose : Bool → Bytes → Bytes → ℕ → (ℕ → Look) → ℕ → Option Bool
unfolding expose_loop turns_within
expose bound mount_point dev deadline world now =
    if not bound
    then some false
    else expose_loop (turns_within (deadline - now)) mount_point dev deadline world 0 now

-- What the start of a session meets: mountedDevice at each turn with the time it takes, then the bind
-- and the looks of expose.
pub record Readiness : Type 0 where
  pub devices : ℕ → DeviceReply
  pub took : ℕ → ℕ
  pub bound : Bool
  pub looks : ℕ → Look

-- The loop of waitForMountReady, on fuel.
unfoldable pub ready_loop : ℕ → Bytes → Readiness → ℕ → ℕ → ℕ → Option Bool
unfolding expose
ready_loop zero mount_point r deadline i now = none
ready_loop (suc fuel) mount_point r deadline i now =
    if ltb now deadline
    then elim (mounted_device (r.devices i)) [
      | some dev ↦ expose r.bound mount_point dev deadline r.looks (now + r.took i)
      | none ↦ ready_loop fuel mount_point r deadline (suc i) (now + r.took i + ready_interval)
    ]
    else some false

-- waitForMountReady from time `now`: whether it returns nil
unfoldable pub wait_for_mount_ready : Bytes → Readiness → ℕ → Option Bool
unfolding ready_loop turns_within
wait_for_mount_ready mount_point r now =
    ready_loop (turns_within mount_ready_timeout) mount_point r (now + mount_ready_timeout) 0 now

-- What an unmount without flags answers: done, EINVAL or ENOENT, or another error.
pub data UnmountAnswer : Type 0 where
  removed : UnmountAnswer
  nothing_there : UnmountAnswer
  refused : UnmountAnswer

-- One turn of unbindStaging: that answer, and whether MNT_DETACH succeeds.
pub record UnbindTurn : Type 0 where
  pub plain : UnmountAnswer
  pub detached : Bool

-- maxStagingUnwind
abbrev pub max_staging_unwind : ℕ
max_staging_unwind = 10

-- The loop with `turns` left, at turn i: whether nothing is left at the staging path.
unfoldable pub unbind_from : ℕ → (ℕ → UnbindTurn) → ℕ → Bool
unbind_from zero world i = false
unbind_from (suc turns) world i =
    let rest = unbind_from turns world (suc i) in
    elim (world i).plain [
      | nothing_there ↦ true
      | removed ↦ rest
      | refused ↦ if (world i).detached then rest else false
    ]

-- unbindStaging
unfoldable pub unbind_staging : (ℕ → UnbindTurn) → Bool
unfolding unbind_from
unbind_staging world = unbind_from max_staging_unwind world 0

-- What SessionServing and Reexpose meet: mount/listmounts, vfs/list, mountedDevice of the session, whether
-- the session can be listed, and what its exposure meets.
pub record SessionWorld : Type 0 where
  pub mount_points : Option (List Bytes)
  pub vfses : Option (List (Option Bytes))
  pub device : DeviceReply
  pub lists : Bool
  pub again : DeviceReply
  pub unbinds : ℕ → UnbindTurn
  pub bound : Bool
  pub looks : ℕ → Look
  pub now : ℕ

abbrev pub is_one : Option ℕ → Bool
is_one none = false
is_one (some n) = n == 1

abbrev pub is_mounted : DeviceReply → Bool
is_mounted none = false
is_mounted (some (dev, mounted)) = mounted

-- SessionServing, of a manager with this volume ID, generation and session path
unfoldable pub session_serving : Bytes → ℕ → Bytes → SessionWorld → Bool
unfolding live_sessions member count_registered_vfs
session_serving v generation session w =
    let (live, known) = live_sessions v w.mount_points in
    if bytes_eq session []
    then false
    else if not known || not (member session live)
    then false
    else if not (is_one (count_registered_vfs v generation w.vfses))
    then false
    else if not (is_mounted w.device)
    then false
    else w.lists

-- What Reexpose leaves: an error before it touches the staging path, the session bound there, or an error
-- after which the staging path is unbound once more (`true` where nothing is left there).
pub data Reexposed : Type 0 where
  untouched : Reexposed
  exposed : Reexposed
  withdrawn : Bool → Reexposed

abbrev pub reexposed_as : (ℕ → UnbindTurn) → Bool → Reexposed
reexposed_as unbinds true = exposed
reexposed_as unbinds false = withdrawn (unbind_staging unbinds)

-- Reexpose; the turns of its second unbindStaging follow those of the first
unfoldable pub reexpose : Bytes → SessionWorld → Option Reexposed
unfolding expose unbind_staging
reexpose mount_point w = elim (mounted_device w.again) [
  | none ↦ some untouched
  | some dev ↦ elim (expose w.bound mount_point dev (w.now + mount_ready_timeout) w.looks w.now) [
    | none ↦ none
    | some ok ↦ some (reexposed_as (λ i. w.unbinds (i + max_staging_unwind)) ok)
  ]
]
