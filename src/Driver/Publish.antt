-- ===== src/Driver/Publish.antt =====
-- pkg/driver/node.go and node_s3.go: publishing an S3 volume, and the unwinding of stacked mounts.
pub mod Live
use lukscryptwalker_csi.Base.{
  ℕ, zero, suc, Bool, true, false, not, ◌&&◌, ◌||◌, Option, none, some, List, [], ◌∷◌, ◌==◌,
  if◌then◌else◌,
}
use lukscryptwalker_csi.Base.Bytes.{Bytes, bytes_eq}

-- What verifyS3StagingLive meets: HostFUSEMountState (`none` when the table is unreadable), and statfs
-- (`none` when it blocks, else whether it succeeded).
pub record Liveness : Type 0 where
  pub fuse_mount : Option Bool
  pub statfs : Option Bool

-- verifyS3StagingLive returns nil
unfoldable pub verify_s3_staging_live : Liveness → Bool
verify_s3_staging_live l = elim l.fuse_mount [
  | none ↦ false
  | some is_fuse ↦
      if not is_fuse then false else elim l.statfs [ none ↦ false | some answered ↦ answered ]
]

-- What the two gates of a publish meet: the staging path at first, whether the mount table is known
-- then, the restoration's success, and the staging path after it; and what bindMount's three commands meet,
-- mkdir, mount --bind and mount -o remount,ro.
pub record PublishWorld : Type 0 where
  pub first : Liveness
  pub mounts_known : Bool
  pub restored : Bool
  pub second : Liveness
  pub dir_made : Bool
  pub bound : Bool
  pub remounted : Bool

-- ensureVolumeStaged on an S3 volume: whether it returns nil
unfoldable pub ensure_volume_staged : PublishWorld → Bool
unfolding verify_s3_staging_live
ensure_volume_staged w =
    if verify_s3_staging_live w.first
    then true
    else if not w.mounts_known
    then false
    else w.restored

-- isAlreadyStaged on an S3 volume: `none` is the error
unfoldable pub is_already_staged : Liveness → Bool → Option Bool
unfolding verify_s3_staging_live
is_already_staged first mounts_known =
    if verify_s3_staging_live first
    then some true
    else if not mounts_known
    then none
    else some false

pub data PublishStatus : Type 0 where
  published : PublishStatus
  invalid_argument : PublishStatus
  failed_precondition : PublishStatus
  internal : PublishStatus

-- bindMount: whether it returns nil, and whether it has run mount --bind. A remount that fails leaves the
-- target bound.
unfoldable pub bind_mount : PublishWorld → Bool → Bool × Bool
bind_mount w readonly =
    if not w.dir_made
    then (false, false)
    else if not w.bound
    then (false, true)
    else if readonly && not w.remounted
    then (false, true)
    else (true, true)

abbrev pub bind_status : Bool → PublishStatus
bind_status true = published
bind_status false = internal

-- NodePublishVolume on an S3 volume, validatePublishVolumeRequest with it: the status, and whether
-- mount --bind was run from the staging path to the target.
unfoldable pub node_publish_volume :
    PublishWorld → Bytes → Bytes → Bytes → Bool → PublishStatus × Bool
unfolding ensure_volume_staged verify_s3_staging_live bind_mount
node_publish_volume w v staging target readonly =
    if bytes_eq v [] || bytes_eq staging [] || bytes_eq target []
    then (invalid_argument, false)
    else if not (ensure_volume_staged w)
    then (internal, false)
    else if not (verify_s3_staging_live w.second)
    then (failed_precondition, false)
    else let (done, ran) = bind_mount w readonly in (bind_status done, ran)

-- maxMountStackUnwind
abbrev pub max_mount_stack_unwind : ℕ
max_mount_stack_unwind = 10

-- What one turn of unmountHostStack meets: the depth where the table is known, and the unmount.
pub record UnwindTurn : Type 0 where
  pub depth : Option ℕ
  pub unmounted : Bool

-- The loop with `turns` left, at turn i: whether it returns nil.
unfoldable pub unwind_from : ℕ → (ℕ → UnwindTurn) → ℕ → Bool
unwind_from zero world i = false
unwind_from (suc turns) world i =
    let rest = unwind_from turns world (suc i) in
    elim (world i).depth [
      | none ↦ false
      | some depth ↦ if depth == 0 then true else if not (world i).unmounted then false else rest
    ]

-- unmountHostStack
unfoldable pub unmount_host_stack : (ℕ → UnwindTurn) → Bool
unfolding unwind_from
unmount_host_stack world = unwind_from max_mount_stack_unwind world 0

-- unmountPath: whether it returns nil, and how many mounts it asked the host to remove at most once
unfoldable pub unmount_path : (ℕ → UnwindTurn) → Option ℕ → Bool
unfolding unmount_host_stack
unmount_path world none = true
unmount_path world (some depth) = if depth == 0 then true else unmount_host_stack world
