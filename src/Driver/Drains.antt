-- ===== src/Driver/Drains.antt =====
-- pkg/driver/node_s3.go: the drain slots of S3SyncManager, with the markers that pkg/rclone/vfscache.go
-- keeps on disk for them. Each operation is one critical section of drainMu or one call outside of it;
-- `take_over` alone is a sequence of these, whose two changes are the events `forgets` and `clears`.
pub mod Machine
pub mod Phases
use lukscryptwalker_csi.Base.{
  Bool, true, false, not, ◌&&◌, ◌||◌, Option, none, some, List, [], ◌∷◌, if◌then◌else◌,
}
use lukscryptwalker_csi.Base.Bytes.{Bytes}
use lukscryptwalker_csi.Base.Sets.{member, insert, remove}

-- backgroundDrains (a volume is in it while its channel is open), pendingDrains, and the files of
-- .drain-pending; and whether the file system takes and lists the markers at the moment.
pub record Drains : Type 0 where
  pub background : List Bytes
  pub pending : List Bytes
  pub markers : List Bytes
  pub disk_takes : Bool

-- SaveDrainPending and ClearDrainPending, whose errors are only logged
unfoldable pub save_drain_pending : Bytes → Drains → Drains
save_drain_pending v s = record s {
  markers = if s.disk_takes then insert v s.markers else s.markers;
}

unfoldable pub clear_drain_pending : Bytes → Drains → Drains
clear_drain_pending v s = record s {
  markers = if s.disk_takes then remove v s.markers else s.markers;
}

-- ListDrainPending
unfoldable pub list_drain_pending : Drains → List Bytes
list_drain_pending s = if s.disk_takes then s.markers else []

-- loadPendingDrains in a new process, on the markers that were listed: the maps start empty
unfoldable pub load_pending_drains : List Bytes → Drains
load_pending_drains markers = record {
  background = [];
  pending = markers;
  markers = markers;
  disk_takes = true;
}

unfoldable pub start_background_drain : Bytes → Drains → Bool × Drains
unfolding save_drain_pending
start_background_drain v s =
    if member v s.background
    then (false, s)
    else (true, save_drain_pending v (record s { background = insert v s.background }))

unfoldable pub is_background_draining : Bytes → Drains → Bool
is_background_draining v s = member v s.background

unfoldable pub has_pending_drain : Bytes → Drains → Bool
has_pending_drain v s = member v s.pending

unfoldable pub finish_background_drain : Bytes → Bool → Drains → Drains
unfolding save_drain_pending clear_drain_pending
finish_background_drain v drained s =
    let released = record s { background = remove v s.background } in
    if not drained
    then save_drain_pending v (record released { pending = insert v s.pending })
    else clear_drain_pending v (record released { pending = remove v s.pending })

-- waitForBackgroundDrain; `finished` says whether the drain's channel is closed before the timeout
unfoldable pub wait_for_background_drain : Bytes → Bool → Drains → Bool
unfolding is_background_draining
wait_for_background_drain v finished s = if is_background_draining v s then finished else true

-- delete(pendingDrains, volumeID) in setupS3Sync
unfoldable pub forget_pending : Bytes → Drains → Drains
forget_pending v s = record s { pending = remove v s.pending }

-- The gates of setupS3Sync when nothing comes between them: a volume that drains is refused with a retryable
-- error (`none`), and the mount to come takes over what a previous process left pending.
unfoldable pub take_over : Bytes → Drains → Option Drains
unfolding is_background_draining has_pending_drain clear_drain_pending forget_pending
take_over v s =
    if is_background_draining v s
    then none
    else if has_pending_drain v s
    then some (clear_drain_pending v (forget_pending v s))
    else some s

-- What changes the slots: a drain that starts or ends, the two pieces of a setup that takes over a pending
-- drain, a restart of the driver, and the file system of the markers, which fails or works from then on.
pub data DrainEvent : Type 0 where
  starts : Bytes → DrainEvent
  finishes : Bytes → Bool → DrainEvent
  forgets : Bytes → DrainEvent
  clears : Bytes → DrainEvent
  restarts : DrainEvent
  disk_turns : Bool → DrainEvent

unfoldable pub step : Drains → DrainEvent → Drains
unfolding start_background_drain finish_background_drain forget_pending clear_drain_pending
    load_pending_drains list_drain_pending
step s (starts v) = (start_background_drain v s).1
step s (finishes v drained) = finish_background_drain v drained s
step s (forgets v) = forget_pending v s
step s (clears v) = clear_drain_pending v s
step s restarts = record (load_pending_drains (list_drain_pending s)) {
  markers = s.markers;
  disk_takes = s.disk_takes;
}
step s (disk_turns works) = record s { disk_takes = works }

unfoldable pub run : Drains → List DrainEvent → Drains
run s [] = s
run s (e ∷ es) = run (step s e) es
