-- ===== src/Driver/History/Preservation.antt =====
-- Caches that hold unuploaded writes, over a history of the node.
use lukscryptwalker_csi.Base.{
  ◌≡◌, refl, inl, inr, Bool, true, false, ◌||◌, Option, none, some, List, [], ◌∷◌, All, Bool-cases,
  Option-cases,
}
use lukscryptwalker_csi.Base.Bytes.{Bytes, bytes_eq}
use lukscryptwalker_csi.Base.Dict.{lookup, put, delete}
use lukscryptwalker_csi.Rclone.Drain.{Manager, max_drain_wait}
use lukscryptwalker_csi.Rclone.Drain.Unmount.{dirty_at}
use lukscryptwalker_csi.Driver.Drains.{finish_background_drain, load_pending_drains}
use lukscryptwalker_csi.Driver.Unstage.{
  Node, UnstageWorld, node_unstage_volume, background_drain, resumed_drain,
}
use lukscryptwalker_csi.Driver.Unstage.Answers.{unmount_within-keeps, cleanup_s3_sync-keeps_dirty}
use lukscryptwalker_csi.Driver.History.{
  NodeEvent, unstages, drain_ends, resumed_ends, cache_changes, driver_restarts, step, run,
  node_after,
}

-- The event leaves the name's unuploaded writes to the driver: where it brings a state of the disk, they
-- are in it.
abbrev pub LeavesDirty : Bytes → NodeEvent → Type 0
LeavesDirty name (unstages w staging_cleaned v staging) = dirty_at name w.teardown.settled ≡ true
LeavesDirty name (drain_ends w v) = dirty_at name w.teardown.settled ≡ true
LeavesDirty name (resumed_ends w v mounted) = dirty_at name w.teardown.settled ≡ true
LeavesDirty name (cache_changes disk) = dirty_at name disk ≡ true
LeavesDirty name driver_restarts = Unit

abbrev StepKeeps : Bytes → Option Node → Type 0
StepKeeps name o = (n : Node) × (o ≡ some n) × (dirty_at name n.disk ≡ true)

unstage-StepKeeps :
    (w : UnstageWorld) (b : Bool) (v staging : Bytes) (n : Node) (name : Bytes)
    → dirty_at name n.disk ≡ true
    → dirty_at name w.teardown.settled ≡ true
    → StepKeeps name (node_after (node_unstage_volume w b v staging n))
unfolding node_unstage_volume
unstage-StepKeeps w b v staging n name h k =
    elim (Bool-cases (bytes_eq v [] || bytes_eq staging [])) [
      | inl e ↦ (n, rw (e, node_unstage_volume) refl, h)
      | inr e ↦
          let (r, q, d) = cleanup_s3_sync-keeps_dirty w v staging n name (h, k) in
          (r.1, rw (e, node_unstage_volume, q) refl, d)
    ]

drain-StepKeeps :
    (w : UnstageWorld) (v : Bytes) (n : Node) (name : Bytes)
    → dirty_at name n.disk ≡ true
    → dirty_at name w.teardown.settled ≡ true
    → StepKeeps name (background_drain w v n)
unfolding background_drain
drain-StepKeeps w v n name h k = elim (Option-cases (lookup v n.managers)) [
  | inl e ↦ (
    record n { drains = finish_background_drain v false n.drains },
    rw (e, background_drain) refl,
    h,
  )
  | inr (m, e) ↦
      let (r, q, d) = unmount_within-keeps max_drain_wait w m n name (h, k) in
      (
        record {
          drains = finish_background_drain v r.0 n.drains;
          managers = delete v n.managers;
          disk = r.2;
        },
        rw (e, background_drain, q) refl,
        d,
      )
]

resumed-StepKeeps :
    (w : UnstageWorld) (v : Bytes) (mounted : Option Manager) (n : Node) (name : Bytes)
    → dirty_at name n.disk ≡ true
    → dirty_at name w.teardown.settled ≡ true
    → StepKeeps name (resumed_drain w v mounted n)
unfolding resumed_drain
resumed-StepKeeps w v none n name h k =
    (record n { drains = finish_background_drain v false n.drains }, refl, h)
resumed-StepKeeps w v (some m) n name h k =
    drain-StepKeeps w v (record n { managers = put v m n.managers }) name h k

step-StepKeeps :
    (n : Node) (e : NodeEvent) (name : Bytes)
    → dirty_at name n.disk ≡ true
    → LeavesDirty name e
    → StepKeeps name (step n e)
unfolding step
step-StepKeeps n (unstages w b v staging) name h k = unstage-StepKeeps w b v staging n name h k
step-StepKeeps n (drain_ends w v) name h k = drain-StepKeeps w v n name h k
step-StepKeeps n (resumed_ends w v mounted) name h k = resumed-StepKeeps w v mounted n name h k
step-StepKeeps n (cache_changes disk) name h k = (record n { disk = disk }, refl, k)
step-StepKeeps n driver_restarts name h k =
    (record n { drains = load_pending_drains n.drains.markers; managers = [] }, refl, h)

-- Whichever way unstage calls, forced ones among them, ends of background and resumed drains, changes
-- of the cache and driver restarts interleave: every call returns, and a cache that holds unuploaded writes, and still
-- does in each state of the disk that the events bring, is on disk with them at the end.
pub run-keeps_dirty :
    (name : Bytes) (es : List NodeEvent) (n : Node)
    → dirty_at name n.disk ≡ true
    → All (LeavesDirty name) es
    → (end : Node) × (run n es ≡ some end) × (dirty_at name end.disk ≡ true)
unfolding run
run-keeps_dirty name [] n h k = (n, refl, h)
run-keeps_dirty name (e ∷ es) n h k =
    let (next, q, d) = step-StepKeeps n e name h k.0 in
    let (end, r, last) = run-keeps_dirty name es next d k.1 in (end, rw (q, run) r, last)
