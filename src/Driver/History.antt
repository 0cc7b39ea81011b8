-- ===== src/Driver/History.antt =====
-- pkg/driver/node_s3.go: what happens to the node server's state over time, whichever way the unstage
-- calls, the ends of background and resumed drains, the cache's own changes and driver restarts interleave.
pub mod Preservation
use lukscryptwalker_csi.Base.{Option, none, some, List, [], ◌∷◌}
use lukscryptwalker_csi.Base.Bytes.{Bytes}
use lukscryptwalker_csi.Base.{Bool}
use lukscryptwalker_csi.Rclone.Drain.{CacheDisk, Manager}
use lukscryptwalker_csi.Driver.Drains.{load_pending_drains}
use lukscryptwalker_csi.Driver.Unstage.{
  Node, UnstageWorld, UnstageStatus, node_unstage_volume, background_drain, resumed_drain,
}

pub data NodeEvent : Type 0 where
  unstages : UnstageWorld → Bool → Bytes → Bytes → NodeEvent
  drain_ends : UnstageWorld → Bytes → NodeEvent
  resumed_ends : UnstageWorld → Bytes → Option Manager → NodeEvent
  cache_changes : CacheDisk → NodeEvent
  driver_restarts : NodeEvent

abbrev pub node_after : Option (UnstageStatus × Node) → Option Node
node_after none = none
node_after (some (status, n)) = some n

-- `none` is an unmount out of fuel. NewS3SyncManager starts with no manager and the markers on disk.
unfoldable pub step : Node → NodeEvent → Option Node
unfolding node_unstage_volume background_drain resumed_drain load_pending_drains
step n (unstages w staging_cleaned v staging) =
    node_after (node_unstage_volume w staging_cleaned v staging n)
step n (drain_ends w v) = background_drain w v n
step n (resumed_ends w v mounted) = resumed_drain w v mounted n
step n (cache_changes disk) = some (record n { disk = disk })
step n driver_restarts =
    some (record n { drains = load_pending_drains n.drains.markers; managers = [] })

unfoldable pub run : Node → List NodeEvent → Option Node
unfolding step
run n [] = some n
run n (e ∷ es) = elim (step n e) [ none ↦ none | some n' ↦ run n' es ]
