-- ===== src/Driver/Stranded.antt =====
-- pkg/driver/node_s3.go: recoverStrandedVolumes, which mounts volumes again that kubelet no longer stages
-- here, so that their cached writes are uploaded. The kubelet's directory, the API server and the clock
-- are what the world shows; times are nanoseconds.
pub mod Exact
pub mod Recovered
use lukscryptwalker_csi.Base.{
  ℕ, ◌-◌, ◌*◌, Bool, true, false, not, ◌&&◌, ◌||◌, Option, none, some, List, [], ◌∷◌, ◌++◌, ltb,
  if◌then◌else◌, is_some,
}
use lukscryptwalker_csi.Base.Bytes.{Bytes, codes, bytes_eq}
use lukscryptwalker_csi.Base.Dict.{Dict, lookup, put}
use lukscryptwalker_csi.Base.Sets.{member, insert}
use lukscryptwalker_csi.Rclone.CacheDir.{MetaListing, volumes_with_unuploaded_data}
use lukscryptwalker_csi.Driver.Backoff.{minute}
use lukscryptwalker_csi.Driver.Drains.{is_background_draining}
use lukscryptwalker_csi.Driver.Unstage.{
  Node, UnstageWorld, resume_stranded_drain, force_unstage_requested,
}

-- strandedRetryInterval
abbrev pub stranded_retry_interval : ℕ
stranded_retry_interval = 5 * minute

-- filepath.Join(drainMountBase, volumeID), for a volume ID that is one clean path element
abbrev pub drain_mount : Bytes → Bytes
drain_mount v = codes "/var/lib/lukscrypt-cache/drain/" ++ v

-- os.ReadDir of the plugin's directory: for each entry whether it is a directory, and the volume ID of its
-- vol_data.json ("" where that cannot be read).
pub data StagingListing : Type 0 where
  entries : List (Bool × Bytes) → StagingListing
  absent : StagingListing
  unlistable : StagingListing

unfoldable pub collect_staged : List (Bool × Bytes) → List Bytes
collect_staged [] = []
collect_staged ((is_dir, v) ∷ es) =
    let rest = collect_staged es in if not is_dir || bytes_eq v [] then rest else insert v rest

-- stagedVolumeIDs; `none` is unknown
unfoldable pub staged_volume_ids : StagingListing → Option (List Bytes)
unfolding collect_staged
staged_volume_ids (entries es) = some (collect_staged es)
staged_volume_ids absent = some []
staged_volume_ids unlistable = none

-- The node with strandedRetry.
pub record Recovery : Type 0 where
  pub node : Node
  pub retry : Dict ℕ

-- What the loop meets: the volumes whose setup is in progress, and at each volume the clock and what
-- resumeStrandedDrain and forceUnstageRequested meet.
pub record RecoveryWorld : Type 0 where
  pub in_setup : List Bytes
  pub now : Bytes → ℕ
  pub at : Bytes → UnstageWorld

abbrev pub is_recent : Option ℕ → ℕ → Bool
is_recent none now = false
is_recent (some last) now = ltb (now - last) stranded_retry_interval

-- The guards of the loop's body.
unfoldable pub is_left_alone : RecoveryWorld → List Bytes → Bytes → Recovery → Bool
is_left_alone w staged v s =
    if member v staged || member v w.in_setup || is_background_draining v s.node.drains
    then true
    else if is_some (lookup v s.node.managers)
    then true
    else if is_recent (lookup v s.retry) (w.now v)
    then true
    else force_unstage_requested (w.at v).client (w.at v).pv

-- The loop's body: whether an attempt was made.
unfoldable pub recover_volume : RecoveryWorld → List Bytes → Bytes → Recovery → Bool × Recovery
recover_volume w staged v s = if is_left_alone w staged v s then (false, s) else (
  true,
  record {
    node = (resume_stranded_drain (w.at v) v (drain_mount v) s.node).1;
    retry = put v (w.now v) s.retry;
  },
)

unfoldable pub recover_each :
    RecoveryWorld → List Bytes → List Bytes → Recovery → List Bytes × Recovery
recover_each w staged [] s = ([], s)
recover_each w staged (v ∷ vs) s =
    let (attempted, s') = recover_volume w staged v s in
    let (rest, s'') = recover_each w staged vs s' in (if attempted then v ∷ rest else rest, s'')

abbrev pub recover_known :
    RecoveryWorld → Option (List Bytes) → List Bytes → Recovery → List Bytes × Recovery
recover_known w none stranded s = ([], s)
recover_known w (some staged) stranded s = recover_each w staged stranded s

-- recoverStrandedVolumes: the volumes it makes an attempt for, and the state after it
unfoldable pub recover_stranded_volumes :
    RecoveryWorld → MetaListing → StagingListing → Recovery → List Bytes × Recovery
recover_stranded_volumes w caches staging s =
    recover_known w (staged_volume_ids staging) (volumes_with_unuploaded_data caches) s
