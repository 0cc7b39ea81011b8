-- ===== src/Driver/Setup.antt =====
-- pkg/driver/node_s3.go: mounting a volume for kubelet or for a repair, with the gates of the drain slots
-- before it and the live session that may make it unnecessary.
pub mod Total
use lukscryptwalker_csi.Base.{
  ℕ, Bool, true, false, not, ◌&&◌, ◌||◌, Option, none, some, List, [], ◌∷◌, if◌then◌else◌,
}
use lukscryptwalker_csi.Base.Bytes.{Bytes, codes, bytes_eq}
use lukscryptwalker_csi.Base.Dict.{Dict, lookup, put}
use lukscryptwalker_csi.Rclone.Drain.{CacheDisk}
use lukscryptwalker_csi.Rclone.Exposure.{
  SessionWorld, session_serving, reexpose, Reexposed, untouched, exposed, withdrawn,
}
use lukscryptwalker_csi.Rclone.Mounting.{
  Mounter, MountWorld, MountResult, MountStatus, already_mounted, now_mounted, failed,
  new_mount_manager, mount, or_empty,
}
use lukscryptwalker_csi.Rclone.Options.{VfsCacheConfig, default_vfs_cache_config}
use lukscryptwalker_csi.Driver.Backoff.{ReconcileAttempt}
use lukscryptwalker_csi.Driver.Drains.{
  Drains, is_background_draining, finish_background_drain, take_over,
}

-- The node server's state that setups and repairs touch: the mount managers, the drain slots, the volumes
-- whose setup is in progress, the caches, and the limits on repairs.
pub record MountState : Type 0 where
  pub managers : Dict Mounter
  pub drains : Drains
  pub in_setup : List Bytes
  pub disk : CacheDisk
  pub attempts : Dict ReconcileAttempt
  pub restarts : Dict ℕ
  pub strikes : Dict ℕ

-- if v, exists := volumeContext[key]; exists && v != "" { config.X = v }
unfoldable pub given_or : Option Bytes → Bytes → Bytes
given_or none default = default
given_or (some []) default = default
given_or (some (c ∷ s)) default = c ∷ s

-- getVFSCacheConfig
unfoldable pub get_vfs_cache_config : Dict Bytes → VfsCacheConfig
unfolding given_or lookup
get_vfs_cache_config context =
    let param = λ (key : Bytes). lookup key context in
    record {
      cache_mode =
          given_or (param (codes "rclone-vfs-cache-mode")) default_vfs_cache_config.cache_mode;
      cache_max_age =
          given_or (param (codes "rclone-vfs-cache-max-age"))
            default_vfs_cache_config.cache_max_age;
      cache_max_size =
          given_or (param (codes "rclone-vfs-cache-max-size"))
            default_vfs_cache_config.cache_max_size;
      cache_poll_interval =
          given_or (param (codes "rclone-vfs-cache-poll-interval"))
            default_vfs_cache_config.cache_poll_interval;
      write_back =
          given_or (param (codes "rclone-vfs-write-back")) default_vfs_cache_config.write_back;
      dir_cache_time =
          given_or (param (codes "rclone-dir-cache-time")) default_vfs_cache_config.dir_cache_time;
      attr_timeout =
          given_or (param (codes "rclone-attr-timeout")) default_vfs_cache_config.attr_timeout;
      chunk_streams =
          given_or (param (codes "rclone-vfs-read-chunk-streams"))
            default_vfs_cache_config.chunk_streams;
    }

-- What FetchVolumeSecrets brings, as far as the mount tests it.
pub record VolumeSecrets : Type 0 where
  pub bucket : Bytes
  pub passphrase : Bytes

-- What one setup meets: whether the drain that runs ends within 45 seconds and how, the volume's session,
-- the secrets (`none` where the PV, the StorageClass or they cannot be read), the volume context, the
-- persisted map of VFS names, and the mount.
pub record SetupWorld : Type 0 where
  pub finished : Bool
  pub drained : Bool
  pub session : SessionWorld
  pub secrets : Option VolumeSecrets
  pub context : Dict Bytes
  pub names : Dict Bytes
  pub mount : MountWorld

abbrev pub is_exposed : Reexposed → Bool
is_exposed untouched = false
is_exposed exposed = true
is_exposed (withdrawn clear) = false

-- reexposeLiveSession; `none` is a wait that is out of fuel
unfoldable pub reexpose_live_session : Bytes → Bytes → SessionWorld → Option Mounter → Option Bool
unfolding session_serving reexpose
reexpose_live_session v staging w none = some false
reexpose_live_session v staging w (some m) =
    if not (bytes_eq m.mount_point staging)
      || not (session_serving v m.generation m.session.session_path w)
    then some false
    else elim (reexpose staging w) [ none ↦ none | some r ↦ some (is_exposed r) ]

-- mountS3Volume on the answer of Mount: the manager is registered where it succeeds
unfoldable pub register : Bytes → MountState → Mounter → CacheDisk → MountStatus → Bool × MountState
register v s m disk (failed e) = (false, record s { disk = disk })
register v s m disk now_mounted = (true, record s { managers = put v m s.managers; disk = disk })
register v s m disk already_mounted =
    (true, record s { managers = put v m s.managers; disk = disk })

-- The manager that mountS3Volume makes.
unfoldable pub manager_for : SetupWorld → Bytes → Bytes → Bytes → Mounter
unfolding get_vfs_cache_config lookup
manager_for w v staging passphrase =
    new_mount_manager v staging (get_vfs_cache_config w.context).write_back
      (or_empty (lookup (codes "s3-path-prefix") w.context)) passphrase w.names

unfoldable pub mount_with_secrets :
    Option VolumeSecrets → SetupWorld → Bytes → Bytes → MountState → Option (Bool × MountState)
mount_with_secrets none w v staging s = some (false, s)
mount_with_secrets (some secrets) w v staging s =
    if bytes_eq secrets.bucket [] || bytes_eq secrets.passphrase []
    then some (false, s)
    else elim (mount w.mount (manager_for w v staging secrets.passphrase) s.disk) [
      | none ↦ none
      | some r ↦ some (register v s r.mounter r.disk r.status)
    ]

-- mountS3Volume: whether it returns nil
unfoldable pub mount_s3_volume :
    SetupWorld → Bytes → Bytes → MountState → Option (Bool × MountState)
unfolding mount_with_secrets
mount_s3_volume w v staging s = mount_with_secrets w.secrets w v staging s

-- A drain that runs when setupS3Sync starts and ends within its wait.
abbrev pub drains_after_wait : SetupWorld → Bytes → Drains → Drains
drains_after_wait w v d =
    if is_background_draining v d then finish_background_drain v w.drained d else d

-- setupS3Sync past its gates
unfoldable pub setup_gated :
    SetupWorld → Bytes → Bytes → MountState → Option Drains → Option (Bool × MountState)
setup_gated w v staging s none = some (false, s)
setup_gated w v staging s (some drains) =
    let taken : MountState = record s { drains = drains } in
    elim (reexpose_live_session v staging w.session (lookup v s.managers)) [
      | none ↦ none
      | some true ↦ some (true, taken)
      | some false ↦ mount_s3_volume w v staging taken
    ]

-- setupS3Sync: whether it returns nil
unfoldable pub setup_s3_sync : SetupWorld → Bytes → Bytes → MountState → Option (Bool × MountState)
setup_s3_sync w v staging s =
    if is_background_draining v s.drains && not w.finished
    then some (false, s)
    else setup_gated w v staging s (take_over v (drains_after_wait w v s.drains))
