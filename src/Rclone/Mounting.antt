-- ===== src/Rclone/Mounting.antt =====
-- pkg/rclone/syncmanager.go: NewMountManager and Mount, with the calls that Mount makes in their order.
-- rclone, the host and the file system are what the world shows. The options are in Rclone.Options.
pub mod Cleanup
pub mod Requested
pub mod Outcome
use lukscryptwalker_csi.Base.{
  ℕ, Bool, true, false, not, ◌&&◌, ◌||◌, Option, none, some, List, [], ◌∷◌, ◌++◌, if◌then◌else◌,
}
use lukscryptwalker_csi.Base.Bytes.{Bytes, codes, bytes_eq}
use lukscryptwalker_csi.Base.Dict.{Dict, lookup}
use lukscryptwalker_csi.Base.Sets.{insert, remove}
use lukscryptwalker_csi.Rclone.Config.{CryptConfig, derive_rclone_crypt_config}
use lukscryptwalker_csi.Rclone.Drain.{Manager, CacheDisk, Teardown, unmount, short_drain_wait}
use lukscryptwalker_csi.Rclone.Exclusive.{Turn, takes, refuses, ensure_exclusive_vfs_name}
use lukscryptwalker_csi.Rclone.Exposure.{Readiness, wait_for_mount_ready}
use lukscryptwalker_csi.Rclone.VfsName.{vfs_name_for, vfs_names_for, generation_of_vfs_name}

-- MountManager; `session` holds the fields that an unmount works on
pub record Mounter : Type 0 where
  pub volume_id : Bytes
  pub mount_point : Bytes
  pub s3_base_path : Bytes
  pub crypt_config : CryptConfig
  pub generation : ℕ
  pub session : Manager

abbrev pub or_empty : Option Bytes → Bytes
or_empty none = []
or_empty (some s) = s

-- volumes/{volumeID}/files, below the prefix where there is one
unfoldable pub s3_base_path_of : Bytes → Bytes → Bytes
s3_base_path_of v [] = codes "volumes/" ++ (v ++ codes "/files")
s3_base_path_of v (c ∷ prefix) = (c ∷ prefix) ++ (codes "/volumes/" ++ (v ++ codes "/files"))

unfoldable pub salt_of : Bytes → Bytes → Bytes
salt_of v [] = v
salt_of v (c ∷ prefix) = c ∷ prefix

-- NewMountManager, on the persisted map of VFS names
unfoldable pub new_mount_manager : Bytes → Bytes → Bytes → Bytes → Bytes → Dict Bytes → Mounter
unfolding s3_base_path_of salt_of derive_rclone_crypt_config
new_mount_manager v mount_point write_back prefix passphrase names =
    let generation = generation_of_vfs_name v (or_empty (lookup v names)) in
    record {
      volume_id = v;
      mount_point = mount_point;
      s3_base_path = s3_base_path_of v prefix;
      crypt_config = derive_rclone_crypt_config passphrase (salt_of v prefix);
      generation = generation;
      session = record {
        vfs_name = vfs_name_for v generation;
        write_back = write_back;
        mounted = false;
        session_path = [];
      };
    }

-- bumpGeneration, as far as the generation that the loop ends with
unfoldable pub at_generation : ℕ → Mounter → Mounter
at_generation generation s = record s {
  generation = generation;
  session = record s.session { vfs_name = vfs_name_for s.volume_id generation };
}

-- s3ConfigName and cryptConfigName
abbrev pub s3_config_name : Mounter → Bytes
s3_config_name s = (vfs_names_for s.volume_id s.generation).1

abbrev pub crypt_config_name : Mounter → Bytes
crypt_config_name s = (vfs_names_for s.volume_id s.generation).2

-- What RPCWithTimeout returns for mount/mount.
pub data MountReply : Type 0 where
  answered : MountReply
  timed_out : MountReply
  rpc_failed : MountReply

-- What one Mount meets: the staging path's two looks, a stale mount's teardown, the turns of the search
-- for a name, whether the staging path can be made, the new session's path, the two config/create calls,
-- mount/mount, the session's start, and whether a cache of that name is on disk at the end.
pub record MountWorld : Type 0 where
  pub is_mount_point : Bool
  pub is_stale : Bool
  pub teardown : Teardown
  pub turns : ℕ → Turn
  pub path_made : Bool
  pub new_session : Option Bytes
  pub s3_created : Bool
  pub crypt_created : Bool
  pub reply : MountReply
  pub ready : Readiness
  pub now : ℕ
  pub stale_cache : Bool

-- What Mount does to the world after it has its name.
pub data Call : Type 0 where
  validates_cache : Bytes → Call
  sweeps_sessions : Bytes → Call
  makes_session : Bytes → Call
  removes_session : Bytes → Call
  creates_config : Bytes → Call
  deletes_config : Bytes → Call
  mounts_session : Bytes → Call
  saves_name : Bytes → Call
  unbinds_staging : Call
  ends_session : Bytes → Call
  starts_monitors : Call
  refreshes_vfs : Call

pub data MountError : Type 0 where
  no_free_name : MountError
  no_mount_point : MountError
  no_session : MountError
  no_s3_config : MountError
  no_crypt_config : MountError
  mount_timed_out : MountError
  mount_failed : MountError
  not_usable : MountError

pub data MountStatus : Type 0 where
  already_mounted : MountStatus
  now_mounted : MountStatus
  failed : MountError → MountStatus

pub record MountResult : Type 0 where
  pub status : MountStatus
  pub mounter : Mounter
  pub disk : CacheDisk
  pub calls : List Call

-- DeleteNamedConfigs(mm.cryptConfigName, mm.s3ConfigName)
abbrev pub delete_named_configs : Mounter → List Call
delete_named_configs s =
    deletes_config (crypt_config_name s) ∷ deletes_config (s3_config_name s) ∷ []

-- From waitForMountReady on, in a session that rclone serves.
unfoldable pub once_ready : Bool → MountWorld → Mounter → CacheDisk → Bytes → MountResult
once_ready true w s disk session = record {
  status = now_mounted;
  mounter = record s { session = record s.session { mounted = true } };
  disk = disk;
  calls = starts_monitors ∷ (if w.stale_cache then refreshes_vfs ∷ [] else []);
}
once_ready false w s disk session = record {
  status = failed not_usable;
  mounter = s;
  disk = disk;
  calls = unbinds_staging ∷ ends_session session ∷ delete_named_configs s;
}

-- `calls` come before those of a result.
abbrev pub after : List Call → MountResult → MountResult
after calls r = record r { calls = calls ++ r.calls }

abbrev pub gives_up : MountError → Mounter → CacheDisk → List Call → MountResult
gives_up e s disk calls = record { status = failed e; mounter = s; disk = disk; calls = calls }

-- From the answer of mount/mount on.
unfoldable pub after_mount_reply :
    MountReply → MountWorld → Mounter → CacheDisk → Bytes → Option MountResult
after_mount_reply timed_out w s disk session =
    some (gives_up mount_timed_out s disk (delete_named_configs s))
after_mount_reply rpc_failed w s disk session =
    some (gives_up mount_failed s disk (delete_named_configs s ++ removes_session session ∷ []))
after_mount_reply answered w s disk session =
    let serving = record s { session = record s.session { session_path = session } } in
    elim (wait_for_mount_ready s.mount_point w.ready w.now) [
      | none ↦ none
      | some ready ↦ some (
          after (mounts_session session ∷ saves_name s.session.vfs_name ∷ [])
            (once_ready ready w serving (record disk { named = true }) session))
    ]

abbrev pub after_some : List Call → Option MountResult → Option MountResult
after_some calls none = none
after_some calls (some r) = some (after calls r)

-- CreateNamedCryptConfig, with what Mount does when it fails
unfoldable pub with_crypt_config : MountWorld → Mounter → CacheDisk → Bytes → Option MountResult
with_crypt_config w s disk session =
    let undone = deletes_config (s3_config_name s) ∷ removes_session session ∷ [] in
    if bytes_eq s.crypt_config.password []
    then some (gives_up no_crypt_config s disk undone)
    else if not w.crypt_created
    then some (gives_up no_crypt_config s disk (deletes_config (crypt_config_name s) ∷ undone))
    else after_some
        (deletes_config (crypt_config_name s) ∷ creates_config (crypt_config_name s) ∷ [])
        (after_mount_reply w.reply w s disk session)

-- CreateNamedS3Config likewise
unfoldable pub with_s3_config : MountWorld → Mounter → CacheDisk → Bytes → Option MountResult
with_s3_config w s disk session =
    if not w.s3_created
    then some (
        gives_up no_s3_config s disk
          (deletes_config (s3_config_name s) ∷ removes_session session ∷ []))
    else after_some (deletes_config (s3_config_name s) ∷ creates_config (s3_config_name s) ∷ [])
        (with_crypt_config w s disk session)

-- Mount with a name of its own.
unfoldable pub with_name : MountWorld → Mounter → CacheDisk → Option MountResult
with_name w s disk =
    let validated = validates_cache s.session.vfs_name in
    if not w.path_made
    then some (gives_up no_mount_point s disk (validated ∷ []))
    else elim w.new_session [
      | none ↦ some (gives_up no_session s disk (validated ∷ sweeps_sessions s.volume_id ∷ []))
      | some session ↦
          after_some (validated ∷ sweeps_sessions s.volume_id ∷ makes_session session ∷ [])
            (with_s3_config w s disk session)
    ]

-- The search for a name, and what follows it.
unfoldable pub take_name : MountWorld → Mounter → CacheDisk → Option MountResult
take_name w s disk = elim (ensure_exclusive_vfs_name s.volume_id w.turns s.generation) [
  | none ↦ none
  | some (refuses g) ↦ some (gives_up no_free_name (at_generation g s) disk [])
  | some (takes g) ↦ with_name w (at_generation g s) disk
]

-- Mount; `none` is a loop that is out of fuel
unfoldable pub mount : MountWorld → Mounter → CacheDisk → Option MountResult
mount w s disk =
    if s.session.mounted && w.is_mount_point
    then some (record { status = already_mounted; mounter = s; disk = disk; calls = [] })
    else if w.is_stale
    then elim (unmount short_drain_wait s.session (record w.teardown { before = disk })) [
      | none ↦ none
      | some r ↦ take_name w (record s { session = r.1 }) r.2
    ]
    else take_name w s disk
