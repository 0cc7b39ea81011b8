-- ===== src/Driver/Stage.antt =====
-- pkg/driver/node.go: NodeStageVolume on either backend, and the parameters it prepares.
pub mod Formats
pub mod Runs
pub mod Serving
pub mod Ends
use lukscryptwalker_csi.Base.{
  ℕ, Bool, true, false, not, ◌&&◌, ◌||◌, Option, none, some, List, [], ◌∷◌, ◌++◌, leb, length,
  if◌then◌else◌,
}
use lukscryptwalker_csi.Base.Bytes.{Bytes, codes, bytes_eq}
use lukscryptwalker_csi.Base.Dict.{Dict, lookup}
use lukscryptwalker_csi.Base.Decimal.{ℤ, parse_int}
use lukscryptwalker_csi.Base.Sets.{insert}
use lukscryptwalker_csi.Rclone.Mounting.{or_empty}
use lukscryptwalker_csi.Driver.Controller.{storage_backend_param, pinned_node_param}
use lukscryptwalker_csi.Driver.Publish.{Liveness, is_already_staged}
use lukscryptwalker_csi.Driver.Luks.{
  DeviceCall, Done, and_then, LuksWorld, FsWorld, BackingWorld, close_luks, generate_mapper_name,
  mapped_device_path, generate_backing_file_path, ensure_backing_file, format_and_open_luks,
  mount_and_configure,
}
use lukscryptwalker_csi.Driver.Reconcile.{setup_complete}
use lukscryptwalker_csi.Driver.Setup.{MountState, SetupWorld, setup_s3_sync}

-- isS3Backend
unfoldable pub is_s3_backend : Dict Bytes → Bool
is_s3_backend context = bytes_eq (or_empty (lookup storage_backend_param context)) (codes "s3")

abbrev pub or_else : Option ℤ → Option ℤ → Option ℤ
or_else none later = later
or_else (some n) later = some n

abbrev pub parsed_int : Option Bytes → Option ℤ
parsed_int none = none
parsed_int (some s) = parse_int s

-- What extractFsGroup reads beside the volume context: VolumeMountGroup ("" for none), whether there is a
-- client, and the fsGroup of the pod that is looked up.
pub record FsGroupWorld : Type 0 where
  pub mount_group : Bytes
  pub client : Bool
  pub pod_fs_group : Option ℤ

-- extractFsGroupFromPod
unfoldable pub fs_group_from_pod : FsGroupWorld → Dict Bytes → Option ℤ
fs_group_from_pod w context =
    let name = or_empty (lookup (codes "csi.storage.k8s.io/pod.name") context) in
    let namespace = or_empty (lookup (codes "csi.storage.k8s.io/pod.namespace") context) in
    if not w.client || bytes_eq name [] || bytes_eq namespace [] then none else w.pod_fs_group

-- extractFsGroup; ParseInt of "" is an error
unfoldable pub extract_fs_group : FsGroupWorld → Dict Bytes → Option ℤ
extract_fs_group w context =
    or_else (parsed_int (lookup (codes "fsGroup") context))
      (or_else (parse_int w.mount_group) (fs_group_from_pod w context))

unfoldable pub all_octal : Bytes → Bool
all_octal [] = true
all_octal (c ∷ s) = leb 48 c && (leb c 55 && all_octal s)

-- isValidOctalMode
unfoldable pub is_valid_octal_mode : Bytes → Bool
is_valid_octal_mode s = leb 3 (length s) && (leb (length s) 4 && all_octal s)

-- extractFsMode
unfoldable pub extract_fs_mode : Dict Bytes → Bytes
extract_fs_mode context =
    let mode = or_empty (lookup (codes "fs-mode") context) in
    if is_valid_octal_mode mode then mode else codes "0750"

-- NodeStageVolumeRequest; the capability is `none` when it is missing, and holds no file system type when
-- it is not a mount's
pub record StageRequest : Type 0 where
  pub volume_id : Bytes
  pub staging : Bytes
  pub capability : Option (Option Bytes)
  pub context : Dict Bytes

-- What one call meets: on S3 the live mount and whether the host's table is known, the staging directory and
-- the setup; on LUKS whether the staging path is mounted from the mapper, the local directory, the backing
-- file, whether the passphrase is found, cryptsetup, the file system commands, and whether the mapper exists
-- when it is closed after them.
pub record StageWorld : Type 0 where
  pub live : Liveness
  pub mounts_known : Bool
  pub staging_made : Bool
  pub setup : SetupWorld
  pub local_path : Bytes
  pub node_id : Bytes
  pub fs_group : FsGroupWorld
  pub local_made : Bool
  pub backing : BackingWorld
  pub has_passphrase : Bool
  pub luks : LuksWorld
  pub fs : FsWorld
  pub still_opened : Bool

-- isVolumeStaged
unfoldable pub is_volume_staged : StageWorld → Bool
is_volume_staged w = w.luks.opened && (w.fs.is_mount_point && w.fs.mounted_from)

abbrev pub capacity_or_default : Bytes → Bytes
capacity_or_default [] = codes "1073741824"
capacity_or_default (c ∷ s) = c ∷ s

-- The backing file that prepareVolumeStaging ensures.
unfoldable pub prepare_backing_file : StageWorld → StageRequest → Done
prepare_backing_file w r =
    ensure_backing_file w.backing (generate_backing_file_path w.local_path r.volume_id)
      (capacity_or_default (or_empty (lookup (codes "capacity") r.context)))
      (or_empty (lookup pinned_node_param r.context)) w.node_id

-- The LUKS part of prepareVolumeStaging.
unfoldable pub prepare_volume_staging : StageWorld → StageRequest → Done
prepare_volume_staging w r =
    let file = prepare_backing_file w r in
    if not w.local_made then (false, []) else (file.0 && w.has_passphrase, file.1)

pub data StageStatus : Type 0 where
  staged : StageStatus
  invalid_argument : StageStatus
  aborted : StageStatus
  internal : StageStatus

pub record StageResult : Type 0 where
  pub status : StageStatus
  pub calls : List DeviceCall
  pub state : MountState

abbrev pub replies : StageStatus → List DeviceCall → MountState → StageResult
replies status calls s = record { status = status; calls = calls; state = s }

-- mountAndConfigureVolume; the mapper is closed where it fails, whatever CloseLUKS answers
unfoldable pub mount_luks_volume : StageWorld → StageRequest → Bytes → Option Bytes → Done
mount_luks_volume w r mapper fs =
    let made =
      mount_and_configure w.fs (mapped_device_path mapper) r.staging fs
        (extract_fs_group w.fs_group r.context) (extract_fs_mode r.context) in
    if made.0
    then made
    else (false, made.1 ++ (close_luks (record w.luks { opened = w.still_opened }) mapper).1)

-- The LUKS branch.
unfoldable pub stage_luks : StageWorld → StageRequest → Option Bytes → Done
stage_luks w r fs =
    let mapper = generate_mapper_name r.volume_id in
    let file = generate_backing_file_path w.local_path r.volume_id in
    and_then (prepare_volume_staging w r)
      (and_then (format_and_open_luks w.luks file mapper) (mount_luks_volume w r mapper fs))

abbrev pub luks_result : Done → MountState → StageResult
luks_result (true, calls) s = replies staged calls s
luks_result (false, calls) s = replies internal calls s

-- The S3 branch, markVolumeSetupInProgress and -Complete with it.
unfoldable pub stage_s3 : StageWorld → StageRequest → MountState → Option StageResult
stage_s3 w r s =
    let marked : MountState = record s { in_setup = insert r.volume_id s.in_setup } in
    if not w.staging_made
    then some (replies internal [] (setup_complete r.volume_id marked))
    else elim (setup_s3_sync w.setup r.volume_id r.staging marked) [
      | none ↦ none
      | some (true, s') ↦ some (replies staged [] (setup_complete r.volume_id s'))
      | some (false, s') ↦ some (replies internal [] (setup_complete r.volume_id s'))
    ]

-- isAlreadyStaged: `none` is its error
unfoldable pub already_staged : StageWorld → StageRequest → Option Bool
already_staged w r =
    if is_s3_backend r.context
    then is_already_staged w.live w.mounts_known
    else some (is_volume_staged w)

-- NodeStageVolume on the answer of isAlreadyStaged
unfoldable pub stage_with :
    Option Bool → StageWorld → StageRequest → Option Bytes → MountState → Option StageResult
stage_with none w r fs s = some (replies aborted [] s)
stage_with (some true) w r fs s = some (replies staged [] s)
stage_with (some false) w r fs s =
    if is_s3_backend r.context then stage_s3 w r s else some (luks_result (stage_luks w r fs) s)

-- NodeStageVolume, validateStageVolumeRequest with it; `none` is a wait that is out of fuel
unfoldable pub node_stage_volume : StageWorld → StageRequest → MountState → Option StageResult
node_stage_volume w r s =
    if bytes_eq r.volume_id [] || bytes_eq r.staging []
    then some (replies invalid_argument [] s)
    else elim r.capability [
      | none ↦ some (replies invalid_argument [] s)
      | some fs ↦ stage_with (already_staged w r) w r fs s
    ]
