-- ===== src/Driver/Controller.antt =====
-- pkg/driver/controller.go: the controller service's checks and the volume it describes. Byte counts are
-- int64; a request's list or record is `none` where it is nil and that matters.
pub mod Placement
use lukscryptwalker_csi.Base.{
  ℕ, ◌+◌, ◌*◌, ◌^◌, Bool, true, false, not, ◌&&◌, ◌||◌, Option, none, some, List, [], ◌∷◌, ◌++◌,
  ◌==◌, if◌then◌else◌,
}
use lukscryptwalker_csi.Base.Bytes.{Bytes, codes, bytes_eq}
use lukscryptwalker_csi.Base.Decimal.{ℤ, pos, negsuc, itoa}
use lukscryptwalker_csi.Base.Dict.{Dict, lookup, put}

abbrev pub driver_name : Bytes
driver_name = codes "lukscryptwalker.csi.k8s.io"

abbrev pub storage_backend_param : Bytes
storage_backend_param = codes "storage-backend"

abbrev pub pinned_node_param : Bytes
pinned_node_param = driver_name ++ codes "/node"

abbrev pub topology_key_node : Bytes
topology_key_node = codes "topology." ++ (driver_name ++ codes "/node")

-- The access modes that are told apart; a nil access mode is `other_mode`.
pub data AccessMode : Type 0 where
  single_node_writer : AccessMode
  single_node_reader_only : AccessMode
  other_mode : AccessMode

abbrev pub is_single_node : AccessMode → Bool
is_single_node single_node_writer = true
is_single_node single_node_reader_only = true
is_single_node other_mode = false

pub record Capability : Type 0 where
  pub is_mount : Bool
  pub access_mode : AccessMode
  pub fs_type : Bytes

unfoldable pub is_fs_type : Bytes → Bool
is_fs_type t =
    bytes_eq t []
    || bytes_eq t (codes "ext2")
    || bytes_eq t (codes "ext3")
    || bytes_eq t (codes "ext4")
    || bytes_eq t (codes "xfs")

-- validateVolumeCapabilities returns nil
unfoldable pub validate_volume_capabilities : List Capability → Bool
unfolding is_fs_type
validate_volume_capabilities [] = true
validate_volume_capabilities (c ∷ cs) =
    let rest = validate_volume_capabilities cs in
    if not c.is_mount
    then false
    else if not (is_single_node c.access_mode)
    then false
    else if not (is_fs_type c.fs_type)
    then false
    else rest

-- CapacityRange
pub record CapacityRange : Type 0 where
  pub required : ℤ
  pub limit : ℤ

abbrev pub is_zero : ℤ → Bool
is_zero (pos n) = n == 0
is_zero (negsuc n) = false

unfoldable pub capacity_of : Option CapacityRange → ℤ
capacity_of none = pos (1024 ^ 3)
capacity_of (some r) =
    if is_zero r.required then (if is_zero r.limit then pos (1024 ^ 3) else r.limit) else r.required

-- fmt.Sprintf("%d", n)
unfoldable pub format_int : ℤ → Bytes
format_int (pos n) = itoa n
format_int (negsuc n) = b'-' ∷ itoa (n + 1)

-- volumeContext[k] = v over the parameters
unfoldable pub add_parameters : Dict Bytes → Dict Bytes → Dict Bytes
add_parameters [] context = context
add_parameters ((k, v) ∷ ps) context = add_parameters ps (put k v context)

-- t.GetSegments()[TopologyKeyNode]; a missing key reads as ""
abbrev pub segment_or_empty : Option Bytes → Bytes
segment_or_empty none = []
segment_or_empty (some s) = s

unfoldable pub first_node : List (Dict Bytes) → Bytes → Bytes
first_node [] default = default
first_node (segments ∷ ts) default =
    let rest = first_node ts default in
    let node = segment_or_empty (lookup topology_key_node segments) in
    if bytes_eq node [] then rest else node

pub record CreateRequest : Type 0 where
  pub name : Bytes
  pub capabilities : Option (List Capability)
  pub capacity_range : Option CapacityRange
  pub parameters : Dict Bytes
  pub preferred : List (Dict Bytes)
  pub requisite : List (Dict Bytes)

-- pickTopologyNode
unfoldable pub pick_topology_node : CreateRequest → Bytes
unfolding first_node
pick_topology_node r = first_node r.preferred (first_node r.requisite [])

pub record Volume : Type 0 where
  pub volume_id : Bytes
  pub capacity_bytes : ℤ
  pub volume_context : Dict Bytes
  pub accessible_node : Option Bytes

pub data CreateResult : Type 0 where
  created : Volume → CreateResult
  invalid_argument : CreateResult
  failed_precondition : CreateResult

abbrev pub is_s3 : Dict Bytes → Bool
is_s3 parameters =
    bytes_eq (segment_or_empty (lookup storage_backend_param parameters)) (codes "s3")

-- The volume before its placement.
unfoldable pub volume_of : CreateRequest → Volume
unfolding capacity_of format_int add_parameters
volume_of r =
    let capacity = capacity_of r.capacity_range in
    record {
      volume_id = r.name;
      capacity_bytes = capacity;
      accessible_node = none;
      volume_context = add_parameters r.parameters ((codes "capacity", format_int capacity) ∷ []);
    }

-- Where the volume is pinned: S3 volumes are reachable from every node.
unfoldable pub place : CreateRequest → Volume → CreateResult
unfolding pick_topology_node
place r v =
    if is_s3 r.parameters
    then created v
    else if bytes_eq (pick_topology_node r) []
    then failed_precondition
    else created (record v {
      volume_context = put pinned_node_param (pick_topology_node r) v.volume_context;
      accessible_node = some (pick_topology_node r);
    })

-- CreateVolume
unfoldable pub create_volume : CreateRequest → CreateResult
unfolding validate_volume_capabilities volume_of place
create_volume r = if bytes_eq r.name [] then invalid_argument else elim r.capabilities [
  | none ↦ invalid_argument
  | some caps ↦
      if not (validate_volume_capabilities caps) then invalid_argument else place r (volume_of r)
]

-- ControllerExpandVolume: the size it approves, or `none` for an invalid argument
unfoldable pub controller_expand_volume : Bytes → Option CapacityRange → Option ℤ
controller_expand_volume v none = none
controller_expand_volume v (some r) =
    if bytes_eq v []
    then none
    else if is_zero r.required
    then (if is_zero r.limit then none else some r.limit)
    else some r.required

-- ValidateVolumeCapabilities: `none` for an invalid argument, else whether they are confirmed
unfoldable pub confirm_volume_capabilities : Bytes → Option (List Capability) → Option Bool
unfolding validate_volume_capabilities
confirm_volume_capabilities v none = none
confirm_volume_capabilities v (some caps) =
    if bytes_eq v [] then none else some (validate_volume_capabilities caps)
