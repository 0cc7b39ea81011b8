-- ===== src/Driver/Consumers.antt =====
-- pkg/driver/node_s3.go: which mounts of the host table are consumer binds of this driver, and which
-- devices the host still resolves.
pub mod Paths
use lukscryptwalker_csi.Base.{
  ℕ, Bool, true, false, not, ◌&&◌, ◌||◌, Option, none, some, List, [], ◌∷◌, ◌++◌, length,
  if◌then◌else◌, ◌==◌,
}
use lukscryptwalker_csi.Base.Bytes.{Bytes, codes, bytes_eq, has_prefix, contains, cut_prefix}
use lukscryptwalker_csi.Base.Cut.{cut}
use lukscryptwalker_csi.Base.Sets.{member, insert}
use lukscryptwalker_csi.Rclone.Mounts.{HostMount, Table, topmost, parse_mount_stacks}

-- consumerBind
pub record ConsumerBind : Type 0 where
  pub path : Bytes
  pub pod_uid : Bytes
  pub pv_name : Bytes
  pub depth : ℕ
  pub dev : Bytes

abbrev pub csi_segment : Bytes
csi_segment = codes "/volumes/kubernetes.io~csi/"

abbrev pub pods_prefix : Bytes → Bytes
pods_prefix kubelet_root = kubelet_root ++ codes "/pods/"

-- The three cuts of parseConsumerBinds: the pod's UID and the PV's name
unfoldable pub pv_of_rest : Option (Bytes × Bytes) → Option Bytes
pv_of_rest none = none
pv_of_rest (some (pv_name, leaf)) =
    if not (bytes_eq leaf (codes "mount")) || bytes_eq pv_name [] then none else some pv_name

unfoldable pub pod_of_rest : Option (Bytes × Bytes) → Option (Bytes × Bytes)
unfolding pv_of_rest cut
pod_of_rest none = none
pod_of_rest (some (pod_uid, rest)) =
    if bytes_eq pod_uid [] || contains pod_uid (codes "/")
    then none
    else elim (pv_of_rest (cut rest (codes "/"))) [
      | none ↦ none
      | some pv_name ↦ some (pod_uid, pv_name)
    ]

unfoldable pub parse_bind_path : Bytes → Bytes → Option (Bytes × Bytes)
unfolding pod_of_rest
parse_bind_path kubelet_root path = elim (cut_prefix path (pods_prefix kubelet_root)) [
  | none ↦ none
  | some rest ↦ pod_of_rest (cut rest csi_segment)
]

-- mounts[len(mounts)-1] is topmost: ParseMountStacks makes no empty stack.
unfoldable pub bind_at : Bytes → Bytes → List HostMount → Option ConsumerBind
unfolding parse_bind_path topmost
bind_at kubelet_root path mounts = elim (topmost mounts) [
  | none ↦ none
  | some top ↦
      if not (has_prefix top.fs_type (codes "fuse"))
      then none
      else elim (parse_bind_path kubelet_root path) [
        | none ↦ none
        | some names ↦ some (record {
          path = path;
          pod_uid = names.0;
          pv_name = names.1;
          depth = length mounts;
          dev = top.dev;
        })
      ]
]

-- parseConsumerBinds; the map's order is the table's
unfoldable pub parse_consumer_binds : Table → Bytes → List ConsumerBind
unfolding bind_at
parse_consumer_binds [] kubelet_root = []
parse_consumer_binds ((path, mounts) ∷ stacks) kubelet_root =
    let rest = parse_consumer_binds stacks kubelet_root in
    elim (bind_at kubelet_root path mounts) [ none ↦ rest | some bind ↦ bind ∷ rest ]

-- liveMountDevices
unfoldable pub live_mount_devices : Table → List Bytes
unfolding topmost
live_mount_devices [] = []
live_mount_devices ((path, mounts) ∷ stacks) =
    let rest = live_mount_devices stacks in
    if contains path (codes "/volume-subpaths/")
    then rest
    else elim (topmost mounts) [ none ↦ rest | some top ↦ insert top.dev rest ]

-- rcloneFSType
abbrev pub rclone_fs_type : Bytes
rclone_fs_type = codes "fuse.rclone"

unfoldable pub stranded_in_stack : List HostMount → List Bytes → List Bytes
stranded_in_stack [] live = []
stranded_in_stack (m ∷ ms) live =
    let rest = stranded_in_stack ms live in
    if bytes_eq m.fs_type rclone_fs_type && not (member m.dev live) then m.dev ∷ rest else rest

unfoldable pub stranded_in_table : Table → List Bytes → List Bytes
unfolding stranded_in_stack
stranded_in_table [] live = []
stranded_in_table ((path, mounts) ∷ stacks) live =
    stranded_in_stack mounts live ++ stranded_in_table stacks live

-- strandedInMountInfo
unfoldable pub stranded_in_mount_info : Bytes → List Bytes → List Bytes
unfolding stranded_in_table
stranded_in_mount_info mountinfo live = stranded_in_table (parse_mount_stacks mountinfo) live
