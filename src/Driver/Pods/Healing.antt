-- ===== src/Driver/Pods/Healing.antt =====
-- pkg/driver/node_s3.go: which consumers heal by themselves, and what recovers the others.
use lukscryptwalker_csi.Base.{
  ℕ, Bool, false, not, ◌&&◌, ◌||◌, Option, none, some, List, [], ◌∷◌, ◌++◌, any, ◌==◌,
  if◌then◌else◌,
}
use lukscryptwalker_csi.Base.Bytes.{Bytes, codes, bytes_eq, contains, trim_space}
use lukscryptwalker_csi.Base.Decimal.{ℤ, parse_int}
use lukscryptwalker_csi.Driver.Pods.{VolumeMount, Pod, PodCall, delete_pod_by_uid, kills}

-- An entry of /proc: its name, its cgroup file and its comm file where they can be read.
pub record Process : Type 0 where
  pub entry : Bytes
  pub cgroup : Option Bytes
  pub comm : Option Bytes

-- strings.ReplaceAll(podUID, "-", "_")
unfoldable pub underscores : Bytes → Bytes
underscores [] = []
underscores (c ∷ s) = (if c == b'-' then b'_' else c) ∷ underscores s

-- cgroupBelongsToPod
unfoldable pub cgroup_belongs_to_pod : Bytes → Bytes → Bool
unfolding underscores
cgroup_belongs_to_pod cgroup pod_uid =
    contains cgroup (codes "pod" ++ pod_uid) || contains cgroup (codes "pod" ++ underscores pod_uid)

abbrev pub cgroup_matches : Option Bytes → Bytes → Bool
cgroup_matches none pod_uid = false
cgroup_matches (some cgroup) pod_uid = cgroup_belongs_to_pod cgroup pod_uid

abbrev pub is_pause : Option Bytes → Bool
is_pause none = false
is_pause (some comm) = bytes_eq (trim_space comm) (codes "pause")

-- podContainerPIDs, on a /proc that can be listed
unfoldable pub pod_container_pids : List Process → Bytes → List ℤ
unfolding cgroup_belongs_to_pod
pod_container_pids [] pod_uid = []
pod_container_pids (p ∷ ps) pod_uid =
    let rest = pod_container_pids ps pod_uid in
    elim (parse_int p.entry) [
      | none ↦ rest
      | some pid ↦
          if not (cgroup_matches p.cgroup pod_uid)
          then rest
          else if is_pause p.comm
          then rest
          else pid ∷ rest
    ]

unfoldable pub kill_calls : List ℤ → List PodCall
kill_calls [] = []
kill_calls (pid ∷ pids) = kills pid ∷ kill_calls pids

-- recoverConsumerPod, restartPodContainers with it: `killed` says whether kill succeeds, `pods` is the list
-- that the fallback reads
unfoldable pub recover_consumer_pod :
    ℕ → List Process → (ℤ → Bool) → Option (List Pod) → Pod → List PodCall
unfolding pod_container_pids kill_calls any
recover_consumer_pod now processes killed pods p =
    let pids = pod_container_pids processes p.uid in
    if p.restarts_never
    then delete_pod_by_uid now pods p.uid
    else if any killed pids
    then kill_calls pids
    else kill_calls pids ++ delete_pod_by_uid now pods p.uid

-- The volume's name in the pod, "" without one
unfoldable pub volume_name_of : Bytes → List (Bytes × Option Bytes) → Bytes
volume_name_of claim [] = []
volume_name_of claim ((name, none) ∷ vs) = volume_name_of claim vs
volume_name_of claim ((name, some c) ∷ vs) =
    let rest = volume_name_of claim vs in if bytes_eq c claim then name else rest

abbrev pub propagates : Option Bytes → Bool
propagates none = false
propagates (some mode) =
    bytes_eq mode (codes "HostToContainer") || bytes_eq mode (codes "Bidirectional")

abbrev pub mount_propagates : Bytes → VolumeMount → Bool
mount_propagates name m = bytes_eq m.name name && propagates m.propagation

-- podSelfHealsViaPropagation
unfoldable pub pod_self_heals : Pod → Bytes → Bool
unfolding volume_name_of any
pod_self_heals p claim =
    let name = volume_name_of claim p.volumes in
    if bytes_eq claim [] || bytes_eq name []
    then false
    else any (any (mount_propagates name)) p.containers
      || any (any (mount_propagates name)) p.init_containers

abbrev pub claims_volume : Bytes → Bytes × Option Bytes → Bool
claims_volume claim (name, none) = false
claims_volume claim (name, some c) = bytes_eq c claim

-- The loop of podsUsingPVC over the node's pods in the claim's namespace.
unfoldable pub pods_using : Bytes → List Pod → List Pod
unfolding any
pods_using claim [] = []
pods_using claim (p ∷ ps) =
    let rest = pods_using claim ps in if any (claims_volume claim) p.volumes then p ∷ rest else rest

-- podsUsingPVC; the pods are `none` without a client or where the list fails
unfoldable pub pods_using_pvc : Option (List Pod) → Bytes → Bytes → List Pod
unfolding pods_using
pods_using_pvc none namespace claim = []
pods_using_pvc (some pods) namespace claim =
    if bytes_eq namespace [] || bytes_eq claim [] then [] else pods_using claim pods

-- fsGroupFromPods
unfoldable pub fs_group_from_pods : List Pod → Option ℤ
fs_group_from_pods [] = none
fs_group_from_pods (p ∷ ps) = elim p.fs_group [ some g ↦ some g | none ↦ fs_group_from_pods ps ]
