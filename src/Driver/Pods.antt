-- ===== src/Driver/Pods.antt =====
-- pkg/driver/node_s3.go: the consumer pods of a volume, what tells whether one heals by itself, and how one
-- is restarted or deleted. The API server, /proc and kill are what the world shows; times are nanoseconds.
pub mod Healing
pub mod Overdue
use lukscryptwalker_csi.Driver.Controller.{driver_name}
use lukscryptwalker_csi.Base.{
  ℕ, suc, ◌+◌, Bool, false, not, ◌&&◌, ◌||◌, Option, none, some, List, [], ◌∷◌, ◌++◌, any, ltb,
  ◌==◌, if◌then◌else◌, is_some,
}
use lukscryptwalker_csi.Base.Bytes.{Bytes, codes, bytes_eq, contains, trim_space}
use lukscryptwalker_csi.Base.Decimal.{ℤ, pos, negsuc, parse_int}
use lukscryptwalker_csi.Rclone.Units.{mul_int64, second_ns}
use lukscryptwalker_csi.Rclone.CacheDir.{add_int64}

-- corev1's phases, where the driver tells them apart
pub data PodPhase : Type 0 where
  succeeded : PodPhase
  failed : PodPhase
  other_phase : PodPhase

-- DeletionTimestamp and DeletionGracePeriodSeconds
pub record Deletion : Type 0 where
  pub timestamp : ℕ
  pub grace_seconds : Option ℤ

-- A mount of a container: its volume's name, and the propagation it asks for.
pub record VolumeMount : Type 0 where
  pub name : Bytes
  pub propagation : Option Bytes

-- A pod, as far as the driver reads it; `volumes` are named, with the claim where they have one.
pub record Pod : Type 0 where
  pub uid : Bytes
  pub phase : PodPhase
  pub deletion : Option Deletion
  pub has_controller : Bool
  pub restarts_never : Bool
  pub volumes : List (Bytes × Option Bytes)
  pub containers : List (List VolumeMount)
  pub init_containers : List (List VolumeMount)
  pub fs_group : Option ℤ

abbrev pub is_terminating : Pod → Bool
is_terminating p = is_some p.deletion

-- now.After(t.Add(d))
abbrev pub is_after : ℕ → ℕ → ℤ → Bool
is_after now t (pos d) = ltb (t + d) now
is_after now t (negsuc d) = ltb t (now + suc d)

abbrev pub grace_of : Option ℤ → ℤ
grace_of none = pos 0
grace_of (some seconds) = seconds

-- staleTerminationGrace
abbrev pub stale_termination_grace : ℤ
stale_termination_grace = pos 30000000000

unfoldable pub past_grace : ℕ → Deletion → Bool
unfolding mul_int64 add_int64
past_grace now d =
    is_after now d.timestamp
      (add_int64 (mul_int64 (grace_of d.grace_seconds) second_ns) stale_termination_grace)

-- podStuckTerminating
unfoldable pub pod_stuck_terminating : ℕ → Pod → Bool
unfolding past_grace
pod_stuck_terminating now p = elim p.deletion [ none ↦ false | some d ↦ past_grace now d ]

-- What the driver does to consumers: SIGKILL to a process, an ordinary delete, one with grace 0, the
-- unwinding of a bind, and a fresh bind.
pub data PodCall : Type 0 where
  kills : ℤ → PodCall
  deletes : Bytes → PodCall
  force_deletes : Bytes → PodCall
  unbinds : Bytes → PodCall
  rebinds : Bytes → PodCall

-- A stuck pod without a controller stays.
unfoldable pub force_delete : Pod → List PodCall
force_delete p = if p.has_controller then force_deletes p.uid ∷ [] else []

-- The switch of deletePodByUID, on a pod of that phase.
unfoldable pub delete_in : PodPhase → ℕ → Pod → List PodCall
delete_in succeeded now p = []
delete_in failed now p = if pod_stuck_terminating now p then force_delete p else []
delete_in other_phase now p =
    if pod_stuck_terminating now p
    then force_delete p
    else if is_terminating p
    then []
    else deletes p.uid ∷ []

unfoldable pub delete_pod : ℕ → Pod → List PodCall
delete_pod now p = delete_in p.phase now p

-- podByUID
unfoldable pub pod_by_uid : List Pod → Bytes → Option Pod
pod_by_uid [] uid = none
pod_by_uid (p ∷ ps) uid = if bytes_eq p.uid uid then some p else pod_by_uid ps uid

abbrev pub delete_found : ℕ → Option Pod → List PodCall
delete_found now none = []
delete_found now (some p) = delete_pod now p

-- deletePodByUID; the pods are `none` without a client or where the list fails
unfoldable pub delete_pod_by_uid : ℕ → Option (List Pod) → Bytes → List PodCall
unfolding delete_pod pod_by_uid
delete_pod_by_uid now none uid = []
delete_pod_by_uid now (some pods) uid = delete_found now (pod_by_uid pods uid)

-- What the API says of claims and volumes: a claim's volume name, and a volume's CSI driver. `none`
-- where the object cannot be read or has no such field.
pub record ClaimWorld : Type 0 where
  pub volume_of : Bytes → Option Bytes
  pub driver_of : Bytes → Option Bytes

abbrev pub is_driver : Option Bytes → Bool
is_driver none = false
is_driver (some d) = bytes_eq d driver_name

abbrev pub volume_is_ours : ClaimWorld → Option Bytes → Bool
volume_is_ours w none = false
volume_is_ours w (some []) = false
volume_is_ours w (some (c ∷ name)) = is_driver (w.driver_of (c ∷ name))

abbrev pub claim_is_ours : ClaimWorld → Bytes × Option Bytes → Bool
claim_is_ours w (name, none) = false
claim_is_ours w (name, some claim) = volume_is_ours w (w.volume_of claim)

-- podUsesOurVolumes
unfoldable pub pod_uses_our_volumes : ClaimWorld → Pod → Bool
unfolding any
pod_uses_our_volumes w p = any (claim_is_ours w) p.volumes

-- The loop of sweepStuckTerminatingConsumers over the node's pods; `now` and the claims are as they show
-- at each pod.
unfoldable pub sweep_stuck_terminating : (Pod → ℕ) → (Pod → ClaimWorld) → List Pod → List PodCall
unfolding pod_stuck_terminating pod_uses_our_volumes
sweep_stuck_terminating now claims [] = []
sweep_stuck_terminating now claims (p ∷ ps) =
    let rest = sweep_stuck_terminating now claims ps in
    if not (is_terminating p) || not (pod_stuck_terminating (now p) p)
    then rest
    else if not (pod_uses_our_volumes (claims p) p) || not p.has_controller
    then rest
    else force_deletes p.uid ∷ rest
