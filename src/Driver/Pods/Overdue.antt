-- ===== src/Driver/Pods/Overdue.antt =====
-- Which pods are deleted, and which by force.
use lukscryptwalker_csi.Base.{
  ℕ, ◌+◌, ◌*◌, ◌^◌, ◌≡◌, Bool, true, false, not, ◌&&◌, Option, none, some, List, ltb, leb, All, any,
}
use lukscryptwalker_csi.Base.Bytes.{Bytes, bytes_eq}
use lukscryptwalker_csi.Base.Decimal.{ℤ, pos, negsuc}
use lukscryptwalker_csi.Driver.Pods.{
  Pod, PodPhase, other_phase, PodCall, kills, deletes, force_deletes, unbinds, rebinds,
  is_terminating, ClaimWorld, pod_uses_our_volumes,
}

-- A grace period between zero and nine billion seconds, 285 years.
abbrev pub is_sound_grace : Option ℤ → Bool
is_sound_grace none = true
is_sound_grace (some (pos n)) = leb n 9000000000
is_sound_grace (some (negsuc n)) = false

abbrev pub has_sound_grace : Pod → Bool
has_sound_grace p = elim p.deletion [ none ↦ true | some d ↦ is_sound_grace d.grace_seconds ]

abbrev pub grace_seconds_of : Option ℤ → ℕ
grace_seconds_of none = 0
grace_seconds_of (some (pos n)) = n
grace_seconds_of (some (negsuc n)) = 0

-- More than thirty seconds have passed since the pod's grace period ended.
abbrev pub is_past_due : ℕ → Pod → Bool
is_past_due now p = elim p.deletion [
  | none ↦ false
  | some d ↦ ltb (d.timestamp + (grace_seconds_of d.grace_seconds + 30) * 10 ^ 9) now
]

-- Neither Succeeded nor Failed: Running, but also Pending and Unknown.
abbrev pub is_unfinished : PodPhase → Bool
is_unfinished phase = elim phase [ other_phase ↦ true | _ ↦ false ]

-- What a pod warrants: to be deleted by force when it is overdue and has a controller, to be deleted when it
-- is neither done nor being deleted.
abbrev pub warrants : ℕ → PodCall → Pod → Bool
warrants now (force_deletes uid) p = bytes_eq p.uid uid && (p.has_controller && is_past_due now p)
warrants now (deletes uid) p =
    bytes_eq p.uid uid && (not (is_terminating p) && is_unfinished p.phase)
warrants now (kills pid) p = false
warrants now (unbinds uid) p = false
warrants now (rebinds uid) p = false

-- What one of the pods warrants.
abbrev pub is_warranted : ℕ → List Pod → PodCall → Bool
is_warranted now pods c = any (warrants now c) pods

abbrev pub AreSound : List Pod → Type 0
AreSound pods = All (λ p. has_sound_grace p ≡ true) pods

-- What the sweep may do: force the deletion of an overdue pod of a controller with a volume of ours.
abbrev pub sweep_warrants : (Pod → ℕ) → (Pod → ClaimWorld) → PodCall → Pod → Bool
sweep_warrants now claims c p = warrants (now p) c p && pod_uses_our_volumes (claims p) p
