-- ===== src/Driver/Backoff.antt =====
-- pkg/driver/node_s3.go: what limits the repairs of one volume. Times are nanoseconds of one clock.
pub mod Spacing
use lukscryptwalker_csi.Base.{
  ℕ, zero, suc, ◌+◌, ◌-◌, ◌*◌, ◌^◌, min, Bool, true, false, not, ◌&&◌, ◌||◌, Option, none, some,
  List, [], ◌∷◌, ltb, leb, if◌then◌else◌, is_some, bit,
}
use lukscryptwalker_csi.Base.Bytes.{Bytes, bytes_eq}
use lukscryptwalker_csi.Base.Dict.{Dict, lookup, put, delete}

abbrev pub minute : ℕ
minute = 60 * 10 ^ 9

-- reconcileFreeAttempts, reconcileBackoffBase, reconcileBackoffMax
abbrev pub reconcile_free_attempts : ℕ
reconcile_free_attempts = 2

abbrev pub reconcile_backoff_base : ℕ
reconcile_backoff_base = 2 * minute

abbrev pub reconcile_backoff_max : ℕ
reconcile_backoff_max = 15 * minute

-- reconcileAttempt; `last` of the zero value is the zero time, which is never looked at
pub record ReconcileAttempt : Type 0 where
  pub count : ℕ
  pub last : ℕ

abbrev pub no_attempt : ReconcileAttempt
no_attempt = record { count = 0; last = 0 }

-- reconcileBackoffBase << min(count-reconcileFreeAttempts, 3), at most reconcileBackoffMax
unfoldable pub backoff : ℕ → ℕ
backoff count =
    min (reconcile_backoff_base * 2 ^ min (count - reconcile_free_attempts) 3) reconcile_backoff_max

abbrev pub attempt_or_none : Option ReconcileAttempt → ReconcileAttempt
attempt_or_none none = no_attempt
attempt_or_none (some a) = a

unfoldable pub attempt_allowed : ReconcileAttempt → ℕ → Bool
unfolding backoff
attempt_allowed a now =
    not (leb reconcile_free_attempts a.count && ltb (now - a.last) (backoff a.count))

-- reconcileAllowed
unfoldable pub reconcile_allowed : Bytes → ℕ → Dict ReconcileAttempt → Bool × Dict ReconcileAttempt
unfolding attempt_allowed
reconcile_allowed v now attempts =
    let a = attempt_or_none (lookup v attempts) in
    if attempt_allowed a now
    then (true, put v (record { count = suc a.count; last = now }) attempts)
    else (false, attempts)

-- reconcileSucceeded
unfoldable pub reconcile_succeeded : Bytes → Dict ReconcileAttempt → Dict ReconcileAttempt
reconcile_succeeded v attempts = delete v attempts

-- consumerRestartCooldown
abbrev pub consumer_restart_cooldown : ℕ
consumer_restart_cooldown = 5 * minute

abbrev pub cooled : Option ℕ → ℕ → Bool
cooled none now = true
cooled (some t) now = not (ltb (now - t) consumer_restart_cooldown)

-- consumerRestartAllowed; `registered` is registrationHealthy
unfoldable pub consumer_restart_allowed : Bool → Bytes → ℕ → Dict ℕ → Bool × Dict ℕ
consumer_restart_allowed registered v now times =
    if registered && cooled (lookup v times) now then (true, put v now times) else (false, times)

-- zombieVFSConfirmations
abbrev pub zombie_vfs_confirmations : ℕ
zombie_vfs_confirmations = 2

-- What a tick of vfsRegistryMissing looks at: whether the registry could be read, how many VFSes carry
-- the volume's name, and whether a setup or a drain owns the volume.
pub record RegistryTick : Type 0 where
  pub known : Bool
  pub volume_id : Bytes
  pub in_setup : Bool
  pub draining : Bool
  pub registered : ℕ

abbrev pub next_strike : Option ℕ → ℕ
next_strike none = 1
next_strike (some prev) = prev + 1

-- vfsRegistryMissing
unfoldable pub vfs_registry_missing : RegistryTick → Dict ℕ → Bool × Dict ℕ
vfs_registry_missing t strikes =
    if not t.known
    then (false, strikes)
    else if bytes_eq t.volume_id [] || t.in_setup || t.draining
    then (false, strikes)
    else if ltb 0 t.registered
    then (false, delete t.volume_id strikes)
    else if ltb (next_strike (lookup t.volume_id strikes)) zombie_vfs_confirmations
    then (false, put t.volume_id (next_strike (lookup t.volume_id strikes)) strikes)
    else (true, delete t.volume_id strikes)

-- The calls of reconcileAllowed, each with its volume and its time.
unfoldable pub run_attempts : Dict ReconcileAttempt → List (Bytes × ℕ) → Dict ReconcileAttempt
unfolding reconcile_allowed
run_attempts d [] = d
run_attempts d ((v, now) ∷ calls) = run_attempts (reconcile_allowed v now d).1 calls

-- How many of the calls of reconcileAllowed for v are let through.
unfoldable pub attempts_let_through : Bytes → Dict ReconcileAttempt → List (Bytes × ℕ) → ℕ
attempts_let_through v d [] = 0
attempts_let_through v d ((w, now) ∷ calls) =
    let (allowed, next) = reconcile_allowed w now d in
    bit (allowed && bytes_eq v w) + attempts_let_through v next calls

-- The times at which the calls of consumerRestartAllowed are granted for v.
unfoldable pub granted : Bytes → Dict ℕ → List (Bool × Bytes × ℕ) → List ℕ
unfolding consumer_restart_allowed
granted v d [] = []
granted v d ((registered, w, now) ∷ calls) =
    let (allowed, next) = consumer_restart_allowed registered w now d in
    let rest = granted v next calls in if allowed && bytes_eq v w then now ∷ rest else rest
