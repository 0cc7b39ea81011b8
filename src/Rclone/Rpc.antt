-- ===== src/Rclone/Rpc.antt =====
-- pkg/rclone/rclone.go: the table of librclone calls in flight and its watchdog. Times are nanoseconds.
use lukscryptwalker_csi.Base.{
  ℕ, suc, ◌-◌, ◌*◌, ◌^◌, ◌≡◌, refl, ap, ◌∙◌, inl, inr, Bool, true, false, not, ◌&&◌, ◌||◌, List, [],
  ◌∷◌, max, arith, leb, ◌==◌, if◌then◌else◌, any, Bool-cases,
}
use lukscryptwalker_csi.Base.Bytes.{Bytes, codes, has_prefix}

-- rpcStuckFatalAfter
abbrev pub rpc_stuck_fatal_after : ℕ
rpc_stuck_fatal_after = 300 * 10 ^ 9

-- inFlightRPC
pub record InFlightRpc : Type 0 where
  pub method : Bytes
  pub started : ℕ
  pub budget : ℕ

-- rpcInFlight and rpcSeq
pub record RpcTable : Type 0 where
  pub in_flight : List (ℕ × InFlightRpc)
  pub seq : ℕ

abbrev pub empty_table : RpcTable
empty_table = record { in_flight = []; seq = 0 }

-- overdueBy(now) >= 0
unfoldable pub is_overdue : InFlightRpc → ℕ → Bool
is_overdue c now = leb (max c.budget rpc_stuck_fatal_after) (now - c.started)

unfoldable pub holds_mount_lock : Bytes → Bool
holds_mount_lock method = has_prefix method (codes "mount/")

-- stuckRPCs; the order of the map is the list's
unfoldable pub stuck_rpcs : ℕ → List (ℕ × InFlightRpc) → List InFlightRpc
unfolding is_overdue
stuck_rpcs now [] = []
stuck_rpcs now ((id, c) ∷ cs) =
    let rest = stuck_rpcs now cs in if is_overdue c now then c ∷ rest else rest

-- What one round of the watchdog does: the process ends on the first stuck call that holds the mount
-- lock, and the others before it are reported.
pub data Watchdog : Type 0 where
  reports : List Bytes → Watchdog
  aborts : Bytes → Watchdog

abbrev reported : Bytes → Watchdog → Watchdog
reported method (reports ms) = reports (method ∷ ms)
reported method (aborts m) = aborts m

-- The loop of checkStuckRPCs
unfoldable pub check_calls : List InFlightRpc → Watchdog
unfolding holds_mount_lock
check_calls [] = reports []
check_calls (c ∷ cs) =
    let rest = check_calls cs in
    if holds_mount_lock c.method then aborts c.method else reported c.method rest

unfoldable pub check_stuck_rpcs : ℕ → RpcTable → Watchdog
unfolding check_calls stuck_rpcs
check_stuck_rpcs now t = check_calls (stuck_rpcs now t.in_flight)

-- callLibrclone up to its select: the call is registered under a fresh number
unfoldable pub begin_call : Bytes → ℕ → ℕ → RpcTable → RpcTable
begin_call method now timeout t = record {
  in_flight =
      (suc t.seq, record { method = method; started = now; budget = timeout }) ∷ t.in_flight;
  seq = suc t.seq;
}

unfoldable pub forget : ℕ → List (ℕ × InFlightRpc) → List (ℕ × InFlightRpc)
forget id [] = []
forget id ((other, c) ∷ cs) =
    let rest = forget id cs in if id == other then rest else (other, c) ∷ rest

-- The goroutine of callLibrclone when librclone.RPC returns, in time or not
unfoldable pub end_call : ℕ → RpcTable → RpcTable
unfolding forget
end_call id t = record t { in_flight = forget id t.in_flight }

pub data RpcEvent : Type 0 where
  begins : Bytes → ℕ → ℕ → RpcEvent
  ends : ℕ → RpcEvent

unfoldable pub run : RpcTable → List RpcEvent → RpcTable
unfolding begin_call end_call
run t [] = t
run t (begins method now timeout ∷ es) = run (begin_call method now timeout t) es
run t (ends id ∷ es) = run (end_call id t) es

-- The history alone: the calls after `seq` others that the later events do not end.
abbrev pub ended_in : ℕ → List RpcEvent → Bool
ended_in id [] = false
ended_in id (begins m now b ∷ es) = ended_in id es
ended_in id (ends other ∷ es) = id == other || ended_in id es

abbrev pub is_wedged : ℕ → InFlightRpc → Bool
is_wedged now c = is_overdue c now && holds_mount_lock c.method

abbrev pub wedged_in : ℕ → ℕ → List RpcEvent → Bool
wedged_in now seq [] = false
wedged_in now seq (begins method started budget ∷ es) =
    (not (ended_in (suc seq) es)
      && is_wedged now (record { method = method; started = started; budget = budget }))
    || wedged_in now (suc seq) es
wedged_in now seq (ends other ∷ es) = wedged_in now seq es

abbrev pub is_abort : Watchdog → Bool
is_abort (reports ms) = false
is_abort (aborts m) = true

abbrev live : ℕ → List RpcEvent → ℕ × InFlightRpc → Bool
live now es c = not (ended_in c.0 es) && is_wedged now c.1

check_calls-any :
    (now : ℕ) (cs : List (ℕ × InFlightRpc))
    → is_abort (check_calls (stuck_rpcs now cs)) ≡ any (live now []) cs
unfolding check_calls stuck_rpcs any
check_calls-any now [] = refl
check_calls-any now ((id, c) ∷ cs) =
    let rest = check_calls-any now cs in
    elim (Bool-cases (is_overdue c now)) [
      | inl o ↦ elim (Bool-cases (holds_mount_lock c.method)) [
        | inl h ↦ rw (o, h) refl
        | inr h ↦ rw (o, h) (reported_abort c.method (check_calls (stuck_rpcs now cs)) ∙ rest)
      ]
      | inr o ↦ rw o rest
    ]
  where
    reported_abort : (m : Bytes) (w : Watchdog) → is_abort (reported m w) ≡ is_abort w
    reported_abort m (reports ms) = refl
    reported_abort m (aborts k) = refl

forget-any :
    (now id : ℕ) (es : List RpcEvent) (cs : List (ℕ × InFlightRpc))
    → any (live now es) (forget id cs) ≡ any (live now (ends id ∷ es)) cs
unfolding any forget
forget-any now id es [] = refl
forget-any now id es ((other, c) ∷ cs) =
    let rest = forget-any now id es cs in
    elim (Bool-cases (id == other)) [
      | inl e ↦ let f : (other == id) ≡ true = ground arith in rw (e, f) rest
      | inr e ↦
          let f : (other == id) ≡ false = ground arith in
          rw (e, f) (ap (◌||◌ (live now es (other, c))) rest)
    ]

run-any :
    (now : ℕ) (es : List RpcEvent) (t : RpcTable)
    → any (live now []) (run t es).in_flight
      ≡ (any (live now es) t.in_flight || wedged_in now t.seq es)
unfolding run any begin_call end_call
run-any now [] t = elim (Bool-cases (any (live now []) t.in_flight)) [
  | inl e ↦ rw e refl
  | inr e ↦ rw e refl
]
run-any now (begins m s b ∷ es) t =
    let rest = run-any now es (begin_call m s b t) in
    let c : InFlightRpc = record { method = m; started = s; budget = b } in
    rest
    ∙ swap (live now es (suc t.seq, c)) (any (live now es) t.in_flight)
        (wedged_in now (suc t.seq) es)
  where
    swap : (a b c : Bool) → ((a || b) || c) ≡ (b || (a || c))
    swap true true c = refl
    swap true false c = refl
    swap false true c = refl
    swap false false c = refl
run-any now (ends id ∷ es) t =
    let rest = run-any now es (end_call id t) in
    rest ∙ ap (λ z. z || wedged_in now t.seq es) (forget-any now id es t.in_flight)

-- At any time the watchdog ends the process exactly when some call that rclone serializes on its mount
-- lock was begun, has not ended since, and is older than both its own budget and the fatal threshold:
-- read off the history of calls alone, whatever other calls hang.
pub check_stuck_rpcs-aborts :
    (now : ℕ) (es : List RpcEvent)
    → is_abort (check_stuck_rpcs now (run empty_table es)) ≡ wedged_in now 0 es
unfolding check_stuck_rpcs any
check_stuck_rpcs-aborts now es =
    check_calls-any now (run empty_table es).in_flight ∙ run-any now es empty_table
