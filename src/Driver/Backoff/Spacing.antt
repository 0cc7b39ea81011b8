-- ===== src/Driver/Backoff/Spacing.antt =====
-- How far apart the repairs of one volume are.
use lukscryptwalker_csi.Base.{
  ℕ, zero, suc, ◌+◌, ◌-◌, ◌*◌, ◌^◌, ◌≤◌, ◌≡◌, bit, ap, inl, inr, Bool, true, ◌&&◌, Option, none,
  some, List, [], ◌∷◌, arith, leb, Bool-cases, All, min,
}
use lukscryptwalker_csi.Base.Bytes.{Bytes, bytes_eq, bytes_eq→eq}
use lukscryptwalker_csi.Base.Dict.{Dict, lookup, put, lookup-put}
use lukscryptwalker_csi.Driver.Backoff.{
  minute, ReconcileAttempt, backoff, attempt_or_none, attempt_allowed, reconcile_allowed,
  run_attempts, attempts_let_through, consumer_restart_allowed, granted, cooled,
}

power-positive : (k : ℕ) → k ≤ 3 → 1 ≤ 2 ^ k
power-positive zero h = omega arith
power-positive (suc zero) h = omega arith
power-positive (suc (suc zero)) h = omega arith
power-positive (suc (suc (suc zero))) h = omega arith
power-positive (suc (suc (suc (suc k)))) h = absurd (omega arith)

backoff-positive : (count : ℕ) → 2 * minute ≤ backoff count
unfolding backoff
backoff-positive count =
    let p = power-positive (min (count - 2) 3) (omega arith) in omega (arith, p)

-- The least time between the first attempt and the one with number `count`.
abbrev pub spent : ℕ → ℕ
spent zero = 0
spent (suc zero) = 0
spent (suc (suc zero)) = 0
spent (suc (suc (suc n))) = spent (suc (suc n)) + backoff (suc (suc n))

-- The record of v, if it has one, is of `count` attempts since `first` that are spaced by the backoff.
abbrev Spaced : ℕ → Option ReconcileAttempt → Type 0
Spaced first none = Unit
Spaced first (some a) = first + spent a.count ≤ a.last

attempt-Spaced :
    (first now count last : ℕ)
    → first ≤ now
    → first + spent count ≤ last
    → attempt_allowed (record { count = count; last = last }) now ≡ true
    → first + spent (suc count) ≤ now
unfolding attempt_allowed
attempt-Spaced first now zero last f h k = omega arith
attempt-Spaced first now (suc zero) last f h k = omega arith
attempt-Spaced first now (suc (suc n)) last f h k =
    let waited : backoff (suc (suc n)) ≤ now - last = ground arith in
    let some_time = backoff-positive (suc (suc n)) in omega (arith, h, waited, some_time)

allowed-Spaced :
    (v w : Bytes) (first now : ℕ) (d : Dict ReconcileAttempt)
    → first ≤ now
    → Spaced first (lookup v d)
    → Spaced first (lookup v (reconcile_allowed w now d).1)
unfolding reconcile_allowed
allowed-Spaced v w first now d f h =
    elim (Bool-cases (attempt_allowed (attempt_or_none (lookup w d)) now)) [
      | inl e ↦
          let put_at =
            lookup-put v w (record { count = suc (attempt_or_none (lookup w d)).count; last = now })
              d in
          elim (Bool-cases (bytes_eq v w)) [
            | inl q ↦
                let same = ap (λ z. lookup z d) (bytes_eq→eq v w q) in
                rw (e, reconcile_allowed, put_at, q)
                  (newest first now (lookup w d) f (rw same at h) e)
            | inr q ↦ rw (e, reconcile_allowed, put_at, q) h
          ]
      | inr e ↦ rw (e, reconcile_allowed) h
    ]
  where
    newest :
        (first now : ℕ) (o : Option ReconcileAttempt)
        → first ≤ now
        → Spaced first o
        → attempt_allowed (attempt_or_none o) now ≡ true
        → first + spent (suc (attempt_or_none o).count) ≤ now
    newest first now none f h k = omega arith
    newest first now (some a) f h k = attempt-Spaced first now a.count a.last f h k

run-Spaced :
    (v : Bytes) (first : ℕ) (calls : List (Bytes × ℕ)) (d : Dict ReconcileAttempt)
    → All (λ c. first ≤ c.1) calls
    → Spaced first (lookup v d)
    → Spaced first (lookup v (run_attempts d calls))
unfolding run_attempts
run-Spaced v first [] d t h = h
run-Spaced v first ((w, now) ∷ calls) d t h =
    run-Spaced v first calls (reconcile_allowed w now d).1 t.1
      (allowed-Spaced v w first now d t.0 h)

-- A call that is let through is counted in its volume's record, and only that.
allowed-count :
    (v w : Bytes) (now : ℕ) (d : Dict ReconcileAttempt)
    → let (allowed, next) = reconcile_allowed w now d in
      (attempt_or_none (lookup v next)).count
      ≡ bit (allowed && bytes_eq v w) + (attempt_or_none (lookup v d)).count
unfolding reconcile_allowed
allowed-count v w now d =
    let a : ReconcileAttempt = record {
      count = suc (attempt_or_none (lookup w d)).count;
      last = now;
    } in
    elim (Bool-cases (attempt_allowed (attempt_or_none (lookup w d)) now)) [
      | inl e ↦
          let put_at = lookup-put v w a d in
          elim (Bool-cases (bytes_eq v w)) [
            | inl q ↦
                let same = ap (λ z. (attempt_or_none (lookup z d)).count) (bytes_eq→eq v w q) in
                rw (e, reconcile_allowed, put_at, q) (omega (arith, same))
            | inr q ↦ rw (e, reconcile_allowed, put_at, q) (omega arith)
          ]
      | inr e ↦ rw (e, reconcile_allowed) (omega arith)
    ]

run-count :
    (v : Bytes) (calls : List (Bytes × ℕ)) (d : Dict ReconcileAttempt)
    → (attempt_or_none (lookup v (run_attempts d calls))).count
      ≡ attempts_let_through v d calls + (attempt_or_none (lookup v d)).count
unfolding run_attempts attempts_let_through
run-count v [] d = omega arith
run-count v ((w, now) ∷ calls) d =
    let one = allowed-count v w now d in
    let rest = run-count v calls (reconcile_allowed w now d).1 in omega (arith, one, rest)

-- A volume whose record was cleared (or never made) at `first`: whenever calls for it and for other
-- volumes come from then on, its record counts exactly the calls for it that were let through, and at
-- least the sum of the backoffs between these has gone by since `first` when the last of them was.
pub run_attempts-spaced :
    (v : Bytes) (first : ℕ) (calls : List (Bytes × ℕ)) (d : Dict ReconcileAttempt)
    (a : ReconcileAttempt)
    → lookup v d ≡ none
    → All (λ c. first ≤ c.1) calls
    → lookup v (run_attempts d calls) ≡ some a
    → (a.count ≡ attempts_let_through v d calls)
      × (first + spent (attempts_let_through v d calls) ≤ a.last)
run_attempts-spaced v first calls d a n t h =
    let start : Spaced first (lookup v d) = rw n tt in
    let spaced : first + spent a.count ≤ a.last = rw h at (run-Spaced v first calls d t start) in
    let counted = run-count v calls d in
    let same : a.count ≡ attempts_let_through v d calls + 0 = rw (h, n) at counted in
    let exact : a.count ≡ attempts_let_through v d calls = omega (arith, same) in
    (exact, rw exact at spaced)

-- From a volume's third attempt on, a repair is allowed exactly when the backoff has gone by since the
-- last one, and the backoff lies between two minutes and fifteen.
pub reconcile_allowed-bounds :
    (v : Bytes) (now : ℕ) (d : Dict ReconcileAttempt) (a : ReconcileAttempt)
    → lookup v d ≡ some a
    → 2 ≤ a.count
    → ((reconcile_allowed v now d).0 ≡ leb (a.last + backoff a.count) now)
      × (2 * minute ≤ backoff a.count)
      × (backoff a.count ≤ 15 * minute)
unfolding reconcile_allowed attempt_allowed
reconcile_allowed-bounds v now d a h k =
    let low = backoff-positive a.count in
    let high : backoff a.count ≤ 15 * minute = unfold backoff in omega arith in
    elim (Bool-cases (attempt_allowed a now)) [
      | inl e ↦ (rw (h, reconcile_allowed, e) (ground arith), low, high)
      | inr e ↦ (rw (h, reconcile_allowed, e) (ground arith), low, high)
    ]

-- Each time comes five minutes or more after the one before it.
abbrev pub Gaps : Option ℕ → List ℕ → Type 0
Gaps before [] = Unit
Gaps none (t ∷ ts) = Gaps (some t) ts
Gaps (some before) (t ∷ ts) = (before + 5 * minute ≤ t) × Gaps (some t) ts

first-Gaps :
    (o : Option ℕ) (now : ℕ) (ts : List ℕ)
    → cooled o now ≡ true
    → Gaps (some now) ts
    → Gaps o (now ∷ ts)
first-Gaps none now ts c g = g
first-Gaps (some t) now ts c g = (ground arith, g)

-- However consumers are asked to be restarted, for whichever volumes and whenever: the restarts granted
-- for one volume are five minutes apart, the first of them from the one on record.
pub granted-Gaps :
    (v : Bytes) (d : Dict ℕ) (calls : List (Bool × Bytes × ℕ))
    → Gaps (lookup v d) (granted v d calls)
unfolding granted consumer_restart_allowed
granted-Gaps v d [] = tt
granted-Gaps v d ((registered, w, now) ∷ calls) =
    elim (Bool-cases (registered && cooled (lookup w d) now)) [
      | inl e ↦
          let put_at = lookup-put v w now d in
          let rest = granted-Gaps v (put w now d) calls in
          elim (Bool-cases (bytes_eq v w)) [
            | inl q ↦
                let same = ap (λ z. lookup z d) (bytes_eq→eq v w q) in
                let ok : cooled (lookup v d) now ≡ true = rw same (ground arith) in
                rw (e, q)
                  (first-Gaps (lookup v d) now (granted v (put w now d) calls) ok
                    (rw (put_at, q) at rest))
            | inr q ↦ rw (e, q) (rw (put_at, q) at rest)
          ]
      | inr e ↦ rw e (granted-Gaps v d calls)
    ]
