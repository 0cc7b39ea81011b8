-- ===== src/Rclone/Mounts/Staleness.antt =====
-- How old a table may be that the cache still serves as trustworthy.
use lukscryptwalker_csi.Base.{
  ℕ, zero, suc, ◌+◌, ◌-◌, ◌*◌, ◌^◌, ◌≤◌, ◌<◌, ◌≡◌, ◌≢◌, refl, true, Option, none, some, List, [],
  ◌∷◌, arith, All,
}
use lukscryptwalker_csi.Rclone.Mounts.{Table}
use lukscryptwalker_csi.Rclone.Mounts.Cache.{
  MountsCache, answered, CacheEvent, queries, reads, invalidates, empty_cache, cached_mounts, query,
  read_done, invalidate, step, run, mounts_cache_ttl, mounts_max_stale, younger,
}

-- The last read that brought a table: when, and which.
pub last_read : Option (ℕ × Table) → List (ℕ × CacheEvent) → Option (ℕ × Table)
last_read r [] = r
last_read r ((now, reads (some t)) ∷ es) = last_read (some (now, t)) es
last_read r ((now, _) ∷ es) = last_read r es

-- The cache holds the table of `r`, stamped with the time of `r`.
abbrev Stamped : MountsCache → Option (ℕ × Table) → Type 0
Stamped c none = (c.stacks ≡ none) × (c.read_at ≡ none)
Stamped c (some (t, table)) = (c.stacks ≡ some table) × (c.read_at ≡ some t)

query-Stamped :
    (c : MountsCache) (r : Option (ℕ × Table)) (now : ℕ) → Stamped c r → Stamped (query now c).1 r
unfolding query
query-Stamped c none now s = ground arith
query-Stamped c (some (t, table)) now s = ground arith

read_none-Stamped :
    (c : MountsCache) (r : Option (ℕ × Table)) (now : ℕ)
    → Stamped c r
    → Stamped (read_done now none c) r
unfolding read_done
read_none-Stamped c none now s = s
read_none-Stamped c (some (t, table)) now s = s

run-Stamped :
    (es : List (ℕ × CacheEvent)) (c : MountsCache) (r : Option (ℕ × Table))
    → All (λ e. e.1 ≢ invalidates) es
    → Stamped c r
    → Stamped (run c es) (last_read r es)
unfolding run last_read step
run-Stamped [] c r q s = s
run-Stamped ((now, reads (some t)) ∷ es) c r q s =
    run-Stamped es (read_done now (some t) c) (some (now, t)) q.1 (unfold read_done in (refl, refl))
run-Stamped ((now, reads none) ∷ es) c r q s =
    run-Stamped es (read_done now none c) r q.1 (read_none-Stamped c r now s)
run-Stamped ((now, queries) ∷ es) c r q s =
    run-Stamped es (query now c).1 r q.1 (query-Stamped c r now s)
run-Stamped ((now, invalidates) ∷ es) c r q s = absurd (q.0 refl)

cached-Stamped :
    (c : MountsCache) (r : Option (ℕ × Table)) (now : ℕ) (table : Table)
    → Stamped c r
    → cached_mounts now c ≡ some table
    → (t : ℕ) × (r ≡ some (t, table)) × (now - t < mounts_max_stale)
unfolding cached_mounts
cached-Stamped c none now table s h = ground arith
cached-Stamped c (some (t, u)) now table s h = (t, ground arith, ground arith)

-- As long as nobody invalidates the cache, a table that it serves as trustworthy is the one of the
-- last read that brought any, and that read is less than 90 seconds old.
pub cached-last_read :
    (es : List (ℕ × CacheEvent)) (now : ℕ) (table : Table)
    → All (λ e. e.1 ≢ invalidates) es
    → cached_mounts now (run empty_cache es) ≡ some table
    → (t : ℕ) × (last_read none es ≡ some (t, table)) × (now - t < mounts_max_stale)
cached-last_read es now table quiet h =
    cached-Stamped (run empty_cache es) (last_read none es) now table
      (run-Stamped es empty_cache none quiet (refl, refl)) h

-- Invalidations every 80 seconds from `now` on.
pub kept_alive : ℕ → ℕ → List (ℕ × CacheEvent)
kept_alive now zero = []
kept_alive now (suc n) = (now, invalidates) ∷ kept_alive (now + 80 * 10 ^ 9) n

after_invalidate :
    (c : MountsCache) (table : Table) (r now later : ℕ)
    → c.stacks ≡ some table
    → c.read_at ≡ some r
    → c.in_flight ≡ true
    → mounts_cache_ttl ≤ now
    → later + mounts_cache_ttl < now + mounts_max_stale
    → (query later (invalidate now c)).0 ≡ answered (some table)
unfolding query invalidate cached_mounts younger
after_invalidate c table r now later s a f b l = ground arith

-- With a read stuck in flight, invalidations that come every 80 seconds make the cache serve the old
-- table as trustworthy at any age: `r` and the number of rounds are arbitrary, so the bound of 90
-- seconds does not hold.
pub invalidate-pins :
    (n : ℕ) (c : MountsCache) (table : Table) (r now : ℕ)
    → c.stacks ≡ some table
    → c.read_at ≡ some r
    → c.in_flight ≡ true
    → mounts_cache_ttl ≤ now
    → (query (now + (n + 1) * (80 * 10 ^ 9)) (run c (kept_alive now (suc n)))).0
      ≡ answered (some table)
unfolding run kept_alive step
invalidate-pins zero c table r now s a f b =
    after_invalidate c table r now (now + (0 + 1) * (80 * 10 ^ 9)) s a f b (omega arith)
invalidate-pins (suc n) c table r now s a f b =
    let again =
      invalidate-pins n (invalidate now c) table (now - mounts_cache_ttl) (now + 80 * 10 ^ 9)
        (unfold invalidate in ground arith) (unfold invalidate in ground arith)
        (unfold invalidate in ground arith) (omega arith) in
    let time : now + (suc n + 1) * (80 * 10 ^ 9) ≡ now + 80 * 10 ^ 9 + (n + 1) * (80 * 10 ^ 9) =
      omega arith in
    rw time again
