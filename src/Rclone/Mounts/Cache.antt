-- ===== src/Rclone/Mounts/Cache.antt =====
-- pkg/rclone/mounts.go: the cached host mount table and its single reader. Each operation is what the
-- source does between taking mountsMu and releasing it; times are nanoseconds of one clock.
use lukscryptwalker_csi.Base.{
  ℕ, ◌-◌, ◌*◌, ◌^◌, Bool, true, false, ◌&&◌, Option, none, some, ltb, if◌then◌else◌, is_some, List,
  [], ◌∷◌,
}
use lukscryptwalker_csi.Rclone.Mounts.{Table}

abbrev pub mounts_cache_ttl : ℕ
mounts_cache_ttl = 5 * 10 ^ 9

abbrev pub mounts_read_budget : ℕ
mounts_read_budget = 5 * 10 ^ 9

abbrev pub mounts_max_stale : ℕ
mounts_max_stale = 90 * 10 ^ 9

-- `stacks` is nil or a table, `read_at` the zero time or an instant. mountsFlat is replaced with
-- mountsStacks and holds nothing of its own.
pub record MountsCache : Type 0 where
  pub stacks : Option Table
  pub read_at : Option ℕ
  pub in_flight : Bool
  pub blocked_at : ℕ

abbrev pub empty_cache : MountsCache
empty_cache = record { stacks = none; read_at = none; in_flight = false; blocked_at = 0 }

-- time.Since(mountsReadAt); the zero time is further back than any bound
unfoldable pub younger : Option ℕ → ℕ → ℕ → Bool
younger none bound now = false
younger (some t) bound now = ltb (now - t) bound

-- cachedMountsLocked: `none` is (nil, false), and `some t` is (t, true)
unfoldable pub cached_mounts : ℕ → MountsCache → Option Table
unfolding younger
cached_mounts now c =
    if is_some c.stacks && younger c.read_at mounts_max_stale now then c.stacks else none

-- What hostMountStacksOK does before it waits: answer, or start a read of its own.
pub data Query : Type 0 where
  answered : Option Table → Query
  reading : Query

unfoldable pub query : ℕ → MountsCache → Query × MountsCache
unfolding cached_mounts
query now c =
    if is_some c.stacks && younger c.read_at mounts_cache_ttl now
    then (answered c.stacks, c)
    else if c.in_flight
    then (answered (cached_mounts now c), c)
    else (reading, record c { in_flight = true; blocked_at = now })

-- The reader goroutine when readHostMounts returns; `none` is its nil.
unfoldable pub read_done : ℕ → Option Table → MountsCache → MountsCache
read_done now none c = record c { in_flight = false }
read_done now (some t) c = record c { stacks = some t; read_at = some now; in_flight = false }

-- The select of hostMountStacksOK: the reader's own result, if it came within the budget, and else
-- what is cached when the budget is over.
unfoldable pub await_read : Option (Option Table) → ℕ → MountsCache → Option Table
unfolding cached_mounts
await_read (some m) now c = m
await_read none now c = cached_mounts now c

-- InvalidateHostMounts
unfoldable pub invalidate : ℕ → MountsCache → MountsCache
invalidate now c =
    if is_some c.read_at then record c { read_at = some (now - mounts_cache_ttl) } else c

-- Everything that happens to the cache, in the order of the lock.
pub data CacheEvent : Type 0 where
  queries : CacheEvent
  reads : Option Table → CacheEvent
  invalidates : CacheEvent

unfoldable pub step : MountsCache → ℕ × CacheEvent → MountsCache
unfolding query read_done invalidate
step c (now, queries) = (query now c).1
step c (now, reads m) = read_done now m c
step c (now, invalidates) = invalidate now c

unfoldable pub run : MountsCache → List (ℕ × CacheEvent) → MountsCache
run c [] = c
run c (e ∷ es) = run (step c e) es
