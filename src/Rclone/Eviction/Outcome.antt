-- ===== src/Rclone/Eviction/Outcome.antt =====
-- What an eviction pass removes and what it leaves.
use mathlib.Core.Path.{subst}
use lukscryptwalker_csi.Base.{
  ℕ, ◌+◌, ◌-◌, ◌≡◌, refl, ap, ◌∙◌, ◌⊎◌, inl, inr, Bool, true, false, not, ◌||◌, Option, List, [],
  ◌∷◌, arith, All, ltb, Bool-cases,
}
use lukscryptwalker_csi.Rclone.Drain.{upload_queue_confirmed_empty}
use lukscryptwalker_csi.Rclone.Eviction.{
  CachedFile, total_size, insert_by_age, oldest_first, within, limit_of, Files, evict, EvictionPass,
  evict_cache_if_needed, has_active_transfers,
}

abbrev pub Closed : Files → CachedFile → Type 0
Closed w f = (w.is_open f || not (w.is_removable f)) ≡ false

abbrev pub Held : Files → CachedFile → Type 0
Held w f = (w.is_open f || not (w.is_removable f)) ≡ true

abbrev removes : ℕ × List CachedFile × List CachedFile → Bool
removes (size, [], left) = false
removes (size, f ∷ evicted, left) = true

-- A pass removed only closed files, its total is that of the files that stay, and either that is within
-- the limit or every file that stays is open or cannot be removed.
abbrev pub Evicts : Files → Option ℕ → ℕ × List CachedFile × List CachedFile → Type 0
Evicts w limit r =
    All (Closed w) r.1 × (r.0 ≡ total_size r.2) × ((within r.0 limit ≡ true) ⊎ All (Held w) r.2)

evict-Evicts :
    (w : Files) (limit : Option ℕ) (total : ℕ) (fs : List CachedFile) (before : List CachedFile)
    → All (Held w) before
    → total ≡ total_size before + total_size fs
    → All (Closed w) (evict w limit total fs).1
      × ((evict w limit total fs).0 ≡ total_size before + total_size (evict w limit total fs).2)
      × ((within (evict w limit total fs).0 limit ≡ true) ⊎ All (Held w) (evict w limit total fs).2)
unfolding evict total_size
evict-Evicts w limit total [] before h e = (tt, e, inr tt)
evict-Evicts w limit total (f ∷ fs) before h e = elim (Bool-cases (within total limit)) [
  | inl l ↦ rw (l, evict) (tt, e, inl l)
  | inr l ↦ elim (Bool-cases (w.is_open f || not (w.is_removable f))) [
    | inl o ↦
        let (c, t, d) = evict-Evicts w limit total fs (f ∷ before) (o, h) (omega (arith, e)) in
        rw (l, evict, o) (c, omega (arith, t), elim d [ inl x ↦ inl x | inr x ↦ inr (o, x) ])
    | inr o ↦
        let (c, t, d) = evict-Evicts w limit (total - f.size) fs before h (omega (arith, e)) in
        rw (l, evict, o) ((o, c), t, d)
  ]
]

total-insert :
    (f : CachedFile) (fs : List CachedFile)
    → total_size (insert_by_age f fs) ≡ f.size + total_size fs
unfolding total_size insert_by_age
total-insert f [] = refl
total-insert f (g ∷ gs) =
    let rest = total-insert f gs in
    elim (Bool-cases (ltb g.mod_time f.mod_time)) [
      | inl e ↦ rw e (omega (arith, rest))
      | inr e ↦ rw e refl
    ]

total-oldest : (fs : List CachedFile) → total_size (oldest_first fs) ≡ total_size fs
unfolding total_size oldest_first
total-oldest [] = refl
total-oldest (f ∷ fs) =
    let rest = total-oldest fs in total-insert f (oldest_first fs) ∙ omega (arith, rest)

-- When an eviction pass removes any file, no transfer runs, the upload queue is confirmed empty and the
-- open files are known. Every file it removes is closed, the size it ends with is that of the files that
-- stay, and that is within the limit, or every file that stays is held open or could not be removed.
pub evict_cache_if_needed-Evicts :
    (p : EvictionPass) (max_bytes : ℕ) (f : CachedFile) (evicted left : List CachedFile) (size : ℕ)
    → evict_cache_if_needed p max_bytes ≡ (size, f ∷ evicted, left)
    → (has_active_transfers p.core_reply ≡ false)
      × (upload_queue_confirmed_empty p.is_mount_point p.reply ≡ true)
      × (p.scan_ok ≡ true)
      × Evicts p.world (limit_of p.blocks (total_size p.files) max_bytes) (size, f ∷ evicted, left)
unfolding evict_cache_if_needed
evict_cache_if_needed-Evicts p max_bytes f evicted left size h =
    let total = total_size p.files in
    let limit = limit_of p.blocks total max_bytes in
    let sorted = oldest_first p.files in
    let some_file = ap removes h in
    let r = evict p.world limit total sorted in
    elim (Bool-cases (
      has_active_transfers p.core_reply
      || not (upload_queue_confirmed_empty p.is_mount_point p.reply))) [
        | inl b ↦
            let q : false ≡ true = rw (b, evict_cache_if_needed) at some_file in
            absurd (ground arith)
        | inr b ↦ elim (Bool-cases (within total limit)) [
          | inl l ↦
              let q : false ≡ true = rw (b, evict_cache_if_needed, l) at some_file in
              absurd (ground arith)
          | inr l ↦ elim (Bool-cases p.scan_ok) [
            | inl s ↦
                let same = total-oldest p.files in
                let (c, t, d) =
                  evict-Evicts p.world limit total sorted [] tt
                    (unfold total_size in omega (arith, same)) in
                let is : r ≡ (size, f ∷ evicted, left) = rw (b, evict_cache_if_needed, l, s) at h in
                (
                  ground arith,
                  ground arith,
                  s,
                  subst (Evicts p.world limit) is (c, (t ∙ (unfold total_size in omega arith)), d),
                )
            | inr s ↦
                let q : false ≡ true = rw (b, evict_cache_if_needed, l, s) at some_file in
                absurd (ground arith)
          ]
        ]
      ]
