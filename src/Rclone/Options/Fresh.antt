-- ===== src/Rclone/Options/Fresh.antt =====
-- Why no mount shares its options with an earlier one.
use lukscryptwalker_csi.Base.{
  ℕ, suc, ◌+◌, ◌%◌, ◌^◌, ◌<◌, ◌≡◌, ◌≢◌, ap, ◌∙◌, sym, arith, ltb, inl, inr, Bool-cases, Option,
}
use lukscryptwalker_csi.Base.Bytes.{Bytes}
use lukscryptwalker_csi.Base.Decimal.{ℤ, pos}
use lukscryptwalker_csi.Rclone.Units.{to_word, of_word}
use lukscryptwalker_csi.Rclone.CacheDir.{add_int64}
use lukscryptwalker_csi.Rclone.Options.{VfsCacheConfig, VfsOpt, build_vfs_opt, owned_by, poll_ns}

to_word-of_word : (w : ℕ) → w < 2 ^ 64 → to_word (of_word w) ≡ w
unfolding to_word of_word
to_word-of_word w h = elim (Bool-cases (ltb w (2 ^ 63))) [
  | inl l ↦ rw l (omega arith)
  | inr l ↦ let big : 2 ^ 63 < suc w = ground arith in rw l (omega arith)
]

to_word_pos : (g : ℕ) → to_word (pos g) ≡ g % 2 ^ 64
unfolding to_word
to_word_pos g = omega arith

add_int64-word : (a : ℤ) (g : ℕ) → to_word (add_int64 a (pos g)) ≡ (to_word a + g) % 2 ^ 64
unfolding add_int64
add_int64-word a g =
    let wraps = to_word-of_word ((to_word a + to_word (pos g)) % 2 ^ 64) (omega arith) in
    wraps ∙ (let low = to_word_pos g in omega arith)

interval_word :
    (c : VfsCacheConfig) (size : ℤ) (fs_group : Option ℤ) (counter : ℕ)
    → to_word (owned_by fs_group (build_vfs_opt c size counter)).cache_poll_interval
      ≡ (to_word (poll_ns c.cache_poll_interval) + suc counter) % 2 ^ 64
unfolding owned_by build_vfs_opt
interval_word c size fs_group counter = add_int64-word (poll_ns c.cache_poll_interval) (suc counter)

apart : (w a b : ℕ) → a < b → b < a + 2 ^ 64 → (w + suc a) % 2 ^ 64 ≢ (w + suc b) % 2 ^ 64
apart w a b l u e = omega arith

-- Two mounts of one process never hand rclone the same VFS options when they ask for the same poll
-- interval, whatever their other settings, as long as fewer than 2^64 mounts lie between them.
pub build_vfs_opt-distinct :
    (c d : VfsCacheConfig) (size other : ℤ) (fs_group other_group : Option ℤ) (a b : ℕ)
    → c.cache_poll_interval ≡ d.cache_poll_interval
    → a < b
    → b < a + 2 ^ 64
    → owned_by fs_group (build_vfs_opt c size a) ≢ owned_by other_group (build_vfs_opt d other b)
build_vfs_opt-distinct c d size other fs_group other_group a b same l u e =
    let words = ap (λ (o : VfsOpt). to_word o.cache_poll_interval) e in
    let polls = ap (λ (t : Bytes). (to_word (poll_ns t) + suc b) % 2 ^ 64) same in
    apart (to_word (poll_ns c.cache_poll_interval)) a b l u (
      sym (interval_word c size fs_group a)
      ∙ (words ∙ (interval_word d other other_group b ∙ sym polls)))
