-- ===== src/Rclone/Redact/Termination.antt =====
-- When the loop of redactBetween ends, and when it does not.
use mathlib.Core.List.{map-append}
use lukscryptwalker_csi.Base.{
  ℕ, zero, suc, ◌+◌, ◌≤◌, ◌≡◌, refl, ap, ◌∙◌, none, some, [], ◌∷◌, ◌++◌, arith, length, take, drop,
  ◌⊎◌, inl, inr, Option-cases,
}
use lukscryptwalker_csi.Base.Bytes.{Bytes, codes, index}
use lukscryptwalker_csi.Base.Search.{index_bound, index-has_prefix, index_window, index-append}
use lukscryptwalker_csi.Rclone.Redact.{
  to_lower_byte, to_lower, redacted, redact_loop, sanitize_with, sanitize_error_message,
}

length-to_lower : (s : Bytes) → length (to_lower s) ≡ length s
unfolding to_lower
length-to_lower [] = refl
length-to_lower (c ∷ s) = ap suc (length-to_lower s)

to_lower-take : (k : ℕ) (s : Bytes) → to_lower (take k s) ≡ take k (to_lower s)
unfolding to_lower
to_lower-take zero s = refl
to_lower-take (suc k) [] = refl
to_lower-take (suc k) (c ∷ s) = ap (◌∷◌ (to_lower_byte c)) (to_lower-take k s)

to_lower-drop : (k : ℕ) (s : Bytes) → to_lower (drop k s) ≡ drop k (to_lower s)
unfolding to_lower
to_lower-drop zero s = refl
to_lower-drop (suc k) [] = refl
to_lower-drop (suc k) (c ∷ s) = to_lower-drop k s

to_lower-append : (s t : Bytes) → to_lower (s ++ t) ≡ to_lower s ++ to_lower t
unfolding to_lower
to_lower-append s t = map-append to_lower_byte s t

drop-take_append : (k : ℕ) (s t : Bytes) → k ≤ length s → drop k (take k s ++ t) ≡ t
drop-take_append zero s t h = refl
drop-take_append (suc k) [] t h = elim h [ ]
drop-take_append (suc k) (c ∷ s) t h = drop-take_append k s t (omega arith)

-- A secret that stands before its separator: the prefix at `start`, and behind it the suffix.
pub record IsClosed (result prefix suffix : Bytes) : Type 0 where
  pub start : ℕ
  pub end : ℕ
  pub prefix_at : index (to_lower result) (to_lower prefix) ≡ some start
  pub suffix_at : index (to_lower (drop (start + length prefix) result)) suffix ≡ some end

module _ (result : Bytes) (p : ℕ) (prefix : Bytes) (s : ℕ) (suffix : Bytes)
    (closed : IsClosed result (p ∷ prefix) (s ∷ suffix)) where
  open closed use {start, end, prefix_at, suffix_at}

  abbrev value_start : ℕ
  value_start = start + length (p ∷ prefix)

  abbrev remaining : Bytes
  remaining = drop value_start result

  abbrev replaced : Bytes
  replaced = take value_start result ++ (redacted ++ drop end remaining)

  start_bound : value_start ≤ length result
  unfolding to_lower
  start_bound =
      let bound =
        index_bound (to_lower result) (to_lower_byte p) (to_lower prefix) start prefix_at in
      omega (arith, bound, length-to_lower result, length-to_lower prefix)

  prefix_stays : index (to_lower replaced) (to_lower (p ∷ prefix)) ≡ some start
  unfolding to_lower
  prefix_stays =
      let width : value_start ≡ start + length (to_lower (p ∷ prefix)) =
        omega (arith, length-to_lower prefix) in
      rw
        (
          to_lower-append (take value_start result) (redacted ++ drop end remaining),
          to_lower-take value_start result,
        )
        (index_window (to_lower result) (to_lower_byte p) (to_lower prefix) _ start value_start
          prefix_at width)

  suffix_stays : (j : ℕ) × (index (to_lower (redacted ++ drop end remaining)) (s ∷ suffix) ≡ some j)
  suffix_stays =
      rw (to_lower-append redacted (drop end remaining), to_lower-drop end remaining)
        (index-append (to_lower redacted) (drop end (to_lower remaining)) (s ∷ suffix)
          (index-has_prefix (to_lower remaining) s suffix end suffix_at))

  -- The replacement leaves the prefix where it is and the suffix behind it.
  replaced-IsClosed : IsClosed replaced (p ∷ prefix) (s ∷ suffix)
  replaced-IsClosed = record {
    start = start;
    end = suffix_stays.0;
    prefix_at = prefix_stays;
    suffix_at =
        ap (λ t. index (to_lower t) (s ∷ suffix))
          (drop-take_append value_start result (redacted ++ drop end remaining) start_bound)
        ∙ suffix_stays.1;
  }

-- The loop never ends on a message that holds the prefix, in any case of letters, and somewhere behind
-- it the suffix: no fuel is enough, since each round finds the prefix that it has just kept.
pub redact-diverges :
    (fuel : ℕ) (result : Bytes) (p : ℕ) (prefix : Bytes) (s : ℕ) (suffix : Bytes)
    → IsClosed result (p ∷ prefix) (s ∷ suffix)
    → redact_loop fuel result (p ∷ prefix) (s ∷ suffix) ≡ none
unfolding redact_loop
redact-diverges zero result p prefix s suffix c = refl
redact-diverges (suc fuel) result p prefix s suffix c =
    rw (c.prefix_at, redact_loop, c.suffix_at, redact_loop)
      (redact-diverges fuel _ p prefix s suffix (replaced-IsClosed result p prefix s suffix c))

-- On every other message one round is enough: a message without the prefix stays as it is, and from
-- one with the prefix and no suffix behind it all that follows the prefix is removed.
pub redact-terminates :
    (fuel : ℕ) (result prefix suffix : Bytes)
    → ¬ IsClosed result prefix suffix
    → ((index (to_lower result) (to_lower prefix) ≡ none)
        × (redact_loop (suc fuel) result prefix suffix ≡ some result))
      ⊎ ((start : ℕ) × (index (to_lower result) (to_lower prefix) ≡ some start)
          × (redact_loop (suc fuel) result prefix suffix
              ≡ some (take (start + length prefix) result ++ redacted)))
unfolding redact_loop
redact-terminates fuel result prefix suffix open_ended =
    elim (Option-cases (index (to_lower result) (to_lower prefix))) [
      | inl e ↦ inl (e, rw (e, redact_loop))
      | inr (start, e) ↦
          elim (Option-cases (index (to_lower (drop (start + length prefix) result)) suffix)) [
            | inl f ↦ inr (start, e, rw (e, redact_loop, f, redact_loop))
            | inr (end, f) ↦
                absurd
                  (open_ended (record { start = start; end = end; prefix_at = e; suffix_at = f }))
          ]
    ]

-- An error message that names an access key and holds a comma behind it is never returned by
-- sanitizeErrorMessage: no fuel is enough.
pub sanitize-diverges :
    (fuel : ℕ) (msg : Bytes)
    → IsClosed msg (codes "access_key_id=") (codes ",")
    → sanitize_error_message fuel msg ≡ none
unfolding sanitize_error_message
sanitize-diverges fuel msg c = rw (redact-diverges fuel msg _ _ _ _ c, sanitize_with)
