-- ===== src/Rclone/Units/RoundTrip.antt =====
-- parseDurationToNs and parseSizeToBytes on a number, any text after it, and a unit.
use mathlib.Core.List.{append-nil}
use lukscryptwalker_csi.Base.{
  ℕ, ◌*◌, ◌^◌, ◌≤◌, ◌<◌, ◌≡◌, sym, ap, ◌∙◌, some, [], ◌∷◌, ◌++◌, false, arith,
}
use lukscryptwalker_csi.Base.Bytes.{Bytes, is_space}
use lukscryptwalker_csi.Base.Decimal.{
  pos, itoa, is_digit, sscanf_d, sscanf_d-itoa, sscanf_d-itoa_append, max_int64,
}
use lukscryptwalker_csi.Rclone.Units.{
  second_ns, duration_unit, parse_duration_to_ns, size_unit, parse_size_to_bytes,
}
use lukscryptwalker_csi.Rclone.Units.Readings.{
  DurationUnit, in_seconds, in_minutes, in_hours, in_days, SizeUnit, kibi, mebi, gibi, tebi,
  duration_unit-exact, size_unit-exact, duration-number, size-number,
}

duration_fits :
    (n unit seconds : ℕ)
    → DurationUnit unit seconds
    → n * (seconds * second_ns) < 2 ^ 63
    → (n ≤ max_int64) × (is_space unit ≡ false)
duration_fits n unit seconds (in_seconds u e) h = ground arith
duration_fits n unit seconds (in_minutes u e) h = ground arith
duration_fits n unit seconds (in_hours u e) h = ground arith
duration_fits n unit seconds (in_days u e) h = ground arith

size_fits :
    (n unit bytes : ℕ)
    → SizeUnit unit bytes
    → n * bytes < 2 ^ 63
    → (n ≤ max_int64) × (is_space unit ≡ false)
size_fits n unit bytes (kibi u e) h = ground arith
size_fits n unit bytes (mebi u e) h = ground arith
size_fits n unit bytes (gibi u e) h = ground arith
size_fits n unit bytes (tebi u e) h = ground arith

scan : (n : ℕ) → n ≤ max_int64 → sscanf_d (itoa n ++ []) ≡ some (pos n)
scan n h = ap sscanf_d (append-nil (itoa n)) ∙ sscanf_d-itoa n h

-- A number and a unit s, m, h or d is read as that many nanoseconds, whenever the product stays
-- below 2^63.
pub parse_duration-itoa :
    (n unit seconds : ℕ)
    → DurationUnit unit seconds
    → n * (seconds * second_ns) < 2 ^ 63
    → parse_duration_to_ns (itoa n ++ unit ∷ []) ≡ some (pos (n * (seconds * second_ns)))
parse_duration-itoa n unit seconds d h =
    let (small, visible) = duration_fits n unit seconds d h in
    duration-number n [] unit visible
    ∙ ap (λ o. duration_unit o unit) (scan n small)
    ∙ duration_unit-exact n unit seconds d h

-- A number and a unit K, M, G or T, in either case, is read as that many bytes, whenever the product
-- stays below 2^63.
pub parse_size-itoa :
    (n unit bytes : ℕ)
    → SizeUnit unit bytes
    → n * bytes < 2 ^ 63
    → parse_size_to_bytes (itoa n ++ unit ∷ []) ≡ some (pos (n * bytes))
parse_size-itoa n unit bytes d h =
    let (small, visible) = size_fits n unit bytes d h in
    size-number n [] unit visible
    ∙ ap (λ o. size_unit o unit) (scan n small)
    ∙ size_unit-exact n unit bytes d h

-- Between the number and the last byte both readers accept any text that does not begin with a digit
-- and ignore it: the result is that of the number and the last byte alone.
pub readers_ignore_middle :
    (n c u : ℕ) (t : Bytes)
    → n ≤ max_int64
    → is_digit c ≡ false
    → is_space u ≡ false
    → (parse_duration_to_ns (itoa n ++ (c ∷ t ++ u ∷ [])) ≡ parse_duration_to_ns (itoa n ++ u ∷ []))
      × (parse_size_to_bytes (itoa n ++ (c ∷ t ++ u ∷ [])) ≡ parse_size_to_bytes (itoa n ++ u ∷ []))
readers_ignore_middle n c u t h d visible =
    let read : sscanf_d (itoa n ++ c ∷ t) ≡ sscanf_d (itoa n ++ []) =
      sscanf_d-itoa_append n c t h d ∙ sym (scan n h) in
    (
      duration-number n (c ∷ t) u visible
          ∙ ap (λ o. duration_unit o u) read
          ∙ sym (duration-number n [] u visible),
      size-number n (c ∷ t) u visible
          ∙ ap (λ o. size_unit o u) read
          ∙ sym (size-number n [] u visible),
    )
