-- ===== src/Rclone/Units/Readings.antt =====
-- What the readers of durations and sizes return.
use mathlib.Core.List.{append_assoc}
use lukscryptwalker_csi.Base.{
  ℕ, ◌*◌, ◌%◌, ◌^◌, ◌<◌, ◌≡◌, refl, sym, ap, ◌∙◌, some, [], ◌∷◌, ◌++◌, false, arith, lt→ltb, ◌⊎◌,
}
use lukscryptwalker_csi.Base.Bytes.{Bytes, trim_space, trim_left, trim_right, is_space}
use lukscryptwalker_csi.Base.Decimal.{pos, itoa, itoa_cons, sscanf_d}
use lukscryptwalker_csi.Rclone.Units.{
  to_word, of_word, mul_int64, split_last, second_ns, duration_unit, duration_of,
  parse_duration_to_ns, size_of, size_unit, parse_size_to_bytes,
}

split_last-snoc : (c : ℕ) (s : Bytes) (u : ℕ) → split_last c (s ++ u ∷ []) ≡ (c ∷ s, u)
unfolding split_last
split_last-snoc c [] u = refl
split_last-snoc c (d ∷ s) u = rw (split_last-snoc d s u)

trim_right-snoc : (s : Bytes) (u : ℕ) → is_space u ≡ false → trim_right (s ++ u ∷ []) ≡ s ++ u ∷ []
unfolding trim_right
trim_right-snoc [] u h = rw h
trim_right-snoc (c ∷ []) u h = ground (arith, trim_right-snoc [] u h)
trim_right-snoc (c ∷ d ∷ s) u h = ground (arith, trim_right-snoc (d ∷ s) u h)

trim_space-snoc :
    (c : ℕ) (s : Bytes) (u : ℕ)
    → is_space c ≡ false
    → is_space u ≡ false
    → trim_space (c ∷ s ++ u ∷ []) ≡ c ∷ s ++ u ∷ []
unfolding trim_space trim_left
trim_space-snoc c s u h k = rw h (trim_right-snoc (c ∷ s) u k)

pub mul_int64_exact : (n k : ℕ) → n < 2 ^ 63 → n * k < 2 ^ 63 → mul_int64 (pos n) k ≡ pos (n * k)
unfolding mul_int64 to_word of_word
mul_int64_exact n k h e =
    let in_word : n % 2 ^ 64 ≡ n = omega arith in
    let product : (n * k) % 2 ^ 64 ≡ n * k = omega arith in
    rw (in_word, product, lt→ltb (n * k) (2 ^ 63) e)

-- The seconds of a duration's unit.
pub data DurationUnit (unit seconds : ℕ) : Type 0 where
  in_seconds : unit ≡ b's' → seconds ≡ 1 → DurationUnit unit seconds
  in_minutes : unit ≡ b'm' → seconds ≡ 60 → DurationUnit unit seconds
  in_hours : unit ≡ b'h' → seconds ≡ 3600 → DurationUnit unit seconds
  in_days : unit ≡ b'd' → seconds ≡ 86400 → DurationUnit unit seconds

-- The bytes of a size's unit: K, M, G, T in either case.
pub data SizeUnit (unit bytes : ℕ) : Type 0 where
  kibi : (unit ≡ b'K') ⊎ (unit ≡ b'k') → bytes ≡ 1024 → SizeUnit unit bytes
  mebi : (unit ≡ b'M') ⊎ (unit ≡ b'm') → bytes ≡ 1024 ^ 2 → SizeUnit unit bytes
  gibi : (unit ≡ b'G') ⊎ (unit ≡ b'g') → bytes ≡ 1024 ^ 3 → SizeUnit unit bytes
  tebi : (unit ≡ b'T') ⊎ (unit ≡ b't') → bytes ≡ 1024 ^ 4 → SizeUnit unit bytes

-- Two products in a row that stay below 2^63.
mul_twice :
    (n a b : ℕ)
    → n < 2 ^ 63
    → n * a < 2 ^ 63
    → n * a * b < 2 ^ 63
    → mul_int64 (mul_int64 (pos n) a) b ≡ pos (n * a * b)
mul_twice n a b h k l = rw (mul_int64_exact n a h k) (mul_int64_exact (n * a) b k l)

pub duration_unit-exact :
    (n unit seconds : ℕ)
    → DurationUnit unit seconds
    → n * (seconds * second_ns) < 2 ^ 63
    → duration_unit (some (pos n)) unit ≡ some (pos (n * (seconds * second_ns)))
unfolding duration_unit
duration_unit-exact n unit seconds (in_seconds u e) h = ground (arith, mul_int64_exact n second_ns)
duration_unit-exact n unit seconds (in_minutes u e) h = ground (arith, mul_twice n 60 second_ns)
duration_unit-exact n unit seconds (in_hours u e) h = ground (arith, mul_twice n 3600 second_ns)
duration_unit-exact n unit seconds (in_days u e) h = ground (arith, mul_twice n 86400 second_ns)

pub size_unit-exact :
    (n unit bytes : ℕ)
    → SizeUnit unit bytes
    → n * bytes < 2 ^ 63
    → size_unit (some (pos n)) unit ≡ some (pos (n * bytes))
unfolding size_unit
size_unit-exact n unit bytes (kibi u e) h = ground (arith, mul_int64_exact n 1024)
size_unit-exact n unit bytes (mebi u e) h = ground (arith, mul_twice n 1024 1024)
size_unit-exact n unit bytes (gibi u e) h =
    ground (arith, mul_twice n 1024 1024, mul_int64_exact (n * 1024 * 1024) 1024)
size_unit-exact n unit bytes (tebi u e) h =
    ground (arith, mul_twice n 1024 1024, mul_twice (n * 1024 * 1024) 1024 1024)

snoc_cons : (s : Bytes) (u : ℕ) → (b : ℕ) × (t : Bytes) × (s ++ u ∷ [] ≡ b ∷ t)
snoc_cons [] u = (u, [], refl)
snoc_cons (c ∷ s) u = (c, s ++ u ∷ [], refl)

-- A digit is no white space, so a text of a number and a unit is left alone by TrimSpace.
trimmed :
    (n : ℕ) (mid : Bytes) (u : ℕ)
    → is_space u ≡ false
    → trim_space (itoa n ++ (mid ++ u ∷ [])) ≡ itoa n ++ (mid ++ u ∷ [])
trimmed n mid u h =
    let (c, s, e, d) = itoa_cons n in
    let shape : itoa n ++ (mid ++ u ∷ []) ≡ c ∷ (s ++ mid) ++ u ∷ [] =
      rw e (ap (◌∷◌ c) (sym (append_assoc s mid (u ∷ [])))) in
    rw shape (trim_space-snoc c (s ++ mid) u (ground arith) h)

split_last-number :
    (n : ℕ) (mid : Bytes) (u : ℕ)
    → (c : ℕ) × (d : ℕ) × (s : Bytes) × (itoa n ++ (mid ++ u ∷ []) ≡ c ∷ d ∷ s)
      × (split_last c (d ∷ s) ≡ (itoa n ++ mid, u))
split_last-number n mid u =
    let (c, s, e, d) = itoa_cons n in
    let shape : itoa n ++ (mid ++ u ∷ []) ≡ c ∷ (s ++ mid) ++ u ∷ [] =
      rw e (ap (◌∷◌ c) (sym (append_assoc s mid (u ∷ [])))) in
    let (b, t, f) = snoc_cons (s ++ mid) u in
    (c, b, t, shape ∙ ap (◌∷◌ c) f, rw (← f, e) (split_last-snoc c (s ++ mid) u))

module _ (n : ℕ) (mid : Bytes) (u : ℕ) (unit_char : is_space u ≡ false) where
  pub duration-number :
      parse_duration_to_ns (itoa n ++ (mid ++ u ∷ [])) ≡ duration_unit (sscanf_d (itoa n ++ mid)) u
  unfolding parse_duration_to_ns duration_of
  duration-number =
      let (c, d, s, e, f) = split_last-number n mid u in
      rw (trimmed n mid u unit_char, e) (ap (λ p. duration_unit (sscanf_d p.0) p.1) f)

  pub size-number :
      parse_size_to_bytes (itoa n ++ (mid ++ u ∷ [])) ≡ size_unit (sscanf_d (itoa n ++ mid)) u
  unfolding parse_size_to_bytes size_of
  size-number =
      let (c, d, s, e, f) = split_last-number n mid u in
      rw (trimmed n mid u unit_char, e) (ap (λ p. size_unit (sscanf_d p.0) p.1) f)
