-- ===== src/Base/Decimal.antt =====
-- strconv and fmt on decimal integers: %d, Atoi, ParseInt, and the "%d" verb of Sscanf.
use Prim.Native.Nat.{ℕ, zero, suc, ◌+◌, ◌-◌, ◌*◌, ◌/◌, ◌%◌, ◌<◌, ◌≤◌}
use mathlib.Core.Path.{◌≡◌, refl, ap, ◌∙◌}
use mathlib.Core.Logic.{inl, inr}
use mathlib.Core.Bool.{Bool, true, false, ◌&&◌}
use mathlib.Core.Option.{Option, none, some}
use mathlib.Core.List.{[], ◌∷◌, ◌++◌}
use native.Mathlib.Omega.{arith}
use lukscryptwalker_csi.Base.Tests.{◌==◌, ltb, leb, if◌then◌else◌, Bool-cases}
use lukscryptwalker_csi.Base.Lists.{All, All-snoc}
use lukscryptwalker_csi.Base.Bytes.{Bytes}

-- `negsuc n` is -(n + 1).
pub data ℤ : Type 0 where
  pos : ℕ → ℤ
  negsuc : ℕ → ℤ

abbrev pub is_digit : ℕ → Bool
is_digit c = leb 48 c && leb c 57

-- fmt.Sprintf("%d", n) for n >= 0, on fuel above n
unfoldable pub digits_of : ℕ → ℕ → Bytes
digits_of zero n = []
digits_of (suc f) n =
    let front = digits_of f (n / 10) in
    if ltb n 10 then (48 + n) ∷ [] else front ++ (48 + n % 10) ∷ []

unfoldable pub itoa : ℕ → Bytes
unfolding digits_of
itoa n = digits_of (suc n) n

-- the value of a run of digits, `none` at any other byte
unfoldable pub digits_value : ℕ → Bytes → Option ℕ
digits_value acc [] = some acc
digits_value acc (c ∷ s) = elim (is_digit c) [
  | true ↦ digits_value (acc * 10 + (c - 48)) s
  | false ↦ none
]

unfoldable pub unsigned : Bytes → Option ℕ
unfolding digits_value
unsigned [] = none
unsigned (c ∷ s) = digits_value 0 (c ∷ s)

abbrev pub max_int64 : ℕ
max_int64 = 9223372036854775807

-- the range check of strconv.ParseInt(s, 10, 64) on a sign and a magnitude
unfoldable pub in_range : Bool → Option ℕ → Option ℤ
in_range neg none = none
in_range false (some n) = if leb n max_int64 then some (pos n) else none
in_range true (some zero) = some (pos 0)
in_range true (some (suc n)) = if leb n max_int64 then some (negsuc n) else none

-- strconv.ParseInt(s, 10, 64), and strconv.Atoi where int has 64 bits; `none` is the error
unfoldable pub parse_int : Bytes → Option ℤ
unfolding in_range unsigned
parse_int [] = none
parse_int (c ∷ s) =
    if c == 43
    then in_range false (unsigned s)
    else if c == 45
    then in_range true (unsigned s)
    else in_range false (unsigned (c ∷ s))

-- the longest run of digits at the front
unfoldable pub digit_run : Bytes → Bytes
digit_run [] = []
digit_run (c ∷ s) = if is_digit c then c ∷ digit_run s else []

-- fmt.Sscanf(s, "%d", &n) on a text that does not begin with white space: a sign, a run of digits,
-- and whatever follows them is left unread
unfoldable pub sscanf_d : Bytes → Option ℤ
unfolding in_range unsigned digit_run
sscanf_d [] = none
sscanf_d (c ∷ s) =
    if c == 43
    then in_range false (unsigned (digit_run s))
    else if c == 45
    then in_range true (unsigned (digit_run s))
    else in_range false (unsigned (digit_run (c ∷ s)))

pub digits_of-All : (f n : ℕ) → n < f → All (λ c. is_digit c ≡ true) (digits_of f n)
unfolding digits_of
digits_of-All zero n h = elim h [ ]
digits_of-All (suc f) n h = elim (Bool-cases (ltb n 10)) [
  | inl small ↦ rw small (ground arith, tt)
  | inr big ↦ rw big (
      All-snoc (λ c. is_digit c ≡ true) (digits_of f (n / 10)) (48 + n % 10)
        (digits_of-All f (n / 10) (ground arith)) (ground arith))
]

digits_value-snoc :
    (acc : ℕ) (s : Bytes) (c v : ℕ)
    → digits_value acc s ≡ some v
    → is_digit c ≡ true
    → digits_value acc (s ++ c ∷ []) ≡ some (v * 10 + (c - 48))
unfolding digits_value
digits_value-snoc acc [] c v h d = ground arith
digits_value-snoc acc (b ∷ s) c v h d = elim (Bool-cases (is_digit b)) [
  | inl e ↦ ground (arith, digits_value-snoc (acc * 10 + (b - 48)) s c v)
  | inr e ↦ ground arith
]

-- Printing on enough fuel and reading back gives the number.
pub digits_value-digits_of : (f n : ℕ) → n < f → digits_value 0 (digits_of f n) ≡ some n
unfolding digits_value digits_of
digits_value-digits_of zero n h = elim h [ ]
digits_value-digits_of (suc f) n h = elim (Bool-cases (ltb n 10)) [
  | inl small ↦ rw small (ground arith)
  | inr big ↦ rw big (
      digits_value-snoc 0 (digits_of f (n / 10)) (48 + n % 10) (n / 10)
        (digits_value-digits_of f (n / 10) (ground arith)) (ground arith)
      ∙ ap some (omega arith))
]

-- A run of digits ends at the first byte that is none.
pub digit_run-append :
    (s : Bytes) (c : ℕ) (t : Bytes)
    → All (λ d. is_digit d ≡ true) s
    → is_digit c ≡ false
    → digit_run (s ++ c ∷ t) ≡ s
unfolding digit_run
digit_run-append [] c t h e = rw e
digit_run-append (d ∷ s) c t h e = rw h.0 (ap (◌∷◌ d) (digit_run-append s c t h.1 e))

pub digit_run-All : (s : Bytes) → All (λ d. is_digit d ≡ true) s → digit_run s ≡ s
unfolding digit_run
digit_run-All [] h = refl
digit_run-All (d ∷ s) h = rw h.0 (ap (◌∷◌ d) (digit_run-All s h.1))

pub digits_of_cons : (f n : ℕ) → n < f → (c : ℕ) × (s : Bytes) × (digits_of f n ≡ c ∷ s)
unfolding digits_of
digits_of_cons zero n h = elim h [ ]
digits_of_cons (suc f) n h = elim (Bool-cases (ltb n 10)) [
  | inl small ↦ (48 + n, [], rw small)
  | inr big ↦
      let front = digits_of_cons f (n / 10) (ground arith) in
      (front.0, front.1 ++ (48 + n % 10) ∷ [], rw (big, front.2))
]

module _ (n : ℕ) where
  pub itoa-All : All (λ c. is_digit c ≡ true) (itoa n)
  unfolding itoa
  itoa-All = digits_of-All (suc n) n (omega arith)

  pub itoa_cons : (c : ℕ) × (s : Bytes) × (itoa n ≡ c ∷ s) × (is_digit c ≡ true)
  unfolding itoa
  itoa_cons =
      let (c, s, e) = digits_of_cons (suc n) n (omega arith) in
      let digits : All (λ d. is_digit d ≡ true) (c ∷ s) = rw e at itoa-All in (c, s, e, digits.0)

  digits_value-itoa : digits_value 0 (itoa n) ≡ some n
  unfolding itoa
  digits_value-itoa = digits_value-digits_of (suc n) n (omega arith)

  unsigned-itoa : unsigned (itoa n) ≡ some n
  unfolding unsigned
  unsigned-itoa = let (c, s, e, d) = itoa_cons in rw e (rw e at digits_value-itoa)

-- The first byte of a number is no sign, so both readers take the digits as they stand.
parse_int_digit :
    (c : ℕ) (s : Bytes) → is_digit c ≡ true → parse_int (c ∷ s) ≡ in_range false (unsigned (c ∷ s))
unfolding parse_int
parse_int_digit c s d = ground arith

sscanf_d_digit :
    (c : ℕ) (s : Bytes)
    → is_digit c ≡ true
    → sscanf_d (c ∷ s) ≡ in_range false (unsigned (digit_run (c ∷ s)))
unfolding sscanf_d
sscanf_d_digit c s d = ground arith

in_range_small : (n : ℕ) → n ≤ max_int64 → in_range false (some n) ≡ some (pos n)
unfolding in_range
in_range_small n h = ground arith

pub parse_int-itoa : (n : ℕ) → n ≤ max_int64 → parse_int (itoa n) ≡ some (pos n)
parse_int-itoa n h =
    let (c, s, e, d) = itoa_cons n in
    rw e
      (parse_int_digit c s d ∙ ap (in_range false) (rw e at (unsigned-itoa n)) ∙ in_range_small n h)

-- Sscanf reads the number and leaves whatever begins with another byte.
pub sscanf_d-itoa_append :
    (n c : ℕ) (t : Bytes)
    → n ≤ max_int64
    → is_digit c ≡ false
    → sscanf_d (itoa n ++ c ∷ t) ≡ some (pos n)
sscanf_d-itoa_append n c t h e =
    let (b, s, eq, d) = itoa_cons n in
    let run : digit_run (itoa n ++ c ∷ t) ≡ itoa n = digit_run-append (itoa n) c t (itoa-All n) e in
    let scan : sscanf_d (itoa n ++ c ∷ t)
        ≡ in_range false (unsigned (digit_run (itoa n ++ c ∷ t))) =
      rw eq (sscanf_d_digit b (s ++ c ∷ t) d) in
    scan
    ∙ ap (λ r. in_range false (unsigned r)) run
    ∙ ap (in_range false) (unsigned-itoa n)
    ∙ in_range_small n h

pub sscanf_d-itoa : (n : ℕ) → n ≤ max_int64 → sscanf_d (itoa n) ≡ some (pos n)
sscanf_d-itoa n h =
    let (b, s, eq, d) = itoa_cons n in
    let scan : sscanf_d (itoa n) ≡ in_range false (unsigned (digit_run (itoa n))) =
      rw eq (sscanf_d_digit b s d) in
    scan
    ∙ ap (λ r. in_range false (unsigned r)) (digit_run-All (itoa n) (itoa-All n))
    ∙ ap (in_range false) (unsigned-itoa n)
    ∙ in_range_small n h
