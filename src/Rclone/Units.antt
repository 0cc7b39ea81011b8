-- ===== src/Rclone/Units.antt =====
-- pkg/rclone/syncmanager.go: durations and sizes in StorageClass parameters. int64 products wrap.
pub mod Readings
pub mod RoundTrip
use lukscryptwalker_csi.Base.{
  ℕ, zero, suc, ◌+◌, ◌-◌, ◌*◌, ◌%◌, ◌^◌, Option, none, some, List, [], ◌∷◌, Bool, true, false, ◌||◌,
  ltb, leb, ◌==◌, if◌then◌else◌,
}
use lukscryptwalker_csi.Base.Bytes.{Bytes, trim_space}
use lukscryptwalker_csi.Base.Decimal.{ℤ, pos, negsuc, sscanf_d}

-- an int64 as its bit pattern, and back
unfoldable pub to_word : ℤ → ℕ
to_word (pos n) = n % 2 ^ 64
to_word (negsuc n) = 2 ^ 64 - 1 - n % 2 ^ 64

unfoldable pub of_word : ℕ → ℤ
of_word w = if ltb w (2 ^ 63) then pos w else negsuc (2 ^ 64 - 1 - w)

-- a * k on int64, for a constant k
unfoldable pub mul_int64 : ℤ → ℕ → ℤ
unfolding to_word of_word
mul_int64 a k = of_word ((to_word a * k) % 2 ^ 64)

-- s[:len(s)-1] and s[len(s)-1]
unfoldable pub split_last : ℕ → Bytes → Bytes × ℕ
split_last c [] = ([], c)
split_last c (d ∷ s) = let (value, unit) = split_last d s in (c ∷ value, unit)

-- 1e9
abbrev pub second_ns : ℕ
second_ns = 1000000000

pub duration_unit : Option ℤ → ℕ → Option ℤ
duration_unit none unit = none
duration_unit (some num) unit =
    if unit == b's'
    then some (mul_int64 num second_ns)
    else if unit == b'm'
    then some (mul_int64 (mul_int64 num 60) second_ns)
    else if unit == b'h'
    then some (mul_int64 (mul_int64 num 3600) second_ns)
    else if unit == b'd'
    then some (mul_int64 (mul_int64 num 86400) second_ns)
    else none

duration_of : Bytes → Option ℤ
unfolding split_last duration_unit
duration_of (c ∷ d ∷ s) =
    let (value, unit) = split_last c (d ∷ s) in duration_unit (sscanf_d value) unit
duration_of _ = none

-- `none` is the error
unfoldable pub parse_duration_to_ns : Bytes → Option ℤ
unfolding duration_of
parse_duration_to_ns s = duration_of (trim_space s)

pub size_unit : Option ℤ → ℕ → Option ℤ
size_unit none unit = none
size_unit (some num) unit =
    if unit == b'K' || unit == b'k'
    then some (mul_int64 num 1024)
    else if unit == b'M' || unit == b'm'
    then some (mul_int64 (mul_int64 num 1024) 1024)
    else if unit == b'G' || unit == b'g'
    then some (mul_int64 (mul_int64 (mul_int64 num 1024) 1024) 1024)
    else if unit == b'T' || unit == b't'
    then some (mul_int64 (mul_int64 (mul_int64 (mul_int64 num 1024) 1024) 1024) 1024)
    else none

size_of : Bytes → Option ℤ
unfolding split_last size_unit
size_of (c ∷ d ∷ s) = let (value, unit) = split_last c (d ∷ s) in size_unit (sscanf_d value) unit
size_of _ = none

unfoldable pub parse_size_to_bytes : Bytes → Option ℤ
unfolding size_of
parse_size_to_bytes s = size_of (trim_space s)

positive_or : ℕ → Option ℤ → ℕ
positive_or default_ns (some (pos (suc n))) = suc n
positive_or default_ns _ = default_ns

-- the default for a text that is empty, invalid, or not positive
unfoldable pub duration_or_default : Bytes → ℕ → ℕ
unfolding positive_or
duration_or_default [] default_ns = default_ns
duration_or_default (c ∷ s) default_ns = positive_or default_ns (parse_duration_to_ns (c ∷ s))
