-- ===== src/Rclone/Redact.antt =====
-- pkg/rclone/rclone.go: redactBetween and sanitizeErrorMessage, on ASCII messages.
pub mod Termination
use lukscryptwalker_csi.Base.{
  ℕ, zero, suc, ◌+◌, ◌&&◌, leb, if◌then◌else◌, Option, none, some, List, [], ◌∷◌, ◌++◌, map, length,
  take, drop,
}
use lukscryptwalker_csi.Base.Bytes.{Bytes, codes, index}

-- strings.ToLower on one ASCII byte
to_lower_byte : ℕ → ℕ
to_lower_byte c = if leb b'A' c && leb c b'Z' then c + 32 else c

unfoldable pub to_lower : Bytes → Bytes
unfolding to_lower_byte
to_lower = map to_lower_byte

abbrev pub redacted : Bytes
redacted = codes "[REDACTED]"

-- The `for` loop on fuel; `none` means that the fuel ran out. `lowerResult` is always
-- `to_lower result` where the loop starts a round, and is computed there.
unfoldable pub redact_loop : ℕ → Bytes → Bytes → Bytes → Option Bytes
unfolding to_lower
redact_loop zero result prefix suffix = none
redact_loop (suc fuel) result prefix suffix = elim (index (to_lower result) (to_lower prefix)) [
  | none ↦ some result
  | some start ↦
      let value_start = start + length prefix in
      let remaining = drop value_start result in
      elim (index (to_lower remaining) suffix) [
        | none ↦ some (take value_start result ++ redacted)
        | some end ↦
            redact_loop fuel (take value_start result ++ (redacted ++ drop end remaining)) prefix
              suffix
      ]
]

-- the patterns of sanitizeErrorMessage, in order
abbrev pub patterns : List (Bytes × Bytes)
patterns =
    (codes "access_key_id=", codes ",")
    ∷ (codes "access_key_id=", codes ":")
    ∷ (codes "secret_access_key=", codes ",")
    ∷ (codes "secret_access_key=", codes ":")
    ∷ (codes "password=", codes ",")
    ∷ (codes "password=", codes ":")
    ∷ (codes "password2=", codes ",")
    ∷ (codes "password2=", codes ":")
    ∷ []

unfoldable pub sanitize_with : ℕ → List (Bytes × Bytes) → Bytes → Option Bytes
sanitize_with fuel [] msg = some msg
sanitize_with fuel ((prefix, suffix) ∷ rest) msg = elim (redact_loop fuel msg prefix suffix) [
  | none ↦ none
  | some msg' ↦ sanitize_with fuel rest msg'
]

unfoldable pub sanitize_error_message : ℕ → Bytes → Option Bytes
unfolding sanitize_with
sanitize_error_message fuel msg = sanitize_with fuel patterns msg
