-- ===== src/Rclone/Mounts/Escapes.antt =====
-- The kernel's escapes in mountinfo, and unescapeMountField that undoes them.
use lukscryptwalker_csi.Base.{
  ℕ, false, ◌≡◌, refl, sym, ◌∙◌, inl, inr, none, [], ◌∷◌, ◌++◌, arith, ◌==◌, if◌then◌else◌,
  Bool-cases,
}
use lukscryptwalker_csi.Base.Bytes.{Bytes, codes, contains, has_prefix, bytes_eq}
use lukscryptwalker_csi.Rclone.Mounts.{escape_of, replace_escapes, unescape_mount_field}

-- seq_path of the kernel: space, tab, newline and backslash become octal escapes.
pub mangle_byte : ℕ → Bytes → Bytes
mangle_byte c rest =
    if c == 32
    then codes "\\040" ++ rest
    else if c == 9
    then codes "\\011" ++ rest
    else if c == 10
    then codes "\\012" ++ rest
    else if c == 92
    then codes "\\134" ++ rest
    else c ∷ rest

pub mangle : Bytes → Bytes
unfolding mangle_byte
mangle [] = []
mangle (c ∷ s) = mangle_byte c (mangle s)

escape_of-plain : (a b c d : ℕ) → a == 92 ≡ false → escape_of a b c d ≡ none
unfolding escape_of bytes_eq
escape_of-plain a b c d h = ground arith

plain_byte : (c : ℕ) (s : Bytes) → c == 92 ≡ false → replace_escapes (c ∷ s) ≡ c ∷ replace_escapes s
unfolding replace_escapes
plain_byte c [] h = refl
plain_byte c (d ∷ []) h = refl
plain_byte c (d ∷ e ∷ []) h = refl
plain_byte c (d ∷ e ∷ f ∷ s) h = rw (escape_of-plain c d e f h, replace_escapes)

replace-mangle : (s : Bytes) → replace_escapes (mangle s) ≡ s
unfolding mangle replace_escapes bytes_eq
replace-mangle [] = refl
replace-mangle (c ∷ s) = ground (arith, replace-mangle s, plain_byte c (mangle s))

no_escapes : (s : Bytes) → contains s (codes "\\") ≡ false → replace_escapes s ≡ s
unfolding contains has_prefix replace_escapes
no_escapes [] h = refl
no_escapes (c ∷ s) h = ground (arith, plain_byte c s, no_escapes s)

-- Every path that the kernel writes, whatever white space and backslashes it holds, is read back as it
-- was, also where the escapes spell another escape.
pub unescape-mangle : (s : Bytes) → unescape_mount_field (mangle s) ≡ s
unfolding unescape_mount_field
unescape-mangle s = elim (Bool-cases (contains (mangle s) (codes "\\"))) [
  | inl e ↦ rw e (replace-mangle s)
  | inr e ↦ rw e (sym (no_escapes (mangle s) e) ∙ replace-mangle s)
]
