-- ===== src/Rclone/Config/Quoting.antt =====
-- What a reader of a connection string makes of a quoted value.
use lukscryptwalker_csi.Base.{
  ℕ, ◌≡◌, ap, ◌∙◌, inl, inr, Bool, true, false, ◌||◌, [], ◌∷◌, ◌++◌, arith, any, ◌==◌, Bool-cases,
}
use mathlib.Core.List.{append_assoc}
use lukscryptwalker_csi.Base.Bytes.{Bytes}
use lukscryptwalker_csi.Rclone.Config.{is_special, double_quotes, quote_value}

abbrev pub push : ℕ → Bytes × Bytes → Bytes × Bytes
push c (value, rest) = (c ∷ value, rest)

-- rclone's reader of a parameter's value in a connection string: the value, and what is left of the string.
-- `read` is at the start of a value, `single` behind an opening single quote, `plain` in a value without
-- quotes. The laws are rclone's documented syntax: a value may be quoted by ' or ", where a doubled quote
-- stands for one, and a value that is not quoted ends before a comma or a colon.
pub record ConnectionReader : Type 0 where
  pub read : Bytes → Bytes × Bytes
  pub single : Bytes → Bytes × Bytes
  pub plain : Bytes → Bytes × Bytes
  pub read_single : (s : Bytes) → read (39 ∷ s) ≡ single s
  pub read_plain : (c : ℕ) (s : Bytes) → (c == 39 || c == 34) ≡ false → read (c ∷ s) ≡ plain (c ∷ s)
  pub single_pair : (s : Bytes) → single (39 ∷ 39 ∷ s) ≡ push 39 (single s)
  pub single_end : (d : ℕ) (s : Bytes) → (d == 39) ≡ false → single (39 ∷ d ∷ s) ≡ ([], d ∷ s)
  pub single_byte : (c : ℕ) (s : Bytes) → (c == 39) ≡ false → single (c ∷ s) ≡ push c (single s)
  pub plain_end :
      (c : ℕ) (s : Bytes) → (c == b',' || c == b':') ≡ true → plain (c ∷ s) ≡ ([], c ∷ s)
  pub plain_byte :
      (c : ℕ) (s : Bytes) → (c == b',' || c == b':') ≡ false → plain (c ∷ s) ≡ push c (plain s)

abbrev pub opens_double : Bytes → Bool
opens_double [] = false
opens_double (c ∷ s) = c == 34

quoted :
    (r : ConnectionReader) (v : Bytes) (d : ℕ) (t : Bytes)
    → (d == 39) ≡ false
    → r.single (double_quotes v ++ (39 ∷ (d ∷ t))) ≡ (v, d ∷ t)
unfolding double_quotes
quoted r [] d t h = r.single_end d t h
quoted r (c ∷ v) d t h =
    let rest = quoted r v d t h in
    elim (Bool-cases (c == 39)) [
      | inl e ↦
          let is : c ≡ 39 = ground arith in
          rw is (r.single_pair (double_quotes v ++ (39 ∷ (d ∷ t))) ∙ ap (push 39) rest)
      | inr e ↦ rw e (r.single_byte c (double_quotes v ++ (39 ∷ (d ∷ t))) e ∙ ap (push c) rest)
    ]

plain_value :
    (r : ConnectionReader) (v : Bytes) (d : ℕ) (t : Bytes)
    → (d == b',' || d == b':') ≡ true
    → any is_special v ≡ false
    → r.plain (v ++ (d ∷ t)) ≡ (v, d ∷ t)
unfolding any
plain_value r [] d t h n = r.plain_end d t h
plain_value r (c ∷ v) d t h n =
    let rest = plain_value r v d t h (ground arith) in
    let other : (c == b',' || c == b':') ≡ false = ground arith in
    r.plain_byte c (v ++ (d ∷ t)) other ∙ ap (push c) rest

-- Whatever bytes a credential, a region or an endpoint holds, single quotes, commas and colons included,
-- provided that it does not begin with a double quote: a reader that follows rclone's documented syntax
-- takes from the quoted value exactly that value, and goes on at the comma or colon behind it, so no part
-- of it becomes a parameter or a path.
pub read-quote_value :
    (r : ConnectionReader) (v : Bytes) (d : ℕ) (t : Bytes)
    → opens_double v ≡ false
    → (d == b',' || d == b':') ≡ true
    → r.read (quote_value v ++ (d ∷ t)) ≡ (v, d ∷ t)
unfolding quote_value any
read-quote_value r v d t o h =
    let off : (d == 39) ≡ false = ground arith in
    elim (Bool-cases (any is_special v)) [
      | inl s ↦
          rw (s, append_assoc (double_quotes v) (39 ∷ []) (d ∷ t))
            (r.read_single (double_quotes v ++ (39 ∷ (d ∷ t))) ∙ quoted r v d t off)
      | inr s ↦ rw s (unquoted r v d t o h s)
    ]
  where
    unquoted :
        (r : ConnectionReader) (v : Bytes) (d : ℕ) (t : Bytes)
        → opens_double v ≡ false
        → (d == b',' || d == b':') ≡ true
        → any is_special v ≡ false
        → r.read (v ++ (d ∷ t)) ≡ (v, d ∷ t)
    unquoted r [] d t o h n =
        let neither : (d == 39 || d == 34) ≡ false = ground arith in
        r.read_plain d t neither ∙ plain_value r [] d t h n
    unquoted r (c ∷ v) d t o h n =
        let neither : (c == 39 || c == 34) ≡ false = ground arith in
        r.read_plain c (v ++ (d ∷ t)) neither ∙ plain_value r (c ∷ v) d t h n
