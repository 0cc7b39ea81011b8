-- ===== src/Tests/Names.antt =====
-- VFS names, units and error messages at concrete inputs.
use lukscryptwalker_csi.Base.{
  ℕ, ◌≡◌, ◌≢◌, refl, sym, Bool, true, false, ◌||◌, ◌==◌, if◌then◌else◌, neither, none, some, [],
  ◌∷◌, ◌++◌, arith, some_injective,
}
use lukscryptwalker_csi.Base.Bytes.{Bytes, codes, index, has_prefix}
use lukscryptwalker_csi.Base.Decimal.{itoa}
use lukscryptwalker_csi.Rclone.VfsName.RoundTrip.{NoDots, vfs_names_injective}
use lukscryptwalker_csi.Rclone.Units.{parse_duration_to_ns, parse_size_to_bytes}
use lukscryptwalker_csi.Rclone.Units.RoundTrip.{readers_ignore_middle}
use lukscryptwalker_csi.Rclone.Config.{quote_value}
use lukscryptwalker_csi.Rclone.Config.Quoting.{ConnectionReader, push, read-quote_value}
use lukscryptwalker_csi.Rclone.Redact.{to_lower, sanitize_error_message}
use lukscryptwalker_csi.Rclone.Redact.Termination.{IsClosed, sanitize-diverges}

pv_full : codes "pv" ≢ []
pv_full e = absurd (ground arith)

pv_plain : NoDots (codes "pv")
pv_plain = ((λ e. absurd (omega arith)), ((λ e. absurd (omega arith)), tt))

abbrev seven : ℕ
seven = 7

vfs_names_injective_example : (codes "pv" ≡ codes "pv") × (seven ≡ seven)
vfs_names_injective_example =
    vfs_names_injective (codes "pv") (codes "pv") seven seven pv_full pv_full pv_plain pv_plain
      (omega arith) (omega arith) refl

-- "500ms" is read as "500s", and "500mM" as "500M"
readers_ignore_middle_example :
    (parse_duration_to_ns (itoa 500 ++ (b'm' ∷ [] ++ b's' ∷ []))
      ≡ parse_duration_to_ns (itoa 500 ++ b's' ∷ []))
    × (parse_size_to_bytes (itoa 500 ++ (b'm' ∷ [] ++ b's' ∷ []))
        ≡ parse_size_to_bytes (itoa 500 ++ b's' ∷ []))
readers_ignore_middle_example = readers_ignore_middle 500 b'm' b's' [] (omega arith) refl refl

abbrev open_message : Bytes
open_message = codes "password=x y"

open_message_open : ¬ IsClosed open_message (codes "password=") (codes ",")
unfolding index to_lower has_prefix
open_message_open c =
    let at = some_injective 0 c.start c.prefix_at in
    let missing : none ≡ some c.end = rw (sym at) at c.suffix_at in absurd (ground arith)

abbrev closed_message : Bytes
closed_message = codes "s3,access_key_id=AK,x"

closed_message-IsClosed : IsClosed closed_message (codes "access_key_id=") (codes ",")
unfolding index to_lower has_prefix
closed_message-IsClosed = record { start = 3; end = 2; prefix_at = refl; suffix_at = refl }

sanitize-diverges_example : sanitize_error_message 1000 closed_message ≡ none
sanitize-diverges_example = sanitize-diverges 1000 closed_message closed_message-IsClosed

abbrev secret : Bytes
secret = codes "it's,a:b"

-- A reader of values quoted by q, `after_quote` once a quote was read.
read_quoted : ℕ → Bool → Bytes → Bytes × Bytes
read_quoted q after_quote [] = ([], [])
read_quoted q false (c ∷ s) =
    if c == q then read_quoted q true s else push c (read_quoted q false s)
read_quoted q true (c ∷ s) = if c == q then push q (read_quoted q false s) else ([], c ∷ s)

read_unquoted : Bytes → Bytes × Bytes
read_unquoted [] = ([], [])
read_unquoted (c ∷ s) = if c == b',' || c == b':' then ([], c ∷ s) else push c (read_unquoted s)

read_parameter : Bytes → Bytes × Bytes
read_parameter [] = ([], [])
read_parameter (c ∷ s) =
    if c == 39
    then read_quoted 39 false s
    else if c == 34
    then read_quoted 34 false s
    else read_unquoted (c ∷ s)

unquoted_start :
    (c : ℕ) (s : Bytes)
    → (c == 39 || c == 34) ≡ false
    → read_parameter (c ∷ s) ≡ read_unquoted (c ∷ s)
unfolding read_parameter
unquoted_start c s h = let (a, b) = neither (c == 39) (c == 34) h in rw (a, read_parameter, b) refl

single_end :
    (d : ℕ) (s : Bytes) → (d == 39) ≡ false → read_quoted 39 false (39 ∷ d ∷ s) ≡ ([], d ∷ s)
unfolding read_quoted
single_end d s h = rw h refl

single_byte :
    (c : ℕ) (s : Bytes)
    → (c == 39) ≡ false
    → read_quoted 39 false (c ∷ s) ≡ push c (read_quoted 39 false s)
unfolding read_quoted
single_byte c s h = rw h refl

plain_end :
    (c : ℕ) (s : Bytes) → (c == b',' || c == b':') ≡ true → read_unquoted (c ∷ s) ≡ ([], c ∷ s)
unfolding read_unquoted
plain_end c s h = rw h refl

plain_byte :
    (c : ℕ) (s : Bytes)
    → (c == b',' || c == b':') ≡ false
    → read_unquoted (c ∷ s) ≡ push c (read_unquoted s)
unfolding read_unquoted
plain_byte c s h = rw h refl

connection_reader : ConnectionReader
unfolding read_parameter read_quoted
connection_reader = record {
  read = read_parameter;
  single = read_quoted 39 false;
  plain = read_unquoted;
  read_single = λ s. refl;
  read_plain = unquoted_start;
  single_pair = λ s. refl;
  single_end = single_end;
  single_byte = single_byte;
  plain_end = plain_end;
  plain_byte = plain_byte;
}

read-quote_value_example :
    connection_reader.read (quote_value secret ++ (b',' ∷ codes "region=x"))
    ≡ (secret, b',' ∷ codes "region=x")
read-quote_value_example =
    read-quote_value connection_reader secret b',' (codes "region=x") refl refl
