-- ===== src/Base/Split.antt =====
-- strings.Split at newlines and strings.Fields, on ASCII bytes.
use lukscryptwalker_csi.Base.Tests.{◌==◌, if◌then◌else◌}
use lukscryptwalker_csi.Base.Bytes.{Bytes, is_space}
use Prim.Native.Nat.{ℕ}
use mathlib.Core.List.{List, [], ◌∷◌}

abbrev push_front : ℕ → List Bytes → List Bytes
push_front c [] = (c ∷ []) ∷ []
push_front c (w ∷ ws) = (c ∷ w) ∷ ws

-- strings.Split(s, sep) for a separator of one byte
unfoldable pub split_at : ℕ → Bytes → List Bytes
split_at sep [] = [] ∷ []
split_at sep (c ∷ s) =
    let rest = split_at sep s in if c == sep then [] ∷ rest else push_front c rest

-- `word` holds the bytes of the word that is open, last first reversed back when it closes
close_word : Bytes → List Bytes → List Bytes
close_word [] ws = ws
close_word (c ∷ w) ws = (c ∷ w) ∷ ws

-- the open word at the front of a text, and the words behind it
words_from : Bytes → Bytes × List Bytes
unfolding close_word
words_from [] = ([], [])
words_from (c ∷ s) =
    let (word, ws) = words_from s in if is_space c then ([], close_word word ws) else (c ∷ word, ws)

-- strings.Fields(s)
unfoldable pub fields : Bytes → List Bytes
unfolding words_from
fields s = let (word, ws) = words_from s in close_word word ws
