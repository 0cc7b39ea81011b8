-- ===== src/Rclone/VfsName/RoundTrip.antt =====
-- The names that vfsNamesFor makes are read back by volumeIDOfVFSName and generationOfVFSName.
use lukscryptwalker_csi.Base.{
  ℕ, suc, ◌≤◌, ◌≡◌, ◌≢◌, refl, sym, ap, ◌∙◌, inl, inr, true, false, none, some, [], ◌∷◌, ◌++◌,
  arith, ltb, length, drop, All, take-append_length, drop-append_length, Bool-cases,
}
use lukscryptwalker_csi.Base.Bytes.{
  Bytes, bytes_eq, bytes_eq_refl, last_index, has_prefix, has_prefix-append, cut_prefix,
}
use lukscryptwalker_csi.Base.Decimal.{
  itoa, parse_int, itoa-All, parse_int-itoa, is_digit, max_int64,
}
use lukscryptwalker_csi.Rclone.VfsName.{
  generation_mark, vfs_names_for, strip_at, volume_id_of_vfs_name, generation_of_vfs_name,
}
use mathlib.Core.List.{append_assoc}

-- digits hold no ".g"
last_index-digits :
    (s : Bytes) → All (λ c. is_digit c ≡ true) s → last_index s generation_mark ≡ none
unfolding last_index
last_index-digits [] h = refl
last_index-digits (c ∷ s) h = ground (arith, last_index-digits s h.1)

-- the last ".g" of a text that ends in ".g" and digits
last_index-suffix :
    (v s : Bytes)
    → All (λ c. is_digit c ≡ true) s
    → last_index (v ++ (generation_mark ++ s)) generation_mark ≡ some (length v)
unfolding last_index
last_index-suffix [] s h = rw (last_index-digits s h) (unfold has_prefix in refl)
last_index-suffix (c ∷ v) s h = rw (last_index-suffix v s h)

drop-mark : (v s : Bytes) (a b : ℕ) → drop (suc (suc (length v))) (v ++ a ∷ b ∷ s) ≡ s
drop-mark [] s a b = refl
drop-mark (c ∷ v) s a b = drop-mark v s a b

volume_id-suffix :
    (v : Bytes) (n : ℕ)
    → v ≢ []
    → n ≤ max_int64
    → volume_id_of_vfs_name (v ++ (generation_mark ++ itoa n)) ≡ v
unfolding volume_id_of_vfs_name strip_at parse_int
volume_id-suffix [] n h k = absurd (h refl)
volume_id-suffix (c ∷ v) n h k =
    rw
      (
        last_index-suffix (c ∷ v) (itoa n) (itoa-All n),
        drop-mark v (itoa n) _ _,
        parse_int-itoa n k,
      )
      (ap (◌∷◌ c) (take-append_length v _))

abbrev pub NoDots : Bytes → Type 0
NoDots = All (λ c. c ≢ b'.')

last_index-NoDots : (v : Bytes) → NoDots v → last_index v generation_mark ≡ none
unfolding last_index
last_index-NoDots [] h = refl
last_index-NoDots (c ∷ v) h = ground (arith, last_index-NoDots v h.1)

volume_id-bare : (v : Bytes) → NoDots v → volume_id_of_vfs_name v ≡ v
unfolding volume_id_of_vfs_name
volume_id-bare v h = rw (last_index-NoDots v h)

-- For a volume ID that is not empty and holds no dot, and every generation that an int holds, the
-- volume is read back from the name that the generation gives it.
pub volume_id-vfs_names :
    (v : Bytes) (n : ℕ)
    → v ≢ []
    → NoDots v
    → n ≤ max_int64
    → volume_id_of_vfs_name (vfs_names_for v n).0 ≡ v
unfolding vfs_names_for
volume_id-vfs_names v n h d k = elim (Bool-cases (ltb 0 n)) [
  | inl e ↦ rw e (volume_id-suffix v n h k)
  | inr e ↦ rw e (volume_id-bare v d)
]

append-ne : (v s : Bytes) (c : ℕ) → bytes_eq (v ++ c ∷ s) v ≡ false
unfolding bytes_eq
append-ne [] s c = refl
append-ne (b ∷ v) s c = ground (arith, append-ne v s c)

suffix-nonempty : (v s : Bytes) (c : ℕ) → bytes_eq (v ++ c ∷ s) [] ≡ false
unfolding bytes_eq
suffix-nonempty [] s c = refl
suffix-nonempty (b ∷ v) s c = refl

cut_prefix-append : (p s : Bytes) → cut_prefix (p ++ s) p ≡ some s
unfolding cut_prefix
cut_prefix-append p s = rw (has_prefix-append p s) (ap some (drop-append_length p s))

generation-suffix :
    (v : Bytes) (n : ℕ)
    → n ≤ max_int64
    → generation_of_vfs_name v (v ++ (generation_mark ++ itoa n)) ≡ n
unfolding generation_of_vfs_name
generation-suffix v n k = rw (
  suffix-nonempty v _ _,
  append-ne v _ _,
  ← append_assoc v generation_mark (itoa n),
  cut_prefix-append (v ++ generation_mark) (itoa n),
  parse_int-itoa n k,
)

generation-bare : (v : Bytes) → generation_of_vfs_name v v ≡ 0
unfolding generation_of_vfs_name
generation-bare v = ground (arith, bytes_eq_refl v)

-- The generation is read back from the name that it gives a volume.
pub generation-vfs_names :
    (v : Bytes) (n : ℕ) → n ≤ max_int64 → generation_of_vfs_name v (vfs_names_for v n).0 ≡ n
unfolding vfs_names_for
generation-vfs_names v n k = elim (Bool-cases (ltb 0 n)) [
  | inl e ↦ rw e (generation-suffix v n k)
  | inr e ↦ rw e (generation-bare v ∙ ground arith)
]

-- Two volumes whose IDs are not empty and hold no dot never share a VFS name, at any generations,
-- nor does one volume at two generations: equal names mean equal volumes and equal generations.
pub vfs_names_injective :
    (v w : Bytes) (m n : ℕ)
    → v ≢ []
    → w ≢ []
    → NoDots v
    → NoDots w
    → m ≤ max_int64
    → n ≤ max_int64
    → (vfs_names_for v m).0 ≡ (vfs_names_for w n).0
    → (v ≡ w) × (m ≡ n)
vfs_names_injective v w m n hv hw dv dw km kn e =
    let same : v ≡ w =
      sym (volume_id-vfs_names v m hv dv km)
      ∙ ap volume_id_of_vfs_name e
      ∙ volume_id-vfs_names w n hw dw kn in
    (
      same,
      sym (generation-vfs_names v m km)
          ∙ ap (generation_of_vfs_name v) e
          ∙ ap (λ u. generation_of_vfs_name u (vfs_names_for w n).0) same
          ∙ generation-vfs_names w n kn,
    )
