-- ===== src/Base/Cut.antt =====
-- strings.Cut by a separator, and the parts around it.
use Prim.Native.Nat.{ℕ}
use mathlib.Core.Path.{◌≡◌, refl, sym, ap}
use mathlib.Core.Logic.{inl, inr}
use mathlib.Core.Bool.{true}
use mathlib.Core.Option.{Option, none, some}
use mathlib.Core.List.{[], ◌∷◌, ◌++◌}
use native.Mathlib.Omega.{arith}
use lukscryptwalker_csi.Base.Tests.{if◌then◌else◌, Bool-cases, Option-cases}
use lukscryptwalker_csi.Base.Lists.{length, drop}
use lukscryptwalker_csi.Base.Bytes.{Bytes, has_prefix, cut_prefix}

abbrev push_before : ℕ → Option (Bytes × Bytes) → Option (Bytes × Bytes)
push_before c none = none
push_before c (some (a, b)) = some (c ∷ a, b)

-- strings.Cut(s, sep) for a separator that is not empty
unfoldable pub cut : Bytes → Bytes → Option (Bytes × Bytes)
unfolding has_prefix
cut [] sep = none
cut (c ∷ s) sep =
    let rest = cut s sep in
    if has_prefix (c ∷ s) sep then some ([], drop (length sep) (c ∷ s)) else push_before c rest

pub has_prefix-drop : (s p : Bytes) → has_prefix s p ≡ true → p ++ drop (length p) s ≡ s
unfolding has_prefix
has_prefix-drop s [] h = refl
has_prefix-drop [] (d ∷ p) h = absurd (ground arith)
has_prefix-drop (c ∷ s) (d ∷ p) h =
    let same : d ≡ c = ground arith in
    let rest = has_prefix-drop s p (ground arith) in rw same (ap (◌∷◌ c) rest)

pub cut_prefix-append : (s p rest : Bytes) → cut_prefix s p ≡ some rest → s ≡ p ++ rest
unfolding cut_prefix
cut_prefix-append s p rest h = elim (Bool-cases (has_prefix s p)) [
  | inl e ↦
      let q : some (drop (length p) s) ≡ some rest = rw e at h in
      let r : drop (length p) s ≡ rest = ground arith in rw (sym r) (sym (has_prefix-drop s p e))
  | inr e ↦ absurd (ground arith)
]

pub cut-append : (s sep a b : Bytes) → cut s sep ≡ some (a, b) → s ≡ a ++ (sep ++ b)
unfolding cut
cut-append [] sep a b h = absurd (ground arith)
cut-append (c ∷ s) sep a b h = elim (Bool-cases (has_prefix (c ∷ s) sep)) [
  | inl e ↦
      let q : some ([], drop (length sep) (c ∷ s)) ≡ some (a, b) = rw e at h in
      let qa : [] ≡ a = ground arith in
      let qb : drop (length sep) (c ∷ s) ≡ b = ground arith in
      rw (sym qa, sym qb) (sym (has_prefix-drop (c ∷ s) sep e))
  | inr e ↦ elim (Option-cases (cut s sep)) [
    | inl n ↦ let q : none ≡ some (a, b) = rw (e, n) at h in absurd (ground arith)
    | inr ((x, y), n) ↦
        let q : some (c ∷ x, y) ≡ some (a, b) = rw (e, n) at h in
        let qa : c ∷ x ≡ a = ground arith in
        let qb : y ≡ b = ground arith in rw (sym qa, sym qb) (ap (◌∷◌ c) (cut-append s sep x y n))
  ]
]
