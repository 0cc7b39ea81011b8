-- ===== src/Base/Dict.antt =====
-- Go's maps keyed by strings: association lists with one binding per insertion, the newest first.
use mathlib.Core.Path.{◌≡◌, refl, sym}
use mathlib.Core.Logic.{inl, inr}
use mathlib.Core.Bool.{false}
use mathlib.Core.Option.{Option, none, some}
use mathlib.Core.List.{List, [], ◌∷◌}
use lukscryptwalker_csi.Base.Tests.{if◌then◌else◌, Bool-cases}
use lukscryptwalker_csi.Base.Bytes.{Bytes, bytes_eq, bytes_eq→eq}

abbrev pub Dict {ℓ} : Type ℓ → Type ℓ
Dict A = List (Bytes × A)

unfoldable pub lookup {ℓ} : {A : Type ℓ} → Bytes → Dict A → Option A
lookup k [] = none
lookup k ((key, a) ∷ d) = let rest = lookup k d in if bytes_eq k key then some a else rest

unfoldable pub put {ℓ} : {A : Type ℓ} → Bytes → A → Dict A → Dict A
put k a d = (k, a) ∷ d

unfoldable pub delete {ℓ} : {A : Type ℓ} → Bytes → Dict A → Dict A
delete k [] = []
delete k ((key, a) ∷ d) = let rest = delete k d in if bytes_eq k key then rest else (key, a) ∷ rest

pub lookup-put {ℓ} :
    {A : Type ℓ} (k key : Bytes) (a : A) (d : Dict A)
    → lookup k (put key a d) ≡ (if bytes_eq k key then some a else lookup k d)
unfolding lookup put
lookup-put k key a d = refl

pub lookup-delete {ℓ} :
    {A : Type ℓ} (k key : Bytes) (d : Dict A)
    → lookup k (delete key d) ≡ (if bytes_eq k key then none else lookup k d)
unfolding lookup delete
lookup-delete k key [] = elim (Bool-cases (bytes_eq k key)) [
  | inl e ↦ rw e refl
  | inr e ↦ rw e refl
]
lookup-delete k key ((other, a) ∷ d) =
    let rest = lookup-delete k key d in
    elim (Bool-cases (bytes_eq key other)) [
      | inl m ↦ elim (Bool-cases (bytes_eq k key)) [
        | inl e ↦ rw (m, e) (rw e at rest)
        | inr e ↦
            let off : bytes_eq k other ≡ false = rw (sym (bytes_eq→eq key other m)) e in
            rw (m, e, off) (rw e at rest)
      ]
      | inr m ↦ elim (Bool-cases (bytes_eq k key)) [
        | inl e ↦
            let off : bytes_eq k other ≡ false = rw (bytes_eq→eq k key e) m in
            rw (m, e, off) (rw e at rest)
        | inr e ↦ elim (Bool-cases (bytes_eq k other)) [
          | inl o ↦ rw (m, e, o) refl
          | inr o ↦ rw (m, e, o) (rw e at rest)
        ]
      ]
    ]
