-- ===== src/Base/Sets.antt =====
-- The sets of names that Go keeps as maps: membership, insertion and deletion by key, and sort.Strings.
use mathlib.Core.Path.{◌≡◌, refl, sym, ap}
use mathlib.Core.Logic.{inl, inr}
use mathlib.Core.Bool.{Bool, true, false, not, ◌&&◌, ◌||◌}
use mathlib.Core.List.{List, [], ◌∷◌}
use native.Mathlib.Omega.{arith}
use lukscryptwalker_csi.Base.Tests.{ltb, ◌==◌, if◌then◌else◌, Bool-cases}
use lukscryptwalker_csi.Base.Bytes.{Bytes, bytes_eq, bytes_eq→eq, bytes_eq_refl}

unfoldable pub member : Bytes → List Bytes → Bool
member x [] = false
member x (y ∷ ys) = bytes_eq x y || member x ys

-- m[x] = true
unfoldable pub insert : Bytes → List Bytes → List Bytes
insert x xs = if member x xs then xs else x ∷ xs

-- delete(m, x)
unfoldable pub remove : Bytes → List Bytes → List Bytes
remove x [] = []
remove x (y ∷ ys) = let rest = remove x ys in if bytes_eq x y then rest else y ∷ rest

pub member-eq : (x y : Bytes) (ys : List Bytes) → bytes_eq x y ≡ true → member x ys ≡ member y ys
member-eq x y ys e = ap (λ z. member z ys) (bytes_eq→eq x y e)

pub member-insert :
    (y x : Bytes) (xs : List Bytes) → member y (insert x xs) ≡ (bytes_eq y x || member y xs)
unfolding member insert
member-insert y x xs =
    let same : bytes_eq y x ≡ true → member y xs ≡ member x xs = member-eq y x xs in
    elim (Bool-cases (member x xs)) [
      | inl m ↦ elim (Bool-cases (bytes_eq y x)) [ inl e ↦ ground arith | inr e ↦ rw (m, e) refl ]
      | inr m ↦ rw m refl
    ]

pub bytes_eq-false :
    (x y z : Bytes) → bytes_eq x y ≡ false → bytes_eq x z ≡ true → bytes_eq z y ≡ false
bytes_eq-false x y z d e = rw (sym (bytes_eq→eq x z e)) d

pub member-remove :
    (y x : Bytes) (xs : List Bytes) → member y (remove x xs) ≡ (not (bytes_eq y x) && member y xs)
unfolding member remove
member-remove y x [] = elim (Bool-cases (bytes_eq y x)) [ inl e ↦ rw e refl | inr e ↦ rw e refl ]
member-remove y x (z ∷ xs) =
    let rest = member-remove y x xs in
    elim (Bool-cases (bytes_eq x z)) [
      | inl m ↦ let at = ap (bytes_eq y) (bytes_eq→eq x z m) in ground arith
      | inr m ↦ elim (Bool-cases (bytes_eq y x)) [
        | inl e ↦ let off : bytes_eq y z ≡ false = rw (bytes_eq→eq y x e) m in ground arith
        | inr e ↦ ground arith
      ]
    ]

pub remove_self : (p : Bytes) → remove p (p ∷ []) ≡ []
unfolding remove
remove_self p = rw (bytes_eq_refl p) refl

pub remove_other : (n k : Bytes) → bytes_eq n k ≡ false → remove n (k ∷ []) ≡ k ∷ []
unfolding remove
remove_other n k h = rw h refl

-- s < t on strings
pub bytes_lt : Bytes → Bytes → Bool
bytes_lt [] [] = false
bytes_lt [] (d ∷ t) = true
bytes_lt (c ∷ s) [] = false
bytes_lt (c ∷ s) (d ∷ t) = ltb c d || (c == d && bytes_lt s t)

unfoldable pub sort_in : Bytes → List Bytes → List Bytes
sort_in x [] = x ∷ []
sort_in x (y ∷ ys) = let rest = sort_in x ys in if bytes_lt y x then y ∷ rest else x ∷ y ∷ ys

unfoldable pub sort_strings : List Bytes → List Bytes
sort_strings [] = []
sort_strings (x ∷ xs) = sort_in x (sort_strings xs)

member-sort_in :
    (y x : Bytes) (xs : List Bytes) → member y (sort_in x xs) ≡ (bytes_eq y x || member y xs)
unfolding member sort_in
member-sort_in y x [] = refl
member-sort_in y x (z ∷ xs) =
    let rest = member-sort_in y x xs in
    elim (Bool-cases (bytes_lt z x)) [ inl e ↦ ground arith | inr e ↦ rw e refl ]

pub member-sort : (y : Bytes) (xs : List Bytes) → member y (sort_strings xs) ≡ member y xs
unfolding member sort_strings
member-sort y [] = refl
member-sort y (x ∷ xs) = rw (member-sort_in y x (sort_strings xs), member-sort y xs) refl
