-- ===== src/Driver/Luks/Expand/Climbing.antt =====
-- Sequences of operations that climb the layers of a volume.
use lukscryptwalker_csi.Base.{
  ℕ, ◌==◌, ◌≡◌, refl, Bool, true, false, ◌&&◌, List, [], ◌∷◌, ◌++◌, arith,
}
use lukscryptwalker_csi.Driver.Luks.{
  DeviceCall, resizes_luks, grows_fs, refreshes_loop, Done, and_then,
}

-- The layers above the backing file that commands work on: the loop device is 1, the mapper 2, the file
-- system 3.
abbrev pub push_layer : DeviceCall → List ℕ → List ℕ
push_layer c rest = elim c [
  | refreshes_loop d ↦ 1 ∷ rest
  | resizes_luks m ↦ 2 ∷ rest
  | grows_fs t ↦ 3 ∷ rest
  | _ ↦ rest
]

unfoldable pub layers : List DeviceCall → List ℕ
layers [] = []
layers (c ∷ cs) = push_layer c (layers cs)

unfoldable pub begins : List ℕ → List ℕ → Bool
begins [] ys = true
begins (x ∷ xs) [] = false
begins (x ∷ xs) (y ∷ ys) = x == y && begins xs ys

-- An operation that has the layers `chain` to climb: all of them where it succeeds, the first ones else.
abbrev pub Climbs : List ℕ → Done → Type 0
Climbs chain (true, calls) = layers calls ≡ chain
Climbs chain (false, calls) = begins (layers calls) chain ≡ true

push-append : (c : DeviceCall) (xs ys : List ℕ) → push_layer c (xs ++ ys) ≡ push_layer c xs ++ ys
push-append c xs ys = elim c as (λ k. push_layer k (xs ++ ys) ≡ push_layer k xs ++ ys) [
  | refreshes_loop d ↦ refl
  | resizes_luks m ↦ refl
  | grows_fs t ↦ refl
  | _ ↦ refl
]

layers-append : (xs ys : List DeviceCall) → layers (xs ++ ys) ≡ layers xs ++ layers ys
unfolding layers
layers-append [] ys = refl
layers-append (c ∷ xs) ys = rw (layers-append xs ys) (push-append c (layers xs) (layers ys))

begins-grow : (xs ys zs : List ℕ) → begins xs ys ≡ true → begins xs (ys ++ zs) ≡ true
unfolding begins
begins-grow [] ys zs h = refl
begins-grow (x ∷ xs) [] zs h = cc
begins-grow (x ∷ xs) (y ∷ ys) zs h =
    let rest : begins xs ys ≡ true → begins xs (ys ++ zs) ≡ true = begins-grow xs ys zs in
    ground arith

begins-under : (xs ys zs : List ℕ) → begins ys zs ≡ true → begins (xs ++ ys) (xs ++ zs) ≡ true
unfolding begins
begins-under [] ys zs h = h
begins-under (x ∷ xs) ys zs h = let rest = begins-under xs ys zs h in ground arith

pub and_then-Climbs :
    (xs ys : List ℕ) (d e : Done) → Climbs xs d → Climbs ys e → Climbs (xs ++ ys) (and_then d e)
unfolding and_then
and_then-Climbs xs ys (false, calls) e p q = begins-grow (layers calls) xs ys p
and_then-Climbs xs ys (true, calls) (true, more) p q = rw (layers-append calls more, p, q) refl
and_then-Climbs xs ys (true, calls) (false, more) p q =
    rw (layers-append calls more, p) (begins-under xs (layers more) ys q)

pub either_way :
    (b : Bool) (chain : List ℕ) (calls : List DeviceCall)
    → layers calls ≡ chain
    → begins chain chain ≡ true
    → Climbs chain (b, calls)
either_way true chain calls h whole = h
either_way false chain calls h whole = rw h whole
