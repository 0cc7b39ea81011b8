-- ===== src/Base/Search.antt =====
-- Laws of strings.Index on bytes: where a match stands, and what an edit behind it leaves alone.
use lukscryptwalker_csi.Base.Tests.{Bool-cases, Option-cases}
use lukscryptwalker_csi.Base.Lists.{length, take, drop}
use lukscryptwalker_csi.Base.Bytes.{Bytes, has_prefix, index}
use Prim.Native.Nat.{ℕ, zero, suc, ◌+◌, ◌≤◌}
use mathlib.Core.Path.{◌≡◌, refl}
use mathlib.Core.Logic.{◌⊎◌, inl, inr}
use mathlib.Core.Bool.{true, false}
use mathlib.Core.Option.{some}
use mathlib.Core.List.{[], ◌∷◌, ◌++◌}
use native.Mathlib.Omega.{arith}

pub has_prefix-length : (x p : Bytes) → has_prefix x p ≡ true → length p ≤ length x
unfolding has_prefix
has_prefix-length x [] h = omega arith
has_prefix-length [] (c ∷ p) h = ground arith
has_prefix-length (d ∷ x) (c ∷ p) h = ground (arith, has_prefix-length x p)

-- A test for a prefix reads no further than the prefix is long.
pub has_prefix_window :
    (x p y : Bytes) (k : ℕ)
    → length p ≤ k
    → k ≤ length x
    → has_prefix (take k x ++ y) p ≡ has_prefix x p
unfolding has_prefix
has_prefix_window x [] y k h l = refl
has_prefix_window [] (c ∷ p) y k h l = absurd (omega arith)
has_prefix_window (d ∷ x) (c ∷ p) y zero h l = elim h [ ]
has_prefix_window (d ∷ x) (c ∷ p) y (suc k) h l =
    rw (has_prefix_window x p y k (omega arith) (omega arith))

-- A match that stands at the front, or one further on.
index_cases :
    (d : ℕ) (x p : Bytes) (i : ℕ)
    → index (d ∷ x) p ≡ some i
    → ((has_prefix (d ∷ x) p ≡ true) × (i ≡ 0))
      ⊎ ((j : ℕ) × (has_prefix (d ∷ x) p ≡ false) × (index x p ≡ some j) × (i ≡ suc j))
unfolding index
index_cases d x p i h = elim (Bool-cases (has_prefix (d ∷ x) p)) [
  | inl e ↦ inl (e, ground arith)
  | inr e ↦ elim (Option-cases (index x p)) [
    | inl n ↦ absurd (ground arith)
    | inr (j, f) ↦ inr (j, e, f, ground arith)
  ]
]

pub index_bound :
    (x : Bytes) (c : ℕ) (p : Bytes) (i : ℕ)
    → index x (c ∷ p) ≡ some i
    → i + length (c ∷ p) ≤ length x
unfolding index
index_bound [] c p i h = ground arith
index_bound (d ∷ x) c p i h = elim (index_cases d x (c ∷ p) i h) [
  | inl (e, z) ↦ omega (arith, has_prefix-length (d ∷ x) (c ∷ p) e)
  | inr (j, e, f, s) ↦ omega (arith, index_bound x c p j f)
]

pub index-has_prefix :
    (x : Bytes) (c : ℕ) (p : Bytes) (i : ℕ)
    → index x (c ∷ p) ≡ some i
    → has_prefix (drop i x) (c ∷ p) ≡ true
unfolding index
index-has_prefix [] c p i h = ground arith
index-has_prefix (d ∷ x) c p i h = elim (index_cases d x (c ∷ p) i h) [
  | inl (e, z) ↦ rw z e
  | inr (j, e, f, s) ↦ rw s (index-has_prefix x c p j f)
]

-- What is written behind the first match does not move it.
pub index_window :
    (x : Bytes) (c : ℕ) (p y : Bytes) (i k : ℕ)
    → index x (c ∷ p) ≡ some i
    → k ≡ i + length (c ∷ p)
    → index (take k x ++ y) (c ∷ p) ≡ some i
unfolding index
index_window [] c p y i k h e = ground arith
index_window (d ∷ x) c p y i zero h e = absurd (omega arith)
index_window (d ∷ x) c p y i (suc k) h e = elim (index_cases d x (c ∷ p) i h) [
  | inl (front, z) ↦
      let bound = has_prefix-length (d ∷ x) (c ∷ p) front in
      rw (z, has_prefix_window (d ∷ x) (c ∷ p) y (suc k) (omega arith) (omega arith), front)
  | inr (j, not_front, f, s) ↦
      let bound = index_bound x c p j f in
      rw (
        s,
        has_prefix_window (d ∷ x) (c ∷ p) y (suc k) (omega arith) (omega arith),
        not_front,
        index_window x c p y j k f (omega arith),
      )
]

-- A match further on is a match.
pub index-append : (a x p : Bytes) → has_prefix x p ≡ true → (j : ℕ) × (index (a ++ x) p ≡ some j)
unfolding index
index-append [] [] p h = (0, rw h)
index-append [] (d ∷ x) p h = (0, rw h)
index-append (b ∷ a) x p h = elim (Bool-cases (has_prefix (b ∷ (a ++ x)) p)) [
  | inl e ↦ (0, rw e)
  | inr e ↦ let (j, f) = index-append a x p h in (suc j, rw (e, f))
]
