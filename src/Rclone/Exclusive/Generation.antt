-- ===== src/Rclone/Exclusive/Generation.antt =====
-- Which generation a mount takes, and what that says about its name.
use lukscryptwalker_csi.Base.{
  ℕ, zero, suc, ◌+◌, ◌≤◌, ◌<◌, ◌≡◌, refl, ap, ◌∙◌, ◌⊎◌, inl, inr, Bool, true, false, Option, none,
  some, List, [], ◌∷◌, arith, ltb, leb, ◌==◌, count, bit, Bool-cases, Option-cases,
}
use lukscryptwalker_csi.Base.Bytes.{Bytes, codes, bytes_eq, bytes_eq→eq}
use lukscryptwalker_csi.Base.Cut.{cut}
use lukscryptwalker_csi.Base.Dict.{Dict, lookup, lookup-put}
use lukscryptwalker_csi.Rclone.VfsName.{vfs_name_for}
use lukscryptwalker_csi.Rclone.Exclusive.{
  zero_or, count_name, count_vfses, registered_vfs_names, count_registered_vfs, Turn, Outcome,
  takes, refuses, is_released, Decision, mounts, gives_up, bumps, decide, ensure_exclusive_from,
  ensure_exclusive_vfs_name, max_vfs_generations,
}

-- An entry of vfs/list stands for a name: the part before its first colon.
abbrev pub named : Bytes → Option (Bytes × Bytes) → Bool
named name none = false
named name (some (n, rest)) = bytes_eq name n

abbrev pub stands_for : Bytes → Option Bytes → Bool
stands_for name none = false
stands_for name (some s) = named name (cut s (codes ":"))

count_name-lookup :
    (name : Bytes) (o : Option (Bytes × Bytes)) (counts : Dict ℕ)
    → zero_or (lookup name (count_name o counts))
      ≡ bit (named name o) + zero_or (lookup name counts)
unfolding count_name
count_name-lookup name none counts = omega arith
count_name-lookup name (some (n, rest)) counts =
    let put_at = lookup-put name n (suc (zero_or (lookup n counts))) counts in
    elim (Bool-cases (bytes_eq name n)) [
      | inl e ↦
          let same = ap (λ z. zero_or (lookup z counts)) (bytes_eq→eq name n e) in
          rw (put_at, e) (omega (arith, same))
      | inr e ↦ rw (put_at, e) (omega arith)
    ]

count_vfses-lookup :
    (name : Bytes) (ns : List (Option Bytes)) (counts : Dict ℕ)
    → zero_or (lookup name (count_vfses ns counts))
      ≡ count (stands_for name) ns + zero_or (lookup name counts)
unfolding count_vfses count
count_vfses-lookup name [] counts = omega arith
count_vfses-lookup name (none ∷ ns) counts = count_vfses-lookup name ns counts ∙ omega arith
count_vfses-lookup name (some s ∷ ns) counts =
    let here = count_name-lookup name (cut s (codes ":")) counts in
    let rest = count_vfses-lookup name ns (count_name (cut s (codes ":")) counts) in
    rest ∙ omega (arith, here)

-- Whatever vfs/list shows for a turn, the count the driver reads for a generation's name is the number
-- of entries, "name:" and "name:[i]" alike, that stand for that name.
pub count_registered_vfs-count :
    (v : Bytes) (generation : ℕ) (ns : List (Option Bytes))
    → count_registered_vfs v generation (some ns)
      ≡ some (count (stands_for (vfs_name_for v generation)) ns)
unfolding count_registered_vfs registered_vfs_names lookup
count_registered_vfs-count v generation ns =
    ap some (count_vfses-lookup (vfs_name_for v generation) ns [] ∙ omega arith)

Decision-cases : (d : Decision) → (d ≡ mounts) ⊎ (d ≡ gives_up) ⊎ (d ≡ bumps)
Decision-cases mounts = inl refl
Decision-cases gives_up = inr (inl refl)
Decision-cases bumps = inr (inr refl)

-- Why a mount goes ahead: the list shows the name free, it could not be read again after a bump, or a
-- session was shut down and the list does not show the name taken any more.
abbrev pub Free : Bytes → ℕ → ℕ → Turn → Type 0
Free v generation bumped t =
    (count_registered_vfs v generation t.listed ≡ some 0)
    ⊎ ((count_registered_vfs v generation t.listed ≡ none) × (0 < bumped))
    ⊎ (is_released v generation t ≡ true)

-- Why it is refused: the name is known to be taken after all the bumps.
abbrev pub Taken : Bytes → ℕ → ℕ → Turn → Type 0
Taken v generation bumped t =
    (max_vfs_generations ≤ bumped)
    × ((k : ℕ) × (count_registered_vfs v generation t.listed ≡ some (suc k)))
    × (is_released v generation t ≡ false)

abbrev pub Justified : Bytes → (ℕ → Turn) → ℕ → Outcome → Type 0
Justified v world first (takes g) =
    (i : ℕ) × (g ≡ first + i) × (i ≤ max_vfs_generations) × Free v g i (world i)
Justified v world first (refuses g) = (i : ℕ) × (g ≡ first + i) × Taken v g i (world i)

abbrev Decided : Bytes → ℕ → ℕ → Turn → Decision → Type 0
Decided v g b t mounts = Free v g b t
Decided v g b t gives_up = Taken v g b t
Decided v g b t bumps = b < max_vfs_generations

positive : (n : ℕ) → (n == 0) ≡ false → (k : ℕ) × (n ≡ suc k)
positive zero h = absurd (ground arith)
positive (suc k) h = (k, refl)

decide-Decided : (v : Bytes) (g b : ℕ) (t : Turn) → Decided v g b t (decide v g b t)
unfolding decide
decide-Decided v g b t = elim (Option-cases (count_registered_vfs v g t.listed)) [
  | inl c ↦ elim (Bool-cases (ltb 0 b)) [
    | inl l ↦ rw (c, decide, l) (inr (inl (c, ground arith)))
    | inr l ↦ rw (c, decide, l) (ground arith)
  ]
  | inr (n, c) ↦ elim (Bool-cases (n == 0)) [
    | inl z ↦ let zero_is : n ≡ 0 = ground arith in rw (c, decide, z) (inl (c ∙ ap some zero_is))
    | inr z ↦ elim (Bool-cases (is_released v g t)) [
      | inl r ↦ rw (c, decide, z, r) (inr (inr r))
      | inr r ↦ elim (Bool-cases (leb max_vfs_generations b)) [
        | inl m ↦
            let (k, e) = positive n z in
            rw (c, decide, z, r, m) (ground arith, (k, c ∙ ap some e), r)
        | inr m ↦ rw (c, decide, z, r, m) (ground arith)
      ]
    ]
  ]
]

-- The turn index moves with the generation.
abbrev JustifiedAt : Bytes → (ℕ → Turn) → ℕ → ℕ → Outcome → Type 0
JustifiedAt v world g b (takes g') =
    (i : ℕ) × (g' + b ≡ g + i) × (i ≤ max_vfs_generations) × Free v g' i (world i)
JustifiedAt v world g b (refuses g') = (i : ℕ) × (g' + b ≡ g + i) × Taken v g' i (world i)

step_on :
    (v : Bytes) (world : ℕ → Turn) (g b : ℕ) (o : Outcome)
    → JustifiedAt v world (suc g) (suc b) o
    → JustifiedAt v world g b o
step_on v world g b (takes g') (i, e, l, f) = (i, omega arith, l, f)
step_on v world g b (refuses g') (i, e, t) = (i, omega arith, t)

from-Justified :
    (fuel : ℕ) (v : Bytes) (world : ℕ → Turn) (g b : ℕ)
    → b + fuel ≡ suc max_vfs_generations
    → b ≤ max_vfs_generations
    → (o : Outcome) × (ensure_exclusive_from fuel v world g b ≡ some o) × JustifiedAt v world g b o
unfolding ensure_exclusive_from
from-Justified zero v world g b e l = absurd (omega arith)
from-Justified (suc fuel) v world g b e l =
    let why = decide-Decided v g b (world b) in
    elim (Decision-cases (decide v g b (world b))) [
      | inl d ↦ (takes g, rw (d, ensure_exclusive_from) refl, (b, refl, l, rw d at why))
      | inr (inl d) ↦ (refuses g, rw (d, ensure_exclusive_from) refl, (b, refl, rw d at why))
      | inr (inr d) ↦
          let less : b < max_vfs_generations = rw d at why in
          let (o, q, j) = from-Justified fuel v world (suc g) (suc b) (omega arith) (omega arith) in
          (o, rw (d, ensure_exclusive_from) q, step_on v world g b o j)
    ]

from_zero :
    (v : Bytes) (world : ℕ → Turn) (g : ℕ) (o : Outcome)
    → JustifiedAt v world g 0 o
    → Justified v world g o
from_zero v world g (takes g') (i, e, l, f) = (i, omega arith, l, f)
from_zero v world g (refuses g') (i, e, t) = (i, omega arith, t)

-- The loop that looks for a free VFS name always ends, after at most sixteen bumps. It goes ahead with
-- one of the seventeen generations from the first on, and then vfs/list showed the name of that very
-- generation free, could not be read on a turn after a bump, or did not show it taken any more once a
-- session was shut down. It refuses only at a name that it knows to be taken, after all the bumps.
pub ensure_exclusive_vfs_name-Justified :
    (v : Bytes) (world : ℕ → Turn) (generation : ℕ)
    → (o : Outcome) × (ensure_exclusive_vfs_name v world generation ≡ some o)
      × Justified v world generation o
unfolding ensure_exclusive_vfs_name
ensure_exclusive_vfs_name-Justified v world g =
    let (o, q, j) =
      from-Justified (suc max_vfs_generations) v world g 0 (omega arith) (omega arith) in
    (o, q, from_zero v world g o j)
