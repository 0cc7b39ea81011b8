-- ===== src/Rclone/Session/Isolation.antt =====
-- Whose sessions a teardown reaches.
use lukscryptwalker_csi.Base.{
  ◌≡◌, refl, ap, inl, inr, true, false, not, ◌&&◌, ◌||◌, none, some, List, [], ◌∷◌, ◌++◌, arith,
  ◌==◌, Bool-cases, All,
}
use mathlib.Core.List.{append_assoc}
use lukscryptwalker_csi.Base.Bytes.{Bytes, codes, bytes_eq, bytes_eq→eq, has_prefix}
use lukscryptwalker_csi.Base.Split.{split_at}
use lukscryptwalker_csi.Base.Sets.{member, member-eq, member-sort}
use lukscryptwalker_csi.Rclone.Session.{
  session_mount_base, session_prefix, push_element, push_elements, rooted_path, with_prefix,
  sessions_of, sweep_dead_sessions, dead_sessions,
}

member-with_prefix :
    (mp prefix : Bytes) (mps : List Bytes)
    → member mp (with_prefix prefix mps) ≡ (has_prefix mp prefix && member mp mps)
unfolding member with_prefix
member-with_prefix mp prefix [] = elim (Bool-cases (has_prefix mp prefix)) [
  | inl e ↦ rw e refl
  | inr e ↦ rw e refl
]
member-with_prefix mp prefix (x ∷ mps) =
    let rest = member-with_prefix mp prefix mps in
    elim (Bool-cases (bytes_eq mp x)) [
      | inl e ↦
          let same = ap (λ z. has_prefix z prefix) (bytes_eq→eq mp x e) in
          elim (Bool-cases (has_prefix x prefix)) [
            | inl p ↦ rw (p, e, same) (ground arith)
            | inr p ↦ let q : has_prefix mp prefix ≡ false = rw same p in rw (p, rest, q) refl
          ]
      | inr e ↦ elim (Bool-cases (has_prefix x prefix)) [
        | inl p ↦ rw (p, e) rest
        | inr p ↦ rw (p, e) rest
      ]
    ]

-- No '/' in a volume's name.
abbrev pub IsElement : Bytes → Type 0
IsElement v = All (λ c. (c == 47) ≡ false) v

-- One element of a path that is not empty and neither "." nor "..", so filepath.Join leaves it as it is.
abbrev pub IsName : Bytes → Type 0
IsName v =
    IsElement v
    × ((bytes_eq v [] || bytes_eq v (codes ".")) ≡ false)
    × (bytes_eq v (codes "..") ≡ false)

split-element : (v : Bytes) → IsElement v → split_at 47 v ≡ v ∷ []
unfolding split_at
split-element [] e = refl
split-element (c ∷ v) e = rw (split-element v e.1, e.0) refl

name-prefix :
    (v : Bytes)
    → IsName v
    → session_prefix v ≡ session_mount_base ++ (codes "/" ++ (v ++ codes "/"))
unfolding session_prefix push_elements push_element rooted_path
name-prefix v (e, named, up) =
    rw (split-element v e, session_prefix, push_elements, named, up)
      (append_assoc session_mount_base (codes "/" ++ v) (codes "/"))

abbrev slash : Bytes
slash = 47 ∷ []

elements-eq :
    (s v w : Bytes)
    → IsElement v
    → IsElement w
    → has_prefix s (v ++ slash) ≡ true
    → has_prefix s (w ++ slash) ≡ true
    → v ≡ w
unfolding has_prefix
elements-eq s [] [] v w p q = refl
elements-eq [] [] (d ∷ w) ev ew p q = absurd (ground arith)
elements-eq [] (c ∷ v) w ev ew p q = absurd (ground arith)
elements-eq (k ∷ s) [] (d ∷ w) ev ew p q = let n = ew.0 in absurd (ground arith)
elements-eq (k ∷ s) (c ∷ v) [] ev ew p q = let n = ev.0 in absurd (ground arith)
elements-eq (k ∷ s) (c ∷ v) (d ∷ w) ev ew p q =
    let rest = elements-eq s v w ev.1 ew.1 (ground arith) (ground arith) in
    let same : c ≡ d = ground arith in rw (same, rest) refl

has_prefix-strip :
    (s b p q : Bytes)
    → has_prefix s (b ++ p) ≡ true
    → has_prefix s (b ++ q) ≡ true
    → (t : Bytes) × (has_prefix t p ≡ true) × (has_prefix t q ≡ true)
unfolding has_prefix
has_prefix-strip s [] p q h k = (s, h, k)
has_prefix-strip [] (c ∷ b) p q h k = absurd (ground arith)
has_prefix-strip (x ∷ s) (c ∷ b) p q h k = has_prefix-strip s b p q (ground arith) (ground arith)

-- A mount point that sessionsOf gives to two volumes, whose IDs are one path element each, not empty and
-- neither "." nor "..", shows that they are one volume: what is shut down for a volume out of rclone's mount
-- list is a session of no other.
pub sessions_of-isolated :
    (v w mp : Bytes) (mps others : List Bytes)
    → IsName v
    → IsName w
    → member mp (sessions_of v mps) ≡ true
    → member mp (sessions_of w others) ≡ true
    → v ≡ w
unfolding sessions_of
sessions_of-isolated v w mp mps others ev ew h k =
    let p =
      rw
        (
          member-sort mp (with_prefix (session_prefix v) mps),
          member-with_prefix mp (session_prefix v) mps,
        )
        at h in
    let q =
      rw
        (
          member-sort mp (with_prefix (session_prefix w) others),
          member-with_prefix mp (session_prefix w) others,
        )
        at k in
    let pv : has_prefix mp (session_mount_base ++ (codes "/" ++ (v ++ slash))) ≡ true =
      rw (name-prefix v ev) at (found mp v mps p) in
    let pw : has_prefix mp (session_mount_base ++ (codes "/" ++ (w ++ slash))) ≡ true =
      rw (name-prefix w ew) at (found mp w others q) in
    let (t, a, b) =
      has_prefix-strip mp session_mount_base (codes "/" ++ (v ++ slash)) (codes "/" ++ (w ++ slash))
        pv pw in
    let (u, c, d) = has_prefix-strip t (codes "/") (v ++ slash) (w ++ slash) a b in
    elements-eq u v w ev.0 ew.0 c d
  where
    found :
        (mp v : Bytes) (mps : List Bytes)
        → (has_prefix mp (session_prefix v) && member mp mps) ≡ true
        → has_prefix mp (session_prefix v) ≡ true
    found mp v mps h = ground arith

member-dead_sessions :
    (p : Bytes) (live paths : List Bytes)
    → member p (dead_sessions live paths) ≡ (not (member p live) && member p paths)
unfolding member dead_sessions
member-dead_sessions p live [] = elim (Bool-cases (member p live)) [
  | inl e ↦ rw e refl
  | inr e ↦ rw e refl
]
member-dead_sessions p live (x ∷ paths) =
    let rest = member-dead_sessions p live paths in
    elim (Bool-cases (bytes_eq p x)) [
      | inl e ↦
          let same : member p live ≡ member x live = member-eq p x live e in
          elim (Bool-cases (member x live)) [
            | inl m ↦ let q : member p live ≡ true = rw same m in rw (m, rest, q) refl
            | inr m ↦ let q : member p live ≡ false = rw same m in rw (m, e, q) refl
          ]
      | inr e ↦ elim (Bool-cases (member x live)) [
        | inl m ↦ rw (m, e) rest
        | inr m ↦ rw (m, e) rest
      ]
    ]

-- SweepDeadSessions detaches exactly the session directories of the volume that are no live session of
-- it by rclone's mount list; without that list, or without the directory's listing, it detaches none.
pub sweep_dead_sessions-member :
    (p v : Bytes) (mps paths : List Bytes)
    → (member p (sweep_dead_sessions v (some mps) (some paths))
        ≡ (not (member p (sessions_of v mps)) && member p paths))
      × (sweep_dead_sessions v none (some paths) ≡ [])
      × (sweep_dead_sessions v (some mps) none ≡ [])
unfolding sweep_dead_sessions
sweep_dead_sessions-member p v mps paths =
    (member-dead_sessions p (sessions_of v mps) paths, refl, refl)
