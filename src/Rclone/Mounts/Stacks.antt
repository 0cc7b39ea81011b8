-- ===== src/Rclone/Mounts/Stacks.antt =====
-- The table that parseMountStacks builds, against the list of its lines.
use mathlib.Core.List.{append-nil, append_assoc}
use lukscryptwalker_csi.Base.{
  false, ◌≡◌, ◌≢◌, refl, sym, ap, ◌∙◌, inl, inr, Option, none, some, List, [], ◌∷◌, ◌++◌, arith,
  if◌then◌else◌, All, Bool-cases,
}
use lukscryptwalker_csi.Base.Bytes.{Bytes, bytes_eq, bytes_eq→eq, bytes_eq_refl}
use lukscryptwalker_csi.Base.Split.{split_at}
use lukscryptwalker_csi.Rclone.Mounts.{
  HostMount, Table, stack_at, add_mount, mount_of_line, add_entry, add_lines, parse_mount_stacks,
  topmost, flatten_mount_stacks,
}

-- The mounts that the lines put at a path, in the order of the lines.
pub mount_at_line : Bytes → Option (Bytes × HostMount) → List HostMount
mount_at_line path none = []
mount_at_line path (some (q, m)) = if bytes_eq q path then m ∷ [] else []

pub mounts_at : Bytes → List Bytes → List HostMount
mounts_at path [] = []
mounts_at path (line ∷ lines) = mount_at_line path (mount_of_line line) ++ mounts_at path lines

stack_at-add_mount :
    (path q : Bytes) (m : HostMount) (t : Table)
    → stack_at path (add_mount q m t) ≡ stack_at path t ++ mount_at_line path (some (q, m))
unfolding stack_at add_mount mount_at_line
stack_at-add_mount path q m [] = ground arith
stack_at-add_mount path q m ((p, mounts) ∷ t) = elim (Bool-cases (bytes_eq p q)) [
  | inl same ↦
      let at_q : bytes_eq q path ≡ bytes_eq p path =
        ap (λ r. bytes_eq r path) (sym (bytes_eq→eq p q same)) in
      elim (Bool-cases (bytes_eq p path)) [
        | inl here ↦ rw (same, here, at_q, here)
        | inr there ↦ rw (same, there, at_q, there) (sym (append-nil (stack_at path t)))
      ]
  | inr other ↦ elim (Bool-cases (bytes_eq p path)) [
    | inl here ↦
        let q_there : bytes_eq q path ≡ false =
          ground (arith, bytes_eq→eq p path here, bytes_eq→eq q path, bytes_eq_refl path) in
        rw (other, here, q_there) (sym (append-nil mounts))
    | inr there ↦ rw (other, there) (stack_at-add_mount path q m t)
  ]
]

stack_at-add_entry :
    (path : Bytes) (e : Option (Bytes × HostMount)) (t : Table)
    → stack_at path (add_entry e t) ≡ stack_at path t ++ mount_at_line path e
unfolding add_entry
stack_at-add_entry path none t = unfold mount_at_line in sym (append-nil (stack_at path t))
stack_at-add_entry path (some (q, m)) t = stack_at-add_mount path q m t

stack_at-add_lines :
    (path : Bytes) (lines : List Bytes) (t : Table)
    → stack_at path (add_lines lines t) ≡ stack_at path t ++ mounts_at path lines
unfolding add_lines mounts_at
stack_at-add_lines path [] t = sym (append-nil (stack_at path t))
stack_at-add_lines path (line ∷ lines) t =
    stack_at-add_lines path lines (add_entry (mount_of_line line) t)
    ∙ ap (λ s. s ++ mounts_at path lines) (stack_at-add_entry path (mount_of_line line) t)
    ∙ append_assoc (stack_at path t) _ _

-- The stack at a path is the list of the mounts that the lines of mountinfo put there, in their order:
-- none is lost or reordered, whatever other mountpoints stand between them.
pub stack_at-parse :
    (path content : Bytes)
    → stack_at path (parse_mount_stacks content) ≡ mounts_at path (split_at 10 content)
unfolding parse_mount_stacks mounts_at stack_at
stack_at-parse path content = stack_at-add_lines path (split_at 10 content) []

abbrev HasMounts : Bytes × List HostMount → Type 0
HasMounts e = e.1 ≢ []

snoc-ne : (ms : List HostMount) (m : HostMount) → ms ++ m ∷ [] ≢ []
snoc-ne [] m e = cc
snoc-ne (n ∷ ms) m e = cc

add_mount-HasMounts :
    (q : Bytes) (m : HostMount) (t : Table) → All HasMounts t → All HasMounts (add_mount q m t)
unfolding add_mount
add_mount-HasMounts q m [] h = (λ e. cc, tt)
add_mount-HasMounts q m ((p, mounts) ∷ t) h = elim (Bool-cases (bytes_eq p q)) [
  | inl e ↦ rw e (snoc-ne mounts m, h.1)
  | inr e ↦ rw e (h.0, add_mount-HasMounts q m t h.1)
]

add_entry-HasMounts :
    (e : Option (Bytes × HostMount)) (t : Table) → All HasMounts t → All HasMounts (add_entry e t)
unfolding add_entry
add_entry-HasMounts none t h = h
add_entry-HasMounts (some (q, m)) t h = add_mount-HasMounts q m t h

add_lines-HasMounts :
    (lines : List Bytes) (t : Table) → All HasMounts t → All HasMounts (add_lines lines t)
unfolding add_lines
add_lines-HasMounts [] t h = h
add_lines-HasMounts (line ∷ lines) t h =
    add_lines-HasMounts lines _ (add_entry-HasMounts (mount_of_line line) t h)

topmost-some : (ms : List HostMount) → ms ≢ [] → (m : HostMount) × (topmost ms ≡ some m)
unfolding topmost
topmost-some [] h = absurd (h refl)
topmost-some (m ∷ []) h = (m, refl)
topmost-some (m ∷ n ∷ ms) h = topmost-some (n ∷ ms) (λ e. cc)

-- The topmost mount at each path, with its type.
abbrev pub IsTopmost : Table → List (Bytes × Bytes) → Type 0
IsTopmost [] [] = Unit
IsTopmost ((path, mounts) ∷ t) ((p, fs_type) ∷ flat) =
    (p ≡ path)
    × ((m : HostMount) × (topmost mounts ≡ some m) × (m.fs_type ≡ fs_type))
    × IsTopmost t flat
IsTopmost _ _ = ⊥

flatten_total :
    (t : Table)
    → All HasMounts t
    → (flat : List (Bytes × Bytes)) × (flatten_mount_stacks t ≡ some flat) × IsTopmost t flat
unfolding flatten_mount_stacks
flatten_total [] h = ([], refl, tt)
flatten_total ((path, mounts) ∷ t) h =
    let (m, e) = topmost-some mounts h.0 in
    let (flat, f, top) = flatten_total t h.1 in
    ((path, m.fs_type) ∷ flat, rw (e, flatten_mount_stacks, f), (refl, (m, e, refl), top))

-- flattenMountStacks never indexes an empty slice on a parsed table: it returns, for every mountpoint,
-- the type of the mount that was listed there last.
pub flatten-parse :
    (content : Bytes)
    → (flat : List (Bytes × Bytes)) × (flatten_mount_stacks (parse_mount_stacks content)
        ≡ some flat)
      × IsTopmost (parse_mount_stacks content) flat
unfolding parse_mount_stacks
flatten-parse content = flatten_total _ (add_lines-HasMounts (split_at 10 content) [] tt)
