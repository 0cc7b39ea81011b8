-- ===== src/Rclone/Mounts.antt =====
-- pkg/rclone/mounts.go: the host's mount table, as mountinfo lists it.
pub mod Cache
pub mod Stacks
pub mod Escapes
pub mod Staleness
use mathlib.Core.Option
use lukscryptwalker_csi.Base.{
  ℕ, Bool, true, false, not, ◌&&◌, Option, none, some, List, [], ◌∷◌, ◌++◌, ◌==◌, if◌then◌else◌,
  length, is_some,
}
use lukscryptwalker_csi.Base.Bytes.{Bytes, codes, bytes_eq, contains}
use lukscryptwalker_csi.Base.Split.{split_at, fields}

pub record HostMount : Type 0 where
  pub dev : Bytes
  pub fs_type : Bytes

-- Mountpoints with the mounts stacked there, the topmost last. Go's map has no order.
abbrev pub Table : Type 0
Table = List (Bytes × List HostMount)

-- stacks[path], empty for a missing key
unfoldable pub stack_at : Bytes → Table → List HostMount
stack_at path [] = []
stack_at path ((p, mounts) ∷ t) = if bytes_eq p path then mounts else stack_at path t

-- out[path] = append(out[path], m)
unfoldable pub add_mount : Bytes → HostMount → Table → Table
add_mount path m [] = (path, m ∷ []) ∷ []
add_mount path m ((p, mounts) ∷ t) =
    if bytes_eq p path then (p, mounts ++ m ∷ []) ∷ t else (p, mounts) ∷ add_mount path m t

-- the replacements of unescapeMountField
pub escape_of : ℕ → ℕ → ℕ → ℕ → Option ℕ
escape_of a b c d =
    if bytes_eq (a ∷ b ∷ c ∷ d ∷ []) (codes "\\040")
    then some 32
    else if bytes_eq (a ∷ b ∷ c ∷ d ∷ []) (codes "\\011")
    then some 9
    else if bytes_eq (a ∷ b ∷ c ∷ d ∷ []) (codes "\\012")
    then some 10
    else if bytes_eq (a ∷ b ∷ c ∷ d ∷ []) (codes "\\134")
    then some 92
    else none

-- strings.NewReplacer: left to right, no overlaps
unfoldable pub replace_escapes : Bytes → Bytes
unfolding escape_of
replace_escapes (a ∷ b ∷ c ∷ d ∷ s) = elim (escape_of a b c d) [
  | some x ↦ x ∷ replace_escapes s
  | none ↦ a ∷ replace_escapes (b ∷ c ∷ d ∷ s)
]
replace_escapes (a ∷ b ∷ c ∷ []) = a ∷ b ∷ c ∷ []
replace_escapes (a ∷ b ∷ []) = a ∷ b ∷ []
replace_escapes (a ∷ []) = a ∷ []
replace_escapes [] = []

unfoldable pub unescape_mount_field : Bytes → Bytes
unfolding replace_escapes
unescape_mount_field s = if not (contains s (codes "\\")) then s else replace_escapes s

-- the field behind the first "-" that is not the last field
unfoldable pub fs_type_in : List Bytes → Option Bytes
fs_type_in (a ∷ b ∷ fs) = if bytes_eq a (codes "-") then some b else fs_type_in (b ∷ fs)
fs_type_in _ = none

mount_of_fields : List Bytes → Option (Bytes × HostMount)
unfolding fs_type_in unescape_mount_field
mount_of_fields (id ∷ parent ∷ dev ∷ root ∷ mount_point ∷ fs) =
    Option.map (λ t. (unescape_mount_field mount_point, record { dev = dev; fs_type = t }))
      (fs_type_in fs)
mount_of_fields _ = none

-- one line of mountinfo; `none` where the loop skips the line
unfoldable pub mount_of_line : Bytes → Option (Bytes × HostMount)
unfolding mount_of_fields
mount_of_line line = mount_of_fields (fields line)

add_entry : Option (Bytes × HostMount) → Table → Table
unfolding add_mount
add_entry none t = t
add_entry (some (path, m)) t = add_mount path m t

unfoldable pub add_lines : List Bytes → Table → Table
unfolding add_entry
add_lines [] t = t
add_lines (line ∷ lines) t = add_lines lines (add_entry (mount_of_line line) t)

unfoldable pub parse_mount_stacks : Bytes → Table
unfolding add_lines
parse_mount_stacks content = add_lines (split_at 10 content) []

-- mounts[len(mounts)-1]; `none` is the panic on an empty slice
unfoldable pub topmost : List HostMount → Option HostMount
topmost [] = none
topmost (m ∷ []) = some m
topmost (m ∷ n ∷ ms) = topmost (n ∷ ms)

unfoldable pub flatten_mount_stacks : Table → Option (List (Bytes × Bytes))
unfolding topmost
flatten_mount_stacks [] = some []
flatten_mount_stacks ((path, mounts) ∷ t) = elim (topmost mounts) [
  | none ↦ none
  | some m ↦ Option.map (λ flat. (path, m.fs_type) ∷ flat) (flatten_mount_stacks t)
]

-- HostFUSEMountState on an established table: what the topmost mount is decides
unfoldable pub is_fuse_at : Bytes → Table → Bool
unfolding topmost stack_at
is_fuse_at path t = elim (topmost (stack_at path t)) [
  | none ↦ false
  | some m ↦ contains m.fs_type (codes "fuse")
]

unfoldable pub mount_depth : Bytes → Table → ℕ
unfolding stack_at
mount_depth path t = length (stack_at path t)
