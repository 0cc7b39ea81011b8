-- ===== src/Rclone/Exclusive.antt =====
-- pkg/rclone/syncmanager.go: the names rclone has VFSes under, and the generation a mount takes. What
-- vfs/list and the shut-down of sessions answer at each turn of the loop is what the world shows.
pub mod Generation
use lukscryptwalker_csi.Base.{
  ℕ, zero, suc, ◌+◌, Bool, true, false, not, ◌&&◌, Option, none, some, List, [], ◌∷◌, ltb, leb,
  ◌==◌, if◌then◌else◌,
}
use lukscryptwalker_csi.Base.Bytes.{Bytes, codes}
use lukscryptwalker_csi.Base.Cut.{cut}
use lukscryptwalker_csi.Base.Dict.{Dict, lookup, put}
use lukscryptwalker_csi.Rclone.VfsName.{vfs_name_for}

-- maxVFSGenerations
abbrev pub max_vfs_generations : ℕ
max_vfs_generations = 16

abbrev pub zero_or : Option ℕ → ℕ
zero_or none = 0
zero_or (some n) = n

-- counts[name]++
unfoldable pub count_name : Option (Bytes × Bytes) → Dict ℕ → Dict ℕ
count_name none counts = counts
count_name (some (name, rest)) counts = put name (suc (zero_or (lookup name counts))) counts

-- The loop of RegisteredVFSNames; an entry that is no string is `none`
unfoldable pub count_vfses : List (Option Bytes) → Dict ℕ → Dict ℕ
unfolding count_name cut
count_vfses [] counts = counts
count_vfses (none ∷ ns) counts = count_vfses ns counts
count_vfses (some s ∷ ns) counts = count_vfses ns (count_name (cut s (codes ":")) counts)

-- RegisteredVFSNames; `none` where vfs/list brings no list of names
unfoldable pub registered_vfs_names : Option (List (Option Bytes)) → Option (Dict ℕ)
unfolding count_vfses
registered_vfs_names none = none
registered_vfs_names (some ns) = some (count_vfses ns [])

-- countRegisteredVFS for the name a generation has: crypt config and VFS carry the same one
unfoldable pub count_registered_vfs : Bytes → ℕ → Option (List (Option Bytes)) → Option ℕ
unfolding registered_vfs_names
count_registered_vfs v generation vfses = elim (registered_vfs_names vfses) [
  | none ↦ none
  | some counts ↦ some (zero_or (lookup (vfs_name_for v generation) counts))
]

-- One turn of the loop: vfs/list when it starts, how many sessions ShutdownSessions ended, and
-- vfs/list after that.
pub record Turn : Type 0 where
  pub listed : Option (List (Option Bytes))
  pub ended : ℕ
  pub relisted : Option (List (Option Bytes))

-- !ok || count == 0
abbrev pub unknown_or_zero : Option ℕ → Bool
unknown_or_zero none = true
unknown_or_zero (some n) = n == 0

pub data Outcome : Type 0 where
  takes : ℕ → Outcome
  refuses : ℕ → Outcome

-- The end of a turn at which the name is known to be taken
unfoldable pub is_released : Bytes → ℕ → Turn → Bool
unfolding count_registered_vfs
is_released v generation t =
    ltb 0 t.ended && unknown_or_zero (count_registered_vfs v generation t.relisted)

-- What a turn decides: the mount goes ahead, is refused, or takes the next generation.
pub data Decision : Type 0 where
  mounts : Decision
  gives_up : Decision
  bumps : Decision

unfoldable pub decide : Bytes → ℕ → ℕ → Turn → Decision
unfolding count_registered_vfs is_released
decide v generation bumped t = elim (count_registered_vfs v generation t.listed) [
  | none ↦ if ltb 0 bumped then mounts else bumps
  | some count ↦
      if count == 0
      then mounts
      else if is_released v generation t
      then mounts
      else if leb max_vfs_generations bumped
      then gives_up
      else bumps
]

-- ensureExclusiveVFSName from turn `bumped` on, on fuel; `none` is out of fuel. bumpGeneration is the
-- step to suc generation.
unfoldable pub ensure_exclusive_from : ℕ → Bytes → (ℕ → Turn) → ℕ → ℕ → Option Outcome
unfolding decide
ensure_exclusive_from zero v world generation bumped = none
ensure_exclusive_from (suc fuel) v world generation bumped =
    elim (decide v generation bumped (world bumped)) [
      | mounts ↦ some (takes generation)
      | gives_up ↦ some (refuses generation)
      | bumps ↦ ensure_exclusive_from fuel v world (suc generation) (suc bumped)
    ]

-- ensureExclusiveVFSName: sixteen bumps make seventeen turns
unfoldable pub ensure_exclusive_vfs_name : Bytes → (ℕ → Turn) → ℕ → Option Outcome
unfolding ensure_exclusive_from
ensure_exclusive_vfs_name v world generation =
    ensure_exclusive_from (suc max_vfs_generations) v world generation 0
