-- ===== src/Driver/Luks/Calls.antt =====
-- Sequences of fallible operations: what holds of the commands that each runs holds of all.
use lukscryptwalker_csi.Base.{
  ℕ, ◌≡◌, refl, sym, inl, inr, Bool, true, false, not, ◌&&◌, ◌||◌, Option, none, some, List, [],
  ◌∷◌, ◌++◌, All, any, arith, ltb, Bool-cases, or_false, and_false, ◌⊎◌,
}
use lukscryptwalker_csi.Base.Bytes.{Bytes, trim_space}
use lukscryptwalker_csi.Base.Decimal.{ℤ, parse_int}
use lukscryptwalker_csi.Driver.Luks.{
  DeviceCall, allocates, truncates, removes_file, mounts, unmounts, chowns, chmods, Done, and_then,
  FileWorld, BackingWorld, FileStat, absent, unreadable, sized, min_backing_size,
  is_pinned_elsewhere, may_truncate, create_backing_file, ensure_backing_file, FsWorld,
  format_device, mount_device, apply_fs_group, mount_and_configure,
}

pub All-append {ℓ κ} :
    {A : Type ℓ} (P : A → Type κ) (xs ys : List A) → All P xs → All P ys → All P (xs ++ ys)
All-append P [] ys px py = py
All-append P (x ∷ xs) ys px py = (px.0, All-append P xs ys px.1 py)

pub and_then-All {κ} :
    (P : DeviceCall → Type κ) (d e : Done) → All P d.1 → All P e.1 → All P (and_then d e).1
unfolding and_then
and_then-All P (true, calls) e p q = All-append P calls e.1 p q
and_then-All P (false, calls) e p q = p

pub any-append {ℓ} :
    {A : Type ℓ} (p : A → Bool) (xs ys : List A) → any p (xs ++ ys) ≡ (any p xs || any p ys)
unfolding any
any-append p [] ys = refl
any-append p (x ∷ xs) ys = let rest = any-append p xs ys in ground arith

pub any-and_then :
    (p : DeviceCall → Bool) (d e : Done)
    → any p (and_then d e).1 ≡ (any p d.1 || (d.0 && any p e.1))
unfolding and_then
any-and_then p (true, calls) e = any-append p calls e.1
any-and_then p (false, calls) e = sym (or_false (any p calls))

pub FileStat-cases : (s : FileStat) → ((s ≡ absent) ⊎ (s ≡ unreadable)) ⊎ ((n : ℕ) × (s ≡ sized n))
FileStat-cases absent = inl (inl refl)
FileStat-cases unreadable = inl (inr refl)
FileStat-cases (sized n) = inr (n, refl)

-- A test that no command on a file passes, and one that no command on a file system passes.
pub record FreeOfFiles (p : DeviceCall → Bool) : Type 0 where
  pub no_allocate : (f : Bytes) → p (allocates f) ≡ false
  pub no_truncate : (f : Bytes) → p (truncates f) ≡ false

pub record FreeOfMounts (p : DeviceCall → Bool) : Type 0 where
  pub no_mount : (d t : Bytes) → p (mounts d t) ≡ false
  pub no_unmount : (t : Bytes) → p (unmounts t) ≡ false
  pub no_chown : (g : ℤ) (t : Bytes) → p (chowns g t) ≡ false
  pub no_chmod : (m t : Bytes) → p (chmods m t) ≡ false

pub free-and_then :
    (p : DeviceCall → Bool) (d e : Done)
    → any p d.1 ≡ false
    → any p e.1 ≡ false
    → any p (and_then d e).1 ≡ false
free-and_then p d e no_first no_rest = rw (any-and_then p d e, no_first, no_rest) (and_false d.0)

pub free_one : (p : DeviceCall → Bool) (c : DeviceCall) → p c ≡ false → any p (c ∷ []) ≡ false
unfolding any
free_one p c h = rw h refl

pub create_free :
    (p : DeviceCall → Bool) (w : FileWorld) (file size : Bytes)
    → FreeOfFiles p
    → any p (create_backing_file w file size).1 ≡ false
unfolding create_backing_file any
create_free p w file size free =
    let a = free.no_allocate file in
    let t = free.no_truncate file in
    let refused = not (may_truncate w.available (parse_int (trim_space size))) in
    free-and_then p _ (w.stat_after, [])
      (elim (Bool-cases w.allocated) [
        | inl done ↦ rw (done, a) refl
        | inr not_done ↦ elim (Bool-cases refused) [
          | inl bad ↦ rw (not_done, bad, a) refl
          | inr good ↦ rw (not_done, good, a, t) refl
        ]
      ])
      refl

-- A backing file's check runs nothing that a test free of these finds, unless it removes the file.
pub backing_free :
    (p : DeviceCall → Bool) (w : BackingWorld) (file size pinned node_id : Bytes)
    → FreeOfFiles p
    → p (removes_file file) ≡ false
    → any p (ensure_backing_file w file size pinned node_id).1 ≡ false
unfolding ensure_backing_file any
backing_free p w file size pinned node_id free kept =
    let created = create_free p w.file file size free in
    elim (FileStat-cases w.stat) [
      | inl (inl e) ↦ elim (Bool-cases (is_pinned_elsewhere pinned node_id)) [
        | inl away ↦ rw (e, ensure_backing_file, away) refl
        | inr here ↦ rw (e, ensure_backing_file, here) created
      ]
      | inl (inr e) ↦ rw (e, ensure_backing_file) refl
      | inr (n, e) ↦ elim (Bool-cases (ltb n min_backing_size)) [
        | inl small ↦
            rw (e, ensure_backing_file, small)
              (free-and_then p (w.removed, removes_file file ∷ []) _ (free_one p _ kept) created)
        | inr big ↦ rw (e, ensure_backing_file, big) refl
      ]
    ]

apply_free :
    (p : DeviceCall → Bool) (w : FsWorld) (target mode : Bytes) (gid : Option ℤ)
    → FreeOfMounts p
    → any p (apply_fs_group w target gid mode).1 ≡ false
unfolding apply_fs_group any
apply_free p w target mode none free = refl
apply_free p w target mode (some gid) free =
    free-and_then p _ _ (free_one p _ (free.no_chown gid target))
      (free_one p _ (free.no_chmod mode target))

mount_free :
    (p : DeviceCall → Bool) (w : FsWorld) (device target : Bytes) (fs : Option Bytes)
    → FreeOfMounts p
    → any p (mount_device w device target fs).1 ≡ false
unfolding mount_device any
mount_free p w device target none free = refl
mount_free p w device target (some fs) free =
    let m = free.no_mount device target in
    let u = free.no_unmount target in
    elim (Bool-cases w.is_mount_point) [
      | inl there ↦ elim (Bool-cases w.mounted_from) [
        | inl ours ↦ rw (there, ours) refl
        | inr other ↦ elim (Bool-cases w.dir_made) [
          | inl made ↦
              rw (there, other, made) (free-and_then p _ _ (free_one p _ u) (free_one p _ m))
          | inr unmade ↦
              rw (there, other, unmade) (free-and_then p _ (false, []) (free_one p _ u) refl)
        ]
      ]
      | inr clear ↦ elim (Bool-cases w.dir_made) [
        | inl made ↦ rw (clear, made) (free-and_then p (true, []) _ refl (free_one p _ m))
        | inr unmade ↦ rw (clear, unmade) (free-and_then p (true, []) (false, []) refl refl)
      ]
    ]

pub ok-and_then : (d e : Done) → (and_then d e).0 ≡ (d.0 && e.0)
unfolding and_then
ok-and_then (true, calls) e = refl
ok-and_then (false, calls) e = refl

-- What mounting and configuring runs is what formatting runs, for a test free of mounts.
pub configure_any :
    (p : DeviceCall → Bool) (w : FsWorld) (device target mode : Bytes) (fs : Option Bytes)
    (gid : Option ℤ)
    → FreeOfMounts p
    → any p (mount_and_configure w device target fs gid mode).1
      ≡ any p (format_device w device fs).1
unfolding mount_and_configure
configure_any p w device target mode fs gid free =
    let none_after =
      free-and_then p (mount_device w device target fs) (apply_fs_group w target gid mode)
        (mount_free p w device target fs free) (apply_free p w target mode gid free) in
    rw
      (
        any-and_then p (format_device w device fs)
            (and_then (mount_device w device target fs) (apply_fs_group w target gid mode)),
        none_after,
        and_false (format_device w device fs).0,
      )
      (or_false (any p (format_device w device fs).1))
