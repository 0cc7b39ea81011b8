-- ===== src/Driver/Luks/Expand/Layers.antt =====
-- The order of an expansion's layers.
use lukscryptwalker_csi.Base.{
  ℕ, ◌==◌, ◌≡◌, refl, inl, inr, Bool, true, false, not, ◌&&◌, ◌||◌, Option, none, some, List, [],
  ◌∷◌, ◌++◌, All, Bool-cases, Option-cases, if◌then◌else◌, any, ap,
}
use lukscryptwalker_csi.Base.Bytes.{Bytes, bytes_eq, trim_space}
use lukscryptwalker_csi.Base.Decimal.{ℤ, pos}
use lukscryptwalker_csi.Driver.Luks.{
  less, ensure_free_space, DeviceCall, resizes_luks, grows_fs, refreshes_loop, Done, and_then,
  run_cryptsetup,
}
use lukscryptwalker_csi.Driver.Luks.Calls.{and_then-All}
use lukscryptwalker_csi.Driver.Luks.Expand.Climbing.{
  push_layer, layers, begins, Climbs, and_then-Climbs, either_way,
}
use lukscryptwalker_csi.Driver.Luks.Expand.{
  ExpandWorld, ExpandRequest, ExpandStatus, expanded, invalid_argument, failed_precondition,
  internal, expand_backing_file, refresh_named, refresh_loop_device, resize_luks, mapper_reached,
  grow_target, resize_filesystem, perform_volume_expansion, requested_bytes, expand_known,
  expand_result, node_expand_volume, resize_target, sub_int64, size_or_zero, has_size,
}

abbrev is_growing : DeviceCall → Bool
is_growing c = elim c [ grows_fs t ↦ true | _ ↦ false ]

-- The file system grows only where the test is true.
abbrev pub IsGuarded : Bool → DeviceCall → Type 0
IsGuarded ok c = (is_growing c && not ok) ≡ false

abbrev Step : List ℕ → Bool → Done → Type 0
Step chain ok d = Climbs chain d × All (IsGuarded ok) d.1

and_then-Step :
    (xs ys : List ℕ) (ok : Bool) (d e : Done)
    → Step xs ok d
    → Step ys ok e
    → Step (xs ++ ys) ok (and_then d e)
and_then-Step xs ys ok d e p q =
    (and_then-Climbs xs ys d e p.0 q.0, and_then-All (IsGuarded ok) d e p.1 q.1)

file-Step :
    (w : ExpandWorld) (file : Bytes) (want : ℤ) (ok : Bool)
    → Step [] ok (expand_backing_file w file want)
unfolding expand_backing_file layers begins
file-Step w file want ok =
    let delta = sub_int64 want (size_or_zero w.size_again) in
    let tries = less (pos 0) delta && not (ensure_free_space w.available delta) in
    elim (Bool-cases (has_size w.size want)) [
      | inl a ↦ rw a (refl, tt)
      | inr a ↦ elim (Bool-cases w.allocated) [
        | inl b ↦ simp (a, b) (refl, (refl, tt))
        | inr b ↦ elim (Bool-cases tries) [
          | inl c ↦ simp (a, b, c) (refl, (refl, tt))
          | inr c ↦ simp (a, b, c) (either_way w.truncated [] _ refl refl, (refl, (refl, tt)))
        ]
      ]
    ]

named-Step :
    (refreshed : Bool) (o : Option Bytes) (ok : Bool) → Step (1 ∷ []) ok (refresh_named refreshed o)
unfolding refresh_named layers begins
named-Step refreshed none ok = (refl, tt)
named-Step refreshed (some device) ok = (either_way refreshed (1 ∷ []) _ refl refl, (refl, tt))

loop-Step : (w : ExpandWorld) (ok : Bool) → Step (1 ∷ []) ok (refresh_loop_device w)
unfolding refresh_loop_device layers begins
loop-Step w ok = elim (Option-cases w.loops) [
  | inl e ↦ rw e (refl, tt)
  | inr (output, e) ↦ elim (Bool-cases (bytes_eq (trim_space output) [])) [
    | inl a ↦ rw (e, refresh_loop_device, a) (refl, tt)
    | inr a ↦ rw (e, refresh_loop_device, a) (named-Step w.refreshed _ ok)
  ]
]

resize-Step :
    (w : ExpandWorld) (mapper : Bytes) (ok : Bool) → Step (2 ∷ []) ok (resize_luks w mapper)
unfolding resize_luks layers begins
resize-Step w mapper ok = elim (Bool-cases (not w.has_passphrase || not w.opened_again)) [
  | inl a ↦ rw a (refl, tt)
  | inr a ↦ rw a (either_way (run_cryptsetup w.resize) (2 ∷ []) _ refl refl, (refl, tt))
]

target-Step : (grown : Bool) (o : Option Bytes) → Step (3 ∷ []) true (grow_target grown o)
unfolding grow_target layers begins
target-Step grown none = (refl, tt)
target-Step grown (some target) = (either_way grown (3 ∷ []) _ refl refl, (refl, tt))

grow-Step :
    (w : ExpandWorld) (device path : Bytes) (want : ℤ)
    → Step (3 ∷ []) (mapper_reached w.mapped_size want) (
        if not (mapper_reached w.mapped_size want)
        then (false, [])
        else resize_filesystem w device path)
unfolding resize_filesystem layers begins
grow-Step w device path want = elim (Bool-cases (mapper_reached w.mapped_size want)) [
  | inl big ↦ rw big (elim (Option-cases w.fs_type) [
    | inl e ↦ rw e (refl, tt)
    | inr (fs, e) ↦ rw e (target-Step w.grown (resize_target (trim_space fs) device path))
  ])
  | inr small ↦ rw small (refl, tt)
]

perform-Step :
    (w : ExpandWorld) (local_path v path : Bytes) (want : ℤ)
    → Step
        (1 ∷ 2 ∷ 3 ∷ [])
        (mapper_reached w.mapped_size want)
        (perform_volume_expansion w local_path v path want)
unfolding perform_volume_expansion
perform-Step w local_path v path want =
    let ok = mapper_reached w.mapped_size want in
    and_then-Step [] (1 ∷ 2 ∷ 3 ∷ []) ok _ _ (file-Step w _ want ok) (
      and_then-Step (1 ∷ []) (2 ∷ 3 ∷ []) ok _ _ (loop-Step w ok)
        (and_then-Step (2 ∷ []) (3 ∷ []) ok _ _ (resize-Step w _ ok) (grow-Step w _ path want)))

-- What each answer says of the commands that were run.
abbrev pub Answers : ExpandWorld → ℤ → ExpandStatus × List DeviceCall → Type 0
Answers w want (expanded n, calls) =
    (n ≡ want) × (layers calls ≡ 1 ∷ 2 ∷ 3 ∷ []) × (mapper_reached w.mapped_size want ≡ true)
Answers w want (internal, calls) = begins (layers calls) (1 ∷ 2 ∷ 3 ∷ []) ≡ true
Answers w want (invalid_argument, calls) = calls ≡ []
Answers w want (failed_precondition, calls) = calls ≡ []

abbrev pub wanted : Option (ℤ × ℤ) → ℤ
wanted none = pos 0
wanted (some range) = requested_bytes range

abbrev is_three : ℕ → Bool
is_three n = n == 3

ungrown :
    (calls : List DeviceCall) → All (IsGuarded false) calls → any is_three (layers calls) ≡ false
unfolding layers any
ungrown [] guarded = refl
ungrown (c ∷ cs) guarded =
    let rest = ungrown cs guarded.1 in
    elim c as (λ k. IsGuarded false k → any is_three (push_layer k (layers cs)) ≡ false) [
      | refreshes_loop d ↦ λ g. rest
      | resizes_luks m ↦ λ g. rest
      | grows_fs t ↦ λ g. g
      | _ ↦ λ g. rest
    ]
      guarded.0

grown_guarded :
    (ok : Bool) (calls : List DeviceCall)
    → layers calls ≡ 1 ∷ 2 ∷ 3 ∷ []
    → All (IsGuarded ok) calls
    → ok ≡ true
unfolding any
grown_guarded true calls h guarded = refl
grown_guarded false calls h guarded =
    let grows = ap (any is_three) h in let idle = ungrown calls guarded in cc

result-Answers :
    (w : ExpandWorld) (want : ℤ) (d : Done)
    → Step (1 ∷ 2 ∷ 3 ∷ []) (mapper_reached w.mapped_size want) d
    → All (IsGuarded (mapper_reached w.mapped_size want)) (expand_result want d).1
      × Answers w want (expand_result want d)
result-Answers w want (true, calls) s =
    (s.1, (refl, s.0, grown_guarded (mapper_reached w.mapped_size want) calls s.0 s.1))
result-Answers w want (false, calls) s = (s.1, s.0)

-- NodeExpandVolume works upwards: whatever it has run on the layers above the backing file is a beginning of
-- loop device, mapper, file system; an answer of success means all three, one for each layer, in this order,
-- and reports the size that was requested (the limit where no size is required); a refused request runs
-- nothing; and the file system is resized only where the mapper was seen to have the requested size less
-- 64 MiB.
pub node_expand_volume-Answers :
    (w : ExpandWorld) (local_path : Bytes) (r : ExpandRequest)
    → All
        (IsGuarded (mapper_reached w.mapped_size (wanted r.capacity)))
        (node_expand_volume w local_path r).1
      × Answers w (wanted r.capacity) (node_expand_volume w local_path r)
unfolding node_expand_volume expand_known
node_expand_volume-Answers w local_path r =
    elim (Bool-cases (bytes_eq r.volume_id [] || bytes_eq r.volume_path [])) [
      | inl a ↦ rw a (tt, refl)
      | inr a ↦ elim (Option-cases r.capacity) [
        | inl e ↦ simp (a, e) (tt, refl)
        | inr (range, e) ↦ elim (Bool-cases (not w.parameters_found || not w.opened)) [
          | inl b ↦ simp (a, e, b) (tt, refl)
          | inr b ↦
              simp (a, e, b)
                (result-Answers w (requested_bytes range) _
                  (perform-Step w local_path r.volume_id r.volume_path (requested_bytes range)))
        ]
      ]
    ]
