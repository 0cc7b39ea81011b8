-- ===== src/Driver/Stage/Formats.antt =====
-- When NodeStageVolume destroys what a device or a file holds.
use mathlib.Core.Path.{subst}
use lukscryptwalker_csi.Base.{
  ◌≡◌, refl, sym, inl, inr, Bool, true, false, not, ◌&&◌, ◌||◌, Option, none, some, List, [], any,
  is_some, arith, Bool-cases, Option-cases, and_false,
}
use lukscryptwalker_csi.Base.Bytes.{Bytes, bytes_eq}
use lukscryptwalker_csi.Driver.Luks.{DeviceCall, Done, is_luks_device}
use lukscryptwalker_csi.Driver.Setup.{MountState}
use lukscryptwalker_csi.Driver.Stage.{
  StageWorld, StageRequest, StageResult, staged, aborted, invalid_argument, replies, is_s3_backend,
  is_volume_staged, already_staged, stage_luks, stage_with, node_stage_volume, luks_result,
}
use lukscryptwalker_csi.Driver.Stage.Runs.{
  is_luks_format, is_mkfs, is_removal, is_prepared, is_undersized, lacks_fs, opens_mapper,
  one_of-Finds, stage-any, file_free, file-undersized,
}
use lukscryptwalker_csi.Driver.Stage.Ends.{stage_s3-returns}

-- A valid request for a LUKS volume that is not staged.
unfoldable pub needs_luks : StageWorld → StageRequest → Bool
needs_luks w r =
    not (bytes_eq r.volume_id [] || bytes_eq r.staging [])
    && (is_some r.capability && (not (is_s3_backend r.context) && not (is_volume_staged w)))

abbrev pub Formats : StageWorld → StageRequest → Option (Option Bytes) → List DeviceCall → Type 0
Formats w r fs calls =
    (any is_luks_format calls
      ≡ (needs_luks w r && (is_prepared w r && not (is_luks_device w.luks))))
    × (any is_mkfs calls
        ≡ (needs_luks w r && (is_prepared w r && (opens_mapper w r && lacks_fs w.fs fs))))
    × (any is_removal calls ≡ (needs_luks w r && (w.local_made && is_undersized w.backing.stat)))

formatting :
    (m p n o l : Bool) → ((m && false) || (p && ((n && true) || (o && (l && false))))) ≡ (p && n)
formatting m p n o l = ground arith

making :
    (m p n o l : Bool)
    → ((m && false) || (p && ((n && false) || (o && (l && true))))) ≡ (p && (o && l))
making m p n o l = ground arith

removing :
    (m u p n o l : Bool) → ((m && u) || (p && ((n && false) || (o && (l && false))))) ≡ (m && u)
removing m u p n o l = ground arith

-- On the LUKS branch itself.
luks-Formats :
    (w : StageWorld) (r : StageRequest) (fs : Option Bytes)
    → needs_luks w r ≡ true
    → Formats w r (some fs) (stage_luks w r fs).1
luks-Formats w r fs needed =
    let m = w.local_made in
    let p = is_prepared w r in
    let n = not (is_luks_device w.luks) in
    let o = opens_mapper w r in
    let l = lacks_fs w.fs (some fs) in
    (
      rw
          (
            needed,
            stage-any is_luks_format true false w r fs (one_of-Finds true false false),
            file_free true false w r,
          )
          (formatting m p n o l),
      rw
          (
            needed,
            stage-any is_mkfs false true w r fs (one_of-Finds false true false),
            file_free false true w r,
          )
          (making m p n o l),
      rw
          (
            needed,
            stage-any is_removal false false w r fs (one_of-Finds false false true),
            file-undersized w r,
          )
          (removing m (is_undersized w.backing.stat) p n o l),
    )

idle-Formats :
    (w : StageWorld) (r : StageRequest) (fs : Option (Option Bytes))
    → needs_luks w r ≡ false
    → Formats w r fs []
unfolding any
idle-Formats w r fs h = (rw h refl, rw h refl, rw h refl)

result-calls :
    (w : StageWorld) (r : StageRequest) (fs : Option Bytes) (s : MountState) (d : Done)
    → (luks_result d s).calls ≡ d.1
result-calls w r fs s (true, calls) = refl
result-calls w r fs s (false, calls) = refl

not_needed-s3 :
    (w : StageWorld) (r : StageRequest) → is_s3_backend r.context ≡ true → needs_luks w r ≡ false
unfolding needs_luks
not_needed-s3 w r s3 =
    rw (s3, and_false (is_some r.capability))
      (and_false (not (bytes_eq r.volume_id [] || bytes_eq r.staging [])))

not_needed-staged :
    (w : StageWorld) (r : StageRequest)
    → is_s3_backend r.context ≡ false
    → is_volume_staged w ≡ true
    → needs_luks w r ≡ false
unfolding needs_luks
not_needed-staged w r luks ours =
    rw (luks, ours, and_false (is_some r.capability))
      (and_false (not (bytes_eq r.volume_id [] || bytes_eq r.staging [])))

not_needed-empty :
    (w : StageWorld) (r : StageRequest)
    → (bytes_eq r.volume_id [] || bytes_eq r.staging []) ≡ true
    → needs_luks w r ≡ false
unfolding needs_luks
not_needed-empty w r empty = rw empty refl

not_needed-bare :
    (w : StageWorld) (r : StageRequest)
    → (bytes_eq r.volume_id [] || bytes_eq r.staging []) ≡ false
    → r.capability ≡ none
    → needs_luks w r ≡ false
unfolding needs_luks
not_needed-bare w r given e = simp (given, e) refl

needed :
    (w : StageWorld) (r : StageRequest) (fs : Option Bytes)
    → r.capability ≡ some fs
    → (bytes_eq r.volume_id [] || bytes_eq r.staging []) ≡ false
    → is_s3_backend r.context ≡ false
    → is_volume_staged w ≡ false
    → needs_luks w r ≡ true
unfolding needs_luks
needed w r fs e given luks fresh = simp (given, e, luks, fresh) refl

-- On the S3 branch, whatever isAlreadyStaged answers.
s3-idle :
    (o : Option Bool) (w : StageWorld) (r : StageRequest) (fs : Option Bytes) (s : MountState)
    → is_s3_backend r.context ≡ true
    → (res : StageResult) × (stage_with o w r fs s ≡ some res) × (res.calls ≡ [])
unfolding stage_with
s3-idle none w r fs s s3 = (replies aborted [] s, refl, refl)
s3-idle (some true) w r fs s s3 = (replies staged [] s, refl, refl)
s3-idle (some false) w r fs s s3 =
    let (res, e, none_run, managed, clear) = stage_s3-returns w r s in (res, rw s3 e, none_run)

stage_with-Formats :
    (w : StageWorld) (r : StageRequest) (fs : Option Bytes) (s : MountState)
    → r.capability ≡ some fs
    → (bytes_eq r.volume_id [] || bytes_eq r.staging []) ≡ false
    → (res : StageResult) × (stage_with (already_staged w r) w r fs s ≡ some res)
      × Formats w r (some fs) res.calls
unfolding stage_with already_staged
stage_with-Formats w r fs s e given = elim (Bool-cases (is_s3_backend r.context)) [
  | inl s3 ↦
      let (res, f, none_run) = s3-idle (already_staged w r) w r fs s s3 in
      (res, f, rw none_run (idle-Formats w r (some fs) (not_needed-s3 w r s3)))
  | inr luks ↦ elim (Bool-cases (is_volume_staged w)) [
    | inl ours ↦ (
      replies staged [] s,
      rw (luks, ours) refl,
      idle-Formats w r (some fs) (not_needed-staged w r luks ours),
    )
    | inr fresh ↦ (
      luks_result (stage_luks w r fs) s,
      rw (luks, fresh, stage_with, luks) refl,
      rw (result-calls w r fs s (stage_luks w r fs))
          (luks-Formats w r fs (needed w r fs e given luks fresh)),
    )
  ]
]

-- NodeStageVolume formats a backing file exactly for a valid request on a LUKS volume that is not staged,
-- whose backing file and passphrase are at hand, when isLuks does not exit with zero (running out of its
-- time counts as that); it makes a file system exactly when, besides, the mapper was opened, blkid found
-- none, and the type is one of the three it knows; and it removes a backing file exactly when that is
-- smaller than 16 MiB and its directory could be made. S3 volumes never meet any of this.
pub node_stage_volume-Formats :
    (w : StageWorld) (r : StageRequest) (s : MountState)
    → (res : StageResult) × (node_stage_volume w r s ≡ some res)
      × Formats w r r.capability res.calls
unfolding node_stage_volume
node_stage_volume-Formats w r s =
    let invalid = replies invalid_argument [] s in
    elim (Bool-cases (bytes_eq r.volume_id [] || bytes_eq r.staging [])) [
      | inl empty ↦
          (invalid, rw empty refl, idle-Formats w r r.capability (not_needed-empty w r empty))
      | inr given ↦ elim (Option-cases r.capability) [
        | inl e ↦ (
          invalid,
          simp (given, e) refl,
          idle-Formats w r r.capability (not_needed-bare w r given e),
        )
        | inr (fs, e) ↦
            let (res, f, formats) = stage_with-Formats w r fs s e given in
            (res, simp (given, e) f, subst (λ c. Formats w r c res.calls) (sym e) formats)
      ]
    ]
