-- ===== src/Driver/Stage/Ends.antt =====
-- What NodeStageVolume leaves, and what its success says.
use lukscryptwalker_csi.Base.{
  ◌≡◌, refl, inl, inr, Bool, true, false, not, ◌&&◌, ◌||◌, Option, some, List, [], is_some,
  Bool-cases, Option-cases, if◌then◌else◌,
}
use lukscryptwalker_csi.Base.Bytes.{Bytes, bytes_eq, bytes_eq_refl}
use lukscryptwalker_csi.Base.Dict.{lookup}
use lukscryptwalker_csi.Base.Sets.{member, insert, remove, member-remove}
use lukscryptwalker_csi.Driver.Luks.{Done}
use lukscryptwalker_csi.Driver.Reconcile.{setup_complete}
use lukscryptwalker_csi.Driver.Publish.{verify_s3_staging_live, is_already_staged}
use lukscryptwalker_csi.Driver.Setup.{MountState}
use lukscryptwalker_csi.Driver.Setup.Total.{setup_s3_sync-Sets}
use lukscryptwalker_csi.Driver.Stage.Serving.{
  serves_mapper, same_flag, stage_luks-serves, volume_serves,
}
use lukscryptwalker_csi.Driver.Stage.{
  StageWorld, StageRequest, StageResult, StageStatus, staged, internal, invalid_argument, aborted,
  replies, is_s3_backend, is_volume_staged, already_staged, stage_s3, stage_luks, stage_with,
  node_stage_volume, luks_result,
}

abbrev pub is_staged : StageStatus → Bool
is_staged status = elim status [ staged ↦ true | _ ↦ false ]

-- What justifies an answer of success.
unfoldable pub serves : StageWorld → StageRequest → StageResult → Bool
serves w r res =
    if is_s3_backend r.context
    then verify_s3_staging_live w.live || is_some (lookup r.volume_id res.state.managers)
    else serves_mapper w r res.calls

abbrev pub Ends : StageWorld → StageRequest → MountState → StageResult → Type 0
Ends w r s res =
    ((is_staged res.status && not (serves w r res)) ≡ false)
    × ((member r.volume_id res.state.in_setup && not (member r.volume_id s.in_setup)) ≡ false)

not_in_setup : (v : Bytes) (vs : List Bytes) → member v (remove v vs) ≡ false
not_in_setup v vs = rw (member-remove v v vs, bytes_eq_refl v) refl

-- On S3 it returns, runs no command on a device, and where it succeeds the volume has a manager.
pub stage_s3-returns :
    (w : StageWorld) (r : StageRequest) (s : MountState)
    → (res : StageResult) × (stage_s3 w r s ≡ some res)
      × (res.calls ≡ [])
      × ((is_staged res.status && not (is_some (lookup r.volume_id res.state.managers))) ≡ false)
      × (member r.volume_id res.state.in_setup ≡ false)
unfolding stage_s3
stage_s3-returns w r s =
    let marked : MountState = record s { in_setup = insert r.volume_id s.in_setup } in
    elim (Bool-cases w.staging_made) [
      | inr unmade ↦ (
        replies internal [] (setup_complete r.volume_id marked),
        rw unmade refl,
        refl,
        refl,
        not_in_setup r.volume_id _,
      )
      | inl made ↦
          let (q, e, sets) = setup_s3_sync-Sets w.setup r.volume_id r.staging marked in
          elim (Bool-cases q.0) [
            | inl ok ↦ (
              replies staged [] (setup_complete r.volume_id q.1),
              rw (made, e, stage_s3, ok) refl,
              refl,
              rw ok at sets.1,
              not_in_setup r.volume_id _,
            )
            | inr failed ↦ (
              replies internal [] (setup_complete r.volume_id q.1),
              rw (made, e, stage_s3, failed) refl,
              refl,
              refl,
              not_in_setup r.volume_id _,
            )
          ]
    ]

luks_result-Ends :
    (w : StageWorld) (r : StageRequest) (s : MountState) (d : Done)
    → is_s3_backend r.context ≡ false
    → (d.0 && not (serves_mapper w r d.1)) ≡ false
    → Ends w r s (luks_result d s)
unfolding serves
luks_result-Ends w r s (true, calls) luks h = (rw luks h, same_flag (member r.volume_id s.in_setup))
luks_result-Ends w r s (false, calls) luks h = (refl, same_flag (member r.volume_id s.in_setup))

-- The staging of a valid request.
stage_with-Ends :
    (w : StageWorld) (r : StageRequest) (fs : Option Bytes) (s : MountState)
    → (res : StageResult) × (stage_with (already_staged w r) w r fs s ≡ some res) × Ends w r s res
unfolding stage_with already_staged is_already_staged serves
stage_with-Ends w r fs s =
    let idle = same_flag (member r.volume_id s.in_setup) in
    elim (Bool-cases (is_s3_backend r.context)) [
      | inl s3 ↦ elim (Bool-cases (verify_s3_staging_live w.live)) [
        | inl live ↦ (replies staged [] s, rw (s3, live) refl, (rw (s3, live) refl, idle))
        | inr gone ↦ elim (Bool-cases w.mounts_known) [
          | inr blind ↦ (replies aborted [] s, simp (s3, gone, blind) refl, (refl, idle))
          | inl known ↦
              let (res, e, none_run, managed, clear) = stage_s3-returns w r s in
              (res, simp (s3, gone, known) e, (rw (s3, gone) managed, rw clear refl))
        ]
      ]
      | inr luks ↦ elim (Bool-cases (is_volume_staged w)) [
        | inl ours ↦
            (replies staged [] s, rw (luks, ours) refl, (rw luks (volume_serves w r ours), idle))
        | inr fresh ↦ (
          luks_result (stage_luks w r fs) s,
          rw (luks, fresh, stage_with, luks) refl,
          luks_result-Ends w r s (stage_luks w r fs) luks (stage_luks-serves w r fs),
        )
      ]
    ]

-- NodeStageVolume returns, a volume is not left in setup by it, and success says that the volume serves: on
-- S3 the staging path had a live mount or the volume now has a mount manager, on LUKS its mapper was there
-- or was opened from the volume's own backing file by a luksOpen that the call has run and that succeeds, and
-- the staging path was mounted from that mapper or a mount of it there, which the call has run, succeeds.
pub node_stage_volume-Ends :
    (w : StageWorld) (r : StageRequest) (s : MountState)
    → (res : StageResult) × (node_stage_volume w r s ≡ some res) × Ends w r s res
unfolding node_stage_volume
node_stage_volume-Ends w r s =
    let idle = same_flag (member r.volume_id s.in_setup) in
    let invalid = replies invalid_argument [] s in
    elim (Bool-cases (bytes_eq r.volume_id [] || bytes_eq r.staging [])) [
      | inl empty ↦ (invalid, rw empty refl, (refl, idle))
      | inr given ↦ elim (Option-cases r.capability) [
        | inl e ↦ (invalid, simp (given, e) refl, (refl, idle))
        | inr (fs, e) ↦
            let (res, f, ends) = stage_with-Ends w r fs s in (res, simp (given, e) f, ends)
      ]
    ]
