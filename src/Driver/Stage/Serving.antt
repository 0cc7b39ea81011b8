-- ===== src/Driver/Stage/Serving.antt =====
-- When a staged LUKS volume is mounted from its mapper, by what was there and by the commands run.
use lukscryptwalker_csi.Base.{
  ◌≡◌, refl, inl, inr, Bool, true, false, not, ◌&&◌, ◌||◌, Option, none, some, List, [], ◌∷◌, arith,
  any, Bool-cases, if◌then◌else◌,
}
use lukscryptwalker_csi.Base.Bytes.{Bytes, bytes_eq, bytes_eq_refl}
use lukscryptwalker_csi.Driver.Luks.{
  DeviceCall, opens_luks, Done, and_then, mounts, unmounts, LuksWorld, FsWorld, is_luks_device,
  run_cryptsetup, open_luks, formats_luks, format_and_open_luks, mount_device, mount_and_configure,
  format_device, apply_fs_group, generate_mapper_name, generate_backing_file_path,
  mapped_device_path,
}
use lukscryptwalker_csi.Driver.Luks.Calls.{ok-and_then, any-and_then}
use lukscryptwalker_csi.Driver.Publish.{unmount_path}
use lukscryptwalker_csi.Driver.Stage.{
  StageWorld, StageRequest, is_volume_staged, stage_luks, mount_luks_volume, prepare_volume_staging,
  extract_fs_group, extract_fs_mode,
}

-- cryptsetup luksOpen of a backing file under a mapper's name, and a mount of a device at a target
unfoldable pub is_open_of : Bytes → Bytes → DeviceCall → Bool
is_open_of file mapper (opens_luks f m) = bytes_eq f file && bytes_eq m mapper
is_open_of file mapper _ = false

unfoldable pub is_mount_of : Bytes → Bytes → DeviceCall → Bool
is_mount_of device target (mounts d t) = bytes_eq d device && bytes_eq t target
is_mount_of device target _ = false

-- The volume's mapper was there, or these commands opened it from the volume's own backing file; and the
-- staging path was mounted from it, or they mounted it there.
abbrev pub serves_mapper : StageWorld → StageRequest → List DeviceCall → Bool
serves_mapper w r calls =
    let mapper = generate_mapper_name r.volume_id in
    let file = generate_backing_file_path w.local_path r.volume_id in
    (w.luks.opened || (run_cryptsetup w.luks.luks_open && any (is_open_of file mapper) calls))
    && ((w.fs.is_mount_point && w.fs.mounted_from)
        || (w.fs.mounted && any (is_mount_of (mapped_device_path mapper) r.staging) calls))

-- Success of an operation says that something was there, or that it has run such a command that succeeds.
abbrev Achieves : (DeviceCall → Bool) → Bool → Bool → Done → Type 0
Achieves p there succeeds d = (d.0 && not (there || (succeeds && any p d.1))) ≡ false

before-Achieves :
    (p : DeviceCall → Bool) (there succeeds : Bool) (d e : Done)
    → Achieves p there succeeds d
    → Achieves p there succeeds (and_then d e)
before-Achieves p there succeeds d e h =
    rw (ok-and_then d e, any-and_then p d e)
      (before d.0 e.0 (any p d.1) (any p e.1) there succeeds h)
  where
    before :
        (a b x y there succeeds : Bool)
        → (a && not (there || (succeeds && x))) ≡ false
        → ((a && b) && not (there || (succeeds && (x || (a && y))))) ≡ false
    before a b x y there succeeds h = ground arith

after-Achieves :
    (p : DeviceCall → Bool) (there succeeds : Bool) (d e : Done)
    → Achieves p there succeeds e
    → Achieves p there succeeds (and_then d e)
after-Achieves p there succeeds d e h =
    rw (ok-and_then d e, any-and_then p d e)
      (after d.0 e.0 (any p d.1) (any p e.1) there succeeds h)
  where
    after :
        (a b x y there succeeds : Bool)
        → (b && not (there || (succeeds && y))) ≡ false
        → ((a && b) && not (there || (succeeds && (x || (a && y))))) ≡ false
    after a b x y there succeeds h = ground arith

pub same_flag : (b : Bool) → (b && not b) ≡ false
same_flag true = refl
same_flag false = refl

ran_one :
    (there succeeds : Bool) → (succeeds && not (there || (succeeds && (true || false)))) ≡ false
ran_one there succeeds = ground arith

opens-mapper :
    (w : LuksWorld) (file mapper : Bytes)
    → Achieves
        (is_open_of file mapper)
        w.opened
        (run_cryptsetup w.luks_open)
        (open_luks w file mapper)
unfolding open_luks is_open_of any
opens-mapper w file mapper = elim (Bool-cases w.opened) [
  | inl o ↦ rw o refl
  | inr o ↦
      rw (o, bytes_eq_refl file, bytes_eq_refl mapper) (ran_one false (run_cryptsetup w.luks_open))
]

formats-and-opens :
    (w : LuksWorld) (file mapper : Bytes)
    → Achieves
        (is_open_of file mapper)
        w.opened
        (run_cryptsetup w.luks_open)
        (format_and_open_luks w file mapper)
unfolding format_and_open_luks
formats-and-opens w file mapper =
    let opened = opens-mapper w file mapper in
    elim (Bool-cases (is_luks_device w)) [
      | inl l ↦ rw (l, format_and_open_luks) opened
      | inr l ↦
          rw (l, format_and_open_luks)
            (after-Achieves (is_open_of file mapper) w.opened (run_cryptsetup w.luks_open)
              (run_cryptsetup w.luks_format, formats_luks file ∷ []) (open_luks w file mapper)
              opened)
    ]

mounts-device :
    (w : FsWorld) (device target : Bytes) (fs : Option Bytes)
    → Achieves
        (is_mount_of device target)
        (w.is_mount_point && w.mounted_from)
        w.mounted
        (mount_device w device target fs)
unfolding mount_device is_mount_of any
mounts-device w device target none = refl
mounts-device w device target (some fs) = elim (Bool-cases (w.is_mount_point && w.mounted_from)) [
  | inl there ↦ rw there refl
  | inr other ↦
      let cleared : Done =
        if w.is_mount_point
        then (unmount_path w.unwinds w.depth, unmounts target ∷ [])
        else (true, []) in
      rw other (
        after-Achieves (is_mount_of device target) false w.mounted cleared
          (if not w.dir_made then (false, []) else (w.mounted, mounts device target ∷ []))
          (elim (Bool-cases w.dir_made) [
            | inl made ↦
                rw (made, bytes_eq_refl device, bytes_eq_refl target) (ran_one false w.mounted)
            | inr unmade ↦ rw unmade refl
          ]))
]

volume-mounts :
    (w : StageWorld) (r : StageRequest) (mapper : Bytes) (fs : Option Bytes)
    → Achieves
        (is_mount_of (mapped_device_path mapper) r.staging)
        (w.fs.is_mount_point && w.fs.mounted_from)
        w.fs.mounted
        (mount_luks_volume w r mapper fs)
unfolding mount_luks_volume mount_and_configure
volume-mounts w r mapper fs =
    let device = mapped_device_path mapper in
    let applied =
      apply_fs_group w.fs r.staging (extract_fs_group w.fs_group r.context)
        (extract_fs_mode r.context) in
    let formatted = format_device w.fs device fs in
    let mounted = mount_device w.fs device r.staging fs in
    let p = is_mount_of device r.staging in
    let there = w.fs.is_mount_point && w.fs.mounted_from in
    let made = and_then formatted (and_then mounted applied) in
    let whole : Achieves p there w.fs.mounted made =
      after-Achieves p there w.fs.mounted formatted (and_then mounted applied) (
        before-Achieves p there w.fs.mounted mounted applied
          (mounts-device w.fs device r.staging fs)) in
    elim (Bool-cases made.0) [ inl ok ↦ rw ok (rw ok at whole) | inr failed ↦ rw failed refl ]

both_hold :
    (ok x y : Bool) → (ok && not x) ≡ false → (ok && not y) ≡ false → (ok && not (x && y)) ≡ false
both_hold ok x y h k = ground arith

-- On LUKS success says that the staging path is mounted from the mapper.
pub stage_luks-serves :
    (w : StageWorld) (r : StageRequest) (fs : Option Bytes)
    → ((stage_luks w r fs).0 && not (serves_mapper w r (stage_luks w r fs).1)) ≡ false
unfolding stage_luks
stage_luks-serves w r fs =
    let mapper = generate_mapper_name r.volume_id in
    let file = generate_backing_file_path w.local_path r.volume_id in
    let opened = format_and_open_luks w.luks file mapper in
    let mounted = mount_luks_volume w r mapper fs in
    let prepared = prepare_volume_staging w r in
    let p = is_open_of file mapper in
    let q = is_mount_of (mapped_device_path mapper) r.staging in
    let there = w.fs.is_mount_point && w.fs.mounted_from in
    let opens = run_cryptsetup w.luks.luks_open in
    let done = and_then prepared (and_then opened mounted) in
    both_hold done.0 _ _
      (after-Achieves p w.luks.opened opens prepared (and_then opened mounted) (
        before-Achieves p w.luks.opened opens opened mounted
          (formats-and-opens w.luks file mapper)))
      (after-Achieves q there w.fs.mounted prepared (and_then opened mounted)
        (after-Achieves q there w.fs.mounted opened mounted (volume-mounts w r mapper fs)))

staged_serves :
    (o m f b c : Bool) → (o && (m && f)) ≡ true → not ((o || b) && ((m && f) || c)) ≡ false
staged_serves o m f b c h = ground arith

pub volume_serves :
    (w : StageWorld) (r : StageRequest)
    → is_volume_staged w ≡ true
    → not (serves_mapper w r []) ≡ false
unfolding is_volume_staged
volume_serves w r h = staged_serves w.luks.opened w.fs.is_mount_point w.fs.mounted_from _ _ h
