-- ===== src/Driver/Stage/Runs.antt =====
-- Which commands a staging of a LUKS volume runs, for a test on commands.
use lukscryptwalker_csi.Base.{
  ◌≡◌, refl, ◌∙◌, inl, inr, Bool, true, false, not, ◌&&◌, ◌||◌, Option, none, some, [], ◌∷◌, any,
  ltb, Bool-cases, and_false, or_false,
}
use lukscryptwalker_csi.Base.Bytes.{Bytes}
use lukscryptwalker_csi.Driver.Luks.{
  DeviceCall, formats_luks, makes_fs, removes_file, closes_luks, opens_luks, and_then, LuksWorld,
  FsWorld, BackingWorld, FileStat, absent, unreadable, sized, min_backing_size, is_pinned_elsewhere,
  is_luks_device, run_cryptsetup, open_luks, close_luks, format_and_open_luks, format_device,
  fs_type_or_default, can_make, mount_and_configure, ensure_backing_file, generate_mapper_name,
  generate_backing_file_path, mapped_device_path,
}
use lukscryptwalker_csi.Driver.Luks.Calls.{
  any-append, any-and_then, create_free, FileStat-cases, FreeOfFiles, FreeOfMounts, backing_free,
  configure_any,
}
use lukscryptwalker_csi.Driver.Stage.{
  StageWorld, StageRequest, stage_luks, mount_luks_volume, prepare_backing_file,
  prepare_volume_staging, extract_fs_group, extract_fs_mode,
}

-- A test on the commands that destroy what is there.
abbrev pub one_of : Bool → Bool → Bool → DeviceCall → Bool
one_of format mkfs removal c = elim c [
  | formats_luks d ↦ format
  | makes_fs fs d ↦ mkfs
  | removes_file f ↦ removal
  | _ ↦ false
]

abbrev pub is_luks_format : DeviceCall → Bool
is_luks_format = one_of true false false

abbrev pub is_mkfs : DeviceCall → Bool
is_mkfs = one_of false true false

abbrev pub is_removal : DeviceCall → Bool
is_removal = one_of false false true

-- The backing file is there and the passphrase is known.
abbrev pub is_prepared : StageWorld → StageRequest → Bool
is_prepared w r = (prepare_volume_staging w r).0

-- The file exists and is smaller than a LUKS header.
unfoldable pub is_undersized : FileStat → Bool
is_undersized absent = false
is_undersized unreadable = false
is_undersized (sized n) = ltb n min_backing_size

-- The device shows no file system, and the one that the capability asks for can be made.
unfoldable pub lacks_fs : FsWorld → Option (Option Bytes) → Bool
lacks_fs w none = false
lacks_fs w (some none) = false
lacks_fs w (some (some fs)) = not w.has_fs && can_make (fs_type_or_default fs)

abbrev pub opens_mapper : StageWorld → StageRequest → Bool
opens_mapper w r =
    (format_and_open_luks w.luks (generate_backing_file_path w.local_path r.volume_id)
      (generate_mapper_name r.volume_id)).0

one_of-FreeOfFiles : (format mkfs removal : Bool) → FreeOfFiles (one_of format mkfs removal)
one_of-FreeOfFiles format mkfs removal = record { no_allocate = λ f. refl; no_truncate = λ f. refl }

removal-undersized :
    (w : BackingWorld) (file size pinned node_id : Bytes)
    → any is_removal (ensure_backing_file w file size pinned node_id).1 ≡ is_undersized w.stat
unfolding ensure_backing_file any is_undersized
removal-undersized w file size pinned node_id =
    let created = create_free is_removal w.file file size (one_of-FreeOfFiles false false true) in
    elim (FileStat-cases w.stat) [
      | inl (inl e) ↦ elim (Bool-cases (is_pinned_elsewhere pinned node_id)) [
        | inl away ↦ rw (e, ensure_backing_file, away) refl
        | inr here ↦ rw (e, ensure_backing_file, here) created
      ]
      | inl (inr e) ↦ rw (e, ensure_backing_file) refl
      | inr (n, e) ↦ elim (Bool-cases (ltb n min_backing_size)) [
        | inl small ↦ rw (e, ensure_backing_file, small, any-and_then is_removal) refl
        | inr big ↦ rw (e, ensure_backing_file, big) refl
      ]
    ]

prepare-any :
    (p : DeviceCall → Bool) (w : StageWorld) (r : StageRequest)
    → any p (prepare_volume_staging w r).1 ≡ (w.local_made && any p (prepare_backing_file w r).1)
unfolding prepare_volume_staging any
prepare-any p w r = elim (Bool-cases w.local_made) [ inl m ↦ rw m refl | inr m ↦ rw m refl ]

only_first : (a b : Bool) → ((a || false) || (b && false)) ≡ a
only_first true b = refl
only_first false b = and_false b

-- What opening runs, for a test that finds no luksOpen.
open-any :
    (p : DeviceCall → Bool) (w : LuksWorld) (file mapper : Bytes)
    → p (opens_luks file mapper) ≡ false
    → any p (format_and_open_luks w file mapper).1
      ≡ (not (is_luks_device w) && p (formats_luks file))
unfolding format_and_open_luks open_luks any
open-any p w file mapper h =
    let opened : any p (open_luks w file mapper).1 ≡ false = elim (Bool-cases w.opened) [
      | inl o ↦ rw o refl
      | inr o ↦ rw (o, h) refl
    ] in
    elim (Bool-cases (is_luks_device w)) [
      | inl l ↦ rw l opened
      | inr l ↦
          rw
            (
              l,
              any-and_then p (run_cryptsetup w.luks_format, formats_luks file ∷ [])
                  (open_luks w file mapper),
              opened,
            )
            (only_first (p (formats_luks file)) (run_cryptsetup w.luks_format))
    ]

-- A test by which kind of command it finds.
pub record Finds (p : DeviceCall → Bool) (formatting making : Bool) : Type 0 where
  pub no_open : (d m : Bytes) → p (opens_luks d m) ≡ false
  pub no_close : (m : Bytes) → p (closes_luks m) ≡ false
  pub format : (d : Bytes) → p (formats_luks d) ≡ formatting
  pub make : (fs d : Bytes) → p (makes_fs fs d) ≡ making
  pub mount_free : FreeOfMounts p

device-any :
    (p : DeviceCall → Bool) (b : Bool) (w : FsWorld) (device : Bytes) (fs : Option Bytes)
    → ((x d : Bytes) → p (makes_fs x d) ≡ b)
    → any p (format_device w device fs).1 ≡ (lacks_fs w (some fs) && b)
unfolding format_device lacks_fs any
device-any p b w device none make = refl
device-any p b w device (some fs) make =
    let m = make (fs_type_or_default fs) device in
    elim (Bool-cases w.has_fs) [
      | inl has ↦ rw has refl
      | inr bare ↦ elim (Bool-cases (can_make (fs_type_or_default fs))) [
        | inl can ↦ rw (bare, can, m) (or_false b)
        | inr cannot ↦ rw (bare, cannot) refl
      ]
    ]

volume-any :
    (p : DeviceCall → Bool) (a b : Bool) (w : StageWorld) (r : StageRequest) (mapper : Bytes)
    (fs : Option Bytes)
    → Finds p a b
    → any p (mount_luks_volume w r mapper fs).1 ≡ (lacks_fs w.fs (some fs) && b)
unfolding mount_luks_volume close_luks any
volume-any p a b w r mapper fs finds =
    let device = mapped_device_path mapper in
    let gid = extract_fs_group w.fs_group r.context in
    let mode = extract_fs_mode r.context in
    let made = mount_and_configure w.fs device r.staging fs gid mode in
    let ran : any p made.1 ≡ (lacks_fs w.fs (some fs) && b) =
      configure_any p w.fs device r.staging mode fs gid finds.mount_free
      ∙ device-any p b w.fs device fs finds.make in
    elim (Bool-cases made.0) [
      | inl ok ↦ rw ok ran
      | inr failed ↦ elim (Bool-cases w.still_opened) [
        | inl o ↦
            rw (failed, o, any-append p made.1 (closes_luks mapper ∷ []), finds.no_close mapper)
              (or_false (any p made.1) ∙ ran)
        | inr o ↦ rw (failed, o, any-append p made.1 []) (or_false (any p made.1) ∙ ran)
      ]
    ]

pub stage-any :
    (p : DeviceCall → Bool) (a b : Bool) (w : StageWorld) (r : StageRequest) (fs : Option Bytes)
    → Finds p a b
    → any p (stage_luks w r fs).1 ≡ (
        (w.local_made && any p (prepare_backing_file w r).1)
        || (is_prepared w r
            && ((not (is_luks_device w.luks) && a)
                || (opens_mapper w r && (lacks_fs w.fs (some fs) && b)))))
unfolding stage_luks
stage-any p a b w r fs finds =
    let mapper = generate_mapper_name r.volume_id in
    let file = generate_backing_file_path w.local_path r.volume_id in
    let opened = format_and_open_luks w.luks file mapper in
    let volume = mount_luks_volume w r mapper fs in
    rw
      (
        any-and_then p (prepare_volume_staging w r) (and_then opened volume),
        any-and_then p opened volume,
        prepare-any p w r,
        open-any p w.luks file mapper (finds.no_open file mapper),
        finds.format file,
        volume-any p a b w r mapper fs finds,
      )
      refl

pub one_of-Finds : (format mkfs removal : Bool) → Finds (one_of format mkfs removal) format mkfs
one_of-Finds format mkfs removal = record {
  no_open = λ d m. refl;
  no_close = λ m. refl;
  format = λ d. refl;
  make = λ fs d. refl;
  mount_free = record {
    no_mount = λ d t. refl;
    no_unmount = λ t. refl;
    no_chown = λ g t. refl;
    no_chmod = λ m t. refl;
  };
}

pub file_free :
    (format mkfs : Bool) (w : StageWorld) (r : StageRequest)
    → any (one_of format mkfs false) (prepare_backing_file w r).1 ≡ false
unfolding prepare_backing_file
file_free format mkfs w r =
    backing_free (one_of format mkfs false) w.backing _ _ _ _ (one_of-FreeOfFiles format mkfs false)
      refl

pub file-undersized :
    (w : StageWorld) (r : StageRequest)
    → any is_removal (prepare_backing_file w r).1 ≡ is_undersized w.backing.stat
unfolding prepare_backing_file
file-undersized w r = removal-undersized w.backing _ _ _ _
