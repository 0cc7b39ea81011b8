-- ===== src/Rclone/Mounting/Cleanup.antt =====
-- What the stages of a Mount ask for, and ask to undo.
use mathlib.Core.Path.{subst}
use lukscryptwalker_csi.Base.{
  ℕ, ◌≡◌, refl, sym, ap, ◌∙◌, inl, inr, Bool, true, false, Option, none, some, List, [], ◌∷◌, ◌++◌,
  arith, take, Bool-cases, Option-cases,
}
use lukscryptwalker_csi.Base.Bytes.{Bytes, bytes_eq, bytes_eq_refl}
use lukscryptwalker_csi.Base.Sets.{insert, remove, member, remove_self, remove_other}
use lukscryptwalker_csi.Rclone.Drain.{CacheDisk}
use lukscryptwalker_csi.Rclone.Exposure.Serving.{Serves, wait_for_mount_ready-Serves}
use lukscryptwalker_csi.Rclone.VfsName.{vfs_name_for, vfs_names_for}
use lukscryptwalker_csi.Rclone.Mounting.{
  Mounter, MountWorld, MountReply, answered, timed_out, rpc_failed, MountError, mount_timed_out,
  MountStatus, already_mounted, now_mounted, failed, no_free_name, MountResult, Call,
  validates_cache, with_name, with_s3_config, with_crypt_config, after_mount_reply, once_ready,
  crypt_config_name, s3_config_name, after, mounts_session, saves_name, deletes_config,
  creates_config, removes_session, no_session, no_mount_point, sweeps_sessions, makes_session,
  gives_up, no_crypt_config, no_s3_config,
}
use lukscryptwalker_csi.Rclone.Mounting.Requested.{
  Requested, nothing_requested, note_call, note_calls,
}

abbrev pub list_of : Option Bytes → List Bytes
list_of none = []
list_of (some p) = p ∷ []

-- A call of mount/mount that has timed out still holds the session's directory.
abbrev pub left_by : MountError → Option Bytes → List Bytes
left_by mount_timed_out session = list_of session
left_by _ session = []

-- What a Mount has asked for and not asked to undo, by how it ends.
abbrev pub requested_by : MountStatus → Option Bytes → Mounter → Requested
requested_by already_mounted session s = nothing_requested
requested_by now_mounted session s = record {
  directories = list_of session;
  served = list_of session;
  configs = crypt_config_name s ∷ s3_config_name s ∷ [];
}
requested_by (failed e) session s = record nothing_requested { directories = left_by e session }

abbrev pub is_now_mounted : MountStatus → Bool
is_now_mounted now_mounted = true
is_now_mounted _ = false

-- Whether a Mount has got as far as a name of its own.
abbrev pub has_name : MountStatus → Bool
has_name already_mounted = false
has_name (failed no_free_name) = false
has_name _ = true

bytes_eq-longer : (n s : Bytes) (c : ℕ) → bytes_eq n (n ++ c ∷ s) ≡ false
unfolding bytes_eq
bytes_eq-longer [] s c = refl
bytes_eq-longer (d ∷ n) s c = ground (arith, bytes_eq-longer n s c)

remove_both : (n k : Bytes) → bytes_eq n k ≡ false → remove k (remove n (n ∷ k ∷ [])) ≡ []
unfolding remove
remove_both n k h = rw (bytes_eq_refl n, h) (remove_self k)

insert_both : (n k : Bytes) → bytes_eq n k ≡ false → insert n (remove n (k ∷ [])) ≡ n ∷ k ∷ []
unfolding remove insert member
insert_both n k h = rw (h, insert, h) refl

names_apart : (s : Mounter) → bytes_eq (crypt_config_name s) (s3_config_name s) ≡ false
unfolding vfs_names_for
names_apart s = bytes_eq-longer (vfs_name_for s.volume_id s.generation) _ _

-- The stages from the outside in: what a stage starts with, and its result.
abbrev pub Leaves : Requested → MountWorld → Option Bytes → ℕ → MountResult → Type 0
Leaves m w session generation r =
    (note_calls m r.calls ≡ requested_by r.status session r.mounter)
    × Serves r.mounter.mount_point w.ready (is_now_mounted r.status)
    × (r.mounter.generation ≡ generation)
    × (has_name r.status ≡ true)

note_calls-append :
    (m : Requested) (xs ys : List Call) → note_calls m (xs ++ ys) ≡ note_calls (note_calls m xs) ys
unfolding note_calls
note_calls-append m [] ys = refl
note_calls-append m (x ∷ xs) ys = note_calls-append (note_call m x) xs ys

-- What a stage starts with has been asked for by the calls before it.
then-Leaves :
    (m next : Requested) (w : MountWorld) (session : Option Bytes) (g : ℕ) (calls : List Call)
    (r : MountResult)
    → note_calls m calls ≡ next
    → Leaves next w session g r
    → Leaves m w session g (after calls r)
then-Leaves m next w session g calls r e (made, serves, named, has) = (
  note_calls-append m calls r.calls ∙ (ap (λ z. note_calls z r.calls) e ∙ made),
  serves,
  named,
  has,
)

module _ (w : MountWorld) (s : Mounter) (disk : CacheDisk) (session : Bytes) where
  abbrev both : Requested
  both = record {
    directories = session ∷ [];
    served = [];
    configs = crypt_config_name s ∷ s3_config_name s ∷ [];
  }

  abbrev serving : Mounter
  serving = record s { session = record s.session { session_path = session } }

  once_ready-Leaves :
      (ready : Bool) (d : CacheDisk)
      → Serves s.mount_point w.ready ready
      → Leaves
          (record both { served = session ∷ [] })
          w
          (some session)
          s.generation
          (once_ready ready w serving d session)
  unfolding once_ready note_calls note_call
  once_ready-Leaves true d serves = elim (Bool-cases w.stale_cache) [
    | inl e ↦ (rw e refl, serves, refl, refl)
    | inr e ↦ (rw e refl, serves, refl, refl)
  ]
  once_ready-Leaves false d serves =
      let no_configs = remove_both (crypt_config_name s) (s3_config_name s) (names_apart s) in
      (rw (remove_self session, no_configs) refl, tt, refl, refl)

  after_mount_reply-Leaves :
      (reply : MountReply)
      → (r : MountResult) × (after_mount_reply reply w s disk session ≡ some r)
        × Leaves both w (some session) s.generation r
  unfolding after_mount_reply note_calls note_call
  after_mount_reply-Leaves timed_out =
      let no_configs = remove_both (crypt_config_name s) (s3_config_name s) (names_apart s) in
      (_, refl, (rw no_configs refl, tt, refl, refl))
  after_mount_reply-Leaves rpc_failed =
      let no_configs = remove_both (crypt_config_name s) (s3_config_name s) (names_apart s) in
      (_, refl, (rw (remove_self session, no_configs) refl, tt, refl, refl))
  after_mount_reply-Leaves answered =
      let (ready, e, serves) = wait_for_mount_ready-Serves s.mount_point w.ready w.now in
      let saved : CacheDisk = record disk { named = true } in
      (
        after (mounts_session session ∷ saves_name s.session.vfs_name ∷ [])
            (once_ready ready w serving saved session),
        rw (e, after_mount_reply) refl,
        then-Leaves both (record both { served = session ∷ [] }) w (some session) s.generation
            (mounts_session session ∷ saves_name s.session.vfs_name ∷ [])
            (once_ready ready w serving saved session) (unfold insert member in refl)
            (once_ready-Leaves ready saved serves),
      )

  with_crypt_config-Leaves :
      (r : MountResult) × (with_crypt_config w s disk session ≡ some r)
      × Leaves
          (record nothing_requested { directories = session ∷ []; configs = s3_config_name s ∷ [] })
          w
          (some session)
          s.generation
          r
  unfolding with_crypt_config note_calls note_call
  with_crypt_config-Leaves =
      let n = crypt_config_name s in
      let k = s3_config_name s in
      let undone : List Call = deletes_config k ∷ removes_session session ∷ [] in
      elim (Bool-cases (bytes_eq s.crypt_config.password [])) [
        | inl p ↦ (
          gives_up no_crypt_config s disk undone,
          rw p refl,
          (rw (remove_self k, remove_self session) refl, tt, refl, refl),
        )
        | inr p ↦ elim (Bool-cases w.crypt_created) [
          | inl c ↦
              let (r, e, end) = after_mount_reply-Leaves w.reply in
              (
                after (deletes_config n ∷ creates_config n ∷ []) r,
                rw p (simp (c, e)),
                then-Leaves _ both w (some session) s.generation
                    (deletes_config n ∷ creates_config n ∷ []) r
                    (rw (insert_both n k (names_apart s)) refl) end,
              )
          | inr c ↦ (
            gives_up no_crypt_config s disk (deletes_config n ∷ undone),
            rw p (simp c),
            (
              rw (remove_other n k (names_apart s), remove_self k, remove_self session) refl,
              tt,
              refl,
              refl,
            ),
          )
        ]
      ]

  with_s3_config-Leaves :
      (r : MountResult) × (with_s3_config w s disk session ≡ some r)
      × Leaves
          (record nothing_requested { directories = session ∷ [] })
          w
          (some session)
          s.generation
          r
  unfolding with_s3_config note_calls note_call
  with_s3_config-Leaves =
      let k = s3_config_name s in
      elim (Bool-cases w.s3_created) [
        | inl c ↦
            let (r, e, end) = with_crypt_config-Leaves in
            (
              after (deletes_config k ∷ creates_config k ∷ []) r,
              simp (c, e),
              then-Leaves _
                  (record nothing_requested { directories = session ∷ []; configs = k ∷ [] }) w
                  (some session) s.generation (deletes_config k ∷ creates_config k ∷ []) r
                  (unfold insert remove member in refl) end,
            )
        | inr c ↦ (
          gives_up no_s3_config s disk (deletes_config k ∷ removes_session session ∷ []),
          simp c,
          (rw (remove_self session) (unfold remove in refl), tt, refl, refl),
        )
      ]

module _ (w : MountWorld) (disk : CacheDisk) where
  pub with_name-Leaves :
      (s : Mounter)
      → (r : MountResult) × (with_name w s disk ≡ some r)
        × Leaves nothing_requested w w.new_session s.generation r
        × (take 1 r.calls ≡ validates_cache s.session.vfs_name ∷ [])
  unfolding with_name note_calls note_call
  with_name-Leaves s = elim (Bool-cases w.path_made) [
    | inl p ↦ elim (Option-cases w.new_session) [
      | inl n ↦ (
        gives_up no_session s disk
            (validates_cache s.session.vfs_name ∷ sweeps_sessions s.volume_id ∷ []),
        simp (p, n),
        (refl, tt, refl, refl),
        refl,
      )
      | inr (session, n) ↦
          let (r, e, end) = with_s3_config-Leaves w s disk session in
          let first : List Call =
            validates_cache s.session.vfs_name
            ∷ sweeps_sessions s.volume_id
            ∷ makes_session session
            ∷ [] in
          let made =
            then-Leaves nothing_requested (record nothing_requested { directories = session ∷ [] })
              w (some session) s.generation first r (unfold insert member in refl) end in
          (
            after first r,
            simp (p, n, e),
            subst (λ o. Leaves nothing_requested w o s.generation (after first r)) (sym n) made,
            refl,
          )
    ]
    | inr p ↦ (
      gives_up no_mount_point s disk (validates_cache s.session.vfs_name ∷ []),
      simp p,
      (refl, tt, refl, refl),
      refl,
    )
  ]
