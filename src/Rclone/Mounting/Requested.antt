-- ===== src/Rclone/Mounting/Requested.antt =====
-- What the calls of a mount ask for, taken in their order. The source logs or ignores the errors of the
-- calls that undo (config/delete, mount/unmount, os.Remove), so whether they take effect is not modelled.
use lukscryptwalker_csi.Base.{List, [], ◌∷◌}
use lukscryptwalker_csi.Base.Bytes.{Bytes}
use lukscryptwalker_csi.Base.Sets.{insert, remove}
use lukscryptwalker_csi.Rclone.Mounting.{
  Call, validates_cache, sweeps_sessions, makes_session, removes_session, creates_config,
  deletes_config, mounts_session, saves_name, unbinds_staging, ends_session, starts_monitors,
  refreshes_vfs,
}

-- What a Mount has asked for and not asked to undo afterwards: session directories, sessions for rclone to
-- serve, configurations.
pub record Requested : Type 0 where
  pub directories : List Bytes
  pub served : List Bytes
  pub configs : List Bytes

abbrev pub nothing_requested : Requested
nothing_requested = record { directories = []; served = []; configs = [] }

unfoldable pub note_call : Requested → Call → Requested
note_call m (makes_session p) = record m { directories = insert p m.directories }
note_call m (removes_session p) = record m { directories = remove p m.directories }
note_call m (creates_config n) = record m { configs = insert n m.configs }
note_call m (deletes_config n) = record m { configs = remove n m.configs }
note_call m (mounts_session p) = record m { served = insert p m.served }
note_call m (ends_session p) = record m {
  directories = remove p m.directories;
  served = remove p m.served;
}
note_call m (validates_cache n) = m
note_call m (sweeps_sessions v) = m
note_call m (saves_name n) = m
note_call m unbinds_staging = m
note_call m starts_monitors = m
note_call m refreshes_vfs = m

unfoldable pub note_calls : Requested → List Call → Requested
unfolding note_call
note_calls m [] = m
note_calls m (c ∷ cs) = note_calls (note_call m c) cs
