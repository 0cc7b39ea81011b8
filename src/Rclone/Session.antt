-- ===== src/Rclone/Session.antt =====
-- pkg/rclone/session.go: the sessions of a volume among rclone's mounts, and their shut-down.
pub mod Isolation
use lukscryptwalker_csi.Base.{
  ℕ, zero, suc, Bool, true, false, not, ◌&&◌, ◌||◌, drop, Option, none, some, List, [], ◌∷◌, ◌++◌,
  if◌then◌else◌,
}
use lukscryptwalker_csi.Base.Bytes.{Bytes, codes, bytes_eq, has_prefix, contains}
use lukscryptwalker_csi.Base.Split.{split_at}
use lukscryptwalker_csi.Base.Sets.{member, sort_strings}

-- SessionMountBase
abbrev pub session_mount_base : Bytes
session_mount_base = codes "/var/lib/lukscrypt-cache/sessions"

-- What filepath.Clean makes of one element more of a rooted path, whose elements are held last first.
unfoldable pub push_element : List Bytes → Bytes → List Bytes
push_element up e =
    if bytes_eq e [] || bytes_eq e (codes ".")
    then up
    else if bytes_eq e (codes "..")
    then drop 1 up
    else e ∷ up

unfoldable pub push_elements : List Bytes → List Bytes → List Bytes
unfolding push_element
push_elements up [] = up
push_elements up (e ∷ es) = push_elements (push_element up e) es

abbrev pub below_root : List Bytes → Bytes
below_root [] = []
below_root (e ∷ up) = below_root up ++ (codes "/" ++ e)

unfoldable pub rooted_path : List Bytes → Bytes
rooted_path [] = codes "/"
rooted_path (e ∷ up) = below_root (e ∷ up)

-- SessionMountBase, element by element from the last
abbrev pub session_base_elements : List Bytes
session_base_elements = codes "sessions" ∷ codes "lukscrypt-cache" ∷ codes "lib" ∷ codes "var" ∷ []

-- filepath.Join(sessionBase, volumeID) + "/"
unfoldable pub session_prefix : Bytes → Bytes
unfolding push_elements rooted_path
session_prefix v = rooted_path (push_elements session_base_elements (split_at 47 v)) ++ codes "/"

unfoldable pub with_prefix : Bytes → List Bytes → List Bytes
with_prefix prefix [] = []
with_prefix prefix (mp ∷ mps) =
    let rest = with_prefix prefix mps in if has_prefix mp prefix then mp ∷ rest else rest

-- sessionsOf
unfoldable pub sessions_of : Bytes → List Bytes → List Bytes
unfolding with_prefix session_prefix sort_strings
sessions_of v mount_points = sort_strings (with_prefix (session_prefix v) mount_points)

-- liveSessions: `none` when mount/listmounts brings no output
unfoldable pub live_sessions : Bytes → Option (List Bytes) → List Bytes × Bool
unfolding sessions_of
live_sessions v none = ([], false)
live_sessions v (some mount_points) = (sessions_of v mount_points, true)

-- The loop over `known` in ShutdownSessions.
unfoldable pub add_known : List Bytes → List Bytes → List Bytes
add_known sessions [] = sessions
add_known sessions (k ∷ ks) =
    add_known
      (if not (bytes_eq k []) && not (member k sessions) then sessions ++ (k ∷ []) else sessions) ks

-- The answer of mount/unmount: done, or an error with its text.
pub data UnmountReply : Type 0 where
  unmounted : UnmountReply
  unmount_error : Bytes → UnmountReply

-- unmountSession: whether rclone still had a record of it
unfoldable pub unmount_session : UnmountReply → Bool
unmount_session unmounted = true
unmount_session (unmount_error err) = not (contains err (codes "mount not found"))

-- The loop of ShutdownSessions: how many were ended.
unfoldable pub end_sessions : (Bytes → UnmountReply) → List Bytes → ℕ
unfolding unmount_session
end_sessions reply [] = 0
end_sessions reply (s ∷ ss) =
    let ended = end_sessions reply ss in if unmount_session (reply s) then suc ended else ended

-- ShutdownSessions: the paths that mount/unmount is called for, and how many rclone still held
unfoldable pub shutdown_sessions :
    Bytes → Option (List Bytes) → List Bytes → (Bytes → UnmountReply) → List Bytes × ℕ
unfolding live_sessions add_known end_sessions
shutdown_sessions v mount_points known reply =
    let sessions = add_known (live_sessions v mount_points).0 known in
    (sessions, end_sessions reply sessions)

-- SweepDeadSessions: the paths it detaches among those below the volume's session directory
unfoldable pub dead_sessions : List Bytes → List Bytes → List Bytes
dead_sessions live [] = []
dead_sessions live (path ∷ paths) =
    let rest = dead_sessions live paths in if member path live then rest else path ∷ rest

unfoldable pub sweep_dead_sessions : Bytes → Option (List Bytes) → Option (List Bytes) → List Bytes
unfolding sessions_of dead_sessions
sweep_dead_sessions v none entries = []
sweep_dead_sessions v (some mount_points) none = []
sweep_dead_sessions v (some mount_points) (some paths) =
    dead_sessions (sessions_of v mount_points) paths
