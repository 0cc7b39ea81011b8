-- ===== src/Tests/Hosts.antt =====
-- The mount table, the sessions and librclone at concrete inputs.
use lukscryptwalker_csi.Base.{
  ℕ, suc, ◌+◌, ◌-◌, ◌*◌, ◌^◌, ◌<◌, ◌≡◌, refl, true, none, some, List, [], ◌∷◌, arith, All,
}
use lukscryptwalker_csi.Base.Bytes.{Bytes, codes, bytes_eq, has_prefix}
use lukscryptwalker_csi.Base.Sets.{member, sort_in}
use lukscryptwalker_csi.Base.Split.{split_at}
use lukscryptwalker_csi.Rclone.Mounts.{Table, HostMount, stack_at, parse_mount_stacks}
use lukscryptwalker_csi.Rclone.Mounts.Stacks.{mounts_at, stack_at-parse}
use lukscryptwalker_csi.Rclone.Mounts.Cache.{
  MountsCache, CacheEvent, queries, reads, cached_mounts, query, answered, run, step, read_done,
  mounts_max_stale,
}
use lukscryptwalker_csi.Rclone.Mounts.Staleness.{
  last_read, cached-last_read, kept_alive, invalidate-pins,
}
use lukscryptwalker_csi.Rclone.Session.{
  sessions_of, session_prefix, push_elements, push_element, rooted_path,
}
use lukscryptwalker_csi.Base.Split.{split_at}
use lukscryptwalker_csi.Rclone.Session.Isolation.{IsName, sessions_of-isolated}
use lukscryptwalker_csi.Rclone.Rpc.{
  RpcEvent, begins, ends, check_stuck_rpcs, empty_table, is_abort, wedged_in,
  check_stuck_rpcs-aborts,
}
use lukscryptwalker_csi.Rclone.Rpc as Rpc
use lukscryptwalker_csi.Driver.Consumers.{parse_consumer_binds}
use lukscryptwalker_csi.Driver.Consumers.Paths.{NamesItsPath, parse_consumer_binds-paths}

abbrev mountinfo : Bytes
mountinfo = codes "36 25 0:31 / /a rw - fuse.rclone r rw\n"

stack_at-parse_example :
    stack_at (codes "/a") (parse_mount_stacks mountinfo)
    ≡ mounts_at (codes "/a") (split_at 10 mountinfo)
stack_at-parse_example = stack_at-parse (codes "/a") mountinfo

abbrev rclone_mount : HostMount
rclone_mount = record { dev = codes "0:31"; fs_type = codes "fuse.rclone" }

abbrev table : Table
table = (codes "/a", rclone_mount ∷ []) ∷ []

abbrev history : List (ℕ × CacheEvent)
history = (7, queries) ∷ (8, reads (some table)) ∷ []

cached-last_read_example :
    (t : ℕ) × (last_read none history ≡ some (t, table)) × (20 - t < mounts_max_stale)
unfolding cached_mounts run step read_done
cached-last_read_example =
    cached-last_read history 20 table
      ((λ e. absurd (ground arith)), ((λ e. absurd (ground arith)), tt)) refl

abbrev wedged_cache : MountsCache
wedged_cache = record { stacks = some table; read_at = some 0; in_flight = true; blocked_at = 0 }

invalidate-pins_example :
    (query (10 ^ 10 + (2 + 1) * (80 * 10 ^ 9)) (run wedged_cache (kept_alive (10 ^ 10) (suc 2)))).0
    ≡ answered (some table)
invalidate-pins_example =
    invalidate-pins 2 wedged_cache table 0 (10 ^ 10) refl refl refl (omega arith)

abbrev session : Bytes
session = codes "/var/lib/lukscrypt-cache/sessions/v/v@1"

v-IsName : IsName (codes "v")
unfolding bytes_eq
v-IsName = ((refl, tt), refl, refl)

sessions_of-isolated_example : codes "v" ≡ codes "v"
unfolding sessions_of session_prefix push_elements push_element rooted_path split_at member bytes_eq
    has_prefix sort_in
sessions_of-isolated_example =
    sessions_of-isolated (codes "v") (codes "v") session (session ∷ []) (session ∷ []) v-IsName
      v-IsName refl refl

abbrev calls : List RpcEvent
calls = begins (codes "mount/mount") 0 (120 * 10 ^ 9) ∷ begins (codes "vfs/list") 5 10 ∷ ends 2 ∷ []

check_stuck_rpcs-aborts_example :
    is_abort (check_stuck_rpcs (400 * 10 ^ 9) (Rpc.run empty_table calls))
    ≡ wedged_in (400 * 10 ^ 9) 0 calls
check_stuck_rpcs-aborts_example = check_stuck_rpcs-aborts (400 * 10 ^ 9) calls

abbrev bind_table : Table
bind_table = (codes "/k/pods/u/volumes/kubernetes.io~csi/v/mount", rclone_mount ∷ []) ∷ []

parse_consumer_binds-paths_example :
    All (NamesItsPath (codes "/k")) (parse_consumer_binds bind_table (codes "/k"))
parse_consumer_binds-paths_example = parse_consumer_binds-paths bind_table (codes "/k")
