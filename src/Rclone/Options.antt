-- ===== src/Rclone/Options.antt =====
-- pkg/rclone/syncmanager.go: the options a mount gives to rclone.
pub mod Fresh
use lukscryptwalker_csi.Base.{
  ℕ, ◌+◌, ◌*◌, ◌^◌, suc, Bool, true, false, not, ◌&&◌, Option, none, some, List, [], ◌∷◌, leb, ltb,
  max, if◌then◌else◌,
}
use lukscryptwalker_csi.Base.Bytes.{Bytes, codes, bytes_eq}
use lukscryptwalker_csi.Base.Decimal.{ℤ, pos, negsuc, parse_int}
use lukscryptwalker_csi.Rclone.Units.{
  parse_duration_to_ns, parse_size_to_bytes, duration_or_default,
}
use lukscryptwalker_csi.Rclone.CacheDir.{add_int64}

-- VFSCacheConfig
pub record VfsCacheConfig : Type 0 where
  pub cache_mode : Bytes
  pub cache_max_age : Bytes
  pub cache_max_size : Bytes
  pub cache_poll_interval : Bytes
  pub write_back : Bytes
  pub dir_cache_time : Bytes
  pub attr_timeout : Bytes
  pub chunk_streams : Bytes

-- DefaultVFSCacheConfig
abbrev pub default_vfs_cache_config : VfsCacheConfig
default_vfs_cache_config = record {
  cache_mode = codes "full";
  cache_max_age = codes "4h";
  cache_max_size = codes "5G";
  cache_poll_interval = codes "1m";
  write_back = codes "3s";
  dir_cache_time = codes "1h";
  attr_timeout = codes "1h";
  chunk_streams = [];
}

-- The keys of vfsOpt; one that is not set is `none`. "Links" is always true.
pub record VfsOpt : Type 0 where
  pub read_chunk_size : ℤ
  pub read_chunk_size_limit : ℤ
  pub buffer_size : ℤ
  pub disk_space_total_size : ℤ
  pub cache_mode : Option ℕ
  pub cache_max_age : Option ℤ
  pub cache_max_size : Option ℤ
  pub write_back : Option ℤ
  pub chunk_streams : Option ℤ
  pub cache_poll_interval : ℤ
  pub uid : Option ℤ
  pub gid : Option ℤ

-- the switch on CacheMode
unfoldable pub mode_of : Bytes → Option ℕ
mode_of mode =
    if bytes_eq mode (codes "off")
    then some 0
    else if bytes_eq mode (codes "minimal")
    then some 1
    else if bytes_eq mode (codes "writes")
    then some 2
    else if bytes_eq mode (codes "full")
    then some 3
    else none

-- if s != "" { if v, err := read(s); err == nil { … } }
unfoldable pub when_set : (Bytes → Option ℤ) → Bytes → Option ℤ
when_set read [] = none
when_set read (c ∷ s) = read (c ∷ s)

abbrev pub non_negative_of : Option ℤ → Option ℤ
non_negative_of none = none
non_negative_of (some (pos n)) = some (pos n)
non_negative_of (some (negsuc n)) = none

unfoldable pub streams_of : Bytes → Option ℤ
streams_of s = non_negative_of (parse_int s)

abbrev pub or_minute : Option ℤ → ℤ
or_minute none = pos (60 * 10 ^ 9)
or_minute (some ns) = ns

-- pollNs
unfoldable pub poll_ns : Bytes → ℤ
unfolding when_set
poll_ns s = or_minute (when_set parse_duration_to_ns s)

-- buildVFSOpt; `counter` is mountGeneration before its Add(1)
unfoldable pub build_vfs_opt : VfsCacheConfig → ℤ → ℕ → VfsOpt
unfolding mode_of when_set streams_of poll_ns add_int64
build_vfs_opt c cache_size counter = record {
  read_chunk_size = pos 33554432;
  read_chunk_size_limit = negsuc 0;
  buffer_size = pos 8388608;
  disk_space_total_size = cache_size;
  cache_mode = mode_of c.cache_mode;
  cache_max_age = when_set parse_duration_to_ns c.cache_max_age;
  cache_max_size = when_set parse_size_to_bytes c.cache_max_size;
  write_back = when_set parse_duration_to_ns c.write_back;
  chunk_streams = when_set streams_of c.chunk_streams;
  cache_poll_interval = add_int64 (poll_ns c.cache_poll_interval) (pos (suc counter));
  uid = none;
  gid = none;
}

-- id >= 0 && id <= math.MaxUint32
abbrev pub as_uint32 : Option ℤ → Option ℤ
as_uint32 none = none
as_uint32 (some (negsuc n)) = none
as_uint32 (some (pos n)) = if ltb n (2 ^ 32) then some (pos n) else none

-- What Mount adds to them: UID and GID, both from the fsGroup.
unfoldable pub owned_by : Option ℤ → VfsOpt → VfsOpt
owned_by fs_group o = record o { uid = as_uint32 fs_group; gid = as_uint32 fs_group }

-- mountOpt; AllowOther and AllowNonEmpty are always true
pub record MountOpt : Type 0 where
  pub dir_cache_time : ℕ
  pub attr_timeout : ℕ

-- defaultCacheNs
abbrev pub default_cache_ns : ℕ
default_cache_ns = 3600000000000

unfoldable pub mount_opt : VfsCacheConfig → MountOpt
mount_opt c = record {
  dir_cache_time = duration_or_default c.dir_cache_time default_cache_ns;
  attr_timeout = duration_or_default c.attr_timeout default_cache_ns;
}
