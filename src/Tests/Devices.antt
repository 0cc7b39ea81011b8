-- ===== src/Tests/Devices.antt =====
-- The theorems on a volume's devices at concrete inputs.
use lukscryptwalker_csi.Base.{false, ◌≡◌, true, false, none, some, [], ◌∷◌, All}
use lukscryptwalker_csi.Base.Bytes.{codes}
use lukscryptwalker_csi.Base.Decimal.{pos}
use lukscryptwalker_csi.Rclone.CacheDir.{file, directory, unreadable}
use lukscryptwalker_csi.Rclone.Drain.{CacheDisk}
use lukscryptwalker_csi.Driver.Drains.{load_pending_drains}
use lukscryptwalker_csi.Driver.Unstage.{Node}
use lukscryptwalker_csi.Driver.Luks.{Crypt, LuksWorld, sized, exits_zero, times_out}
use lukscryptwalker_csi.Driver.Luks.Expand.{
  ExpandWorld, ExpandRequest, node_expand_volume, mapper_reached,
}
use lukscryptwalker_csi.Driver.Luks.Expand.Layers.{
  Answers, IsGuarded, wanted, node_expand_volume-Answers,
}
use lukscryptwalker_csi.Driver.Orphans.{OrphanEntry, not_found}
use lukscryptwalker_csi.Driver.Stage.{StageWorld, StageRequest, StageResult, node_stage_volume}
use lukscryptwalker_csi.Driver.Stage.Ends.{Ends, node_stage_volume-Ends}
use lukscryptwalker_csi.Driver.Stage.Formats.{Formats, node_stage_volume-Formats}
use lukscryptwalker_csi.Tests.Recoveries.{unstage_world}
use lukscryptwalker_csi.Tests.Repairs.{live, setup_world, state}

abbrev answers : Crypt
answers = record { first = exits_zero; again = exits_zero }

abbrev expand_world : ExpandWorld
expand_world = record {
  parameters_found = true;
  opened = true;
  opened_again = true;
  size = some (pos 1000000000);
  allocated = true;
  size_again = none;
  available = none;
  truncated = false;
  loops = some (codes "/dev/loop3: [64769]:1234 (/data/luks-v.img)");
  refreshed = true;
  has_passphrase = true;
  resize = answers;
  mapped_size = some (pos 2000000000);
  fs_type = some (codes "ext4");
  grown = true;
}

abbrev expand_request : ExpandRequest
expand_request = record {
  volume_id = codes "v";
  volume_path = codes "/v";
  capacity = some (pos 0, pos 2000000000);
}

node_expand_volume-Answers_example :
    All
      (IsGuarded (mapper_reached expand_world.mapped_size (wanted expand_request.capacity)))
      (node_expand_volume expand_world (codes "/data/v") expand_request).1
    × Answers expand_world
        (wanted expand_request.capacity)
        (node_expand_volume expand_world (codes "/data/v") expand_request)
node_expand_volume-Answers_example =
    node_expand_volume-Answers expand_world (codes "/data/v") expand_request

abbrev luks_world : LuksWorld
luks_world = record {
  is_luks = times_out;
  opened = false;
  luks_format = answers;
  luks_open = answers;
  luks_close = answers;
}

abbrev stage_world : StageWorld
stage_world = record {
  live = live;
  mounts_known = true;
  staging_made = true;
  setup = setup_world;
  local_path = codes "/data/v";
  node_id = codes "node";
  fs_group = record { mount_group = []; client = false; pod_fs_group = none };
  local_made = true;
  backing = record {
    stat = sized 1000000000;
    removed = true;
    file = record { allocated = true; available = none; truncated = true; stat_after = true };
  };
  has_passphrase = true;
  luks = luks_world;
  fs = record {
    has_fs = true;
    made_fs = true;
    is_mount_point = false;
    mounted_from = false;
    depth = some 0;
    unwinds = λ i. record { depth = some 0; unmounted = true };
    dir_made = true;
    mounted = true;
    chowned = true;
    chmodded = true;
  };
  still_opened = true;
}

abbrev stage_request : StageRequest
stage_request = record {
  volume_id = codes "v";
  staging = codes "/s";
  capability = some (some (codes "ext4"));
  context = [];
}

node_stage_volume-Ends_example :
    (res : StageResult) × (node_stage_volume stage_world stage_request state ≡ some res)
    × Ends stage_world stage_request state res
node_stage_volume-Ends_example = node_stage_volume-Ends stage_world stage_request state

node_stage_volume-Formats_example :
    (res : StageResult) × (node_stage_volume stage_world stage_request state ≡ some res)
    × Formats stage_world stage_request (some (some (codes "ext4"))) res.calls
node_stage_volume-Formats_example = node_stage_volume-Formats stage_world stage_request state

abbrev disk : CacheDisk
disk = record { caches = (codes "w", directory ∷ file unreadable ∷ []) ∷ []; named = false }

abbrev orphan : OrphanEntry
orphan = record {
  name = codes "pvc-1";
  is_dir = true;
  backing_file_not_absent = true;
  pv = not_found;
  unstage = record unstage_world { teardown = record unstage_world.teardown { settled = disk } };
  targets = codes "/s" ∷ codes "/pods/p" ∷ [];
  release = record {
    is_mount_point = false;
    depth = some 0;
    unwinds = λ i. record { depth = some 0; unmounted = true };
    luks = record luks_world { opened = true };
    loops = none;
  };
  removed = true;
}

abbrev node : Node
node = record { drains = load_pending_drains []; managers = []; disk = disk }
