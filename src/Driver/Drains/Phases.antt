-- ===== src/Driver/Drains/Phases.antt =====
-- The drain slots against a machine of four phases for each volume.
use lukscryptwalker_csi.Base.Bytes.{Bytes}
use lukscryptwalker_csi.Driver.Drains.{Drains}
