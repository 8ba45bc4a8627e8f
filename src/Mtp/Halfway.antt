-- ===== src/Mtp/Halfway.antt =====
-- SendObject of src/mtp/mtp_ops.c, and every command, with uploads and stores in step.
use nx_nexus.Mtp.World.{World}
use nx_nexus.Mtp.Keeps.{Keeps}
use nx_nexus.Mtp.Writing.{Writing}
