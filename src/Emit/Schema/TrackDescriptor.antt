-- ===== src/Emit/Schema/TrackDescriptor.antt =====
-- src/emit.rs, module `schema::track_descriptor`: field numbers and constants of the trace format.
use tracing_perfetto_file.Common.{ℕ}

abbrev pub uuid : ℕ
uuid = 1

abbrev pub name : ℕ
name = 2

abbrev pub process : ℕ
process = 3

abbrev pub thread : ℕ
thread = 4

abbrev pub parent_uuid : ℕ
parent_uuid = 5

abbrev pub counter : ℕ
counter = 8
