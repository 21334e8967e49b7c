-- ===== src/Emit/Schema/EventName.antt =====
-- src/emit.rs, module `schema::event_name`: field numbers and constants of the trace format.
use tracing_perfetto_file.Common.{ℕ}

abbrev pub iid : ℕ
iid = 1

abbrev pub name : ℕ
name = 2
