-- ===== src/Emit/Schema/Trace.antt =====
-- src/emit.rs, module `schema::trace`: field numbers and constants of the trace format.
use tracing_perfetto_file.Common.{ℕ}

abbrev pub packet : ℕ
packet = 1
