-- ===== src/Emit/Schema/ProcessDescriptor.antt =====
-- src/emit.rs, module `schema::process_descriptor`: field numbers and constants of the trace format.
use tracing_perfetto_file.Common.{ℕ}

abbrev pub pid : ℕ
pid = 1

abbrev pub cmdline : ℕ
cmdline = 2

abbrev pub process_name : ℕ
process_name = 6
