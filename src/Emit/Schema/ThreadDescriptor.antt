-- ===== src/Emit/Schema/ThreadDescriptor.antt =====
-- src/emit.rs, module `schema::thread_descriptor`: field numbers and constants of the trace format.
use tracing_perfetto_file.Common.{ℕ}

abbrev pub pid : ℕ
pid = 1

abbrev pub tid : ℕ
tid = 2

abbrev pub thread_name : ℕ
thread_name = 5
