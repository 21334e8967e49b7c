-- ===== src/Emit/Schema/SourceLocation.antt =====
-- src/emit.rs, module `schema::source_location`: field numbers and constants of the trace format.
use tracing_perfetto_file.Common.{ℕ}

abbrev pub iid : ℕ
iid = 1

abbrev pub file_name : ℕ
file_name = 2

abbrev pub line_number : ℕ
line_number = 4
