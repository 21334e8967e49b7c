-- ===== src/Emit/Schema/DebugAnnotationName.antt =====
-- src/emit.rs, module `schema::debug_annotation_name`: field numbers and constants of the trace format.
use tracing_perfetto_file.Common.{ℕ}

abbrev pub iid : ℕ
iid = 1

abbrev pub name : ℕ
name = 2
