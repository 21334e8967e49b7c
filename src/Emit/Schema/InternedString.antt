-- ===== src/Emit/Schema/InternedString.antt =====
-- src/emit.rs, module `schema::interned_string`: field numbers and constants of the trace format.
use tracing_perfetto_file.Common.{ℕ}

abbrev pub iid : ℕ
iid = 1

abbrev pub str : ℕ
str = 2
