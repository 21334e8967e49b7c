-- ===== src/Emit/Schema/DebugAnnotation.antt =====
-- src/emit.rs, module `schema::debug_annotation`: field numbers and constants of the trace format.
use tracing_perfetto_file.Common.{ℕ}

abbrev pub name_iid : ℕ
name_iid = 1

abbrev pub bool_value : ℕ
bool_value = 2

abbrev pub uint_value : ℕ
uint_value = 3

abbrev pub int_value : ℕ
int_value = 4

abbrev pub double_value : ℕ
double_value = 5

abbrev pub string_value : ℕ
string_value = 6

abbrev pub string_value_iid : ℕ
string_value_iid = 17
