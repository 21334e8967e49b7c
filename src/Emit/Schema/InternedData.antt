-- ===== src/Emit/Schema/InternedData.antt =====
-- src/emit.rs, module `schema::interned_data`: field numbers and constants of the trace format.
use tracing_perfetto_file.Common.{ℕ}

abbrev pub event_categories : ℕ
event_categories = 1

abbrev pub event_names : ℕ
event_names = 2

abbrev pub debug_annotation_names : ℕ
debug_annotation_names = 3

abbrev pub debug_annotation_string_values : ℕ
debug_annotation_string_values = 29

abbrev pub source_locations : ℕ
source_locations = 4
