-- ===== src/Emit/Schema/TrackEvent.antt =====
-- src/emit.rs, module `schema::track_event`: field numbers and constants of the trace format.
use tracing_perfetto_file.Common.{ℕ}

abbrev pub category_iids : ℕ
category_iids = 3

abbrev pub debug_annotations : ℕ
debug_annotations = 4

abbrev pub type : ℕ
type = 9

abbrev pub name_iid : ℕ
name_iid = 10

abbrev pub track_uuid : ℕ
track_uuid = 11

abbrev pub extra_counter_values : ℕ
extra_counter_values = 12

abbrev pub name : ℕ
name = 23

abbrev pub extra_counter_track_uuids : ℕ
extra_counter_track_uuids = 31

abbrev pub source_location_iid : ℕ
source_location_iid = 34

abbrev pub extra_double_counter_track_uuids : ℕ
extra_double_counter_track_uuids = 45

abbrev pub extra_double_counter_values : ℕ
extra_double_counter_values = 46

abbrev pub flow_ids : ℕ
flow_ids = 47

abbrev pub terminating_flow_ids : ℕ
terminating_flow_ids = 48

abbrev pub type_slice_begin : ℕ
type_slice_begin = 1

abbrev pub type_slice_end : ℕ
type_slice_end = 2

abbrev pub type_instant : ℕ
type_instant = 3
