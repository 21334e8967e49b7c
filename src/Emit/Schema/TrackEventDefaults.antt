-- ===== src/Emit/Schema/TrackEventDefaults.antt =====
-- src/emit.rs, module `schema::track_event_defaults`: field numbers and constants of the trace format.
use tracing_perfetto_file.Common.{ℕ}

abbrev pub track_uuid : ℕ
track_uuid = 11
