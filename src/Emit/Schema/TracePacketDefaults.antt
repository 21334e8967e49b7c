-- ===== src/Emit/Schema/TracePacketDefaults.antt =====
-- src/emit.rs, module `schema::trace_packet_defaults`: field numbers and constants of the trace format.
use tracing_perfetto_file.Common.{ℕ}

abbrev pub track_event_defaults : ℕ
track_event_defaults = 11

abbrev pub timestamp_clock_id : ℕ
timestamp_clock_id = 58
