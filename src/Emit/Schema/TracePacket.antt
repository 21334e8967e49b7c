-- ===== src/Emit/Schema/TracePacket.antt =====
-- src/emit.rs, module `schema::trace_packet`: field numbers and constants of the trace format.
use tracing_perfetto_file.Common.{ℕ}

abbrev pub clock_snapshot : ℕ
clock_snapshot = 6

abbrev pub timestamp : ℕ
timestamp = 8

abbrev pub trusted_packet_sequence_id : ℕ
trusted_packet_sequence_id = 10

abbrev pub track_event : ℕ
track_event = 11

abbrev pub interned_data : ℕ
interned_data = 12

abbrev pub sequence_flags : ℕ
sequence_flags = 13

abbrev pub timestamp_clock_id : ℕ
timestamp_clock_id = 58

abbrev pub trace_packet_defaults : ℕ
trace_packet_defaults = 59

abbrev pub track_descriptor : ℕ
track_descriptor = 60

abbrev pub first_packet_on_sequence : ℕ
first_packet_on_sequence = 87

abbrev pub seq_incremental_state_cleared : ℕ
seq_incremental_state_cleared = 1

abbrev pub seq_needs_incremental_state : ℕ
seq_needs_incremental_state = 2
