-- ===== src/Emit/Schema/ClockSnapshot.antt =====
-- src/emit.rs, module `schema::clock_snapshot`: field numbers and constants of the trace format.
use tracing_perfetto_file.Common.{ℕ}

abbrev pub clocks : ℕ
clocks = 1

abbrev pub primary_trace_clock : ℕ
primary_trace_clock = 2

abbrev pub clock_id : ℕ
clock_id = 1

abbrev pub clock_timestamp : ℕ
clock_timestamp = 2

abbrev pub clock_is_incremental : ℕ
clock_is_incremental = 3

abbrev pub builtin_clock_realtime : ℕ
builtin_clock_realtime = 1

abbrev pub builtin_clock_monotonic : ℕ
builtin_clock_monotonic = 3

abbrev pub custom_clock_id : ℕ
custom_clock_id = 64
