-- ===== src/Sequence/Packets.antt =====
-- src/sequence.rs: packets, and the SequenceWriter that makes them. What the code reads from the
-- system (clocks, names, ids) is a record of readings, one for each place that reads; the end of a
-- packet hands its bytes to `deliver`, which `push_packet` of Runtime/Output is.
pub mod Writer
use tracing_perfetto_file.Common.{
  ℕ, ◌-◌, ◌%◌, ◌^◌, bit_or, List, [], ◌∷◌, Bool, true, false, not, ◌&&◌, Option, none, some, ◌==◌,
  if◌then◌else◌, ◌>>=◌,
}
use tracing_perfetto_file.Common.Lists.{length}
use tracing_perfetto_file.Proto.{
  ProtoBuffer, MessageToken, new, clear, truncate, begin_message, finish_message, varint_field,
  redundant_varint_field, string_field, message,
}
use tracing_perfetto_file.Emit.Schema.Trace
use tracing_perfetto_file.Emit.Schema.TracePacket
use tracing_perfetto_file.Emit.Schema.TracePacketDefaults
use tracing_perfetto_file.Emit.Schema.TrackEventDefaults
use tracing_perfetto_file.Emit.Schema.ClockSnapshot
use tracing_perfetto_file.Emit.Schema.TrackDescriptor
use tracing_perfetto_file.Emit.Schema.ProcessDescriptor
use tracing_perfetto_file.Emit.Schema.ThreadDescriptor
use tracing_perfetto_file.Runtime.{Inner, alloc_tid, process_track_uuid, claim_process_descriptor}
use tracing_perfetto_file.Sequence.{SequenceState}
use tracing_perfetto_file.Sequence.Pending.{emit_interned_data}

-- src/platform.rs
pub data ClockDomain : Type 0 where
  builtin : ℕ → ClockDomain
  sequence_local : ClockDomain

pub record Readings : Type 0 where
  pub raw_clock_ns : ℕ
  pub trace_clock_domain : ClockDomain
  -- `realtime_ns` in `packet_without_initialization`, and in `clock_snapshot`
  pub realtime_first_packet : ℕ
  pub realtime_snapshot : ℕ
  pub monotonic_ns : Option ℕ
  pub process_id : ℕ
  pub process_name : List ℕ
  pub arguments : List (List ℕ)
  pub os_tid : Option ℕ
  pub thread_name : Option (List ℕ)
  -- `format!("thread-{tid}")`
  pub default_thread_name : ℕ → List ℕ

pub record Packet : Type 0 where
  pub sequence : SequenceState
  pub proto : ProtoBuffer
  pub root : MessageToken

pub initialize_packet_prefix : Packet → Packet
initialize_packet_prefix p =
    let proto =
      varint_field p.proto TracePacket.trusted_packet_sequence_id p.sequence.sequence_id in
    let proto =
      varint_field proto TracePacket.sequence_flags TracePacket.seq_needs_incremental_state in
    record {
      sequence = record p.sequence { packet_prefix = some (length proto.buf, p.root) };
      proto = proto;
      root = p.root;
    }

pub initialize_first_packet : Packet → ℕ → ℕ → Option Packet
initialize_first_packet p timestamp timestamp_clock_id =
    let proto = varint_field p.proto TracePacket.timestamp timestamp in
    let proto = varint_field proto TracePacket.trusted_packet_sequence_id p.sequence.sequence_id in
    let proto =
      varint_field proto TracePacket.sequence_flags (
        bit_or TracePacket.seq_incremental_state_cleared TracePacket.seq_needs_incremental_state) in
    let proto = varint_field proto TracePacket.first_packet_on_sequence 1 in
    let proto = varint_field proto TracePacket.timestamp_clock_id timestamp_clock_id in
    message proto TracePacket.trace_packet_defaults (λ defaults.
      let defaults =
        varint_field defaults TracePacketDefaults.timestamp_clock_id
          ClockSnapshot.custom_clock_id in
      message defaults TracePacketDefaults.track_event_defaults (λ track_defaults. some (
        redundant_varint_field track_defaults TrackEventDefaults.track_uuid
          p.sequence.thread_track_uuid)))
    >>= λ proto.
        some (record p { sequence = record p.sequence { first_packet_done = true }; proto = proto })

-- The buffer of a new packet, its root, and whether the prefix is already in it.
pub begin_packet : SequenceState → Option (ℕ × MessageToken) → ProtoBuffer × MessageToken × Bool
begin_packet st (some (prefix_len, root)) = (truncate st.scratch prefix_len, root, true)
begin_packet st none =
    let (root, proto) = begin_message (clear st.scratch) Trace.packet in (proto, root, false)

-- The `match` on the clock of the first packet.
pub first_timestamp : Readings → ℕ → ClockDomain → ℕ × ℕ
first_timestamp env raw (builtin clock_id) = (raw, clock_id)
first_timestamp env raw sequence_local =
    (env.realtime_first_packet, ClockSnapshot.builtin_clock_realtime)

-- The later packets: the delta to the last timestamp, which a clock that went back makes 0.
pub later_packet : Packet → ℕ → Bool → Packet
later_packet p raw reused_prefix =
    let delta = raw - p.sequence.last_timestamp_ns in
    let p = record p { sequence = record p.sequence { last_timestamp_ns = raw } } in
    let p = if reused_prefix then p else initialize_packet_prefix p in
    record p { proto = varint_field p.proto TracePacket.timestamp delta }
