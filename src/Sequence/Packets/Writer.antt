-- ===== src/Sequence/Packets/Writer.antt =====
-- src/sequence.rs: the SequenceWriter, the end of a packet, and the packets that initialise a
-- sequence. `deliver` takes the bytes of a finished packet.
pub mod Reuse
pub mod Delivery
pub mod Later
mod Examples
use tracing_perfetto_file.Common.{
  ℕ, ◌-◌, List, [], ◌∷◌, ◌++◌, Bool, true, false, not, Option, none, some, ◌==◌, if◌then◌else◌,
  ◌>>=◌,
}
use tracing_perfetto_file.Proto.{
  ProtoBuffer, new, finish_message, varint_field, redundant_varint_field, string_field, message,
}
use tracing_perfetto_file.Emit.Schema.TracePacket
use tracing_perfetto_file.Emit.Schema.ClockSnapshot
use tracing_perfetto_file.Emit.Schema.TrackDescriptor
use tracing_perfetto_file.Emit.Schema.ProcessDescriptor
use tracing_perfetto_file.Emit.Schema.ThreadDescriptor
use tracing_perfetto_file.Runtime.{Inner, alloc_tid, process_track_uuid, claim_process_descriptor}
use tracing_perfetto_file.Sequence.{SequenceState}
use tracing_perfetto_file.Sequence.Packets.{
  ClockDomain, builtin, sequence_local, Readings, Packet, begin_packet, first_timestamp,
  later_packet, initialize_first_packet,
}
use tracing_perfetto_file.Sequence.Pending.{emit_interned_data}

-- The readings of one callback: `(clock_id, timestamp)`, in the order of the array `clocks`.
builtin_clock : ClockDomain → ℕ → List (ℕ × ℕ)
builtin_clock (builtin clock_id) raw = (clock_id, raw) ∷ []
builtin_clock sequence_local raw = []

is_monotonic : ClockDomain → Bool
is_monotonic (builtin clock_id) = clock_id == ClockSnapshot.builtin_clock_monotonic
is_monotonic sequence_local = false

monotonic_clock : Bool → Option ℕ → List (ℕ × ℕ)
monotonic_clock true reading = []
monotonic_clock false (some timestamp) = (ClockSnapshot.builtin_clock_monotonic, timestamp) ∷ []
monotonic_clock false none = []

primary_clock_id : ClockDomain → ℕ
primary_clock_id (builtin clock_id) = clock_id
primary_clock_id sequence_local = ClockSnapshot.builtin_clock_realtime

-- `clocks[..count]`
snapshot_clocks : Readings → (raw clock_anchor_ns : ℕ) → List (ℕ × ℕ)
unfolding builtin_clock is_monotonic monotonic_clock
snapshot_clocks env raw clock_anchor_ns =
    (ClockSnapshot.custom_clock_id, raw - clock_anchor_ns)
      ∷ builtin_clock env.trace_clock_domain raw
    ++ (ClockSnapshot.builtin_clock_realtime, env.realtime_snapshot)
      ∷ monotonic_clock (is_monotonic env.trace_clock_domain) env.monotonic_ns

write_clocks : List (ℕ × ℕ) → ProtoBuffer → Option ProtoBuffer
write_clocks [] snapshot = some snapshot
write_clocks ((clock_id, timestamp) ∷ clocks) snapshot =
    message snapshot ClockSnapshot.clocks (λ clock.
      let clock = varint_field clock ClockSnapshot.clock_id clock_id in
      let clock = varint_field clock ClockSnapshot.clock_timestamp timestamp in
      some (
        if clock_id == ClockSnapshot.custom_clock_id
        then varint_field clock ClockSnapshot.clock_is_incremental 1
        else clock))
    >>= λ snapshot. write_clocks clocks snapshot

write_arguments : List (List ℕ) → ProtoBuffer → ProtoBuffer
write_arguments [] process = process
write_arguments (argument ∷ arguments) process =
    write_arguments arguments (string_field process ProcessDescriptor.cmdline argument)

-- `os_tid().unwrap_or_else(|| self.inner.alloc_tid())`
tid_of : Readings → Option ℕ → Inner → ℕ × Inner
tid_of env (some tid) inner = (tid, inner)
tid_of env none inner = alloc_tid env.process_id inner

name_of : Readings → ℕ → Option (List ℕ) → List ℕ
name_of env tid (some name) = name
name_of env tid none = env.default_thread_name tid

module _ {W : Type 0} (deliver : W → List ℕ → W) where
  -- A SequenceWriter with what it borrows; `output` is the thread's queue and the sink.
  pub record SequenceWriter : Type 0 where
    pub inner : Inner
    pub sequence : SequenceState
    pub output : W
    pub timestamp_ns : Option ℕ

  timestamp : Readings → SequenceWriter → Option ℕ → ℕ × SequenceWriter
  timestamp env w (some at) = (at, w)
  timestamp env w none = (env.raw_clock_ns, record w { timestamp_ns = some env.raw_clock_ns })

  -- The writer without its sequence, which the packet holds until it ends.
  pub packet_without_initialization : Readings → SequenceWriter → Option (SequenceWriter × Packet)
  unfolding timestamp
  packet_without_initialization env w =
      let (proto, root, reused_prefix) = begin_packet w.sequence w.sequence.packet_prefix in
      let (raw, w) = timestamp env w w.timestamp_ns in
      let opened : Packet = record {
        sequence = record w.sequence { scratch = new };
        proto = proto;
        root = root;
      } in
      if w.sequence.first_packet_done
      then some (w, later_packet opened raw reused_prefix)
      else (let (at, clock_id) = first_timestamp env raw env.trace_clock_domain in
          initialize_first_packet opened at clock_id >>= λ opened. some (w, opened))

  -- `Drop for Packet`
  pub drop : SequenceWriter → Packet → Option SequenceWriter
  drop w p = emit_interned_data p.sequence p.proto >>= λ (sequence, proto).
      finish_message proto p.root >>= λ proto. some (record w {
        output = deliver w.output proto.buf;
        sequence = record sequence { scratch = proto };
      })

  -- A packet with `body` written between its start and its end.
  pub with_packet : Readings → SequenceWriter → (Packet → Option Packet) → Option SequenceWriter
  unfolding packet_without_initialization drop
  with_packet env w body = packet_without_initialization env w >>= λ (w, opened).
      body opened >>= λ written. drop w written

  -- A body that only writes fields.
  pub fields : (ProtoBuffer → Option ProtoBuffer) → Packet → Option Packet
  fields op p = op p.proto >>= λ proto. some (record p { proto = proto })

  clock_snapshot : Readings → SequenceWriter → Option SequenceWriter
  unfolding timestamp with_packet fields
  clock_snapshot env w =
      let (raw, w) = timestamp env w w.timestamp_ns in
      let w = record w { sequence = record w.sequence { last_timestamp_ns = raw } } in
      let clocks = snapshot_clocks env raw w.sequence.clock_anchor_ns in
      with_packet env w (
        fields (λ packet. message packet TracePacket.clock_snapshot (λ snapshot.
          let snapshot =
            varint_field snapshot ClockSnapshot.primary_trace_clock
              (primary_clock_id env.trace_clock_domain) in
          write_clocks clocks snapshot)))

  process_descriptor : Readings → SequenceWriter → Option SequenceWriter
  unfolding with_packet fields
  process_descriptor env w =
      let (claimed, inner) = claim_process_descriptor w.inner in
      let w = record w { inner = inner } in
      let described = process_track_uuid w.inner >>= λ (process_uuid, inner).
      with_packet env (record w { inner = inner })
        (fields (λ packet. message packet TracePacket.track_descriptor (λ descriptor.
          let descriptor = redundant_varint_field descriptor TrackDescriptor.uuid process_uuid in
          message descriptor TrackDescriptor.process (λ process.
            let process = varint_field process ProcessDescriptor.pid env.process_id in
            let process =
              if inner.config.process_arguments
              then write_arguments env.arguments process
              else process in
            some (string_field process ProcessDescriptor.process_name env.process_name))))) in
      if claimed then described else some w

  thread_descriptor : Readings → SequenceWriter → Option SequenceWriter
  unfolding with_packet fields tid_of name_of
  thread_descriptor env w =
      let (tid, inner) = tid_of env env.os_tid w.inner in
      let name = name_of env tid env.thread_name in
      let thread_uuid = w.sequence.thread_track_uuid in
      with_packet env (record w { inner = inner })
        (fields (λ packet. message packet TracePacket.track_descriptor (λ descriptor.
          let descriptor = redundant_varint_field descriptor TrackDescriptor.uuid thread_uuid in
          message descriptor TrackDescriptor.thread (λ thread.
            let thread = varint_field thread ThreadDescriptor.pid env.process_id in
            let thread = varint_field thread ThreadDescriptor.tid tid in
            some (string_field thread ThreadDescriptor.thread_name name)))))

  initialize : Readings → SequenceWriter → Option SequenceWriter
  unfolding clock_snapshot process_descriptor thread_descriptor
  initialize env w =
      clock_snapshot env (record w { sequence = record w.sequence { initialized = true } }) >>= λ w.
      process_descriptor env w >>= λ w. thread_descriptor env w

  -- `if !self.sequence.initialized { self.initialize() }`
  pub initialized : Readings → SequenceWriter → Option SequenceWriter
  unfolding initialize
  initialized env w = if w.sequence.initialized then some w else initialize env w

  -- `packet`, with the body of the packet.
  pub packet : Readings → SequenceWriter → (Packet → Option Packet) → Option SequenceWriter
  unfolding initialized with_packet
  packet env w body = initialized env w >>= λ w. with_packet env w body
