-- ===== src/Subscriber/Events.antt =====
-- src/subscriber.rs: what the handlers write into a track event.
use tracing_perfetto_file.Common.{ℕ, List, [], ◌∷◌, Option, none, some, if◌then◌else◌, ◌>>=◌}
use tracing_perfetto_file.Common.Maps.{StaticStr}
use tracing_perfetto_file.Emit.Schema.TracePacket
use tracing_perfetto_file.Emit.{
  TrackEventWriter, source_location_iid, level_annotation, category_iid, flow_start, flow_terminate,
  annotation_bool, annotation_i64, annotation_u64, annotation_f64, annotation_str,
}
use tracing_perfetto_file.Layer.{Config}
use tracing_perfetto_file.Proto.{begin_message, finish_message}
use tracing_perfetto_file.Runtime.{FieldValue, PendingFlow}
use tracing_perfetto_file.Sequence.{
  SequenceState, intern_source_location, intern_category, intern_annotation_name, level_value_seen,
  register_level_name, register_level_value,
}
use tracing_perfetto_file.Sequence.Packets.{Packet}
use tracing_perfetto_file.Subscriber.{Level, Metadata, Addresses}

-- An event under construction, and the sequence that it interns its names in.
abbrev pub Event : Type 0
Event = TrackEventWriter × SequenceState

abbrev pub level_name_iid : ℕ
level_name_iid = 1

-- "level"
abbrev pub level_literal : Addresses → StaticStr
level_literal a = record { ptr = a.level; text = 108 ∷ 101 ∷ 118 ∷ 101 ∷ 108 ∷ [] }

-- The iid of a level's name, the name, and its bit.
unfoldable pub level_values : Addresses → Level → ℕ × StaticStr × ℕ
level_values a Level.trace = (1, record { ptr = a.trace; text = 84 ∷ 82 ∷ 65 ∷ 67 ∷ 69 ∷ [] }, 1)
level_values a Level.debug = (2, record { ptr = a.debug; text = 68 ∷ 69 ∷ 66 ∷ 85 ∷ 71 ∷ [] }, 2)
level_values a Level.info = (3, record { ptr = a.info; text = 73 ∷ 78 ∷ 70 ∷ 79 ∷ [] }, 4)
level_values a Level.warn = (4, record { ptr = a.warn; text = 87 ∷ 65 ∷ 82 ∷ 78 ∷ [] }, 8)
level_values a Level.error = (5, record { ptr = a.error; text = 69 ∷ 82 ∷ 82 ∷ 79 ∷ 82 ∷ [] }, 16)

-- `if let (Some(file), Some(line)) = …`
unfoldable pub write_location : Metadata → Option StaticStr → Option ℕ → Event → Event
write_location metadata (some file) (some line) (event, st) =
    let (iid, st) = intern_source_location st metadata.callsite file line in
    (source_location_iid event iid, st)
write_location metadata (some file) none e = e
write_location metadata none line e = e

-- The two registrations of a level.
unfoldable pub announce_level : Addresses → Level → SequenceState → SequenceState
announce_level a level st =
    let (iid, value, bit) = level_values a level in
    let st = if st.level_name_seen then st else register_level_name st (level_literal a) in
    if level_value_seen st bit then st else register_level_value st bit iid value

unfoldable pub write_metadata : Config → Addresses → Metadata → Event → Option Event
write_metadata config a metadata e =
    let (event, st) =
      if config.source_locations
      then write_location metadata metadata.file metadata.line e
      else e in
    let st = announce_level a metadata.level st in
    level_annotation event level_name_iid (level_values a metadata.level).0 >>= λ event.
    let (iid, st) = intern_category st metadata.target in some (category_iid event iid, st)

unfoldable pub write_flow : TrackEventWriter → PendingFlow → TrackEventWriter
write_flow event (PendingFlow.start id) = flow_start event id
write_flow event (PendingFlow.terminate id) = flow_terminate event id

unfoldable pub write_pending_flows : TrackEventWriter → List PendingFlow → TrackEventWriter
write_pending_flows event [] = event
write_pending_flows event (flow ∷ flows) = write_pending_flows (write_flow event flow) flows

unfoldable pub write_value : TrackEventWriter → ℕ → FieldValue → Option TrackEventWriter
write_value event iid (FieldValue.bool value) = annotation_bool event iid value
write_value event iid (FieldValue.i64 value) = annotation_i64 event iid value
write_value event iid (FieldValue.u64 value) = annotation_u64 event iid value
write_value event iid (FieldValue.f64 value) = annotation_f64 event iid value
write_value event iid (FieldValue.str value) = annotation_str event iid value

unfoldable pub write_stored_fields : Event → List (StaticStr × FieldValue) → Option Event
write_stored_fields e [] = some e
write_stored_fields (event, st) ((name, value) ∷ fields) =
    let (iid, st) = intern_annotation_name st name in
    write_value event iid value >>= λ event. write_stored_fields (event, st) fields

-- The message of a track event in a packet, from its start to its end.
unfoldable pub track_event : (Event → Option Event) → Packet → Option Packet
track_event write packet =
    let (token, proto) = begin_message packet.proto TracePacket.track_event in
    write (proto, packet.sequence) >>= λ (event, st). finish_message event token >>= λ proto.
    some (record { sequence = st; proto = proto; root = packet.root })
