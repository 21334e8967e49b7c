-- ===== src/Subscriber/Instants.antt =====
-- src/subscriber.rs: `on_event`.
use tracing_perfetto_file.Common.{
  ℕ, List, [], ◌∷◌, Bool, true, false, Option, none, some, ◌==◌, if◌then◌else◌, ◌>>=◌,
}
use tracing_perfetto_file.Common.Lists.{take, drop, length}
use tracing_perfetto_file.Common.Maps.{StaticStr}
use tracing_perfetto_file.Emit.{max_extra_counters, instant, name_iid, counter_descriptor}
use tracing_perfetto_file.Layer.{Config, SpanMode}
use tracing_perfetto_file.Runtime
use tracing_perfetto_file.Runtime.{process_track_uuid}
use tracing_perfetto_file.Sequence.{SequenceState, intern_event_name, cache_counter_track}
use tracing_perfetto_file.Sequence
use tracing_perfetto_file.Sequence.Packets.{Readings}
use tracing_perfetto_file.Sequence.Packets.Writer
use tracing_perfetto_file.Sequence.Packets.Writer.{SequenceWriter}
use tracing_perfetto_file.Spans.{get}
use tracing_perfetto_file.Thread.Contexts.{context_of}
use tracing_perfetto_file.Visitor.{starts_with, counter_prefix}
use tracing_perfetto_file.Visitor.Calls.{Call, visit_all}
use tracing_perfetto_file.Visitor.EventVisitor
use tracing_perfetto_file.Subscriber.{
  Addresses, Metadata, Moment, Parts, World, Writer, deliver, acquired, dropped, with_writer,
}
use tracing_perfetto_file.Subscriber.Events.{Event, write_metadata, track_event}
use tracing_perfetto_file.Subscriber.Slices.{with_track}

-- `mode == SpanMode::SpanTracks`
unfoldable pub is_span_tracks : SpanMode → Bool
is_span_tracks SpanMode.both = false
is_span_tracks SpanMode.thread_tracks = false
is_span_tracks SpanMode.span_tracks = true

-- "event "
abbrev pub event_prefix : List ℕ
event_prefix = 101 ∷ 118 ∷ 101 ∷ 110 ∷ 116 ∷ 32 ∷ []

-- `name.strip_prefix("counter.").unwrap_or(name)`
unfoldable pub counter_name : List ℕ → List ℕ
counter_name name =
    if starts_with name counter_prefix then drop (length counter_prefix) name else name

-- The fields that are counters, in order.
unfoldable pub counter_fields : List StaticStr → List StaticStr
counter_fields [] = []
counter_fields (field ∷ fields) =
    let rest = counter_fields fields in
    if starts_with field.text counter_prefix then field ∷ rest else rest

-- The name of an event: from the visitor, or else of the metadata.
unfoldable pub write_name : Metadata → EventVisitor.EventVisitor → Event
write_name metadata v =
    if v.wrote_name
    then (v.event, v.sequence)
    else (let (iid, st) = intern_event_name v.sequence metadata.name in (name_iid v.event iid, st))

-- The event of `on_event`, where `track` is the track that it names, if it is not the thread's.
unfoldable pub instant_event :
    Config → Addresses → Metadata → List Call → Option ℕ → Event → Option Event
instant_event config a metadata values track (event, st) =
    write_metadata config a metadata (with_track track (instant event), st) >>= λ (event, st).
    visit_all
      (EventVisitor.new event st config.debug_annotations config.counters
        (starts_with metadata.name.text event_prefix))
      values
    >>= λ v. some (write_name metadata v)

module _ {W : Type 0} (hand_on : W → List ℕ → W) (readings : Readings) where
  -- `create_counter_track`
  unfoldable pub create_counter_track :
      SequenceWriter hand_on → StaticStr → Option (SequenceWriter hand_on)
  create_counter_track writer name =
      Runtime.counter_track_uuid writer.inner name.ptr >>= λ (uuid, inner).
      Writer.initialized hand_on readings (record writer { inner = inner }) >>= λ writer.
      process_track_uuid writer.inner >>= λ (process_uuid, inner).
      Writer.with_packet hand_on readings (record writer { inner = inner })
        (Writer.fields hand_on
          (λ packet. counter_descriptor packet uuid (counter_name name.text) process_uuid))
      >>= λ writer.
          some (record writer { sequence = cache_counter_track writer.sequence name uuid })

  create_if_missing :
      SequenceWriter hand_on → StaticStr → Option ℕ → Option (SequenceWriter hand_on)
  unfolding create_counter_track
  create_if_missing writer name (some uuid) = some writer
  create_if_missing writer name none = create_counter_track writer name

  -- The loop over the counters of an event.
  unfoldable pub create_counters :
      SequenceWriter hand_on → List StaticStr → Option (SequenceWriter hand_on)
  unfolding create_if_missing
  create_counters writer [] = some writer
  create_counters writer (field ∷ fields) =
      create_if_missing writer field (Sequence.counter_track_uuid writer.sequence field)
      >>= λ writer. create_counters writer fields

module _ (p : Parts) (now : Moment) where
  -- The lifetime track of the span that the event is in.
  enclosing_track : World p → Option ℕ → Option (Option ℕ)
  enclosing_track w none = some none
  enclosing_track w (some id) =
      get p.span_map w.store id >>= λ found. some (found >>= λ span. span.track_uuid)

  event_track : World p → Option ℕ → Option (Option ℕ)
  unfolding enclosing_track
  event_track w enclosing =
      if is_span_tracks w.inner.config.span_mode then enclosing_track w enclosing else some none

  -- `if track_uuid != thread_track_uuid`
  named_track : ℕ → Option ℕ → Option ℕ
  named_track thread_track none = none
  named_track thread_track (some uuid) = if uuid == thread_track then none else some uuid

  write_event : Config → Metadata → List Call → Option ℕ → Writer p → Option (Writer p)
  write_event config metadata values track writer =
      let wanted =
        if config.counters then take max_extra_counters (counter_fields metadata.fields) else [] in
      create_counters (deliver p) now.readings writer wanted >>= λ writer.
      Writer.packet (deliver p) now.readings writer
        (track_event (instant_event config now.addresses metadata values track))

  event_with : World p → Metadata → List Call → Option ℕ → ℕ → Option (World p)
  unfolding write_event event_track named_track
  event_with w metadata values enclosing k = context_of w.local.contexts k >>= λ context.
      event_track w enclosing >>= λ track.
      with_writer p now w k (
        write_event w.inner.config metadata values
          (named_track context.sequence.thread_track_uuid track))
      >>= λ w. some (dropped p now w k)

  event_if : World p → Metadata → List Call → Option ℕ → Option ℕ → Option (World p)
  unfolding event_with
  event_if w metadata values enclosing (some k) = event_with w metadata values enclosing k
  event_if w metadata values enclosing none = some w

  -- `enclosing` is the span that `ctx.event_span` finds.
  unfoldable pub on_event : World p → Metadata → List Call → Option ℕ → Option (World p)
  unfolding event_if
  on_event w metadata values enclosing =
      if w.output.has_error
      then some w
      else (acquired p now w >>= λ (lent, w). event_if w metadata values enclosing lent)
