-- ===== src/Subscriber/Enter.antt =====
-- `on_enter` of src/subscriber.rs over whole packets.
use tracing_perfetto_file.Common.{
  ℕ, ◌≡◌, refl, ◌∙◌, List, [], Bool, true, false, ◌&&◌, if_false, Option, none, some, if◌then◌else◌,
}
use tracing_perfetto_file.Common.Lists.{All}
use tracing_perfetto_file.Common.Maps.{StaticStr}
use tracing_perfetto_file.Emit.{slice_begin, name_iid, flow_start}
use tracing_perfetto_file.Emit.Layouts.{
  slice_begin-Writes, track_uuid-Writes, name_iid-Writes, flow_start-Writes,
}
use tracing_perfetto_file.Layer.{Config, emit_thread_slices}
use tracing_perfetto_file.Proto.{IsU64}
use tracing_perfetto_file.Proto.Fields.{Writes, Writes-seq, Writes-nothing}
use tracing_perfetto_file.Proto.Wire
use tracing_perfetto_file.Proto.Wire.{Layout, ◌+++◌}
use tracing_perfetto_file.Runtime.{RetainedSpanData, FieldValue}
use tracing_perfetto_file.Sequence.{SequenceState, intern_event_name}
use tracing_perfetto_file.Spans.{SpanData, get}
use tracing_perfetto_file.Spans.Tiers.{IsStore}
use tracing_perfetto_file.Thread.Contexts.{ThreadCtx}
use tracing_perfetto_file.Subscriber.{
  Metadata, Addresses, RegistrySpan, Registry, Moment, Parts, World, fields, pending_flows,
}
use tracing_perfetto_file.Subscriber.Events.{Event, write_stored_fields}
use tracing_perfetto_file.Subscriber.Spans.{is_thread_tracks}
use tracing_perfetto_file.Subscriber.Slices.{
  no_slice, poll_literal, slice_track, write_poll_flow, write_head, enter_event, on_enter,
}
use tracing_perfetto_file.Subscriber.Layouts.{
  EventAdds, EventAdds-seq, EventAdds-by, Writes-EventAdds, IsFlow, fields_state, fields_layout,
  AreStored, write_stored_fields-EventAdds,
}
use tracing_perfetto_file.Subscriber.Lent.{IsFree, acquired_there}
use tracing_perfetto_file.Subscriber.Sliced.{
  Writable, Slices, SharesPackets, open_sequence, slice_if-Slices,
}
use tracing_perfetto_file.Subscriber.Heads.{
  EventAdds-at, metadata_state, metadata_layout, IsMetadata, write_metadata-EventAdds,
}
use tracing_perfetto_file.Subscriber.Shared.{
  SharesPackets-trans, event_name-SharesPackets, metadata-SharesPackets, fields-SharesPackets,
}
use tracing_perfetto_file.Subscriber.Exit.{flows_of, write_flows-Writes}

-- The fields that a thread slice shows.
abbrev pub shown : Config → SpanData → List (StaticStr × FieldValue)
shown config span =
    if config.debug_annotations && is_thread_tracks config.span_mode then fields span else []

-- The sequence behind the name of the event.
abbrev pub named : SequenceState → StaticStr → SequenceState
named st name = (intern_event_name st name).1

-- The sequence behind the event.
abbrev pub enter_state :
    Config → Addresses → Metadata → SpanData → Option ℕ → SequenceState → SequenceState
enter_state config a metadata span none st =
    fields_state (metadata_state config a metadata (named st metadata.name)) (shown config span)
enter_state config a metadata span (some uuid) st = named st (poll_literal a)

-- A begin with the name, the metadata and the fields of the span, or with the track and "poll".
abbrev head_layout : Config → Addresses → Metadata → SpanData → Option ℕ → SequenceState → Layout
head_layout config a metadata span none st =
    (Wire.varint 9 1 (Wire.varint 10 (intern_event_name st metadata.name).0 Wire.end)
      +++ metadata_layout config a metadata (named st metadata.name))
    +++ fields_layout (metadata_state config a metadata (named st metadata.name))
        (shown config span)
head_layout config a metadata span (some uuid) st =
    Wire.varint 9 1
      (Wire.varint 11 uuid (Wire.varint 10 (intern_event_name st (poll_literal a)).0 Wire.end))

-- The flow to the next poll, if the span has one.
abbrev poll_flow_layout : Option RetainedSpanData → Layout
poll_flow_layout none = Wire.end
poll_flow_layout (some retained) = elim retained.poll_flow_id [
  | some flow ↦ Wire.fixed64 47 flow Wire.end
  | none ↦ Wire.end
]

abbrev pub enter_layout :
    Config → Addresses → Metadata → SpanData → Bool → Option ℕ → SequenceState → Layout
enter_layout config a metadata span flows track st =
    head_layout config a metadata span track st
    +++ (poll_flow_layout span.retained +++ flows_of flows span)

-- The iids, ids and values of the event have the ranges of their types.
abbrev pub IsHead : Config → Addresses → Metadata → SpanData → Option ℕ → SequenceState → Type 0
IsHead config a metadata span none st =
    IsU64 (intern_event_name st metadata.name).0
    × IsMetadata config a metadata (named st metadata.name)
    × AreStored (metadata_state config a metadata (named st metadata.name)) (shown config span)
IsHead config a metadata span (some uuid) st =
    IsU64 uuid × IsU64 (intern_event_name st (poll_literal a)).0

abbrev IsPollFlow : Option RetainedSpanData → Type 0
IsPollFlow none = Unit {0}
IsPollFlow (some retained) = (flow : ℕ) → retained.poll_flow_id ≡ some flow → IsU64 flow

write_poll_flow-Writes :
    (retained : Option RetainedSpanData)
    → IsPollFlow retained
    → Writes (poll_flow_layout retained) (λ e. some (write_poll_flow e retained))
unfolding write_poll_flow
write_poll_flow-Writes none h = Writes-nothing
write_poll_flow-Writes (some retained) h = by_flow retained.poll_flow_id h
  where
    by_flow :
        (id : Option ℕ)
        → ((flow : ℕ) → id ≡ some flow → IsU64 flow)
        → Writes
            (elim id [ some flow ↦ Wire.fixed64 47 flow Wire.end | none ↦ Wire.end ])
            (λ e. some (elim id [ some flow ↦ flow_start e flow | none ↦ e ]))
    by_flow none h = Writes-nothing
    by_flow (some flow) h = flow_start-Writes flow (h flow refl)

-- `if debug_annotations && mode == ThreadTracks { write_stored_fields(…) }`
shown-EventAdds :
    (wanted : Bool) (st : SequenceState) (fields : List (StaticStr × FieldValue))
    → AreStored st (if wanted then fields else [])
    → EventAdds st
        (fields_state st (if wanted then fields else []))
        (fields_layout st (if wanted then fields else []))
        (λ e. if wanted then write_stored_fields e fields else some e)
unfolding fields_state
shown-EventAdds true st fields h = write_stored_fields-EventAdds st fields h
shown-EventAdds false st fields h = EventAdds-at st st Writes-nothing (λ event. refl)

write_head-EventAdds :
    (config : Config) (a : Addresses) (metadata : Metadata) (span : SpanData) (track : Option ℕ)
    (st : SequenceState)
    → IsHead config a metadata span track st
    → EventAdds st
        (enter_state config a metadata span track st)
        (head_layout config a metadata span track st)
        (λ (event, st). write_head config a metadata span track (slice_begin event, st))
unfolding write_head
write_head-EventAdds config a metadata span none st (small, fits, stored) =
    let begin : Event → Option Event = λ (event, st).
      (let (iid, st) = intern_event_name st metadata.name in
        some (name_iid (slice_begin event) iid, st)) in
    let begins =
      EventAdds-at st (named st metadata.name) {write = begin}
        (Writes-seq slice_begin-Writes (name_iid-Writes _ small)) (λ event. refl) in
    EventAdds-by
      (EventAdds-seq
        (EventAdds-seq begins
          (write_metadata-EventAdds config a metadata (named st metadata.name) fits))
        (shown-EventAdds (config.debug_annotations && is_thread_tracks config.span_mode)
          (metadata_state config a metadata (named st metadata.name)) (fields span) stored))
      (λ event. refl)
write_head-EventAdds config a metadata span (some uuid) st (small, small') =
    EventAdds-at st _
      (Writes-seq slice_begin-Writes
        (Writes-seq (track_uuid-Writes uuid small) (name_iid-Writes _ small')))
      (λ event. refl)

enter_event-EventAdds :
    (config : Config) (a : Addresses) (metadata : Metadata) (span : SpanData) (flows : Bool)
    (track : Option ℕ) (st : SequenceState)
    → IsHead config a metadata span track st
    → IsPollFlow span.retained
    → All IsFlow (pending_flows span)
    → EventAdds st
        (enter_state config a metadata span track st)
        (enter_layout config a metadata span flows track st)
        (enter_event config a metadata span flows track)
unfolding enter_event
enter_event-EventAdds config a metadata span flows track st head poll fits =
    EventAdds-by
      (EventAdds-seq (write_head-EventAdds config a metadata span track st head) (
        Writes-EventAdds (enter_state config a metadata span track st) (
          Writes-seq (write_poll_flow-Writes span.retained poll)
            (write_flows-Writes flows span fits))))
      (λ event. refl)

enter_state-SharesPackets :
    (config : Config) (a : Addresses) (metadata : Metadata) (span : SpanData) (track : Option ℕ)
    (st : SequenceState)
    → SharesPackets st (enter_state config a metadata span track st)
enter_state-SharesPackets config a metadata span none st =
    SharesPackets-trans (event_name-SharesPackets st metadata.name) (
      SharesPackets-trans (metadata-SharesPackets config a metadata (named st metadata.name))
        (fields-SharesPackets _ (shown config span)))
enter_state-SharesPackets config a metadata span (some uuid) st =
    event_name-SharesPackets st (poll_literal a)

module _ (p : Parts) (now : Moment) where
  -- A span that the registry and the store have, whose slices the options ask for and whose track they
  -- name, while no write has failed and the thread's context is free and ready for a packet, and the
  -- ids and values of the event have the range of their types and the packet fits one message:
  -- `on_enter` returns. It delivers one packet with the time since the last one, one event and the
  -- strings that the event interned. The event is the begin of a slice: on the thread's track with the
  -- name, the metadata and, if wanted, the fields of the span, or on the span's track with the name
  -- "poll"; then come the flow of the polls and the flows of the span, which are then gone. All other
  -- spans and contexts stay.
  pub on_enter-Slices :
      (registry : Registry) (w : World p) (id : ℕ) (known : RegistrySpan) (span : SpanData)
      (context : ThreadCtx) (queue : p.ring.Queue) (track : Option ℕ)
      → let st = open_sequence p now context in
        let config = w.inner.config in
        let metadata = known.metadata in
        let flows = w.inner.has_follows_from in
        let l = enter_layout config now.addresses metadata span flows track st in
        let st' = enter_state config now.addresses metadata span track st in
        IsFree p now w context
        → IsStore p.span_map w.store
        → no_slice config w.output.has_error ≡ false
        → registry id ≡ some known
        → get p.span_map w.store id ≡ some (some span)
        → slice_track (emit_thread_slices config.span_mode) span.track_uuid ≡ some track
        → IsHead config now.addresses metadata span track st
        → IsPollFlow span.retained
        → All IsFlow (pending_flows span)
        → Writable p now w context queue l st'
        → (w' : World p) × (on_enter p now registry w id ≡ some w')
          × Slices p now w id span context queue flows l st' w'
  unfolding on_enter
  on_enter-Slices registry w id known span context queue track f x wanted registered there named
        head poll flows_fit fit =
      let st = open_sequence p now context in
      let config = w.inner.config in
      let metadata = known.metadata in
      let flows = w.inner.has_follows_from in
      let (contexts, e, only) = acquired_there p now w context f in
      let (w', sliced, slices) =
        slice_if-Slices p now w id span context queue contexts track flows
          (λ span track. enter_event config now.addresses metadata span flows track)
          (enter_layout config now.addresses metadata span flows track st)
          (enter_state config now.addresses metadata span track st) only x there named fit
          (enter_state-SharesPackets config now.addresses metadata span track st)
          (enter_event-EventAdds config now.addresses metadata span flows track st head poll
            flows_fit) in
      (w', if_false _ _ _ wanted ∙ rw registered (rw e sliced), slices)
