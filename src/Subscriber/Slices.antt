-- ===== src/Subscriber/Slices.antt =====
-- src/subscriber.rs: `on_enter` and `on_exit`.
use tracing_perfetto_file.Common.{
  ℕ, Bool, true, false, not, ◌&&◌, ◌||◌, [], ◌∷◌, Option, none, some, if◌then◌else◌, ◌>>=◌,
}
use tracing_perfetto_file.Emit.{
  TrackEventWriter, slice_begin, slice_end, track_uuid, name_iid, flow_start,
}
use tracing_perfetto_file.Common.Maps.{StaticStr}
use tracing_perfetto_file.Layer.{Config, emit_thread_slices}
use tracing_perfetto_file.Runtime.{RetainedSpanData}
use tracing_perfetto_file.Sequence.{intern_event_name}
use tracing_perfetto_file.Sequence.Packets.Writer
use tracing_perfetto_file.Spans.{SpanData, get, get_mut}
use tracing_perfetto_file.Subscriber.{
  Addresses, Metadata, Registry, Moment, Parts, fields, pending_flows, clear_pending_flows, World,
  deliver, acquired, dropped, with_writer,
}
use tracing_perfetto_file.Subscriber.Events.{
  Event, write_metadata, write_pending_flows, write_stored_fields, track_event,
}
use tracing_perfetto_file.Subscriber.Spans.{is_thread_tracks}

-- "poll"
abbrev pub poll_literal : Addresses → StaticStr
poll_literal a = record { ptr = a.poll; text = 112 ∷ 111 ∷ 108 ∷ 108 ∷ [] }

-- `(!thread_slices && !inner.config.poll_slices) || inner.has_error()`
unfoldable pub no_slice : Config → Bool → Bool
no_slice config has_error =
    (not (emit_thread_slices config.span_mode) && not config.poll_slices) || has_error

-- The track that a slice names: `some none` is the thread's own, and `none` no slice at all.
unfoldable pub slice_track : Bool → Option ℕ → Option (Option ℕ)
slice_track true uuid = some none
slice_track false none = none
slice_track false (some uuid) = some (some uuid)

-- `if let Some(retained) = &data.retained && let Some(flow) = retained.poll_flow_id`
unfoldable pub write_poll_flow : TrackEventWriter → Option RetainedSpanData → TrackEventWriter
write_poll_flow event none = event
write_poll_flow event (some retained) = elim retained.poll_flow_id [
  | some flow ↦ flow_start event flow
  | none ↦ event
]

-- The flows of a slice.
unfoldable pub write_flows : Bool → SpanData → TrackEventWriter → TrackEventWriter
write_flows has_flows span event =
    if has_flows then write_pending_flows event (pending_flows span) else event

-- The name, the metadata and the fields of a thread slice, or the track and the name of a poll slice.
unfoldable pub write_head :
    Config → Addresses → Metadata → SpanData → Option ℕ → Event → Option Event
write_head config a metadata span none (event, st) =
    let (iid, st) = intern_event_name st metadata.name in
    write_metadata config a metadata (name_iid event iid, st) >>= λ e.
    if config.debug_annotations && is_thread_tracks config.span_mode
    then write_stored_fields e (fields span)
    else some e
write_head config a metadata span (some uuid) (event, st) =
    let (iid, st) = intern_event_name st (poll_literal a) in
    some (name_iid (track_uuid event uuid) iid, st)

-- The event of `on_enter`.
unfoldable pub enter_event :
    Config → Addresses → Metadata → SpanData → Bool → Option ℕ → Event → Option Event
enter_event config a metadata span has_flows track (event, st) =
    write_head config a metadata span track (slice_begin event, st) >>= λ (event, st).
    some (write_flows has_flows span (write_poll_flow event span.retained), st)

abbrev pub with_track : Option ℕ → TrackEventWriter → TrackEventWriter
with_track none event = event
with_track (some uuid) event = track_uuid event uuid

-- The event of `on_exit`.
unfoldable pub exit_event : SpanData → Bool → Option ℕ → Event → Option Event
exit_event span include_flows track (event, st) =
    some (write_flows include_flows span (with_track track (slice_end event)), st)

module _ (p : Parts) (now : Moment) where
  -- `if has_flows { data.clear_pending_flows() }`
  unfoldable pub clear_if : Bool → World p → ℕ → Option (World p)
  clear_if false w id = some w
  clear_if true w id = get_mut p.span_map w.store id clear_pending_flows >>= λ found.
      some (elim found [ some store ↦ record w { store = store } | none ↦ w ])

  -- A slice event of a span, and its flows cleared behind it.
  unfoldable pub slice :
      World p
      → ℕ
      → ℕ
      → Bool
      → (Option ℕ → Event → Option Event)
      → Option (Option ℕ)
      → Option (World p)
  unfolding clear_if
  slice w id k flows write none = some w
  slice w id k flows write (some track) =
      with_writer p now w k
        (λ writer. Writer.packet (deliver p) now.readings writer (track_event (write track)))
      >>= λ w. clear_if flows w id

  -- With a context `k`, which is given back on every path.
  unfoldable pub slice_of :
      World p
      → ℕ
      → ℕ
      → Bool
      → (SpanData → Option ℕ → Event → Option Event)
      → Option SpanData
      → Option (World p)
  unfolding slice
  slice_of w id k flows write none = some (dropped p now w k)
  slice_of w id k flows write (some span) =
      let track = slice_track (emit_thread_slices w.inner.config.span_mode) span.track_uuid in
      slice w id k flows (write span) track >>= λ w. some (dropped p now w k)

  unfoldable pub slice_if :
      World p
      → ℕ
      → Bool
      → (SpanData → Option ℕ → Event → Option Event)
      → Option ℕ
      → Option (World p)
  unfolding slice_of
  slice_if w id flows write none = some w
  slice_if w id flows write (some k) =
      get p.span_map w.store id >>= λ found. slice_of w id k flows write found

  unfoldable pub on_enter : Registry → World p → ℕ → Option (World p)
  unfolding slice_if
  on_enter registry w id =
      if no_slice w.inner.config w.output.has_error then some w else (elim (registry id) [
        | none ↦ some w
        | some known ↦ acquired p now w >>= λ (lent, w).
            slice_if w id w.inner.has_follows_from
              (λ span track.
                enter_event w.inner.config now.addresses known.metadata span
                  w.inner.has_follows_from track)
              lent
      ])

  unfoldable pub on_exit : World p → ℕ → Option (World p)
  unfolding slice_if
  on_exit w id =
      if no_slice w.inner.config w.output.has_error
      then some w
      else (acquired p now w >>= λ (lent, w).
          let include_flows =
            emit_thread_slices w.inner.config.span_mode && w.inner.has_follows_from in
          slice_if w id include_flows (λ span track. exit_event span include_flows track) lent)
