-- ===== src/Subscriber/Exit.antt =====
-- `on_exit` of src/subscriber.rs over whole packets.
use tracing_perfetto_file.Common.{
  ℕ, ◌≡◌, refl, ◌∙◌, Bool, true, false, ◌&&◌, if_false, Option, none, some, if◌then◌else◌,
}
use tracing_perfetto_file.Common.Lists.{All}
use tracing_perfetto_file.Emit.Layouts.{slice_end-Writes, track_uuid-Writes}
use tracing_perfetto_file.Layer.{emit_thread_slices}
use tracing_perfetto_file.Proto.{IsU64}
use tracing_perfetto_file.Proto.Fields.{Writes, Writes-seq, Writes-nothing}
use tracing_perfetto_file.Proto.Wire
use tracing_perfetto_file.Proto.Wire.{Layout, Encodes, ◌+++◌}
use tracing_perfetto_file.Sequence.{SequenceState}
use tracing_perfetto_file.Spans.{SpanData, get}
use tracing_perfetto_file.Spans.Tiers.{IsStore}
use tracing_perfetto_file.Thread.Contexts.{ThreadCtx}
use tracing_perfetto_file.Subscriber.{Moment, Parts, World, pending_flows}
use tracing_perfetto_file.Subscriber.Layouts.{
  EventAdds, Writes-EventAdds, EventAdds-by, flows_layout, IsFlow, write_pending_flows-Writes,
}
use tracing_perfetto_file.Subscriber.Slices.{
  no_slice, slice_track, with_track, write_flows, exit_event, on_exit,
}
use tracing_perfetto_file.Subscriber.Lent.{IsFree, acquired_there}
use tracing_perfetto_file.Subscriber.Sliced.{Writable, Slices, open_sequence, slice_if-Slices}

-- The type of the event is field 9, and a track that it names field 11.
abbrev track_layout : Option ℕ → Layout
track_layout none = Wire.end
track_layout (some uuid) = Wire.varint 11 uuid Wire.end

-- The flows of a span, if its slice has them.
abbrev pub flows_of : Bool → SpanData → Layout
flows_of flows span = if flows then flows_layout (pending_flows span) else Wire.end

abbrev pub exit_layout : SpanData → Bool → Option ℕ → Layout
exit_layout span flows track = Wire.varint 9 2 (track_layout track) +++ flows_of flows span

abbrev IsTrack : Option ℕ → Type 0
IsTrack none = Unit {0}
IsTrack (some uuid) = IsU64 uuid

with_track-Writes :
    (track : Option ℕ)
    → IsTrack track
    → Writes (track_layout track) (λ e. some (with_track track e))
with_track-Writes none h = Writes-nothing
with_track-Writes (some uuid) h = track_uuid-Writes uuid h

pub write_flows-Writes :
    (flows : Bool) (span : SpanData)
    → All IsFlow (pending_flows span)
    → Writes (flows_of flows span) (λ e. some (write_flows flows span e))
unfolding write_flows
write_flows-Writes true span h = write_pending_flows-Writes (pending_flows span) h
write_flows-Writes false span h = Writes-nothing

exit_event-EventAdds :
    (st : SequenceState) (span : SpanData) (flows : Bool) (track : Option ℕ)
    → IsTrack track
    → All IsFlow (pending_flows span)
    → EventAdds st st (exit_layout span flows track) (exit_event span flows track)
unfolding exit_event
exit_event-EventAdds st span flows track small fits =
    EventAdds-by
      (Writes-EventAdds st (
        Writes-seq (Writes-seq slice_end-Writes (with_track-Writes track small))
          (write_flows-Writes flows span fits)))
      (λ event. refl)

module _ (p : Parts) (now : Moment) where
  -- A span that the store has, whose slices the options ask for and whose track they name, while no
  -- write has failed and the thread's context is free and ready for a packet, and the ids and values of
  -- the event have the range of their types and the packet fits one message: `on_exit` returns. It
  -- delivers one packet with the time since the last one and one event, the end of a slice, on the
  -- thread's track or the span's, with the flows of the span if the mode asks for them; these are then
  -- gone. All other spans and contexts stay.
  pub on_exit-Slices :
      (w : World p) (id : ℕ) (span : SpanData) (context : ThreadCtx) (queue : p.ring.Queue)
      (track : Option ℕ)
      → IsFree p now w context
      → IsStore p.span_map w.store
      → no_slice w.inner.config w.output.has_error ≡ false
      → get p.span_map w.store id ≡ some (some span)
      → slice_track (emit_thread_slices w.inner.config.span_mode) span.track_uuid ≡ some track
      → IsTrack track
      → All IsFlow (pending_flows span)
      → let flows = emit_thread_slices w.inner.config.span_mode && w.inner.has_follows_from in
        Writable p now w context queue (exit_layout span flows track) (open_sequence p now context)
        → (w' : World p) × (on_exit p now w id ≡ some w')
          × Slices p now w id span context queue flows
              (exit_layout span flows track)
              (open_sequence p now context)
              w'
  unfolding on_exit
  on_exit-Slices w id span context queue track f x wanted there named small flows_fit fit =
      let flows = emit_thread_slices w.inner.config.span_mode && w.inner.has_follows_from in
      let (contexts, e, only) = acquired_there p now w context f in
      let (w', sliced, slices) =
        slice_if-Slices p now w id span context queue contexts track flows
          (λ span track. exit_event span flows track) (exit_layout span flows track)
          (open_sequence p now context) only x there named fit
          (record { prefix = refl; same_id = refl; done = refl })
          (exit_event-EventAdds (open_sequence p now context) span flows track small flows_fit) in
      (w', if_false _ _ _ wanted ∙ rw e sliced, slices)
