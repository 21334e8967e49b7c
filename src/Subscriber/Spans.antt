-- ===== src/Subscriber/Spans.antt =====
-- src/subscriber.rs: `on_new_span`, `on_record`, `on_follows_from` and `on_close`.
use tracing_perfetto_file.Common.{
  ℕ, List, Bool, true, false, not, ◌&&◌, ◌||◌, Option, none, some, ◌==◌, if◌then◌else◌, ◌>>=◌,
}
use tracing_perfetto_file.Emit.{slice_begin, slice_end, track_uuid, name_iid, track_descriptor}
use tracing_perfetto_file.Layer.{SpanMode, emit_thread_slices, emit_span_slices}
use tracing_perfetto_file.Runtime.{
  RetainedSpanData, PendingFlow, alloc_uuid, alloc_flow_id, process_track_uuid, note_follows_from,
}
use tracing_perfetto_file.Sequence.{intern_event_name}
use tracing_perfetto_file.Sequence.Packets.Writer
use tracing_perfetto_file.Spans.{SpanData, new_span, insert, get, take}
use tracing_perfetto_file.Spans.Pools.{TrackKey}
use tracing_perfetto_file.Thread.Contexts.{context_of}
use tracing_perfetto_file.Thread.Tracks.{ClaimedTrack, claim_track, release_track, release_pool}
use tracing_perfetto_file.Visitor.Calls.{Call, visit_attributes, store_values}
use tracing_perfetto_file.Subscriber.{
  Metadata, RegistrySpan, Registry, Moment, Parts, fields, pending_flows, World, Writer, deliver,
  acquired, dropped, with_context, return_retained, recycle_retained, take_retained,
  with_writer_value, with_writer, modify_span, ensure_retained, queue_flow,
}
use tracing_perfetto_file.Subscriber.Events.{
  Event, write_metadata, write_pending_flows, write_stored_fields, track_event,
}

-- `NonZeroU64::new`
abbrev pub nonzero : ℕ → Option ℕ
nonzero n = if n == 0 then none else some n

-- `mode == SpanMode::ThreadTracks`
unfoldable pub is_thread_tracks : SpanMode → Bool
is_thread_tracks SpanMode.both = false
is_thread_tracks SpanMode.thread_tracks = true
is_thread_tracks SpanMode.span_tracks = false

-- The pool and the uuid of a claim.
abbrev pub claimed_pool : Option ClaimedTrack → Option ℕ
claimed_pool none = none
claimed_pool (some claimed) = some claimed.pool

abbrev pub claimed_uuid : Option ClaimedTrack → Option ℕ
claimed_uuid none = none
claimed_uuid (some claimed) = claimed.uuid

unfoldable pub absent_of : Option RegistrySpan → Bool
absent_of none = true
absent_of (some known) = false

module _ (p : Parts) (now : Moment) where
  insert_span : World p → ℕ → SpanData → Option (World p)
  insert_span w id span =
      insert p.span_map w.store id span >>= λ store. some (record w { store = store })

  -- The retained data that a new span starts with.
  retained_for : Bool → World p → Option (Option RetainedSpanData × World p)
  retained_for wanted w =
      if wanted
      then (take_retained p now w >>= λ (retained, w). some (some retained, w))
      else some (none, w)

  -- `if thread_slices { retained.poll_flow_id = … }`
  poll_flow : Bool → RetainedSpanData → World p → Option (RetainedSpanData × World p)
  poll_flow thread_slices retained w =
      if thread_slices
      then (alloc_flow_id w.inner >>= λ (id, inner).
          some (record retained { poll_flow_id = nonzero id }, record w { inner = inner }))
      else some (retained, w)

  fill_retained :
      (retain_fields thread_slices : Bool)
      → List Call
      → Option RetainedSpanData
      → World p
      → Option (Option RetainedSpanData × World p)
  unfolding poll_flow
  fill_retained retain_fields thread_slices values none w = some (none, w)
  fill_retained retain_fields thread_slices values (some retained) w =
      poll_flow thread_slices
        (if retain_fields
          then record retained { fields = store_values retained.fields values }
          else retained)
        w
      >>= λ (retained, w). some (some retained, w)

  -- The lifetime track of the parent, if it has one.
  parent_track : World p → Option ℕ → Option (Option ℕ)
  parent_track w none = some none
  parent_track w (some parent) =
      get p.span_map w.store parent >>= λ found. some (found >>= λ span. span.track_uuid)

  track_or_process : World p → Option ℕ → Option (ℕ × World p)
  track_or_process w (some uuid) = some (uuid, w)
  track_or_process w none =
      process_track_uuid w.inner >>= λ (uuid, inner). some (uuid, record w { inner = inner })

  -- `create_span_track`
  unfoldable pub create_span_track : Writer p → TrackKey → Option (Writer p × ℕ)
  create_span_track writer key = alloc_uuid writer.inner >>= λ (uuid, inner).
      Writer.packet (deliver p) now.readings (record writer { inner = inner })
        (Writer.fields (deliver p)
          (λ packet. track_descriptor packet uuid key.name.text key.parent_uuid))
      >>= λ writer. some (writer, uuid)

  track_for : Writer p → TrackKey → Option ℕ → Option (Writer p × ℕ)
  unfolding create_span_track
  track_for writer key (some uuid) = some (writer, uuid)
  track_for writer key none = create_span_track writer key

  -- The begin of the lifetime slice.
  begin_slice : World p → Metadata → List Call → ℕ → Event → Option Event
  begin_slice w metadata values uuid (event, st) =
      let event = track_uuid (slice_begin event) uuid in
      let (iid, st) = intern_event_name st metadata.name in
      write_metadata w.inner.config now.addresses metadata (name_iid event iid, st)
      >>= λ (event, st).
          if w.inner.config.debug_annotations
          then (visit_attributes (record { event = event; sequence = st }) values >>= λ v.
              some (v.event, v.sequence))
          else some (event, st)

  -- With a context: the claim, the descriptor, the slice, and the span in the store.
  new_track : World p → ℕ → SpanData → Metadata → List Call → TrackKey → ℕ → Option (World p)
  unfolding begin_slice track_for insert_span
  new_track w id span metadata values key k = context_of w.local.contexts k >>= λ context.
      claim_track p.queue p.pool_map context.tracks key w.pools >>= λ (claimed, tracks, pools).
      let w =
        with_context p now (record w { pools = pools }) k
          (λ context. record context { tracks = tracks }) in
      with_writer_value p now w k (λ writer.
        track_for writer key (claimed_uuid claimed) >>= λ (writer, uuid).
        Writer.packet (deliver p) now.readings writer
          (track_event (begin_slice w metadata values uuid))
        >>= λ writer. some (writer, uuid))
      >>= λ (w, uuid).
          insert_span w id
            (record span { track_pool = claimed_pool claimed; track_uuid = nonzero uuid })
          >>= λ w. some (dropped p now w k)

  new_track_if :
      World p → ℕ → SpanData → Metadata → List Call → TrackKey → Option ℕ → Option (World p)
  unfolding new_track
  new_track_if w id span metadata values key (some k) = new_track w id span metadata values key k
  new_track_if w id span metadata values key none = insert_span w id span

  -- `on_new_span` of a span that the registry has.
  new_span_known : World p → ℕ → List Call → RegistrySpan → Option (World p)
  unfolding new_track_if track_or_process parent_track fill_retained retained_for
  new_span_known w id values known =
      let config = w.inner.config in
      let retain_fields = config.debug_annotations && is_thread_tracks config.span_mode in
      let thread_slices = emit_thread_slices config.span_mode in
      retained_for (retain_fields || thread_slices) w >>= λ (retained, w).
      fill_retained retain_fields thread_slices values retained w >>= λ (retained, w).
      let span = new_span retained in
      let slice = parent_track w known.parent >>= λ parent.
      track_or_process w parent >>= λ (parent_uuid, w). acquired p now w >>= λ (lent, w).
      new_track_if w id span known.metadata values
        (record { name = known.metadata.name; parent_uuid = parent_uuid }) lent in
      if emit_span_slices config.span_mode then slice else insert_span w id span

  unfoldable pub on_new_span : Registry → World p → ℕ → List Call → Option (World p)
  unfolding new_span_known
  on_new_span registry w id values =
      if w.output.has_error
      then some w
      else (elim (registry id) [ none ↦ some w | some known ↦ new_span_known w id values known ])

  -- The values go into the retained data of the span, which it gets if it has none.
  unfoldable pub record_values : List Call → SpanData → World p → Option (SpanData × World p)
  record_values values span w = ensure_retained p now w span.retained >>= λ (retained, w).
      let filled = record retained { fields = store_values retained.fields values } in
      some (record span { retained = some filled }, w)

  unfoldable pub on_record : World p → ℕ → List Call → Option (World p)
  on_record w id values =
      if not w.inner.config.debug_annotations || w.output.has_error
      then some w
      else modify_span p now w id (record_values values)

  -- Behind the lookups: the predecessor starts the flow, if it is there; only then the dependent ends it.
  unfoldable pub link_found : World p → ℕ → ℕ → ℕ → Option SpanData → Option (World p)
  link_found w id follows flow none = some w
  link_found w id follows flow (some found) =
      modify_span p now w follows (λ span w. queue_flow p now span w (PendingFlow.start flow))
      >>= λ w.
          modify_span p now w id (λ span w. queue_flow p now span w (PendingFlow.terminate flow))

  unfoldable pub on_follows_from : Registry → World p → ℕ → ℕ → Option (World p)
  unfolding link_found absent_of
  on_follows_from registry w id follows =
      if w.output.has_error || (absent_of (registry id) || absent_of (registry follows))
      then some w
      else (alloc_flow_id (note_follows_from w.inner) >>= λ (flow, inner).
          get p.span_map w.store follows >>= λ found.
          link_found (record w { inner = inner }) id follows flow found)

  -- The end of the lifetime slice.
  end_slice : World p → SpanData → ℕ → Event → Option Event
  end_slice w span uuid (event, st) =
      let event = write_pending_flows (track_uuid (slice_end event) uuid) (pending_flows span) in
      if w.inner.config.debug_annotations
      then write_stored_fields (event, st) (fields span)
      else some (event, st)

  unfoldable pub close_slice : World p → SpanData → Option ℕ → Option ℕ → Option (World p)
  unfolding end_slice
  close_slice w span (some uuid) (some k) = with_writer p now w k (λ writer.
      Writer.packet (deliver p) now.readings writer (track_event (end_slice w span uuid)))
  close_slice w span (some uuid) none = some w
  close_slice w span none lent = some w

  unfoldable pub give_track : World p → Option ℕ → Option ℕ → Option ℕ → Option (World p)
  give_track w (some pool) (some uuid) (some k) = context_of w.local.contexts k >>= λ context.
      release_track p.queue p.pool_map context.tracks pool uuid w.pools >>= λ (tracks, pools).
      some (
        with_context p now (record w { pools = pools }) k
          (λ context. record context { tracks = tracks }))
  give_track w (some pool) (some uuid) none =
      release_pool p.queue p.pool_map w.pools pool uuid >>= λ pools.
      some (record w { pools = pools })
  give_track w (some pool) none lent = some w
  give_track w none uuid lent = some w

  unfoldable pub give_retained : World p → Option RetainedSpanData → Option ℕ → Option (World p)
  give_retained w (some retained) (some k) = some (return_retained p now w k retained)
  give_retained w (some retained) none = recycle_retained p now w retained
  give_retained w none lent = some w

  is_some : Option ℕ → Bool
  is_some (some n) = true
  is_some none = false

  -- `let mut thread = if … { acquire(inner) } else { None }`
  unfoldable pub context_to_close : World p → SpanData → Option (Option ℕ × World p)
  unfolding is_some
  context_to_close w span =
      if is_some span.track_uuid && not w.output.has_error then acquired p now w else some (none, w)

  unfoldable pub close_taken : World p → SpanData → Option (World p)
  unfolding context_to_close close_slice give_track give_retained
  close_taken w span = context_to_close w span >>= λ (lent, w).
      close_slice w span span.track_uuid lent >>= λ w.
      give_track w span.track_pool span.track_uuid lent >>= λ w.
      give_retained w span.retained lent >>= λ w.
      some (elim lent [ some k ↦ dropped p now w k | none ↦ w ])

  unfoldable pub on_close : World p → ℕ → Option (World p)
  unfolding close_taken
  on_close w id = take p.span_map w.store id >>= λ taken. elim taken [
    | none ↦ some w
    | some (span, store) ↦ close_taken (record w { store = store }) span
  ]
