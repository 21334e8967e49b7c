-- ===== src/Subscriber/Sliced.antt =====
-- What `on_enter` and `on_exit` of src/subscriber.rs do with a context: one packet and its effects.
use tracing_perfetto_file.Common.{
  ℕ, ◌+◌, ◌-◌, ◌≤◌, ◌≡◌, refl, sym, ◌∙◌, ap, subst, inl, inr, List, Bool, true, false, Bool-cases,
  Option, none, some, ◌==◌, ==_iff, if◌then◌else◌,
}
use tracing_perfetto_file.Common.Lists.{get_elem?, set}
use tracing_perfetto_file.Layer.{emit_thread_slices}
use tracing_perfetto_file.Proto.{IsU64, max_message_len}
use tracing_perfetto_file.Proto.Fields.{bound}
use tracing_perfetto_file.Proto.Wire
use tracing_perfetto_file.Proto.Wire.{Layout, Encodes, ◌+++◌}
use tracing_perfetto_file.Sequence.{SequenceState}
use tracing_perfetto_file.Sequence.Pending.{without_pending}
use tracing_perfetto_file.Sequence.Pending.Written.{FitsMessage, pending_layout}
use tracing_perfetto_file.Sequence.Packets.Writer.{packet}
use tracing_perfetto_file.Sequence.Packets.Writer.Reuse.{IsReady, opened}
use tracing_perfetto_file.Sequence.Packets.Writer.Delivery.{
  packet_layout, Delivered, with_packet-Delivered,
}
use tracing_perfetto_file.Sequence.Packets.Writer.Later.{packet-with_packet}
use tracing_perfetto_file.Spans.{SpanData, SpanStore, get}
use tracing_perfetto_file.Spans.Tiers.{IsStore, Updates}
use tracing_perfetto_file.Spans.Refines.{get_mut-Updates}
use tracing_perfetto_file.Thread.Contexts.{ThreadCtx, Contexts, context_of, update}
use tracing_perfetto_file.Subscriber.{
  Moment, Parts, World, Writer, deliver, dropped, clear_pending_flows,
}
use tracing_perfetto_file.Subscriber.Events.{Event, track_event}
use tracing_perfetto_file.Subscriber.Layouts.{EventAdds, track_event-Adds}
use tracing_perfetto_file.Subscriber.Slices.{slice_track, clear_if, slice, slice_of, slice_if}
use tracing_perfetto_file.Subscriber.Lent.{with_contexts, HasOnly, with_writer_there, written_back}

-- An event leaves alone what the packets of a sequence share.
pub record SharesPackets (st st' : SequenceState) : Type 0 where
  pub prefix : st'.packet_prefix ≡ st.packet_prefix
  pub same_id : st'.sequence_id ≡ st.sequence_id
  pub done : st'.first_packet_done ≡ st.first_packet_done

module _ (p : Parts) (now : Moment) where
  -- The span without its flows, if the slice had them.
  abbrev flows_cleared : Bool → SpanData → SpanData
  flows_cleared flows span = if flows then clear_pending_flows span else span

  unchanged :
      (s : SpanStore p.span_map) (id : ℕ) (span : SpanData)
      → IsStore p.span_map s
      → get p.span_map s id ≡ some (some span)
      → Updates p.span_map s s id (some span)
  unchanged s id span x there = record {
    store = x;
    gets = λ j. elim (Bool-cases (id == j)) [
      | inl same ↦ rw same (ap (λ k. get p.span_map s k) (sym ((==_iff id j).0 same)) ∙ there)
      | inr other ↦ rw other refl
    ];
  }

  clear_if_lem :
      (flows : Bool) (w : World p) (id : ℕ) (span : SpanData)
      → IsStore p.span_map w.store
      → get p.span_map w.store id ≡ some (some span)
      → (store : SpanStore p.span_map) × (clear_if p now flows w id
          ≡ some (record w { store = store }))
        × Updates p.span_map w.store store id (some (flows_cleared flows span))
  unfolding clear_if
  clear_if_lem false w id span x there = (w.store, refl, unchanged w.store id span x there)
  clear_if_lem true w id span x there =
      elim (get_mut-Updates p.span_map w.store id clear_pending_flows x) [
        | inl (absent, e) ↦
            (let never : some none ≡ some (some span) = sym absent ∙ there in absurd (cc never))
        | inr (d, store, found, e, updates) ↦
            let same : some (some d) ≡ some (some span) = sym found ∙ there in
            let is : d ≡ span = cc same in
            (
              store,
              rw e refl,
              subst (λ d. Updates p.span_map w.store store id (some (clear_pending_flows d))) is
                  updates,
            )
      ]

  -- The sequence of a context while a packet is open.
  abbrev pub open_sequence : ThreadCtx → SequenceState
  open_sequence context = opened context.sequence now.readings.raw_clock_ns

  -- A slice event of the span `id`: one packet with the event `l`, which leads the sequence to `st`,
  -- and with what it interned goes to the queue of the thread; the span loses the flows, if the event
  -- had them, and the context is free again, with a sequence that is ready for the next packet.
  pub record Slices (w : World p) (id : ℕ) (span : SpanData) (context : ThreadCtx)
      (queue : p.ring.Queue) (flows : Bool) (l : Layout) (st : SequenceState) (w' : World p)
      : Type 0 where
    pub bytes : List ℕ
    pub holds :
        Encodes
          (Wire.message 1
            (packet_layout context.sequence.sequence_id
              (now.readings.raw_clock_ns - context.sequence.last_timestamp_ns)
              (Wire.message 11 l Wire.end)
              st)
            Wire.end)
          bytes
    pub output : w'.output ≡ (deliver p (w.output, queue) bytes).0
    pub queues : w'.queues ≡ set w.queues context.buffer (deliver p (w.output, queue) bytes).1
    pub store : Updates p.span_map w.store w'.store id (some (flows_cleared flows span))
    pub inner : w'.inner ≡ w.inner
    pub sequence : SequenceState
    pub ready : IsReady sequence
    pub contexts :
        HasOnly p now w w'.local.contexts (record context { borrowed = false; sequence = sequence })

  -- What a packet with the event `l`, which leads the sequence to `st`, needs.
  pub record Writable (w : World p) (context : ThreadCtx) (queue : p.ring.Queue) (l : Layout)
      (st : SequenceState) : Type 0 where
    pub at : get_elem? w.queues context.buffer ≡ some queue
    pub initialized : context.sequence.initialized ≡ true
    pub ready : IsReady context.sequence
    pub clock : IsU64 now.readings.raw_clock_ns
    pub fits : FitsMessage st
    pub room :
        60 + (bound (Wire.message 11 l Wire.end) + bound (pending_layout st)) ≤ max_message_len
    pub small : bound l ≤ max_message_len

  abbrev writer_of : World p → ThreadCtx → p.ring.Queue → Writer p
  writer_of w context queue = record {
    inner = w.inner;
    sequence = context.sequence;
    output = (w.output, queue);
    timestamp_ns = none;
  }

  -- The packet of a slice event.
  slice_packet :
      (w : World p) (context : ThreadCtx) (queue : p.ring.Queue) (l : Layout) (st : SequenceState)
      (write : Event → Option Event)
      → Writable w context queue l st
      → SharesPackets (open_sequence context) st
      → EventAdds (open_sequence context) st l write
      → Delivered
          (deliver p)
          now.readings
          (writer_of w context queue)
          st
          (Wire.message 11 l Wire.end)
          (packet (deliver p) now.readings (writer_of w context queue) (track_event write))
  slice_packet w context queue l st write fit shares adds =
      let writer = writer_of w context queue in
      let is =
        packet-with_packet (deliver p) now.readings writer (track_event write) fit.initialized in
      subst (Delivered (deliver p) now.readings writer st (Wire.message 11 l Wire.end)) (sym is) (
        with_packet-Delivered (deliver p) now.readings writer st _ _ fit.ready fit.clock
          (track_event-Adds fit.small adds) shares.prefix shares.same_id
          (shares.done ∙ fit.ready.done) fit.fits fit.room)

  -- The part of `on_enter` and `on_exit` that has a context: it returns.
  pub slice_if-Slices :
      (w : World p) (id : ℕ) (span : SpanData) (context : ThreadCtx) (queue : p.ring.Queue)
      (contexts : Contexts) (track : Option ℕ) (flows : Bool)
      (write : SpanData → Option ℕ → Event → Option Event) (l : Layout) (st : SequenceState)
      → HasOnly p now w contexts (record context { borrowed = true })
      → IsStore p.span_map w.store
      → get p.span_map w.store id ≡ some (some span)
      → slice_track (emit_thread_slices w.inner.config.span_mode) span.track_uuid ≡ some track
      → Writable w context queue l st
      → SharesPackets (open_sequence context) st
      → EventAdds (open_sequence context) st l (write span track)
      → (w' : World p) × (slice_if p now
            (with_contexts p now w contexts)
            id
            flows
            write
            (some w.inner.id)
          ≡ some w')
        × Slices w id span context queue flows l st w'
  unfolding slice_if slice_of slice dropped
  slice_if-Slices w id span context queue contexts track flows write l st only x there named fit
        shares adds =
      let lent : context_of contexts w.inner.id ≡ some (record context { borrowed = true }) =
        only w.inner.id ∙ rw ((==_iff w.inner.id w.inner.id).1 refl) refl in
      let d = slice_packet w context queue l st (write span track) fit shares adds in
      let st' = record (without_pending st) { scratch = record { buf = d.bytes } } in
      let stream = deliver p (w.output, queue) d.bytes in
      let put : ThreadCtx → ThreadCtx = λ context. record context { sequence = st' } in
      let w2 : World p = record w {
        output = stream.0;
        queues = set w.queues context.buffer stream.1;
        local = record w.local { contexts = update contexts w.inner.id put };
      } in
      let wrote =
        with_writer_there p now (with_contexts p now w contexts) w.inner.id
          (record context { borrowed = true }) queue
          (λ writer. packet (deliver p) now.readings writer (track_event (write span track)))
          (record {
            inner = w.inner;
            sequence = st';
            output = stream;
            timestamp_ns = some now.readings.raw_clock_ns;
          })
          lent fit.at d.returns in
      let (store, cleared, updates) = clear_if_lem flows w2 id span x there in
      (
        dropped p now (record w2 { store = store }) w.inner.id,
        rw there (rw named (rw wrote (rw cleared refl))),
        record {
          bytes = d.bytes;
          holds = d.holds;
          output = refl;
          queues = refl;
          store = updates;
          inner = refl;
          sequence = st';
          ready = d.ready;
          contexts = written_back p now w contexts context st' only;
        },
      )
