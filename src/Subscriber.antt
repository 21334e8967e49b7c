-- ===== src/Subscriber.antt =====
-- src/subscriber.rs: the handlers of the layer, over the components. This file has what they work on:
-- the state of the layer as one thread sees it, the contexts that `acquire` lends, and the span data.
-- A handler runs as one step; what the other threads do stands between two handlers.
pub mod Events
pub mod Spans
pub mod Slices
pub mod Instants
mod Lent
mod Sliced
mod Heads
mod Shared
mod Exit
mod Enter
mod Quiet
pub mod Silent
mod Calm
mod Follows
pub mod Layouts
mod Instances
mod Runs
mod SliceRuns
use tracing_perfetto_file.Common.{
  ℕ, List, [], ◌∷◌, ◌++◌, Bool, true, false, Option, none, some, ◌==◌, if◌then◌else◌, ◌>>=◌,
}
use tracing_perfetto_file.Common.Lists.{get_elem?, set}
use tracing_perfetto_file.Common.Maps.{StaticStr}
use tracing_perfetto_file.Runtime.{
  Inner, RetainedSpanData, FieldValue, PendingFlow, default_retained,
}
use tracing_perfetto_file.Runtime.Output.{Sink, Ring, Output, push_packet}
use tracing_perfetto_file.Sequence.Packets.{Readings}
use tracing_perfetto_file.Sequence.Packets.Writer.{SequenceWriter}
use tracing_perfetto_file.Spans.{SpanData, DashMap, SpanStore, get, get_mut}
use tracing_perfetto_file.Spans.Pools.{ArrayQueue, PoolMap, Pools}
use tracing_perfetto_file.Thread.{take_retained_span, return_retained_span}
use tracing_perfetto_file.Thread.Contexts.{
  ThreadCtx, Local, Acquired, acquire, context_of, update, drop_guard,
}

-- `tracing::Level`
pub data Level : Type 0 where
  trace debug info warn error : Level

-- `tracing::Metadata`: `callsite` is the address of the metadata, and `fields` are the names of all
-- fields that the callsite declares.
pub record Metadata : Type 0 where
  pub callsite : ℕ
  pub name : StaticStr
  pub target : StaticStr
  pub level : Level
  pub file : Option StaticStr
  pub line : Option ℕ
  pub fields : List StaticStr

-- A span in the registry of `tracing_subscriber`, which `ctx.span` looks up.
pub record RegistrySpan : Type 0 where
  pub metadata : Metadata
  pub parent : Option ℕ

abbrev pub Registry : Type 0
Registry = ℕ → Option RegistrySpan

-- Where the literals of the code stand.
pub record Addresses : Type 0 where
  pub level : ℕ
  pub trace : ℕ
  pub debug : ℕ
  pub info : ℕ
  pub warn : ℕ
  pub error : ℕ
  pub poll : ℕ

-- What a handler reads from the system: the clocks and names, which layers live, and the clock for a
-- new context.
pub record Moment : Type 0 where
  pub readings : Readings
  pub alive : ℕ → Bool
  pub context_clock_ns : ℕ
  pub addresses : Addresses

-- The crates that the layer stands on.
pub record Parts : Type 1 where
  pub queue : ArrayQueue
  pub pool_map : PoolMap
  pub span_map : DashMap SpanData
  pub sink : Sink
  pub ring : Ring

-- `SpanData::fields` and `SpanData::pending_flows`
unfoldable pub fields : SpanData → List (StaticStr × FieldValue)
fields span = elim span.retained [ some retained ↦ retained.fields | none ↦ [] ]

unfoldable pub pending_flows : SpanData → List PendingFlow
pending_flows span = elim span.retained [ some retained ↦ retained.pending_flows | none ↦ [] ]

abbrev without_flows : Option RetainedSpanData → Option RetainedSpanData
without_flows (some retained) = some (record retained { pending_flows = [] })
without_flows none = none

unfoldable pub clear_pending_flows : SpanData → SpanData
clear_pending_flows span = record span { retained = without_flows span.retained }

module _ (p : Parts) where
  -- `Inner`, with the queues of all threads, and the contexts of the thread.
  pub record World : Type 0 where
    pub inner : Inner
    pub output : Output p.sink p.ring
    pub queues : List p.ring.Queue
    pub store : SpanStore p.span_map
    pub pools : Pools p.queue p.pool_map
    pub local : Local

  -- The output that a SequenceWriter hands its packets to: the sink, and the queue of the thread.
  abbrev pub Stream : Type 0
  Stream = Output p.sink p.ring × p.ring.Queue

  abbrev pub deliver : Stream → List ℕ → Stream
  deliver (output, queue) bytes = push_packet p.sink p.ring output queue bytes

  abbrev pub Writer : Type 0
  Writer = SequenceWriter deliver

  module _ (now : Moment) where
    -- `acquire(inner)`: the key of the context that is lent, and the world behind it.
    unfoldable pub acquired : World → Option (Option ℕ × World)
    acquired w =
        acquire p.ring.empty now.alive now.context_clock_ns w.output.has_error w.inner w.queues
          w.local
        >>= λ r. some (
          r.lent,
          record w {
            inner = r.inner;
            queues = r.queues;
            local = record w.local { contexts = r.contexts };
          },
        )

    -- The end of a guard.
    unfoldable pub dropped : World → ℕ → World
    dropped w key = record w {
      local = record w.local { contexts = drop_guard w.local.contexts key };
    }

    -- A change of the context behind a guard.
    unfoldable pub with_context : World → ℕ → (ThreadCtx → ThreadCtx) → World
    with_context w key change = record w {
      local = record w.local { contexts = update w.local.contexts key change };
    }

    pub take_from : World → Option ℕ → Option (RetainedSpanData × World)
    take_from w none = some (default_retained, w)
    take_from w (some key) = context_of w.local.contexts key >>= λ context.
        let (retained, slots) = take_retained_span context.retained_spans in
        some (
          retained,
          dropped (with_context w key (λ context. record context { retained_spans = slots })) key,
        )

    -- `Inner::take_retained_span`
    unfoldable pub take_retained : World → Option (RetainedSpanData × World)
    unfolding take_from
    take_retained w = acquired w >>= λ (lent, w). take_from w lent

    -- `thread.return_retained_span(retained)`
    unfoldable pub return_retained : World → ℕ → RetainedSpanData → World
    return_retained w key retained = with_context w key (λ context. record context {
      retained_spans = return_retained_span context.retained_spans retained;
    })

    -- `Inner::recycle_retained_span`
    unfoldable pub recycle_retained : World → RetainedSpanData → Option World
    recycle_retained w retained = acquired w >>= λ (lent, w).
        some (elim lent [ some key ↦ dropped (return_retained w key retained) key | none ↦ w ])

    -- `SequenceWriter::new(inner, &mut thread)`, for as long as the writer lives; the code may keep a
    -- value of it.
    unfoldable pub with_writer_value :
        {R : Type 0} → World → ℕ → (Writer → Option (Writer × R)) → Option (World × R)
    with_writer_value w key write = context_of w.local.contexts key >>= λ context.
        get_elem? w.queues context.buffer >>= λ queue.
        write (record {
          inner = w.inner;
          sequence = context.sequence;
          output = (w.output, queue);
          timestamp_ns = none;
        })
        >>= λ (writer, value). some (
          record w {
            inner = writer.inner;
            output = writer.output.0;
            queues = set w.queues context.buffer writer.output.1;
            local = record w.local {
              contexts =
                  update w.local.contexts key
                    (λ context. record context { sequence = writer.sequence });
            };
          },
          value,
        )

    unfoldable pub with_writer : World → ℕ → (Writer → Option Writer) → Option World
    unfolding with_writer_value
    with_writer w key write =
        with_writer_value w key (λ writer. write writer >>= λ writer. some (writer, tt))
        >>= λ (w, _). some w

    unfoldable pub modify_found :
        World → ℕ → (SpanData → World → Option (SpanData × World)) → Option SpanData → Option World
    modify_found w id change none = some w
    modify_found w id change (some span) = change span w >>= λ (span, w).
        get_mut p.span_map w.store id (λ _. span) >>= λ found.
        some (elim found [ some store ↦ record w { store = store } | none ↦ w ])

    -- `span_store.get_mut(id)`, with what the code does while it has the span; without the span it does
    -- nothing.
    unfoldable pub modify_span :
        World → ℕ → (SpanData → World → Option (SpanData × World)) → Option World
    unfolding modify_found
    modify_span w id change = get p.span_map w.store id >>= λ found. modify_found w id change found

    -- `if data.retained.is_none() { data.retained = Some(inner.take_retained_span()) }`
    unfoldable pub ensure_retained :
        World → Option RetainedSpanData → Option (RetainedSpanData × World)
    ensure_retained w (some retained) = some (retained, w)
    ensure_retained w none = take_retained w

    -- `SpanData::queue_flow`
    unfoldable pub queue_flow : SpanData → World → PendingFlow → Option (SpanData × World)
    queue_flow span w flow = ensure_retained w span.retained >>= λ (retained, w).
        let flows = retained.pending_flows ++ flow ∷ [] in
        some (record span { retained = some (record retained { pending_flows = flows }) }, w)
