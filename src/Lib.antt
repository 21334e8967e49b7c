-- ===== src/Lib.antt =====
-- A verification library for tracing-perfetto-file, a layer for the Rust crate `tracing` that writes
-- a Perfetto trace to a file.
--
-- The program. Threads write spans and events as track events (src/emit.rs) into packets of the
-- protobuf wire format (src/proto.rs). A finished packet goes into the queue of its thread; a queue
-- that is full, a thread that exits and a flush move the queue's bytes to the one sink, under its lock
-- (src/runtime.rs). The builder (src/lib.rs) sets the options that all threads read.
--
-- Files and what they are about.
--   Common     numbers, lists, bits, `i64` and `HashMap<usize, V>` for the other files.
--   Proto      src/proto.rs: ProtoBuffer and its fields, nested messages, the two varint encoders.
--              Proto/Wire is a reader of the wire format that owes nothing to the encoder; the other
--              files relate each operation of the encoder to it.
--   Emit       src/emit.rs: one function for each method of TrackEventWriter and each descriptor;
--              Emit/Schema has the constants of `schema`, one module for each of its modules.
--   Layer      src/lib.rs: the builder, SpanMode, and Config (of src/runtime.rs).
--   Runtime    src/runtime.rs: the ids and counters of Inner, each atomic operation one step.
--              Runtime/Output has record_error, drain_thread_buffer, flush_all and the end of a packet
--              (Drop for Packet in src/sequence.rs); Runtime/Output/Interleave puts them together for
--              any number of threads.
--   Spans      src/span_state.rs: the span store, whose tiers are the slots of the shards and a
--              DashMap; Spans/Tiers and Spans/Refines set the two tiers against one
--              partial map. Spans/Pools has the pools of reusable tracks.
--   Thread     src/thread.rs: the retained span data that a thread keeps. Thread/Tracks has its cache of
--              track pools (claim_track, release_track, replace_track_pool and the Drop), Thread/Reuse
--              any number of threads whose spans claim and give back tracks (the calls of
--              src/subscriber.rs), and Thread/Contexts the contexts of a thread, acquire and its guard.
--   Sequence   src/sequence.rs: Interner and SequenceState; Sequence/Pending has emit_interned_data,
--              Sequence/Packets the packets, and Sequence/Packets/Writer the SequenceWriter with
--              `Drop for Packet` and the packets that initialise a sequence. Sequence/Dictionary sets
--              the interner against a reader's dictionary.
--   Visitor    src/visitor.rs: StoreVisitor, AttributeVisitor and EventVisitor, one function for each
--              of their record functions; Visitor/Calls has the calls that `tracing` makes of them.
--              Visitor/EventVisitor/Tallies counts fields in a tree of the wire format, for what an
--              event shows of its fields.
--   Subscriber src/subscriber.rs: World is what one thread sees of the layer, with the store, the pools
--              and its contexts. Subscriber/Events has the helpers that write events,
--              Subscriber/Spans on_new_span, on_record, on_follows_from and on_close,
--              Subscriber/Slices on_enter and on_exit, and Subscriber/Instants on_event.
--              Subscriber/Lent, Subscriber/Sliced, Subscriber/Enter and Subscriber/Exit follow a
--              slice event from the handler to the queue of the thread. Subscriber/Quiet and
--              Subscriber/Silent are about the handlers after a write has failed; HandlerCall and
--              run_handlers there are the calls that `tracing` makes of the layer.
--
-- How the code is modelled. A byte buffer is a list of numbers; a panic is `none`; integers of the
-- machine are natural numbers with the wrap written out. The sink (`dyn Write`), the queues (rtrb and
-- ArrayQueue) and DashMap are records of operations with the laws that they document: a failed
-- `write_all` may have written any front part of its bytes. Each critical section of the code is one
-- step, so an interleaving is a list of steps. What a sequence reads from the system (clocks, names,
-- ids) is a record of readings, one for each place that reads. A `&'static str` is its address and
-- its bytes. A pool of tracks (`Arc<TrackPool>`) is its number in the order in which the pools were
-- made, and a queue (`Arc<PerThreadBuf>`) likewise, so that equal numbers are the same object. A handler
-- is one step: it holds the guard of its context from the call of acquire to its end. The span registry
-- of `tracing_subscriber`, the metadata and values of `tracing`, and the addresses of literals are
-- parameters.
--
-- Bounds and fuel. The reader of the wire format takes a byte at least for each field, so the length
-- of its input is enough fuel. The loops over `fetch_add` in alloc_uuid and alloc_flow_id end after two
-- rounds, since one value of a counter is zero. A message holds less than 256 MiB, the limit that the
-- four length bytes set.
--
-- Not modelled. The operating system's clocks, ids and names (src/platform.rs), handlers of several
-- threads that overlap within one handler, user code that formats a value and calls the layer again
-- while a handler runs, the registration with `tracing` (src/lib.rs), and the benchmarks, examples and
-- tests.
pub mod Common
pub mod Proto
pub mod Emit
pub mod Layer
pub mod Runtime
pub mod Spans
pub mod Sequence
pub mod Thread
pub mod Visitor
pub mod Subscriber
