-- ===== src/Subscriber/Instances.antt =====
-- A layer with two spans (src/subscriber.rs), over lists for the crates that it stands on.
use tracing_perfetto_file.Common.{
  ◌≡◌, ◌∙◌, [], ◌∷◌, true, false, none, some, ◌==◌, if◌then◌else◌, arith,
}
use tracing_perfetto_file.Layer.{default}
use tracing_perfetto_file.Runtime.{Inner, FieldValue, PendingFlow, RetainedSpanData}
use tracing_perfetto_file.Runtime.Output.Instances.{Disk, disk, small_queue}
use tracing_perfetto_file.Sequence.Packets.{Readings, ClockDomain}
use tracing_perfetto_file.Spans.{SpanData, SpanStore, new_store, insert, get}
use tracing_perfetto_file.Spans.Tiers.{Updates}
use tracing_perfetto_file.Spans.Refines.{insert-Updates, new_store-IsStore}
use tracing_perfetto_file.Spans.Instances.{assoc}
use tracing_perfetto_file.Spans.Pools.{new_pools}
use tracing_perfetto_file.Spans.Pools.Instances.{list_queue, list_map}
use tracing_perfetto_file.Subscriber.{Level, Metadata, Registry, Moment, Parts, World}

abbrev pub parts : Parts
parts = record {
  queue = list_queue;
  pool_map = list_map;
  span_map = assoc;
  sink = disk;
  ring = small_queue;
}

abbrev pub read_metadata : Metadata
read_metadata = record {
  callsite = 4096;
  name = record { ptr = 32; text = 114 ∷ [] };
  target = record { ptr = 48; text = 97 ∷ [] };
  level = Level.info;
  file = none;
  line = none;
  fields = [];
}

-- The spans 1 and 2 live.
abbrev pub registry : Registry
registry id =
    if id == 1
    then some (record { metadata = read_metadata; parent = none })
    else if id == 2
    then some (record { metadata = read_metadata; parent = some 1 })
    else none

abbrev pub layer : Inner
layer = record {
  id = 1;
  counter_tracks = [];
  next_sequence_id = 70000;
  next_uuid = 100;
  next_flow_id = 6;
  has_follows_from = false;
  next_tid_offset = 0;
  process_track = none;
  process_desc_emitted = false;
  config = record {
    span_mode = default;
    debug_annotations = true;
    poll_slices = false;
    source_locations = false;
    counters = true;
    process_arguments = true;
  };
}

abbrev pub readings : Readings
readings = record {
  raw_clock_ns = 1500;
  trace_clock_domain = ClockDomain.sequence_local;
  realtime_first_packet = 90;
  realtime_snapshot = 91;
  monotonic_ns = none;
  process_id = 12;
  process_name = 112 ∷ [];
  arguments = [];
  os_tid = some 13;
  thread_name = none;
  default_thread_name = λ tid. tid ∷ [];
}

abbrev pub now : Moment
now = record {
  readings = readings;
  alive = λ id. true;
  context_clock_ns = 8;
  addresses = record {
    level = 64;
    trace = 65;
    debug = 66;
    info = 67;
    warn = 68;
    error = 69;
    poll = 70;
  };
}

abbrev pub kept : RetainedSpanData
kept = record {
  fields = (record { ptr = 82; text = 107 ∷ [] }, FieldValue.u64 41) ∷ [];
  poll_flow_id = none;
  pending_flows = PendingFlow.start 3 ∷ [];
}

abbrev pub first_span : SpanData
first_span = record { track_pool = none; track_uuid = some 5; retained = some kept }

abbrev pub second_span : SpanData
second_span = record { track_pool = none; track_uuid = none; retained = none }

abbrev pub with_first :
    (s : SpanStore assoc) × (insert assoc (new_store assoc) 1 first_span ≡ some s)
    × Updates assoc (new_store assoc) s 1 (some first_span)
with_first =
    insert-Updates assoc (new_store assoc) 1 first_span (new_store-IsStore assoc).0 (omega arith)
      ((new_store-IsStore assoc).1 1)

pub absent_second : get assoc with_first.0 2 ≡ some none
absent_second = with_first.2.gets 2 ∙ (new_store-IsStore assoc).1 2

abbrev pub with_both :
    (s : SpanStore assoc) × (insert assoc with_first.0 2 second_span ≡ some s)
    × Updates assoc with_first.0 s 2 (some second_span)
with_both =
    insert-Updates assoc with_first.0 2 second_span with_first.2.store (omega arith) absent_second

pub first_there : get assoc with_both.0 1 ≡ some (some first_span)
first_there = with_both.2.gets 1 ∙ with_first.2.gets 1

pub second_there : get assoc with_both.0 2 ≡ some (some second_span)
second_there = with_both.2.gets 2

abbrev pub sound : Disk
sound = record { content = 9 ∷ []; broken = false }

abbrev pub world : World parts
world = record {
  inner = layer;
  output = record { writer = sound; error = none; has_error = false };
  queues = [];
  store = with_both.0;
  pools = new_pools list_queue list_map;
  local = record { destroyed = false; in_use = false; contexts = [] };
}
