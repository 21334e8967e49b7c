-- ===== src/Sequence/Packets/Writer/Examples.antt =====
-- A sequence at work, and the theorems on packets at it.
use tracing_perfetto_file.Common.{
  ℕ, refl, List, [], ◌∷◌, true, false, Option, none, some, arith, inl,
}
use tracing_perfetto_file.Layer.{default}
use tracing_perfetto_file.Proto.{ProtoBuffer, varint_field}
use tracing_perfetto_file.Proto.Fields.{varint_field-Writes}
use tracing_perfetto_file.Proto.Wire
use tracing_perfetto_file.Runtime.{Inner}
use tracing_perfetto_file.Sequence.{SequenceState, Interner}
use tracing_perfetto_file.Sequence.Pending.Written.{FitsMessage}
use tracing_perfetto_file.Sequence.Packets.{Readings, sequence_local}
use tracing_perfetto_file.Sequence.Packets.Writer.{SequenceWriter, with_packet, fields}
use tracing_perfetto_file.Sequence.Packets.Writer.Reuse.{opened}
use tracing_perfetto_file.Sequence.Packets.Writer.Delivery.{
  Delivered, with_packet-Delivered, fields-Adds,
}

abbrev readings : Readings
readings = record {
  raw_clock_ns = 1500;
  trace_clock_domain = sequence_local;
  realtime_first_packet = 90;
  realtime_snapshot = 91;
  monotonic_ns = none;
  process_id = 12;
  process_name = 112 ∷ [];
  arguments = [];
  os_tid = some 13;
  thread_name = none;
  default_thread_name = λ tid. tid ∷ [];
}

abbrev counters : Inner
counters = record {
  id = 1;
  counter_tracks = [];
  next_sequence_id = 70000;
  next_uuid = 4;
  next_flow_id = 5;
  has_follows_from = false;
  next_tid_offset = 0;
  process_track = none;
  process_desc_emitted = true;
  config = record {
    span_mode = default;
    debug_annotations = false;
    poll_slices = false;
    source_locations = false;
    counters = false;
    process_arguments = false;
  };
}

abbrev no_names : Interner
no_names = record { map = []; next = 0; last_key = 0; last_iid = 0 }

-- After the first packet, with one event name that waits.
abbrev waiting : SequenceState
waiting = record {
  sequence_id = 70000;
  thread_track_uuid = 3;
  clock_anchor_ns = 0;
  last_timestamp_ns = 1200;
  packet_prefix = none;
  initialized = true;
  first_packet_done = true;
  event_names = record no_names { map = (64, 1) ∷ []; next = 1 };
  annotation_names = no_names;
  level_name_seen = false;
  level_values_seen = 0;
  categories = no_names;
  source_locations = [];
  next_source_location_iid = 0;
  new_event_names = (1, record { ptr = 64; text = 104 ∷ 105 ∷ [] }) ∷ [];
  new_annotation_names = [];
  new_annotation_values = [];
  new_categories = [];
  new_source_locations = [];
  counter_track_cache = [];
  scratch = record { buf = 1 ∷ 2 ∷ [] };
}

-- The packets that were handed on, the last one first.
abbrev keep : List (List ℕ) → List ℕ → List (List ℕ)
keep sent bytes = bytes ∷ sent

abbrev writer : SequenceWriter keep
writer = record { inner = counters; sequence = waiting; output = []; timestamp_ns = none }

abbrev begin_slice : ProtoBuffer → Option ProtoBuffer
begin_slice b = some (varint_field b 9 1)

fits : FitsMessage (opened waiting 1500)
fits = record {
  categories = tt;
  event_names = ((omega arith, omega arith), tt);
  annotation_names = tt;
  annotation_values = tt;
  locations = tt;
  total = omega arith;
}

with_packet-Delivered_example :
    Delivered keep readings writer
      (opened waiting 1500)
      (Wire.varint 9 1 Wire.end)
      (with_packet keep readings writer (fields keep begin_slice))
with_packet-Delivered_example =
    with_packet-Delivered keep readings writer (opened waiting 1500) (Wire.varint 9 1 Wire.end)
      (fields keep begin_slice) (record { done = refl; small_id = omega arith; prefix = inl refl })
      (omega arith)
      (fields-Adds keep readings (opened waiting 1500) (Wire.varint 9 1 Wire.end) begin_slice
        (varint_field-Writes 9 (omega arith) 1 (omega arith)))
      refl refl refl fits (omega arith)
