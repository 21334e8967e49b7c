-- ===== src/Visitor/AttributeVisitor/Runs.antt =====
-- A wide integer as an attribute, and the theorem at it.
use mathlib.Core.List.{flatten}
use tracing_perfetto_file.Common.{[], ◌∷◌, true, false, none, arith, ◌^◌}
use tracing_perfetto_file.Common.Int.{pos}
use tracing_perfetto_file.Common.Maps.{StaticStr}
use tracing_perfetto_file.Proto.Wire.{end, varint, message}
use tracing_perfetto_file.Sequence.{SequenceState, Interner, intern, intern_annotation_name}
use tracing_perfetto_file.Visitor.AttributeVisitor.{AttributeVisitor, record_i128}
use tracing_perfetto_file.Visitor.AttributeVisitor.Laws.{
  Annotates, wide_value, record_i128-Annotates,
}

abbrev no_names : Interner
no_names = record { map = []; next = 0; last_key = 0; last_iid = 0 }

abbrev size_name : StaticStr
size_name = record { ptr = 48; text = 115 ∷ [] }

-- The name was interned by the field before.
abbrev after_size : SequenceState
after_size = record {
  sequence_id = 70000;
  thread_track_uuid = 3;
  clock_anchor_ns = 0;
  last_timestamp_ns = 0;
  packet_prefix = none;
  initialized = true;
  first_packet_done = true;
  event_names = no_names;
  annotation_names = record { map = (48, 2) ∷ []; next = 2; last_key = 48; last_iid = 2 };
  level_name_seen = false;
  level_values_seen = 0;
  categories = no_names;
  source_locations = [];
  next_source_location_iid = 0;
  new_event_names = [];
  new_annotation_names = [];
  new_annotation_values = [];
  new_categories = [];
  new_source_locations = [];
  counter_track_cache = [];
  scratch = record { buf = [] };
}

abbrev visitor : AttributeVisitor
visitor = record { event = record { buf = 1 ∷ [] }; sequence = after_size }

-- 2 ^ 70 is no `i64`.
record_i128-Annotates_example :
    Annotates visitor size_name
      (λ iid. message 4 (varint 1 iid (wide_value (pos (2 ^ 70)) ((49 ∷ []) ∷ []))) end)
      (record_i128 visitor size_name (pos (2 ^ 70)) ((49 ∷ []) ∷ []))
unfolding flatten
record_i128-Annotates_example =
    record_i128-Annotates visitor size_name (pos (2 ^ 70)) ((49 ∷ []) ∷ [])
      (unfold intern_annotation_name in unfold intern in omega arith) (omega arith)
