-- ===== src/Visitor/EventVisitor/Runs.antt =====
-- The fields of an event, and the theorems at them.
use tracing_perfetto_file.Common.{◌≡◌, refl, List, [], ◌∷◌, ◌++◌, true, false, none, some}
use tracing_perfetto_file.Common.Int.{negsuc}
use tracing_perfetto_file.Common.Maps.{StaticStr, get}
use tracing_perfetto_file.Emit.{TrackEventWriter, counter_i64}
use tracing_perfetto_file.Sequence.{SequenceState, Interner, counter_track_uuid}
use tracing_perfetto_file.Visitor.{starts_with, counter_prefix, message_name}
use tracing_perfetto_file.Visitor.EventVisitor.{
  EventVisitor, new, record_i64, record_number, number_with, counter_track, is_counter,
}
use tracing_perfetto_file.Visitor.Calls.{Call, i64, u64, str, visit, visit_all}

abbrev no_names : Interner
no_names = record { map = []; next = 0; last_key = 0; last_iid = 0 }

-- A sequence that knows the track of one counter.
abbrev one_counter : SequenceState
one_counter = record {
  sequence_id = 70000;
  thread_track_uuid = 3;
  clock_anchor_ns = 0;
  last_timestamp_ns = 0;
  packet_prefix = none;
  initialized = true;
  first_packet_done = true;
  event_names = no_names;
  annotation_names = no_names;
  level_name_seen = false;
  level_values_seen = 0;
  categories = no_names;
  source_locations = [];
  next_source_location_iid = 0;
  new_event_names = [];
  new_annotation_names = [];
  new_annotation_values = [];
  new_categories = [];
  new_source_locations = [];
  counter_track_cache = (48, 9) ∷ [];
  scratch = record { buf = [] };
}

abbrev load : StaticStr
load = record { ptr = 48; text = counter_prefix ++ 108 ∷ [] }

abbrev empty : TrackEventWriter
empty = record { buf = [] }

abbrev counted : EventVisitor
counted = record {
  event = counter_i64 empty 9 (negsuc 4);
  sequence = one_counter;
  annotations = false;
  counters = true;
  counter_count = 1;
  use_message_as_name = false;
  wrote_name = false;
}

one_counter_run :
    visit_all (new empty one_counter false true false) (i64 load (negsuc 4) ∷ []) ≡ some counted
unfolding visit_all visit new record_i64 record_number number_with counter_track is_counter
    starts_with counter_track_uuid get
one_counter_run = refl

-- Three fields: the counter, a number that is no counter, and the message.
abbrev three_fields : List Call
three_fields =
    i64 load (negsuc 4)
    ∷ u64 (record { ptr = 64; text = 110 ∷ [] }) 7
    ∷ str (record { ptr = 80; text = message_name }) (104 ∷ 105 ∷ [])
    ∷ []
