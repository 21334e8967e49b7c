-- ===== src/Sequence/Pending/Written/Runs.antt =====
-- Pending entries at a concrete state, and the theorem at it.
use tracing_perfetto_file.Common.{◌≡◌, [], ◌∷◌, ◌++◌, false, none, some, ◌>>=◌, arith}
use tracing_perfetto_file.Proto.{ProtoBuffer}
use tracing_perfetto_file.Proto.Fields.{Writes}
use tracing_perfetto_file.Sequence.{Interner, SequenceState}
use tracing_perfetto_file.Sequence.Pending.{without_pending, emit_interned_data}
use tracing_perfetto_file.Sequence.Pending.Written.{
  FitsMessage, pending_layout, emit_interned_data-Writes,
}

abbrev fresh : Interner
fresh = record { map = []; next = 0; last_key = 0; last_iid = 0 }

-- A category, the reserved annotation name and a source location wait.
abbrev three_pending : SequenceState
three_pending = record {
  sequence_id = 70000;
  thread_track_uuid = 3;
  clock_anchor_ns = 0;
  last_timestamp_ns = 0;
  packet_prefix = none;
  initialized = false;
  first_packet_done = false;
  event_names = fresh;
  annotation_names = fresh;
  level_name_seen = false;
  level_values_seen = 0;
  categories = record fresh { map = (64, 1) ∷ []; next = 1 };
  source_locations = (80, 1) ∷ [];
  next_source_location_iid = 1;
  new_event_names = [];
  new_annotation_names = (1, record { ptr = 96; text = 108 ∷ [] }) ∷ [];
  new_annotation_values = [];
  new_categories = (1, record { ptr = 64; text = 104 ∷ [] }) ∷ [];
  new_source_locations = (1, record { ptr = 32; text = 109 ∷ [] }, 77) ∷ [];
  counter_track_cache = [];
  scratch = record { buf = [] };
}

three_pending-FitsMessage : FitsMessage three_pending
three_pending-FitsMessage = record {
  categories = ((omega arith, omega arith), tt);
  event_names = tt;
  annotation_names = ((omega arith, omega arith), tt);
  annotation_values = tt;
  locations = ((omega arith, omega arith, omega arith), tt);
  total = omega arith;
}

emit_interned_data-Writes_example :
    (w : Writes
      (pending_layout three_pending)
      (λ b. emit_interned_data three_pending b >>= λ (st', b'). some b'))
    × ((b : ProtoBuffer)
        → emit_interned_data three_pending b
          ≡ some (without_pending three_pending, record { buf = b.buf ++ w.chunk }))
emit_interned_data-Writes_example =
    emit_interned_data-Writes three_pending three_pending-FitsMessage
