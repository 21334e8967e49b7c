-- ===== src/Sequence.antt =====
-- src/sequence.rs: the interners and the state of one packet sequence. The packets that are made
-- from it stand in Sequence/Packets.
pub mod Entries
pub mod Interning
mod Dictionary
pub mod Pending
pub mod Packets
mod Runs
use tracing_perfetto_file.Common.{
  ℕ, ◌+◌, ◌%◌, ◌^◌, ◌<◌, bit_and, bit_or, List, [], ◌∷◌, ◌++◌, Bool, true, false, not, ◌||◌, Option,
  none, some, ◌==◌, if◌then◌else◌, ◌>>=◌,
}
use tracing_perfetto_file.Common.Maps.{PtrMap, StaticStr, get, insert}
use tracing_perfetto_file.Proto.{ProtoBuffer, MessageToken, varint_field, string_field, message}
use tracing_perfetto_file.Emit.Schema.TracePacket
use tracing_perfetto_file.Emit.Schema.InternedData
use tracing_perfetto_file.Emit.Schema.EventName
use tracing_perfetto_file.Emit.Schema.DebugAnnotationName
use tracing_perfetto_file.Emit.Schema.InternedString
use tracing_perfetto_file.Emit.Schema.SourceLocation

abbrev pub level_annotation_name_iid : ℕ
level_annotation_name_iid = 1

-- A `Vec<(u64, &'static str)>` of entries that are not written yet.
abbrev pub Entries : Type 0
Entries = List (ℕ × StaticStr)

pub record Interner : Type 0 where
  pub map : PtrMap ℕ
  pub next : ℕ
  pub last_key : ℕ
  pub last_iid : ℕ

-- `Interner::default()`
abbrev pub default_interner : Interner
default_interner = record { map = []; next = 0; last_key = 0; last_iid = 0 }

unfoldable pub after_reserved : ℕ → Interner
after_reserved next = record { map = []; next = next; last_key = 0; last_iid = 0 }

-- The iid, the interner, and the entries. The sum wraps, as it does in a release build.
unfoldable pub intern_miss : Interner → StaticStr → Entries → ℕ × Interner × Entries
intern_miss n value pending =
    let next = (n.next + 1) % 2 ^ 64 in
    (
      next,
      record {
        map = insert n.map value.ptr next;
        next = next;
        last_key = value.ptr;
        last_iid = next;
      },
      pending ++ (next, value) ∷ [],
    )

-- The `match` of `intern` on what the map holds for the pointer.
unfoldable pub intern_found : Interner → StaticStr → Entries → Option ℕ → ℕ × Interner × Entries
unfolding intern_miss
intern_found n value pending (some iid) =
    (iid, record n { last_key = value.ptr; last_iid = iid }, pending)
intern_found n value pending none = intern_miss n value pending

unfoldable pub intern : Interner → StaticStr → Entries → ℕ × Interner × Entries
unfolding intern_found
intern n value pending =
    if n.last_key == value.ptr
    then (n.last_iid, n, pending)
    else intern_found n value pending (get n.map value.ptr)

pub record SequenceState : Type 0 where
  pub sequence_id : ℕ
  pub thread_track_uuid : ℕ
  pub clock_anchor_ns : ℕ
  pub last_timestamp_ns : ℕ
  pub packet_prefix : Option (ℕ × MessageToken)
  pub initialized : Bool
  pub first_packet_done : Bool
  pub event_names : Interner
  pub annotation_names : Interner
  pub level_name_seen : Bool
  pub level_values_seen : ℕ
  pub categories : Interner
  pub source_locations : PtrMap ℕ
  pub next_source_location_iid : ℕ
  pub new_event_names : Entries
  pub new_annotation_names : Entries
  pub new_annotation_values : Entries
  pub new_categories : Entries
  pub new_source_locations : List (ℕ × StaticStr × ℕ)
  pub counter_track_cache : PtrMap ℕ
  pub scratch : ProtoBuffer

unfoldable pub new : (sequence_id thread_track_uuid clock_anchor_ns : ℕ) → SequenceState
unfolding after_reserved
new sequence_id thread_track_uuid clock_anchor_ns = record {
  sequence_id = sequence_id;
  thread_track_uuid = thread_track_uuid;
  clock_anchor_ns = clock_anchor_ns;
  last_timestamp_ns = clock_anchor_ns;
  packet_prefix = none;
  initialized = false;
  first_packet_done = false;
  event_names = default_interner;
  annotation_names = after_reserved level_annotation_name_iid;
  level_name_seen = false;
  level_values_seen = 0;
  categories = default_interner;
  source_locations = [];
  next_source_location_iid = 0;
  new_event_names = [];
  new_annotation_names = [];
  new_annotation_values = [];
  new_categories = [];
  new_source_locations = [];
  counter_track_cache = [];
  scratch = record { buf = [] };
}

unfoldable pub intern_event_name : SequenceState → StaticStr → ℕ × SequenceState
intern_event_name st name =
    let (iid, n, pending) = intern st.event_names name st.new_event_names in
    (iid, record st { event_names = n; new_event_names = pending })

unfoldable pub intern_annotation_name : SequenceState → StaticStr → ℕ × SequenceState
intern_annotation_name st name =
    let (iid, n, pending) = intern st.annotation_names name st.new_annotation_names in
    (iid, record st { annotation_names = n; new_annotation_names = pending })

unfoldable pub intern_category : SequenceState → StaticStr → ℕ × SequenceState
intern_category st name =
    let (iid, n, pending) = intern st.categories name st.new_categories in
    (iid, record st { categories = n; new_categories = pending })

unfoldable pub counter_track_uuid : SequenceState → StaticStr → Option ℕ
counter_track_uuid st name = get st.counter_track_cache name.ptr

pub cache_counter_track : SequenceState → StaticStr → ℕ → SequenceState
cache_counter_track st name uuid = record st {
  counter_track_cache = insert st.counter_track_cache name.ptr uuid;
}

unfoldable pub source_location_found :
    SequenceState → ℕ → StaticStr → ℕ → Option ℕ → ℕ × SequenceState
source_location_found st callsite file line (some iid) = (iid, st)
source_location_found st callsite file line none =
    let next = (st.next_source_location_iid + 1) % 2 ^ 64 in
    (
      next,
      record st {
        next_source_location_iid = next;
        new_source_locations = st.new_source_locations ++ (next, file, line) ∷ [];
        source_locations = insert st.source_locations callsite next;
      },
    )

unfoldable pub intern_source_location : SequenceState → ℕ → StaticStr → ℕ → ℕ × SequenceState
unfolding source_location_found
intern_source_location st callsite file line =
    source_location_found st callsite file line (get st.source_locations callsite)

unfoldable pub level_value_seen : SequenceState → ℕ → Bool
level_value_seen st bit = not (bit_and st.level_values_seen bit == 0)

-- `level` is the literal "level".
unfoldable pub register_level_name : SequenceState → StaticStr → SequenceState
register_level_name st level = record st {
  level_name_seen = true;
  new_annotation_names = st.new_annotation_names ++ (level_annotation_name_iid, level) ∷ [];
}

unfoldable pub register_level_value : SequenceState → ℕ → ℕ → StaticStr → SequenceState
register_level_value st bit iid value = record st {
  level_values_seen = bit_or st.level_values_seen bit;
  new_annotation_values = st.new_annotation_values ++ (iid, value) ∷ [];
}
