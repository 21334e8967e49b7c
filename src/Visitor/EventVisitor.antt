-- ===== src/Visitor/EventVisitor.antt =====
-- src/visitor.rs: `EventVisitor`, which writes the fields of an event: counters, the name, and
-- annotations.
mod Small
mod Tallies
mod Shown
mod Counters
mod Visits
mod Laws
mod Runs
use tracing_perfetto_file.Common.{
  ℕ, ◌+◌, ltb, List, [], ◌∷◌, Bool, true, false, not, ◌&&◌, ◌||◌, Option, none, some, if◌then◌else◌,
  ◌>>=◌,
}
use tracing_perfetto_file.Common.Int.{ℤ, as_i64, fits_i64}
use tracing_perfetto_file.Common.Maps.{StaticStr}
use tracing_perfetto_file.Sequence.{SequenceState, intern_annotation_name, counter_track_uuid}
use tracing_perfetto_file.Emit.{
  TrackEventWriter, max_extra_counters, annotation_bool, annotation_i64, annotation_u64,
  annotation_f64, annotation_str, annotation_debug, annotation_display, counter_i64, counter_f64,
  event_name_str, event_name_debug,
}
use tracing_perfetto_file.Visitor.{same_text, starts_with, counter_prefix, message_name, fits_u64}

pub record EventVisitor : Type 0 where
  pub event : TrackEventWriter
  pub sequence : SequenceState
  pub annotations : Bool
  pub counters : Bool
  pub counter_count : ℕ
  pub use_message_as_name : Bool
  pub wrote_name : Bool

pub new :
    TrackEventWriter
    → SequenceState
    → (annotations counters use_message_as_name : Bool) → EventVisitor
new event sequence annotations counters use_message_as_name = record {
  event = event;
  sequence = sequence;
  annotations = annotations;
  counters = counters;
  counter_count = 0;
  use_message_as_name = use_message_as_name;
  wrote_name = false;
}

-- `annotation_name`, and an annotation with the iid.
annotated :
    EventVisitor
    → StaticStr
    → (TrackEventWriter → ℕ → Option TrackEventWriter)
    → Option EventVisitor
annotated v field write =
    let (iid, sequence) = intern_annotation_name v.sequence field in
    write v.event iid >>= λ event. some (record v { event = event; sequence = sequence })

-- `if !self.annotations { return; }`, and then an annotation.
pub annotated_if :
    Bool
    → EventVisitor
    → StaticStr
    → (TrackEventWriter → ℕ → Option TrackEventWriter)
    → Option EventVisitor
unfolding annotated
annotated_if wanted v field write = if wanted then annotated v field write else some v

pub is_counter : EventVisitor → StaticStr → Bool
is_counter v field = v.counters && starts_with field.text counter_prefix

-- The track of a counter that still has a place in the event.
counter_track : EventVisitor → StaticStr → Option ℕ
unfolding is_counter
counter_track v field =
    if is_counter v field && ltb v.counter_count max_extra_counters
    then counter_track_uuid v.sequence field
    else none

-- A number: a counter, if it has a track and a place, or else an annotation.
number_with :
    Option ℕ
    → EventVisitor
    → StaticStr
    → (TrackEventWriter → ℕ → TrackEventWriter)
    → (TrackEventWriter → ℕ → Option TrackEventWriter)
    → Option EventVisitor
unfolding annotated_if is_counter
number_with (some track_uuid) v field count write =
    some (record v { event = count v.event track_uuid; counter_count = v.counter_count + 1 })
number_with none v field count write =
    annotated_if (is_counter v field || v.annotations) v field write

pub record_number :
    EventVisitor
    → StaticStr
    → (TrackEventWriter → ℕ → TrackEventWriter)
    → (TrackEventWriter → ℕ → Option TrackEventWriter)
    → Option EventVisitor
unfolding number_with counter_track
record_number v field count write = number_with (counter_track v field) v field count write

-- `self.use_message_as_name && !self.wrote_name && field.name() == "message"`
takes_name : EventVisitor → StaticStr → Bool
takes_name v field =
    v.use_message_as_name && (not v.wrote_name && same_text field.text message_name)

pub record_bool : EventVisitor → StaticStr → Bool → Option EventVisitor
unfolding annotated_if
record_bool v field value =
    annotated_if v.annotations v field (λ event iid. annotation_bool event iid value)

pub record_i64 : EventVisitor → StaticStr → ℤ → Option EventVisitor
unfolding record_number
record_i64 v field value =
    record_number v field (λ event uuid. counter_i64 event uuid value)
      (λ event iid. annotation_i64 event iid value)

-- `value as i64` for the counter
pub record_u64 : EventVisitor → StaticStr → ℕ → Option EventVisitor
unfolding record_number
record_u64 v field value =
    record_number v field (λ event uuid. counter_i64 event uuid (as_i64 value))
      (λ event iid. annotation_u64 event iid value)

pub record_f64 : EventVisitor → StaticStr → ℕ → Option EventVisitor
unfolding record_number
record_f64 v field value =
    record_number v field (λ event uuid. counter_f64 event uuid value)
      (λ event iid. annotation_f64 event iid value)

pub record_i128 : EventVisitor → StaticStr → ℤ → List (List ℕ) → Option EventVisitor
unfolding annotated_if
record_i128 v field value pieces = annotated_if v.annotations v field (λ event iid.
    if fits_i64 value then annotation_i64 event iid value else annotation_display event iid pieces)

pub record_u128 : EventVisitor → StaticStr → ℕ → List (List ℕ) → Option EventVisitor
unfolding annotated_if
record_u128 v field value pieces = annotated_if v.annotations v field (λ event iid.
    if fits_u64 value then annotation_u64 event iid value else annotation_display event iid pieces)

pub record_str : EventVisitor → StaticStr → List ℕ → Option EventVisitor
unfolding takes_name annotated_if
record_str v field value =
    if takes_name v field
    then some (record v { wrote_name = true; event = event_name_str v.event value })
    else annotated_if v.annotations v field (λ event iid. annotation_str event iid value)

pub record_bytes : EventVisitor → StaticStr → List (List ℕ) → Option EventVisitor
unfolding annotated_if
record_bytes v field pieces =
    annotated_if v.annotations v field (λ event iid. annotation_debug event iid pieces)

pub record_error : EventVisitor → StaticStr → List (List ℕ) → Option EventVisitor
unfolding annotated_if
record_error v field pieces =
    annotated_if v.annotations v field (λ event iid. annotation_display event iid pieces)

pub record_debug : EventVisitor → StaticStr → List (List ℕ) → Option EventVisitor
unfolding takes_name annotated_if
record_debug v field pieces =
    if takes_name v field
    then (event_name_debug v.event pieces >>= λ event.
        some (record v { wrote_name = true; event = event }))
    else annotated_if v.annotations v field (λ event iid. annotation_debug event iid pieces)
