-- ===== src/Visitor/EventVisitor/Visits.antt =====
-- What each record function of an EventVisitor (src/visitor.rs) writes.
use mathlib.Core.List.{flatten}
use tracing_perfetto_file.Common.{
  ℕ, ◌≡◌, refl, List, Bool, true, false, not, ◌&&◌, Option, some, if◌then◌else◌, if_either, ◌>>=◌,
  arith,
}
use tracing_perfetto_file.Common.Int.{as_i64, as_u64, fits_i64}
use tracing_perfetto_file.Common.Maps.{StaticStr}
use tracing_perfetto_file.Emit.{
  TrackEventWriter, event_name_str, event_name_debug, annotation_i64, annotation_u64,
  annotation_f64, annotation_display, counter_i64, counter_f64,
}
use tracing_perfetto_file.Emit.Layouts.{
  IsText, annotation_bool-Writes, annotation_i64-Writes, annotation_u64-Writes,
  annotation_f64-Writes, annotation_str-Writes, annotation_debug-Writes, annotation_display-Writes,
  counter_i64-Writes, counter_f64-Writes, event_name_str-Writes, event_name_debug-Writes,
}
use tracing_perfetto_file.Proto.{IsU64}
use tracing_perfetto_file.Proto.Fields.{Writes}
use tracing_perfetto_file.Proto.Wire.{Layout, end, varint, fixed64, string, message}
use tracing_perfetto_file.Visitor.{fits_u64}
use tracing_perfetto_file.Visitor.Calls.{
  Call, bool, i64, u64, f64, i128, u128, str, bytes, error, debug, visit,
}
use tracing_perfetto_file.Visitor.EventVisitor.{
  EventVisitor, annotated_if, takes_name, record_bool, record_i64, record_u64, record_f64,
  record_i128, record_u128, record_str, record_bytes, record_error, record_debug,
}
use tracing_perfetto_file.Visitor.EventVisitor.Small.{IsSmall}
use tracing_perfetto_file.Visitor.EventVisitor.Shown.{
  ShowsTo, call_places, annotated_if-Shows, named-Shows,
}
use tracing_perfetto_file.Visitor.EventVisitor.Counters.{
  record_number-Shows, whole_counter, double_counter,
}

-- A value has the range of its type, and a text fits a message.
abbrev pub IsCall : Call → Type 0
IsCall (bool field value) = Unit {0}
IsCall (i64 field value) = Unit {0}
IsCall (u64 field value) = IsU64 value
IsCall (f64 field value) = IsU64 value
IsCall (i128 field value pieces) = IsText (flatten pieces)
IsCall (u128 field value pieces) = IsText (flatten pieces)
IsCall (str field value) = IsText value
IsCall (bytes field pieces) = IsText (flatten pieces)
IsCall (error field pieces) = IsText (flatten pieces)
IsCall (debug field pieces) = IsText (flatten pieces)

-- A number that is written as one, if it fits, or else as its text.
either_annotation :
    (fits : Bool) (iid : ℕ) (number text : Layout)
    (write other : TrackEventWriter → ℕ → Option TrackEventWriter)
    → (fits ≡ true → Writes (message 4 (varint 1 iid number) end) (λ e. write e iid))
    → Writes (message 4 (varint 1 iid text) end) (λ e. other e iid)
    → Writes
        (message 4 (varint 1 iid (if fits then number else text)) end)
        (λ e. if fits then write e iid else other e iid)
either_annotation true iid number text write other w w' = w refl
either_annotation false iid number text write other w w' = w'

takes :
    (v : EventVisitor) (field : StaticStr)
    → takes_name v field ≡ true
    → (v.use_message_as_name ≡ true) × (v.wrote_name ≡ false)
unfolding takes_name
takes v field h = unnamed v.use_message_as_name v.wrote_name _ h
  where
    unnamed : (a b c : Bool) → (a && (not b && c)) ≡ true → (a ≡ true) × (b ≡ false)
    unnamed true true c h = cc h
    unnamed true false c h = (refl, refl)
    unnamed false b c h = cc h

named_or_annotated :
    (v : EventVisitor) (field : StaticStr) (text : List ℕ)
    (op : TrackEventWriter → Option TrackEventWriter)
    (write : TrackEventWriter → ℕ → Option TrackEventWriter) (sub : ℕ → Layout)
    → IsSmall v.sequence
    → Writes (string 23 text end) op
    → ((iid : ℕ) → IsU64 iid → Writes (message 4 (sub iid) end) (λ e. write e iid))
    → ShowsTo 1 0 v (
        if takes_name v field
        then (op v.event >>= λ event. some (record v { wrote_name = true; event = event }))
        else annotated_if v.annotations v field write)
named_or_annotated v field text op write sub small w writes =
    if_either (ShowsTo 1 0 v) (takes_name v field) _ _
      (λ takes_it.
        let (asked, unnamed) = takes v field takes_it in
        named-Shows v text op small asked unnamed w)
      (λ other.
        annotated_if-Shows v.annotations v field write sub 0 small (λ h. omega arith) (λ off. off)
          writes)

pub visit-Shows :
    (v : EventVisitor) (call : Call)
    → IsSmall v.sequence
    → IsCall call
    → ShowsTo 1 (call_places v.counters v.sequence.counter_track_cache call) v (visit v call)
unfolding visit record_bool record_i64 record_u64 record_f64 record_i128 record_u128 record_str
    record_bytes record_error record_debug
visit-Shows v (bool field value) small h =
    annotated_if-Shows v.annotations v field _ _ 0 small (λ h. omega arith) (λ off. off)
      (λ iid low. annotation_bool-Writes iid low value)
visit-Shows v (i64 field value) small h =
    record_number-Shows v field (λ event uuid. counter_i64 event uuid value)
      (λ event iid. annotation_i64 event iid value)
      (λ uuid. varint 31 uuid (varint 12 (as_u64 value) end)) _ small (whole_counter (as_u64 value))
      (λ uuid low. counter_i64-Writes uuid low value)
      (λ iid low. annotation_i64-Writes iid low value)
visit-Shows v (u64 field value) small h =
    record_number-Shows v field (λ event uuid. counter_i64 event uuid (as_i64 value))
      (λ event iid. annotation_u64 event iid value)
      (λ uuid. varint 31 uuid (varint 12 (as_u64 (as_i64 value)) end)) _ small
      (whole_counter (as_u64 (as_i64 value)))
      (λ uuid low. counter_i64-Writes uuid low (as_i64 value))
      (λ iid low. annotation_u64-Writes iid low value h)
visit-Shows v (f64 field value) small h =
    record_number-Shows v field (λ event uuid. counter_f64 event uuid value)
      (λ event iid. annotation_f64 event iid value) (λ uuid. varint 45 uuid (fixed64 46 value end))
      _ small (double_counter value) (λ uuid low. counter_f64-Writes uuid low value h)
      (λ iid low. annotation_f64-Writes iid low value h)
visit-Shows v (i128 field value pieces) small h =
    annotated_if-Shows v.annotations v field _ _ 0 small (λ h. omega arith) (λ off. off)
      (λ iid low.
        either_annotation (fits_i64 value) iid (varint 4 (as_u64 value) end)
          (string 6 (flatten pieces) end) (λ e iid. annotation_i64 e iid value)
          (λ e iid. annotation_display e iid pieces) (λ fits. annotation_i64-Writes iid low value)
          (annotation_display-Writes iid low pieces h))
visit-Shows v (u128 field value pieces) small h =
    annotated_if-Shows v.annotations v field _ _ 0 small (λ h. omega arith) (λ off. off)
      (λ iid low.
        either_annotation (fits_u64 value) iid (varint 3 value end) (string 6 (flatten pieces) end)
          (λ e iid. annotation_u64 e iid value) (λ e iid. annotation_display e iid pieces)
          (λ fits. annotation_u64-Writes iid low value (ground arith))
          (annotation_display-Writes iid low pieces h))
visit-Shows v (str field value) small h =
    named_or_annotated v field value (λ e. some (event_name_str e value)) _ _ small
      (event_name_str-Writes value h) (λ iid low. annotation_str-Writes iid low value h)
visit-Shows v (bytes field pieces) small h =
    annotated_if-Shows v.annotations v field _ _ 0 small (λ h. omega arith) (λ off. off)
      (λ iid low. annotation_debug-Writes iid low pieces h)
visit-Shows v (error field pieces) small h =
    annotated_if-Shows v.annotations v field _ _ 0 small (λ h. omega arith) (λ off. off)
      (λ iid low. annotation_display-Writes iid low pieces h)
visit-Shows v (debug field pieces) small h =
    named_or_annotated v field (flatten pieces) (λ e. event_name_debug e pieces) _ _ small
      (event_name_debug-Writes pieces h) (λ iid low. annotation_debug-Writes iid low pieces h)
