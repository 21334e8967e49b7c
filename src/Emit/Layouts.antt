-- ===== src/Emit/Layouts.antt =====
-- What each writer of src/emit.rs writes, as a tree of fields of the wire format.
use mathlib.Core.List.{flatten}
use tracing_perfetto_file.Common.{ℕ, ◌+◌, ◌≤◌, List, Bool, true, false, some, arith}
use tracing_perfetto_file.Common.Int.{ℤ, as_u64, as_u64-lt}
use tracing_perfetto_file.Common.Lists.{length}
use tracing_perfetto_file.Proto.{IsU64, max_message_len}
use tracing_perfetto_file.Proto.Fields.{
  Writes, Writes-seq, Writes-nothing, varint_field-Writes, redundant_varint_field-Writes,
  fixed64_field-Writes, double_field-Writes, string_field-Writes,
}
use tracing_perfetto_file.Proto.Framing.{message-Writes, debug_field-Writes, display_field-Writes}
use tracing_perfetto_file.Proto.Wire.{end, varint, fixed64, string, message}
use tracing_perfetto_file.Emit.{
  slice_begin, slice_end, instant, track_uuid, name_iid, flow_start, flow_terminate,
  source_location_iid, category_iid, level_annotation, annotation_bool, annotation_i64,
  annotation_u64, annotation_f64, annotation_str, annotation_debug, annotation_display, counter_i64,
  counter_f64, event_name_str, event_name_debug, track_descriptor, counter_descriptor, from_bool,
}

-- A text that fits a message with room for the fields around it.
abbrev pub IsText : List ℕ → Type 0
IsText s = length s + 1000 ≤ max_message_len

-- The constants: `TrackEvent.type` is field 9, and so on.
pub slice_begin-Writes : Writes (varint 9 1 end) (λ e. some (slice_begin e))
unfolding slice_begin
slice_begin-Writes = varint_field-Writes 9 (omega arith) 1 (omega arith)

pub slice_end-Writes : Writes (varint 9 2 end) (λ e. some (slice_end e))
unfolding slice_end
slice_end-Writes = varint_field-Writes 9 (omega arith) 2 (omega arith)

pub instant-Writes : Writes (varint 9 3 end) (λ e. some (instant e))
unfolding instant
instant-Writes = varint_field-Writes 9 (omega arith) 3 (omega arith)

module _ (id : ℕ) (h : IsU64 id) where
  pub track_uuid-Writes : Writes (varint 11 id end) (λ e. some (track_uuid e id))
  unfolding track_uuid
  track_uuid-Writes = redundant_varint_field-Writes 11 (omega arith) id h

  pub name_iid-Writes : Writes (varint 10 id end) (λ e. some (name_iid e id))
  unfolding name_iid
  name_iid-Writes = varint_field-Writes 10 (omega arith) id h

  pub flow_start-Writes : Writes (fixed64 47 id end) (λ e. some (flow_start e id))
  unfolding flow_start
  flow_start-Writes = fixed64_field-Writes 47 (omega arith) id h

  pub flow_terminate-Writes : Writes (fixed64 48 id end) (λ e. some (flow_terminate e id))
  unfolding flow_terminate
  flow_terminate-Writes = fixed64_field-Writes 48 (omega arith) id h

  pub source_location_iid-Writes : Writes (varint 34 id end) (λ e. some (source_location_iid e id))
  unfolding source_location_iid
  source_location_iid-Writes = varint_field-Writes 34 (omega arith) id h

  pub category_iid-Writes : Writes (varint 3 id end) (λ e. some (category_iid e id))
  unfolding category_iid
  category_iid-Writes = varint_field-Writes 3 (omega arith) id h

-- A debug annotation is field 4: the id of its name in field 1, and its value.
module _ (iid : ℕ) (h : IsU64 iid) where
  pub level_annotation-Writes :
      (value_iid : ℕ)
      → IsU64 value_iid
      → Writes
          (message 4 (varint 1 iid (varint 17 value_iid end)) end)
          (λ e. level_annotation e iid value_iid)
  unfolding level_annotation
  level_annotation-Writes value_iid hv = message-Writes 4 (omega arith) (omega arith) (
      Writes-seq (varint_field-Writes 1 (omega arith) iid h)
        (varint_field-Writes 17 (omega arith) value_iid hv))

  from_bool-lt : (v : Bool) → IsU64 (from_bool v)
  from_bool-lt true = omega arith
  from_bool-lt false = omega arith

  pub annotation_bool-Writes :
      (v : Bool)
      → Writes
          (message 4 (varint 1 iid (varint 2 (from_bool v) end)) end)
          (λ e. annotation_bool e iid v)
  unfolding annotation_bool
  annotation_bool-Writes v = message-Writes 4 (omega arith) (omega arith) (
      Writes-seq (varint_field-Writes 1 (omega arith) iid h)
        (varint_field-Writes 2 (omega arith) (from_bool v) (from_bool-lt v)))

  pub annotation_i64-Writes :
      (v : ℤ)
      → Writes
          (message 4 (varint 1 iid (varint 4 (as_u64 v) end)) end)
          (λ e. annotation_i64 e iid v)
  unfolding annotation_i64
  annotation_i64-Writes v = message-Writes 4 (omega arith) (omega arith) (
      Writes-seq (varint_field-Writes 1 (omega arith) iid h)
        (varint_field-Writes 4 (omega arith) (as_u64 v) (as_u64-lt v)))

  pub annotation_u64-Writes :
      (v : ℕ)
      → IsU64 v
      → Writes (message 4 (varint 1 iid (varint 3 v end)) end) (λ e. annotation_u64 e iid v)
  unfolding annotation_u64
  annotation_u64-Writes v hv = message-Writes 4 (omega arith) (omega arith) (
      Writes-seq (varint_field-Writes 1 (omega arith) iid h)
        (varint_field-Writes 3 (omega arith) v hv))

  pub annotation_f64-Writes :
      (v : ℕ)
      → IsU64 v
      → Writes (message 4 (varint 1 iid (fixed64 5 v end)) end) (λ e. annotation_f64 e iid v)
  unfolding annotation_f64
  annotation_f64-Writes v hv = message-Writes 4 (omega arith) (omega arith) (
      Writes-seq (varint_field-Writes 1 (omega arith) iid h)
        (double_field-Writes 5 (omega arith) v hv))

  pub annotation_str-Writes :
      (s : List ℕ)
      → IsText s
      → Writes (message 4 (varint 1 iid (string 6 s end)) end) (λ e. annotation_str e iid s)
  unfolding annotation_str
  annotation_str-Writes s hs = message-Writes 4 (omega arith) (omega arith) (
      Writes-seq (varint_field-Writes 1 (omega arith) iid h)
        (string_field-Writes 6 (omega arith) s (omega arith)))

  pub annotation_debug-Writes :
      (pieces : List (List ℕ))
      → IsText (flatten pieces)
      → Writes
          (message 4 (varint 1 iid (string 6 (flatten pieces) end)) end)
          (λ e. annotation_debug e iid pieces)
  unfolding annotation_debug
  annotation_debug-Writes pieces hs = message-Writes 4 (omega arith) (omega arith) (
      Writes-seq (varint_field-Writes 1 (omega arith) iid h)
        (debug_field-Writes 6 pieces (omega arith) (omega arith)))

  pub annotation_display-Writes :
      (pieces : List (List ℕ))
      → IsText (flatten pieces)
      → Writes
          (message 4 (varint 1 iid (string 6 (flatten pieces) end)) end)
          (λ e. annotation_display e iid pieces)
  unfolding annotation_display
  annotation_display-Writes pieces hs = message-Writes 4 (omega arith) (omega arith) (
      Writes-seq (varint_field-Writes 1 (omega arith) iid h)
        (display_field-Writes 6 pieces (omega arith) (omega arith)))

module _ (uuid : ℕ) (h : IsU64 uuid) where
  pub counter_i64-Writes :
      (v : ℤ)
      → Writes (varint 31 uuid (varint 12 (as_u64 v) end)) (λ e. some (counter_i64 e uuid v))
  unfolding counter_i64
  counter_i64-Writes v =
      Writes-seq (redundant_varint_field-Writes 31 (omega arith) uuid h)
        (varint_field-Writes 12 (omega arith) (as_u64 v) (as_u64-lt v))

  pub counter_f64-Writes :
      (v : ℕ)
      → IsU64 v
      → Writes (varint 45 uuid (fixed64 46 v end)) (λ e. some (counter_f64 e uuid v))
  unfolding counter_f64
  counter_f64-Writes v hv =
      Writes-seq (redundant_varint_field-Writes 45 (omega arith) uuid h)
        (double_field-Writes 46 (omega arith) v hv)

  pub track_descriptor-Writes :
      (name : List ℕ) (parent : ℕ)
      → IsText name
      → IsU64 parent
      → Writes
          (message 60 (varint 1 uuid (string 2 name (varint 5 parent end))) end)
          (λ b. track_descriptor b uuid name parent)
  unfolding track_descriptor
  track_descriptor-Writes name parent hn hp = message-Writes 60 (omega arith) (omega arith) (
      Writes-seq (redundant_varint_field-Writes 1 (omega arith) uuid h) (
        Writes-seq (string_field-Writes 2 (omega arith) name (omega arith))
          (redundant_varint_field-Writes 5 (omega arith) parent hp)))

  -- `counter_descriptor`, for ids that are `u64` and a name at least 1000 bytes below the limit of
  -- a message: it appends one field 60 with the uuid, the name, the parent and an empty counter
  -- message.
  pub counter_descriptor-Writes :
      (name : List ℕ) (parent : ℕ)
      → IsText name
      → IsU64 parent
      → Writes
          (message 60 (varint 1 uuid (string 2 name (varint 5 parent (message 8 end end)))) end)
          (λ b. counter_descriptor b uuid name parent)
  unfolding counter_descriptor
  counter_descriptor-Writes name parent hn hp = message-Writes 60 (omega arith) (omega arith) (
      Writes-seq (redundant_varint_field-Writes 1 (omega arith) uuid h) (
        Writes-seq (string_field-Writes 2 (omega arith) name (omega arith)) (
          Writes-seq (redundant_varint_field-Writes 5 (omega arith) parent hp)
            (message-Writes 8 (omega arith) (omega arith) Writes-nothing))))

pub event_name_str-Writes :
    (s : List ℕ) → IsText s → Writes (string 23 s end) (λ e. some (event_name_str e s))
unfolding event_name_str
event_name_str-Writes s h = string_field-Writes 23 (omega arith) s (omega arith)

pub event_name_debug-Writes :
    (pieces : List (List ℕ))
    → IsText (flatten pieces)
    → Writes (string 23 (flatten pieces) end) (λ e. event_name_debug e pieces)
unfolding event_name_debug
event_name_debug-Writes pieces h = debug_field-Writes 23 pieces (omega arith) (omega arith)
