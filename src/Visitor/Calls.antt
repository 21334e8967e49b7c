-- ===== src/Visitor/Calls.antt =====
-- The calls of a visitor of src/visitor.rs that `tracing` makes when fields are recorded, one for each
-- field, in order.
use mathlib.Core.List.{flatten}
use tracing_perfetto_file.Common.{ℕ, List, [], ◌∷◌, Bool, Option, some, ◌>>=◌}
use tracing_perfetto_file.Common.Int.{ℤ}
use tracing_perfetto_file.Common.Maps.{StaticStr}
use tracing_perfetto_file.Visitor.{Fields}
use tracing_perfetto_file.Visitor.StoreVisitor
use tracing_perfetto_file.Visitor.AttributeVisitor
use tracing_perfetto_file.Visitor.AttributeVisitor.{AttributeVisitor}
use tracing_perfetto_file.Visitor.EventVisitor.{
  EventVisitor, record_bool, record_i64, record_u64, record_f64, record_i128, record_u128,
  record_str, record_bytes, record_error, record_debug,
}

-- The calls that `tracing` makes for the fields of an event or a span, with the values that a visitor gets.
-- A value that is formatted comes with the pieces of text that its formatting writes.
pub data Call : Type 0 where
  bool : StaticStr → Bool → Call
  i64 : StaticStr → ℤ → Call
  u64 : StaticStr → ℕ → Call
  f64 : StaticStr → ℕ → Call
  i128 : StaticStr → ℤ → List (List ℕ) → Call
  u128 : StaticStr → ℕ → List (List ℕ) → Call
  str : StaticStr → List ℕ → Call
  bytes : StaticStr → List (List ℕ) → Call
  error : StaticStr → List (List ℕ) → Call
  debug : StaticStr → List (List ℕ) → Call

unfoldable pub visit : EventVisitor → Call → Option EventVisitor
visit v (bool field value) = record_bool v field value
visit v (i64 field value) = record_i64 v field value
visit v (u64 field value) = record_u64 v field value
visit v (f64 field value) = record_f64 v field value
visit v (i128 field value pieces) = record_i128 v field value pieces
visit v (u128 field value pieces) = record_u128 v field value pieces
visit v (str field value) = record_str v field value
visit v (bytes field pieces) = record_bytes v field pieces
visit v (error field pieces) = record_error v field pieces
visit v (debug field pieces) = record_debug v field pieces

unfoldable pub visit_all : EventVisitor → List Call → Option EventVisitor
visit_all v [] = some v
visit_all v (call ∷ calls) = visit v call >>= λ v. visit_all v calls

pub visit_attribute : AttributeVisitor → Call → Option AttributeVisitor
visit_attribute v (bool field value) = AttributeVisitor.record_bool v field value
visit_attribute v (i64 field value) = AttributeVisitor.record_i64 v field value
visit_attribute v (u64 field value) = AttributeVisitor.record_u64 v field value
visit_attribute v (f64 field value) = AttributeVisitor.record_f64 v field value
visit_attribute v (i128 field value pieces) = AttributeVisitor.record_i128 v field value pieces
visit_attribute v (u128 field value pieces) = AttributeVisitor.record_u128 v field value pieces
visit_attribute v (str field value) = AttributeVisitor.record_str v field value
visit_attribute v (bytes field pieces) = AttributeVisitor.record_bytes v field pieces
visit_attribute v (error field pieces) = AttributeVisitor.record_error v field pieces
visit_attribute v (debug field pieces) = AttributeVisitor.record_debug v field pieces

unfoldable pub visit_attributes : AttributeVisitor → List Call → Option AttributeVisitor
unfolding visit_attribute
visit_attributes v [] = some v
visit_attributes v (call ∷ calls) = visit_attribute v call >>= λ v. visit_attributes v calls

pub store_value : Fields → Call → Fields
store_value fields (bool field value) = StoreVisitor.record_bool fields field value
store_value fields (i64 field value) = StoreVisitor.record_i64 fields field value
store_value fields (u64 field value) = StoreVisitor.record_u64 fields field value
store_value fields (f64 field value) = StoreVisitor.record_f64 fields field value
store_value fields (i128 field value pieces) =
    StoreVisitor.record_i128 fields field value (flatten pieces)
store_value fields (u128 field value pieces) =
    StoreVisitor.record_u128 fields field value (flatten pieces)
store_value fields (str field value) = StoreVisitor.record_str fields field value
store_value fields (bytes field pieces) = StoreVisitor.record_bytes fields field (flatten pieces)
store_value fields (error field pieces) = StoreVisitor.record_error fields field (flatten pieces)
store_value fields (debug field pieces) = StoreVisitor.record_debug fields field (flatten pieces)

unfoldable pub store_values : Fields → List Call → Fields
unfolding store_value
store_values fields [] = fields
store_values fields (call ∷ calls) = store_values (store_value fields call) calls
