-- ===== src/Visitor/AttributeVisitor.antt =====
-- src/visitor.rs: `AttributeVisitor`, which writes each field as an annotation.
mod Laws
mod Runs
use tracing_perfetto_file.Common.{ℕ, List, Bool, Option, some, if◌then◌else◌, ◌>>=◌}
use tracing_perfetto_file.Common.Int.{ℤ, fits_i64}
use tracing_perfetto_file.Common.Maps.{StaticStr}
use tracing_perfetto_file.Sequence.{SequenceState, intern_annotation_name}
use tracing_perfetto_file.Emit.{
  TrackEventWriter, annotation_bool, annotation_i64, annotation_u64, annotation_f64, annotation_str,
  annotation_debug, annotation_display,
}
use tracing_perfetto_file.Visitor.{fits_u64}

pub record AttributeVisitor : Type 0 where
  pub event : TrackEventWriter
  pub sequence : SequenceState

-- `name_iid`, and an annotation with the iid.
pub annotated :
    AttributeVisitor
    → StaticStr
    → (TrackEventWriter → ℕ → Option TrackEventWriter)
    → Option AttributeVisitor
annotated v field write =
    let (iid, sequence) = intern_annotation_name v.sequence field in
    write v.event iid >>= λ event. some (record { event = event; sequence = sequence })

pub record_bool : AttributeVisitor → StaticStr → Bool → Option AttributeVisitor
unfolding annotated
record_bool v field value = annotated v field (λ event iid. annotation_bool event iid value)

pub record_i64 : AttributeVisitor → StaticStr → ℤ → Option AttributeVisitor
unfolding annotated
record_i64 v field value = annotated v field (λ event iid. annotation_i64 event iid value)

pub record_u64 : AttributeVisitor → StaticStr → ℕ → Option AttributeVisitor
unfolding annotated
record_u64 v field value = annotated v field (λ event iid. annotation_u64 event iid value)

pub record_f64 : AttributeVisitor → StaticStr → ℕ → Option AttributeVisitor
unfolding annotated
record_f64 v field value = annotated v field (λ event iid. annotation_f64 event iid value)

pub record_i128 : AttributeVisitor → StaticStr → ℤ → List (List ℕ) → Option AttributeVisitor
unfolding annotated
record_i128 v field value pieces = annotated v field (λ event iid.
    if fits_i64 value then annotation_i64 event iid value else annotation_display event iid pieces)

pub record_u128 : AttributeVisitor → StaticStr → ℕ → List (List ℕ) → Option AttributeVisitor
unfolding annotated
record_u128 v field value pieces = annotated v field (λ event iid.
    if fits_u64 value then annotation_u64 event iid value else annotation_display event iid pieces)

pub record_str : AttributeVisitor → StaticStr → List ℕ → Option AttributeVisitor
unfolding annotated
record_str v field value = annotated v field (λ event iid. annotation_str event iid value)

pub record_bytes : AttributeVisitor → StaticStr → List (List ℕ) → Option AttributeVisitor
unfolding annotated
record_bytes v field pieces = annotated v field (λ event iid. annotation_debug event iid pieces)

pub record_error : AttributeVisitor → StaticStr → List (List ℕ) → Option AttributeVisitor
unfolding annotated
record_error v field pieces = annotated v field (λ event iid. annotation_display event iid pieces)

pub record_debug : AttributeVisitor → StaticStr → List (List ℕ) → Option AttributeVisitor
unfolding annotated
record_debug v field pieces = annotated v field (λ event iid. annotation_debug event iid pieces)
