-- ===== src/Visitor/AttributeVisitor/Laws.antt =====
-- What an AttributeVisitor (src/visitor.rs) appends to an event.
use mathlib.Core.List.{flatten}
use tracing_perfetto_file.Common.{
  ℕ, ◌≡◌, refl, List, ◌++◌, Bool, true, false, Option, some, if◌then◌else◌,
}
use tracing_perfetto_file.Common.Int.{ℤ, as_u64, fits_i64}
use tracing_perfetto_file.Common.Maps.{StaticStr}
use tracing_perfetto_file.Proto.{IsU64}
use tracing_perfetto_file.Proto.Fields.{Writes}
use tracing_perfetto_file.Proto.Wire.{Layout, end, varint, string, message, Encodes}
use tracing_perfetto_file.Emit.{TrackEventWriter, annotation_i64, annotation_display}
use tracing_perfetto_file.Emit.Layouts.{IsText, annotation_i64-Writes, annotation_display-Writes}
use tracing_perfetto_file.Sequence.{intern_annotation_name}
use tracing_perfetto_file.Visitor.AttributeVisitor.{AttributeVisitor, annotated, record_i128}

-- The visitor after a field: its event has the fields of a tree behind it, and its sequence has the
-- name of the field interned.
pub record Annotates (v : AttributeVisitor) (field : StaticStr) (l : ℕ → Layout)
    (result : Option AttributeVisitor) : Type 0 where
  pub chunk : List ℕ
  pub returns :
      result
      ≡ some (record {
        event = record { buf = v.event.buf ++ chunk };
        sequence = (intern_annotation_name v.sequence field).1;
      })
  pub holds : Encodes (l (intern_annotation_name v.sequence field).0) chunk

annotated-Annotates :
    (v : AttributeVisitor) (field : StaticStr) (l : ℕ → Layout)
    (write : TrackEventWriter → ℕ → Option TrackEventWriter)
    → let iid = (intern_annotation_name v.sequence field).0 in
      Writes (l iid) (λ e. write e iid) → Annotates v field l (annotated v field write)
unfolding annotated
annotated-Annotates v field l write w = record {
  chunk = w.chunk;
  returns = rw (w.appends v.event) refl;
  holds = w.holds;
}

-- The value of an `i128`: a varint, if it is an `i64`, or else its text.
abbrev pub wide_value : ℤ → List (List ℕ) → Layout
wide_value value pieces =
    if fits_i64 value then varint 4 (as_u64 value) end else string 6 (flatten pieces) end

-- `record_i128`: one annotation, field 4, with the iid of the field's name, and the value as a
-- number, if it is an `i64`, or else as the text that it formats to.
pub record_i128-Annotates :
    (v : AttributeVisitor) (field : StaticStr) (value : ℤ) (pieces : List (List ℕ))
    → IsU64 (intern_annotation_name v.sequence field).0
    → IsText (flatten pieces)
    → Annotates v field
        (λ iid. message 4 (varint 1 iid (wide_value value pieces)) end)
        (record_i128 v field value pieces)
unfolding record_i128
record_i128-Annotates v field value pieces small short =
    annotated-Annotates v field (λ iid. message 4 (varint 1 iid (wide_value value pieces)) end)
      (λ event iid.
        if fits_i64 value
        then annotation_i64 event iid value
        else annotation_display event iid pieces)
      (wide (fits_i64 value))
  where
    wide :
        (fits : Bool)
        → let iid = (intern_annotation_name v.sequence field).0 in
          Writes
            (message 4
              (varint 1 iid
                (if fits then varint 4 (as_u64 value) end else string 6 (flatten pieces) end))
              end)
            (λ e. if fits then annotation_i64 e iid value else annotation_display e iid pieces)
    wide true = annotation_i64-Writes (intern_annotation_name v.sequence field).0 small value
    wide false =
        annotation_display-Writes (intern_annotation_name v.sequence field).0 small pieces short
