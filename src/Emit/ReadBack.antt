-- ===== src/Emit/ReadBack.antt =====
-- What a reader gets back from the descriptors of src/emit.rs.
use tracing_perfetto_file.Common.{
  ℕ, ◌≡◌, List, [], ◌∷◌, Option, none, ap, ◌∙◌, true, some, refl, ◌>>=◌,
}
use tracing_perfetto_file.Proto.{ProtoBuffer, IsU64, new}
use tracing_perfetto_file.Proto.Fields.{Writes}
use tracing_perfetto_file.Proto.Reading.{read_fields-Shows, Shows}
use tracing_perfetto_file.Proto.Wire.{
  Layout, end, varint, fixed64, string, message, Value, number, fixed, bytes, read_fields,
}
use tracing_perfetto_file.Emit.{track_descriptor, annotation_i64}
use tracing_perfetto_file.Common.Int.{ℤ, fits_i64, as_u64, as_i64, as_i64-as_u64}
use tracing_perfetto_file.Emit.Layouts.{IsText, track_descriptor-Writes, annotation_i64-Writes}

-- The fields of the one nested message in the bytes.
only_message : List (ℕ × Value) → Option (ℕ × List (ℕ × Value))
only_message ((f, bytes payload) ∷ []) = read_fields payload >>= λ inner. some (f, inner)
only_message other = none

unfoldable pub read_nested : List ℕ → Option (ℕ × List (ℕ × Value))
unfolding only_message
read_nested bs = read_fields bs >>= λ fields. only_message fields

-- A layout that has no nested message of its own shows exactly these fields.
abbrev pub flat : Layout → List (ℕ × Value)
flat end = []
flat (varint f v l) = (f, number v) ∷ flat l
flat (fixed64 f v l) = (f, fixed v) ∷ flat l
flat (string f s l) = (f, bytes s) ∷ flat l
flat (message f sub l) = flat l

-- On an empty buffer, a writer of one nested message leaves bytes that read as that message.
reads_nested :
    (f : ℕ) (sub : Layout) (op : ProtoBuffer → Option ProtoBuffer)
    → ((fs : List (ℕ × Value)) → Shows sub fs → fs ≡ flat sub)
    → Writes (message f sub end) op
    → (op new >>= λ b. read_nested b.buf) ≡ some (f, flat sub)
unfolding read_nested only_message new
reads_nested f sub op shown w =
    let (fs, e, (rest, payload, here, inner, last)) =
      read_fields-Shows (message f sub end) w.chunk w.holds in
    let (fs', e', shows) = read_fields-Shows sub payload inner in
    rw (w.appends (record { buf = [] }))
      (rw e (rw here (rw last (rw e' (rw (shown fs' shows) refl)))))

abbrev IsFlat : Layout → Type 0
IsFlat end = Unit
IsFlat (varint f v l) = IsFlat l
IsFlat (fixed64 f v l) = IsFlat l
IsFlat (string f s l) = IsFlat l
IsFlat (message f sub l) = ⊥

Shows-flat : (l : Layout) (fs : List (ℕ × Value)) → IsFlat l → Shows l fs → fs ≡ flat l
Shows-flat end fs h e = e
Shows-flat (varint f v l) fs h (rest, e, more) =
    e ∙ ap (λ t. (f, number v) ∷ t) (Shows-flat l rest h more)
Shows-flat (fixed64 f v l) fs h (rest, e, more) =
    e ∙ ap (λ t. (f, fixed v) ∷ t) (Shows-flat l rest h more)
Shows-flat (string f s l) fs h (rest, e, more) =
    e ∙ ap (λ t. (f, bytes s) ∷ t) (Shows-flat l rest h more)
Shows-flat (message f sub l) fs h more = absurd h

-- Read back, the bytes that `track_descriptor` writes to an empty buffer are one field 60 whose
-- message has the uuid, the name and the parent's uuid, in this order and with no other field, for
-- a name that is at least 1000 bytes below the limit of a message.
pub track_descriptor-reads :
    (uuid parent : ℕ) (name : List ℕ)
    → IsU64 uuid
    → IsU64 parent
    → IsText name
    → (track_descriptor new uuid name parent >>= λ b. read_nested b.buf)
      ≡ some (60, (1, number uuid) ∷ (2, bytes name) ∷ (5, number parent) ∷ [])
track_descriptor-reads uuid parent name hu hp hn =
    let sub : Layout = varint 1 uuid (string 2 name (varint 5 parent end)) in
    reads_nested 60 sub (λ b. track_descriptor b uuid name parent) (λ fs. Shows-flat sub fs tt)
      (track_descriptor-Writes uuid hu name parent hn hp)

-- Read back, the bytes that `annotation_i64` writes to an empty buffer are one field 4 whose message
-- has the id of the name and a number that, taken as an `i64`, is the value again, negative ones too.
pub annotation_i64-reads :
    (iid : ℕ) (value : ℤ)
    → IsU64 iid
    → fits_i64 value ≡ true
    → (u : ℕ) × ((annotation_i64 new iid value >>= λ b. read_nested b.buf)
        ≡ some (4, (1, number iid) ∷ (4, number u) ∷ []))
      × (as_i64 u ≡ value)
annotation_i64-reads iid value h fits =
    let sub : Layout = varint 1 iid (varint 4 (as_u64 value) end) in
    (
      as_u64 value,
      reads_nested 4 sub (λ b. annotation_i64 b iid value) (λ fs. Shows-flat sub fs tt)
          (annotation_i64-Writes iid h value),
      as_i64-as_u64 value fits,
    )
