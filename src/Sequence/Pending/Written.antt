-- ===== src/Sequence/Pending/Written.antt =====
-- What `emit_interned_data` of src/sequence.rs writes, as a tree of fields.
mod Runs
use tracing_perfetto_file.Common.{
  ℕ, ◌+◌, ◌≤◌, ◌≡◌, refl, sym, List, [], ◌∷◌, ◌++◌, Bool, true, false, Bool-cases, inl, inr, not,
  ◌||◌, Option, some, ◌>>=◌, arith, if◌then◌else◌,
}
use tracing_perfetto_file.Common.Lists.{All, length}
use tracing_perfetto_file.Common.Maps.{StaticStr}
use tracing_perfetto_file.Proto.{ProtoBuffer, IsU64, max_message_len, message}
use tracing_perfetto_file.Proto.Fields.{
  Writes, Writes-seq, Writes-nothing, bound, varint_field-Writes, string_field-Writes,
}
use tracing_perfetto_file.Proto.Tags.{IsFieldId}
use tracing_perfetto_file.Proto.Tags.{alone}
use tracing_perfetto_file.Proto.Framing.{message-Writes}
use tracing_perfetto_file.Proto.Wire
use tracing_perfetto_file.Proto.Wire.{Layout, ◌+++◌}
use tracing_perfetto_file.Emit.Layouts.{IsText}
use tracing_perfetto_file.Sequence.{Entries, SequenceState}
use tracing_perfetto_file.Sequence.Pending.{
  write_entries, write_source_locations, write_interned, without_pending, has_pending, is_empty,
  emit_pending_interned_data, emit_interned_data,
}

-- The entries as fields `list`, each with its iid in field 1 and its text in field 2.
abbrev pub entries_layout : ℕ → Entries → Layout
entries_layout list [] = Wire.end
entries_layout list ((iid, s) ∷ entries) =
    Wire.message list (Wire.varint 1 iid (Wire.string 2 s.text Wire.end))
      (entries_layout list entries)

abbrev pub locations_layout : List (ℕ × StaticStr × ℕ) → Layout
locations_layout [] = Wire.end
locations_layout ((iid, file, line) ∷ entries) =
    Wire.message 4 (Wire.varint 1 iid (Wire.string 2 file.text (Wire.varint 4 line Wire.end)))
      (locations_layout entries)

-- Categories in field 1, event names in 2, annotation names in 3, annotation values in 29, source
-- locations in 4.
abbrev pub interned_layout : SequenceState → Layout
interned_layout st =
    entries_layout 1 st.new_categories
    +++ (entries_layout 2 st.new_event_names
        +++ (entries_layout 3 st.new_annotation_names
            +++ (entries_layout 29 st.new_annotation_values
                +++ locations_layout st.new_source_locations)))

abbrev pub IsEntries : Entries → Type 0
IsEntries entries = All (λ e. IsU64 e.0 × IsText e.1.text) entries

-- What is pending fits one message.
pub record FitsMessage (st : SequenceState) : Type 0 where
  pub categories : IsEntries st.new_categories
  pub event_names : IsEntries st.new_event_names
  pub annotation_names : IsEntries st.new_annotation_names
  pub annotation_values : IsEntries st.new_annotation_values
  pub locations : All (λ e. IsU64 e.0 × IsText e.1.text × IsU64 e.2) st.new_source_locations
  pub total : bound (interned_layout st) ≤ max_message_len

write_entries-Writes :
    (list : ℕ) (entries : Entries)
    → IsFieldId list
    → IsEntries entries
    → Writes (entries_layout list entries) (write_entries list 1 2 entries)
unfolding write_entries
write_entries-Writes list [] h a = Writes-nothing
write_entries-Writes list ((iid, s) ∷ entries) h ((small, short), a) =
    Writes-seq
      (message-Writes list h (omega arith) (
        Writes-seq (varint_field-Writes 1 (omega arith) iid small)
          (string_field-Writes 2 (omega arith) s.text (omega arith))))
      (write_entries-Writes list entries h a)

write_source_locations-Writes :
    (entries : List (ℕ × StaticStr × ℕ))
    → All (λ e. IsU64 e.0 × IsText e.1.text × IsU64 e.2) entries
    → Writes (locations_layout entries) (write_source_locations entries)
unfolding write_source_locations
write_source_locations-Writes [] a = Writes-nothing
write_source_locations-Writes ((iid, file, line) ∷ entries) ((small, short, low), a) =
    Writes-seq
      (message-Writes 4 (omega arith) (omega arith) (
        Writes-seq (varint_field-Writes 1 (omega arith) iid small) (
          Writes-seq (string_field-Writes 2 (omega arith) file.text (omega arith))
            (varint_field-Writes 4 (omega arith) line low))))
      (write_source_locations-Writes entries a)

write_interned-Writes :
    (st : SequenceState) → FitsMessage st → Writes (interned_layout st) (write_interned st)
unfolding write_interned
write_interned-Writes st f =
    Writes-seq (write_entries-Writes 1 st.new_categories (omega arith) f.categories) (
      Writes-seq (write_entries-Writes 2 st.new_event_names (omega arith) f.event_names) (
        Writes-seq (write_entries-Writes 3 st.new_annotation_names (omega arith) f.annotation_names)
          (Writes-seq
            (write_entries-Writes 29 st.new_annotation_values (omega arith) f.annotation_values)
            (write_source_locations-Writes st.new_source_locations f.locations))))

-- The field of the packet: 12, if there is anything to write.
abbrev pub pending_layout : SequenceState → Layout
pending_layout st =
    if has_pending st then Wire.message 12 (interned_layout st) Wire.end else Wire.end

is_empty-eq {ℓ} : {A : Type ℓ} (xs : List A) → is_empty xs ≡ true → xs ≡ []
is_empty-eq [] h = refl
is_empty-eq (x ∷ xs) h = cc h

none_left : (a b : Bool) → (not a || b) ≡ false → (a ≡ true) × (b ≡ false)
none_left true b h = (refl, h)
none_left false b h = cc h

none_left_last : (a : Bool) → not a ≡ false → a ≡ true
none_left_last true h = refl
none_left_last false h = cc h

-- Without anything to write, `clear` changes nothing.
cleared_already : (st : SequenceState) → has_pending st ≡ false → st ≡ without_pending st
cleared_already st h =
    let (a, h) = none_left (is_empty st.new_event_names) _ h in
    let (b, h) = none_left (is_empty st.new_annotation_names) _ h in
    let (c, h) = none_left (is_empty st.new_annotation_values) _ h in
    let (d, h) = none_left (is_empty st.new_categories) _ h in
    let e = none_left_last (is_empty st.new_source_locations) h in
    λ i. record st {
      new_event_names = is_empty-eq st.new_event_names a i;
      new_annotation_names = is_empty-eq st.new_annotation_names b i;
      new_annotation_values = is_empty-eq st.new_annotation_values c i;
      new_categories = is_empty-eq st.new_categories d i;
      new_source_locations = is_empty-eq st.new_source_locations e i;
    }

-- The two branches of `emit_interned_data`.
written_when :
    (pending : Bool) (st : SequenceState)
    → FitsMessage st
    → (pending ≡ false → st ≡ without_pending st)
    → let op =
        λ (b : ProtoBuffer). if pending then emit_pending_interned_data st b else some (st, b) in
      (w : Writes
        (if pending then Wire.message 12 (interned_layout st) Wire.end else Wire.end)
        (λ b. op b >>= λ (st', b'). some b'))
      × ((b : ProtoBuffer) → op b ≡ some (without_pending st, record { buf = b.buf ++ w.chunk }))
unfolding emit_pending_interned_data
written_when true st f clean =
    let w =
      message-Writes 12 {l = interned_layout st} (omega arith) f.total
        (write_interned-Writes st f) in
    (
      record {
        chunk = w.chunk;
        appends = λ b. rw (w.appends b) refl;
        small = w.small;
        holds = w.holds;
      },
      λ b. rw (w.appends b) refl,
    )
written_when false st f clean = (
  record {
    chunk = [];
    appends = λ b i. some (record { buf = alone b.buf i });
    small = omega arith;
    holds = refl;
  },
  λ b i. some (clean refl i, record { buf = alone b.buf i }),
)

-- `emit_interned_data`, if what is pending fits one message: it appends the pending entries of all
-- five kinds as one field 12 of the packet, or nothing if there are none, and nothing is pending
-- after it; the rest of the state stays.
pub emit_interned_data-Writes :
    (st : SequenceState)
    → FitsMessage st
    → (w : Writes (pending_layout st) (λ b. emit_interned_data st b >>= λ (st', b'). some b'))
      × ((b : ProtoBuffer)
          → emit_interned_data st b ≡ some (without_pending st, record { buf = b.buf ++ w.chunk }))
unfolding emit_interned_data
emit_interned_data-Writes st f = written_when (has_pending st) st f (cleared_already st)
