-- ===== src/Sequence/Pending.antt =====
-- src/sequence.rs: how the entries that wait are written into a packet.
pub mod Written
use tracing_perfetto_file.Common.{
  ℕ, List, [], ◌∷◌, Bool, true, false, not, ◌||◌, Option, none, some, if◌then◌else◌, ◌>>=◌,
}
use tracing_perfetto_file.Common.Maps.{StaticStr}
use tracing_perfetto_file.Proto.{ProtoBuffer, varint_field, string_field, message}
use tracing_perfetto_file.Emit.Schema.TracePacket
use tracing_perfetto_file.Emit.Schema.InternedData
use tracing_perfetto_file.Emit.Schema.EventName
use tracing_perfetto_file.Emit.Schema.DebugAnnotationName
use tracing_perfetto_file.Emit.Schema.InternedString
use tracing_perfetto_file.Emit.Schema.SourceLocation
use tracing_perfetto_file.Sequence.{Entries, SequenceState}

-- One loop of `emit_pending_interned_data`: a message `list` for each entry, with its iid in
-- field `iid_field` and its text in field `text_field`.
write_entries : (list iid_field text_field : ℕ) → Entries → ProtoBuffer → Option ProtoBuffer
write_entries list iid_field text_field [] interned = some interned
write_entries list iid_field text_field ((iid, text) ∷ entries) interned =
    message interned list (λ entry.
      let entry = varint_field entry iid_field iid in
      some (string_field entry text_field text.text))
    >>= λ interned. write_entries list iid_field text_field entries interned

-- The last loop, over the source locations.
write_source_locations : List (ℕ × StaticStr × ℕ) → ProtoBuffer → Option ProtoBuffer
write_source_locations [] interned = some interned
write_source_locations ((iid, file, line) ∷ entries) interned =
    message interned InternedData.source_locations (λ entry.
      let entry = varint_field entry SourceLocation.iid iid in
      let entry = string_field entry SourceLocation.file_name file.text in
      some (varint_field entry SourceLocation.line_number line))
    >>= λ interned. write_source_locations entries interned

-- The body of the message: categories, event names, annotation names, annotation values, and
-- source locations.
write_interned : SequenceState → ProtoBuffer → Option ProtoBuffer
unfolding write_entries write_source_locations
write_interned st interned =
    write_entries InternedData.event_categories EventName.iid EventName.name st.new_categories
      interned
    >>= λ interned.
        write_entries InternedData.event_names EventName.iid EventName.name st.new_event_names
          interned
        >>= λ interned.
            write_entries InternedData.debug_annotation_names DebugAnnotationName.iid
              DebugAnnotationName.name st.new_annotation_names interned
            >>= λ interned.
                write_entries InternedData.debug_annotation_string_values InternedString.iid
                  InternedString.str st.new_annotation_values interned
                >>= λ interned. write_source_locations st.new_source_locations interned

-- The five calls of `clear`.
abbrev pub without_pending : SequenceState → SequenceState
without_pending st = record st {
  new_event_names = [];
  new_annotation_names = [];
  new_annotation_values = [];
  new_categories = [];
  new_source_locations = [];
}

pub emit_pending_interned_data : SequenceState → ProtoBuffer → Option (SequenceState × ProtoBuffer)
unfolding write_interned
emit_pending_interned_data st packet =
    message packet TracePacket.interned_data (λ interned. write_interned st interned) >>= λ packet.
    some (without_pending st, packet)

abbrev pub is_empty {ℓ} : {A : Type ℓ} → List A → Bool
is_empty [] = true
is_empty (x ∷ xs) = false

abbrev pub has_pending : SequenceState → Bool
has_pending st =
    not (is_empty st.new_event_names)
    || (not (is_empty st.new_annotation_names)
        || (not (is_empty st.new_annotation_values)
            || (not (is_empty st.new_categories) || not (is_empty st.new_source_locations))))

pub emit_interned_data : SequenceState → ProtoBuffer → Option (SequenceState × ProtoBuffer)
emit_interned_data st packet =
    if has_pending st then emit_pending_interned_data st packet else some (st, packet)
