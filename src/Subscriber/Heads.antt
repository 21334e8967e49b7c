-- ===== src/Subscriber/Heads.antt =====
-- The metadata and the names of the events of src/subscriber.rs, as trees of fields.
use tracing_perfetto_file.Common.{
  ℕ, ◌≡◌, refl, ◌∙◌, Bool, true, false, Option, none, some, if◌then◌else◌, ◌>>=◌, arith,
}
use tracing_perfetto_file.Common.Maps.{StaticStr}
use tracing_perfetto_file.Emit.{TrackEventWriter, category_iid, level_annotation}
use tracing_perfetto_file.Emit.Layouts.{
  source_location_iid-Writes, category_iid-Writes, level_annotation-Writes,
}
use tracing_perfetto_file.Layer.{Config}
use tracing_perfetto_file.Proto.{ProtoBuffer, IsU64}
use tracing_perfetto_file.Proto.Fields.{Writes, Writes-nothing}
use tracing_perfetto_file.Proto.Wire
use tracing_perfetto_file.Proto.Wire.{Layout, ◌+++◌}
use tracing_perfetto_file.Sequence.{SequenceState, intern_category, intern_source_location}
use tracing_perfetto_file.Subscriber.{Level, Metadata, Addresses}
use tracing_perfetto_file.Subscriber.Events.{
  Event, level_name_iid, level_values, write_location, announce_level, write_metadata,
}
use tracing_perfetto_file.Subscriber.Layouts.{EventAdds, EventAdds-seq, EventAdds-by}

-- Code at the sequence `st` that does what a writer does, and leaves the sequence `st'`.
pub EventAdds-at :
    (st st' : SequenceState) {l : Layout} {op : ProtoBuffer → Option ProtoBuffer}
    {write : Event → Option Event}
    → Writes l op
    → ((event : TrackEventWriter) → write (event, st) ≡ (op event >>= λ event. some (event, st')))
    → EventAdds st st' l write
EventAdds-at st st' w same = record {
  chunk = w.chunk;
  appends = λ event. same event ∙ rw (w.appends event) refl;
  small = w.small;
  holds = w.holds;
}

-- The interned source location, if an event gets one.
abbrev pub located_at :
    Metadata → Option StaticStr → Option ℕ → SequenceState → Option (ℕ × SequenceState)
located_at metadata (some file) (some line) st =
    some (intern_source_location st metadata.callsite file line)
located_at metadata (some file) none st = none
located_at metadata none line st = none

abbrev located : Config → Metadata → SequenceState → Option (ℕ × SequenceState)
located config metadata st =
    if config.source_locations then located_at metadata metadata.file metadata.line st else none

abbrev pub location_state : SequenceState → Option (ℕ × SequenceState) → SequenceState
location_state st none = st
location_state st (some (iid, st')) = st'

abbrev location_layout : Option (ℕ × SequenceState) → Layout
location_layout none = Wire.end
location_layout (some (iid, st)) = Wire.varint 34 iid Wire.end

abbrev IsLocation : Option (ℕ × SequenceState) → Type 0
IsLocation none = Unit {0}
IsLocation (some (iid, st)) = IsU64 iid

write_location-EventAdds :
    (metadata : Metadata) (file : Option StaticStr) (line : Option ℕ) (st : SequenceState)
    → IsLocation (located_at metadata file line st)
    → EventAdds st
        (location_state st (located_at metadata file line st))
        (location_layout (located_at metadata file line st))
        (λ e. some (write_location metadata file line e))
unfolding write_location
write_location-EventAdds metadata (some file) (some line) st h =
    EventAdds-at st _ (source_location_iid-Writes _ h) (λ event. refl)
write_location-EventAdds metadata (some file) none st h =
    EventAdds-at st st Writes-nothing (λ event. refl)
write_location-EventAdds metadata none line st h = EventAdds-at st st Writes-nothing (λ event. refl)

locate : Config → Metadata → Event → Event
locate config metadata e =
    if config.source_locations then write_location metadata metadata.file metadata.line e else e

locate-EventAdds :
    (config : Config) (metadata : Metadata) (st : SequenceState)
    → IsLocation (located config metadata st)
    → EventAdds st
        (location_state st (located config metadata st))
        (location_layout (located config metadata st))
        (λ e. some (locate config metadata e))
unfolding locate
locate-EventAdds config metadata st h = by_option config.source_locations h
  where
    by_option :
        (wanted : Bool)
        → IsLocation (if wanted then located_at metadata metadata.file metadata.line st else none)
        → EventAdds st
            (location_state st
              (if wanted then located_at metadata metadata.file metadata.line st else none))
            (location_layout
              (if wanted then located_at metadata metadata.file metadata.line st else none))
            (λ e.
              some (if wanted then write_location metadata metadata.file metadata.line e else e))
    by_option true h = write_location-EventAdds metadata metadata.file metadata.line st h
    by_option false h = EventAdds-at st st Writes-nothing (λ event. refl)

-- The sequence once the location, the level and the category are interned, step by step.
abbrev pub located_state : Config → Metadata → SequenceState → SequenceState
located_state config metadata st = location_state st (located config metadata st)

abbrev pub announced : Config → Addresses → Metadata → SequenceState → SequenceState
announced config a metadata st = announce_level a metadata.level (located_state config metadata st)

abbrev pub metadata_state : Config → Addresses → Metadata → SequenceState → SequenceState
metadata_state config a metadata st =
    (intern_category (announced config a metadata st) metadata.target).1

-- A source location, if there is one; the annotation of the level; and the category.
abbrev pub metadata_layout : Config → Addresses → Metadata → SequenceState → Layout
metadata_layout config a metadata st =
    location_layout (located config metadata st)
    +++ (Wire.message 4
          (Wire.varint 1 level_name_iid (Wire.varint 17 (level_values a metadata.level).0 Wire.end))
          Wire.end
        +++ Wire.varint 3 (intern_category (announced config a metadata st) metadata.target).0
            Wire.end)

abbrev pub IsMetadata : Config → Addresses → Metadata → SequenceState → Type 0
IsMetadata config a metadata st =
    IsLocation (located config metadata st)
    × IsU64 (intern_category (announced config a metadata st) metadata.target).0

level_iid-lt : (a : Addresses) (level : Level) → IsU64 (level_values a level).0
unfolding level_values
level_iid-lt a Level.trace = omega arith
level_iid-lt a Level.debug = omega arith
level_iid-lt a Level.info = omega arith
level_iid-lt a Level.warn = omega arith
level_iid-lt a Level.error = omega arith

pub write_metadata-EventAdds :
    (config : Config) (a : Addresses) (metadata : Metadata) (st : SequenceState)
    → IsMetadata config a metadata st
    → EventAdds st
        (metadata_state config a metadata st)
        (metadata_layout config a metadata st)
        (write_metadata config a metadata)
unfolding write_metadata locate
write_metadata-EventAdds config a metadata st (small, small') =
    let iid = (level_values a metadata.level).0 in
    let level =
      level_annotation-Writes level_name_iid (omega arith) iid (level_iid-lt a metadata.level) in
    let announce : Event → Option Event = λ (event, st).
      level_annotation event level_name_iid iid >>= λ event.
      some (event, announce_level a metadata.level st) in
    let categorize : Event → Option Event = λ (event, st).
      (let (iid, st) = intern_category st metadata.target in some (category_iid event iid, st)) in
    let announces =
      EventAdds-at (located_state config metadata st) (announced config a metadata st)
        {write = announce} level (λ event. refl) in
    let categorizes =
      EventAdds-at (announced config a metadata st) (metadata_state config a metadata st)
        {write = categorize} (category_iid-Writes _ small') (λ event. refl) in
    EventAdds-by
      (EventAdds-seq (locate-EventAdds config metadata st small)
        (EventAdds-seq announces categorizes))
      (λ event. rw (level.appends (locate config metadata (event, st)).0) refl)
