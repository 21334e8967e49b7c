-- ===== src/Subscriber/Shared.antt =====
-- What a sequence's packets share stays when strings are interned (src/sequence.rs, src/subscriber.rs).
use tracing_perfetto_file.Common.{
  ℕ, refl, ◌∙◌, List, [], ◌∷◌, Bool, true, false, Option, none, some, if◌then◌else◌,
}
use tracing_perfetto_file.Common.Maps.{StaticStr, get}
use tracing_perfetto_file.Layer.{Config}
use tracing_perfetto_file.Runtime.{FieldValue}
use tracing_perfetto_file.Sequence.{
  SequenceState, intern_event_name, intern_annotation_name, intern_category, intern_source_location,
  source_location_found, register_level_name, register_level_value, level_value_seen,
}
use tracing_perfetto_file.Subscriber.{Level, Metadata, Addresses}
use tracing_perfetto_file.Subscriber.Events.{level_literal, level_values, announce_level}
use tracing_perfetto_file.Subscriber.Layouts.{fields_state}
use tracing_perfetto_file.Subscriber.Sliced.{SharesPackets}
use tracing_perfetto_file.Subscriber.Heads.{
  located_at, location_state, located_state, announced, metadata_state,
}

abbrev same_packets : (st : SequenceState) → SharesPackets st st
same_packets st = record { prefix = refl; same_id = refl; done = refl }

pub SharesPackets-trans :
    {a b c : SequenceState} → SharesPackets a b → SharesPackets b c → SharesPackets a c
SharesPackets-trans x y = record {
  prefix = y.prefix ∙ x.prefix;
  same_id = y.same_id ∙ x.same_id;
  done = y.done ∙ x.done;
}

pub event_name-SharesPackets :
    (st : SequenceState) (name : StaticStr) → SharesPackets st (intern_event_name st name).1
unfolding intern_event_name
event_name-SharesPackets st name = record { prefix = refl; same_id = refl; done = refl }

category-SharesPackets :
    (st : SequenceState) (name : StaticStr) → SharesPackets st (intern_category st name).1
unfolding intern_category
category-SharesPackets st name = record { prefix = refl; same_id = refl; done = refl }

annotation_name-SharesPackets :
    (st : SequenceState) (name : StaticStr) → SharesPackets st (intern_annotation_name st name).1
unfolding intern_annotation_name
annotation_name-SharesPackets st name = record { prefix = refl; same_id = refl; done = refl }

found-SharesPackets :
    (st : SequenceState) (callsite : ℕ) (file : StaticStr) (line : ℕ) (found : Option ℕ)
    → SharesPackets st (source_location_found st callsite file line found).1
unfolding source_location_found
found-SharesPackets st callsite file line (some iid) = same_packets st
found-SharesPackets st callsite file line none = record {
  prefix = refl;
  same_id = refl;
  done = refl;
}

location-SharesPackets :
    (st : SequenceState) (metadata : Metadata) (file : Option StaticStr) (line : Option ℕ)
    → SharesPackets st (location_state st (located_at metadata file line st))
unfolding intern_source_location
location-SharesPackets st metadata (some file) (some line) =
    found-SharesPackets st metadata.callsite file line (get st.source_locations metadata.callsite)
location-SharesPackets st metadata (some file) none = same_packets st
location-SharesPackets st metadata none line = same_packets st

located-SharesPackets :
    (config : Config) (metadata : Metadata) (st : SequenceState)
    → SharesPackets st (located_state config metadata st)
located-SharesPackets config metadata st = by_option config.source_locations
  where
    by_option :
        (wanted : Bool)
        → SharesPackets st (
            location_state st
              (if wanted then located_at metadata metadata.file metadata.line st else none))
    by_option true = location-SharesPackets st metadata metadata.file metadata.line
    by_option false = same_packets st

level_name-SharesPackets :
    (st : SequenceState) (literal : StaticStr) (seen : Bool)
    → SharesPackets st (if seen then st else register_level_name st literal)
unfolding register_level_name
level_name-SharesPackets st literal true = same_packets st
level_name-SharesPackets st literal false = record { prefix = refl; same_id = refl; done = refl }

level_value-SharesPackets :
    (st : SequenceState) (bit iid : ℕ) (value : StaticStr) (seen : Bool)
    → SharesPackets st (if seen then st else register_level_value st bit iid value)
unfolding register_level_value
level_value-SharesPackets st bit iid value true = same_packets st
level_value-SharesPackets st bit iid value false = record {
  prefix = refl;
  same_id = refl;
  done = refl;
}

announce_level-SharesPackets :
    (a : Addresses) (level : Level) (st : SequenceState)
    → SharesPackets st (announce_level a level st)
unfolding announce_level
announce_level-SharesPackets a level st =
    let (iid, value, bit) = level_values a level in
    let named = if st.level_name_seen then st else register_level_name st (level_literal a) in
    SharesPackets-trans (level_name-SharesPackets st (level_literal a) st.level_name_seen)
      (level_value-SharesPackets named bit iid value (level_value_seen named bit))

pub metadata-SharesPackets :
    (config : Config) (a : Addresses) (metadata : Metadata) (st : SequenceState)
    → SharesPackets st (metadata_state config a metadata st)
metadata-SharesPackets config a metadata st =
    SharesPackets-trans (located-SharesPackets config metadata st) (
      SharesPackets-trans
        (announce_level-SharesPackets a metadata.level (located_state config metadata st))
        (category-SharesPackets (announced config a metadata st) metadata.target))

pub fields-SharesPackets :
    (st : SequenceState) (fields : List (StaticStr × FieldValue))
    → SharesPackets st (fields_state st fields)
unfolding fields_state
fields-SharesPackets st [] = same_packets st
fields-SharesPackets st ((name, value) ∷ fields) =
    SharesPackets-trans (annotation_name-SharesPackets st name)
      (fields-SharesPackets (intern_annotation_name st name).1 fields)
