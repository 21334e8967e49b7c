-- ===== src/Visitor/EventVisitor/Counters.antt =====
-- The numbers of an EventVisitor (src/visitor.rs): counters, as long as the event has places for them,
-- or annotations.
use tracing_perfetto_file.Common.{
  ℕ, ◌+◌, ◌≡◌, refl, ◌++◌, Bool, true, false, ◌&&◌, ◌||◌, Option, none, some, if◌then◌else◌, ltb,
  ◌≤◌, min, arith,
}
use tracing_perfetto_file.Common.Maps.{StaticStr}
use tracing_perfetto_file.Emit.{TrackEventWriter, max_extra_counters}
use tracing_perfetto_file.Proto.{IsU64}
use tracing_perfetto_file.Proto.Fields.{Writes}
use tracing_perfetto_file.Proto.Wire.{Layout, end, varint, fixed64, message}
use tracing_perfetto_file.Sequence.{counter_track_uuid}
use tracing_perfetto_file.Visitor.EventVisitor.{
  EventVisitor, is_counter, counter_track, number_with, record_number,
}
use tracing_perfetto_file.Visitor.EventVisitor.Small.{IsSmall, counter_track_uuid-IsU64}
use tracing_perfetto_file.Visitor.EventVisitor.Tallies.{occurrences}
use tracing_perfetto_file.Visitor.EventVisitor.Shown.{
  ShowsTo, one_place, number_places, counters_in, annotated_if-Shows,
}

-- A counter that has a place in the event and a track.
has_place :
    (a b : Bool) (track : Option ℕ) (uuid : ℕ)
    → (if a && b then track else none) ≡ some uuid
    → (a ≡ true) × (b ≡ true) × (track ≡ some uuid)
has_place true true track uuid h = (refl, refl, h)
has_place true false track uuid h = cc h
has_place false b track uuid h = cc h

first_on : (a b : Bool) → (a && b) ≡ true → a ≡ true
first_on true b h = refl
first_on false b h = cc h

last_off : (a b : Bool) → (a || b) ≡ false → b ≡ false
last_off true b h = cc h
last_off false b h = h

asks_place :
    (on named : Bool) (track : Option ℕ) (uuid : ℕ)
    → (on && named) ≡ true
    → track ≡ some uuid
    → one_place on named track ≡ 1
asks_place true true (some t) uuid h e = refl
asks_place true true none uuid h e = cc e
asks_place true false track uuid h e = cc h
asks_place false named track uuid h e = cc h

-- A field that gets no place asks for none, or the eight are taken.
no_place :
    (on named : Bool) (track : Option ℕ) (count : ℕ)
    → (if (on && named) && ltb count max_extra_counters then track else none) ≡ none
    → count ≤ max_extra_counters
    → count ≡ min (count + one_place on named track) max_extra_counters
no_place true true (some t) count e h = taken (ltb count max_extra_counters) refl e
  where
    taken :
        (room : Bool)
        → ltb count max_extra_counters ≡ room
        → (if room then some t else none) ≡ none
        → count ≡ min (count + 1) max_extra_counters
    taken true r e = cc e
    taken false r e = ground arith
no_place true true none count e h = omega arith
no_place true false track count e h = omega arith
no_place false named track count e h = omega arith

-- The fields of one counter: its track and its value.
pub record OneCounter (l : Layout) : Type 0 where
  pub one : counters_in l ≡ 1
  pub track : occurrences 31 l ≡ occurrences 12 l
  pub double_track : occurrences 45 l ≡ occurrences 46 l
  pub no_annotation : occurrences 4 l ≡ 0
  pub no_name : occurrences 23 l ≡ 0

counter-Shows :
    (v : EventVisitor) (field : StaticStr) (uuid : ℕ) (l : Layout)
    (count : TrackEventWriter → ℕ → TrackEventWriter)
    → IsSmall v.sequence
    → counter_track v field ≡ some uuid
    → OneCounter l
    → Writes l (λ e. some (count e uuid))
    → ShowsTo 1
        (number_places v.counters v.sequence.counter_track_cache field)
        v
        (some (record v { event = count v.event uuid; counter_count = v.counter_count + 1 }))
unfolding counter_track is_counter counter_track_uuid
counter-Shows v field uuid l count small e o w =
    let (counter, place, known) =
      has_place (is_counter v field) (ltb v.counter_count max_extra_counters) _ uuid e in
    let on : v.counters ≡ true = first_on v.counters _ counter in
    let appended : some (count v.event uuid) ≡ some (record { buf = v.event.buf ++ w.chunk }) =
      w.appends v.event in
    let written : count v.event uuid ≡ record { buf = v.event.buf ++ w.chunk } = cc appended in
    (
      record v { event = count v.event uuid; counter_count = v.counter_count + 1 },
      l,
      refl,
      record {
        chunk = w.chunk;
        event = written;
        holds = w.holds;
        counted = omega (arith, o.one);
        limited = λ h. ground arith;
        filled = λ h.
            let asks : number_places v.counters v.sequence.counter_track_cache field ≡ 1 =
              asks_place v.counters _ _ uuid counter known in
            rw asks (ground arith);
        uncounted = λ off. cc (on, off);
        tracks = o.track;
        double_tracks = o.double_track;
        named = omega (arith, o.no_name);
        unasked = λ off. o.no_name;
        few = omega (arith, o.one, o.no_annotation, o.no_name);
        all = λ on. omega (arith, o.one, o.no_annotation, o.no_name);
        annotations = refl;
        counters = refl;
        use_message = refl;
        same_tracks = refl;
        small = small;
      },
    )

number_with-Shows :
    (found : Option ℕ) (v : EventVisitor) (field : StaticStr)
    (count : TrackEventWriter → ℕ → TrackEventWriter)
    (write : TrackEventWriter → ℕ → Option TrackEventWriter) (l sub : ℕ → Layout)
    → IsSmall v.sequence
    → counter_track v field ≡ found
    → ((uuid : ℕ) → OneCounter (l uuid))
    → ((uuid : ℕ) → IsU64 uuid → Writes (l uuid) (λ e. some (count e uuid)))
    → ((iid : ℕ) → IsU64 iid → Writes (message 4 (sub iid) end) (λ e. write e iid))
    → ShowsTo 1
        (number_places v.counters v.sequence.counter_track_cache field)
        v
        (number_with found v field count write)
unfolding number_with counter_track is_counter counter_track_uuid
number_with-Shows none v field count write l sub small e one counts writes =
    annotated_if-Shows (is_counter v field || v.annotations) v field write sub _ small
      (no_place v.counters _ _ v.counter_count e) (last_off (is_counter v field) v.annotations)
      writes
number_with-Shows (some uuid) v field count write l sub small e one counts writes =
    let (counter, place, known) =
      has_place (is_counter v field) (ltb v.counter_count max_extra_counters) _ uuid e in
    counter-Shows v field uuid (l uuid) count small e (one uuid)
      (counts uuid (counter_track_uuid-IsU64 v.sequence field uuid small known))

pub record_number-Shows :
    (v : EventVisitor) (field : StaticStr) (count : TrackEventWriter → ℕ → TrackEventWriter)
    (write : TrackEventWriter → ℕ → Option TrackEventWriter) (l sub : ℕ → Layout)
    → IsSmall v.sequence
    → ((uuid : ℕ) → OneCounter (l uuid))
    → ((uuid : ℕ) → IsU64 uuid → Writes (l uuid) (λ e. some (count e uuid)))
    → ((iid : ℕ) → IsU64 iid → Writes (message 4 (sub iid) end) (λ e. write e iid))
    → ShowsTo 1
        (number_places v.counters v.sequence.counter_track_cache field)
        v
        (record_number v field count write)
unfolding record_number
record_number-Shows v field count write l sub small one counts writes =
    number_with-Shows (counter_track v field) v field count write l sub small refl one counts writes

pub whole_counter : (v : ℕ) (uuid : ℕ) → OneCounter (varint 31 uuid (varint 12 v end))
unfolding occurrences
whole_counter v uuid = record {
  one = refl;
  track = refl;
  double_track = refl;
  no_annotation = refl;
  no_name = refl;
}

pub double_counter : (v : ℕ) (uuid : ℕ) → OneCounter (varint 45 uuid (fixed64 46 v end))
unfolding occurrences
double_counter v uuid = record {
  one = refl;
  track = refl;
  double_track = refl;
  no_annotation = refl;
  no_name = refl;
}
