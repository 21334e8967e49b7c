-- ===== src/Visitor/EventVisitor/Shown.antt =====
-- What an EventVisitor (src/visitor.rs) writes for one field.
use tracing_perfetto_file.Common.{
  ℕ, ◌+◌, ◌≤◌, ◌≡◌, refl, sym, ap, List, [], ◌∷◌, ◌++◌, Bool, true, false, Option, none, some,
  ◌>>=◌, min, arith, append-nil,
}
use tracing_perfetto_file.Common.Maps.{StaticStr, PtrMap, get}
use tracing_perfetto_file.Visitor.{starts_with, counter_prefix}
use tracing_perfetto_file.Visitor.Calls.{
  Call, bool, i64, u64, f64, i128, u128, str, bytes, error, debug,
}
use tracing_perfetto_file.Emit.{TrackEventWriter, max_extra_counters}
use tracing_perfetto_file.Proto.{IsU64}
use tracing_perfetto_file.Proto.Fields.{Writes}
use tracing_perfetto_file.Proto.Wire.{Layout, end, string, message, Encodes}
use tracing_perfetto_file.Sequence.{intern_annotation_name}
use tracing_perfetto_file.Visitor.EventVisitor.{EventVisitor, annotated, annotated_if}
use tracing_perfetto_file.Visitor.EventVisitor.Small.{IsSmall, intern_annotation_name-IsSmall}
use tracing_perfetto_file.Visitor.EventVisitor.Tallies.{occurrences}

-- The values of a counter are field 12, or field 46 if they are `f64`; a name is field 23, and an
-- annotation field 4.
abbrev pub counters_in : Layout → ℕ
counters_in l = occurrences 12 l + occurrences 46 l

abbrev pub entries_in : Layout → ℕ
entries_in l = occurrences 4 l + (counters_in l + occurrences 23 l)

abbrev pub as_number : Bool → ℕ
as_number true = 1
as_number false = 0

-- The places that a field asks for among the counters: one, if counters are on, its name says that it
-- counts, and the sequence has its track.
abbrev pub one_place : Bool → Bool → Option ℕ → ℕ
one_place true true (some uuid) = 1
one_place true true none = 0
one_place true false track = 0
one_place false named track = 0

abbrev pub number_places : Bool → PtrMap ℕ → StaticStr → ℕ
number_places counters tracks field =
    one_place counters (starts_with field.text counter_prefix) (get tracks field.ptr)

-- The numbers of 64 bits can count.
abbrev pub call_places : Bool → PtrMap ℕ → Call → ℕ
call_places counters tracks (i64 field value) = number_places counters tracks field
call_places counters tracks (u64 field value) = number_places counters tracks field
call_places counters tracks (f64 field value) = number_places counters tracks field
call_places counters tracks (bool field value) = 0
call_places counters tracks (i128 field value pieces) = 0
call_places counters tracks (u128 field value pieces) = 0
call_places counters tracks (str field value) = 0
call_places counters tracks (bytes field pieces) = 0
call_places counters tracks (error field pieces) = 0
call_places counters tracks (debug field pieces) = 0

abbrev pub places : Bool → PtrMap ℕ → List Call → ℕ
places counters tracks [] = 0
places counters tracks (call ∷ calls) =
    call_places counters tracks call + places counters tracks calls

-- No more counters are there, though `want` more would be.
abbrev pub Idle : EventVisitor → ℕ → Type 0
Idle v want =
    v.counter_count ≤ max_extra_counters
    → v.counter_count ≡ min (v.counter_count + want) max_extra_counters

-- From `v` to `v'` the event gets the fields of `l`: at most `most` entries, and just as many if
-- annotations are on; `want` of them count, as far as there are places.
pub record Shows (most want : ℕ) (v v' : EventVisitor) (l : Layout) : Type 0 where
  pub chunk : List ℕ
  pub event : v'.event ≡ record { buf = v.event.buf ++ chunk }
  pub holds : Encodes l chunk
  pub counted : v'.counter_count ≡ v.counter_count + counters_in l
  pub limited : v.counter_count ≤ max_extra_counters → v'.counter_count ≤ max_extra_counters
  pub filled :
      v.counter_count ≤ max_extra_counters
      → v'.counter_count ≡ min (v.counter_count + want) max_extra_counters
  pub uncounted : v.counters ≡ false → counters_in l ≡ 0
  pub tracks : occurrences 31 l ≡ occurrences 12 l
  pub double_tracks : occurrences 45 l ≡ occurrences 46 l
  pub named : as_number v'.wrote_name ≡ as_number v.wrote_name + occurrences 23 l
  pub unasked : v.use_message_as_name ≡ false → occurrences 23 l ≡ 0
  pub few : entries_in l ≤ most
  pub all : v.annotations ≡ true → entries_in l ≡ most
  pub annotations : v'.annotations ≡ v.annotations
  pub counters : v'.counters ≡ v.counters
  pub use_message : v'.use_message_as_name ≡ v.use_message_as_name
  pub same_tracks : v'.sequence.counter_track_cache ≡ v.sequence.counter_track_cache
  pub small : IsSmall v'.sequence

abbrev pub ShowsTo : ℕ → ℕ → EventVisitor → Option EventVisitor → Type 0
ShowsTo most want v r = (v' : EventVisitor) × (l : Layout) × (r ≡ some v') × Shows most want v v' l

-- Without annotations, a field may leave nothing.
nothing_shown :
    (v : EventVisitor) (want : ℕ)
    → IsSmall v.sequence
    → v.annotations ≡ false
    → Idle v want
    → ShowsTo 1 want v (some v)
unfolding occurrences
nothing_shown v want small off idle = (
  v,
  end,
  refl,
  record {
    chunk = [];
    event = ap (λ (t : List ℕ). record { buf = t }) (sym (append-nil v.event.buf));
    holds = refl;
    counted = omega arith;
    limited = λ h. h;
    filled = idle;
    uncounted = λ h. refl;
    tracks = refl;
    double_tracks = refl;
    named = omega arith;
    unasked = λ h. refl;
    few = omega arith;
    all = λ on. cc (on, off);
    annotations = refl;
    counters = refl;
    use_message = refl;
    same_tracks = refl;
    small = small;
  },
)

-- An annotation with the iid of the field's name.
annotated-Shows :
    (v : EventVisitor) (field : StaticStr) (write : TrackEventWriter → ℕ → Option TrackEventWriter)
    (sub : ℕ → Layout) (want : ℕ)
    → IsSmall v.sequence
    → Idle v want
    → ((iid : ℕ) → IsU64 iid → Writes (message 4 (sub iid) end) (λ e. write e iid))
    → ShowsTo 1 want v (annotated v field write)
unfolding annotated occurrences intern_annotation_name
annotated-Shows v field write sub want small idle writes =
    let (low, small') = intern_annotation_name-IsSmall v.sequence field small in
    let (iid, st) = intern_annotation_name v.sequence field in
    let w = writes iid low in
    (
      record v { event = record { buf = v.event.buf ++ w.chunk }; sequence = st },
      message 4 (sub iid) end,
      rw (w.appends v.event) refl,
      record {
        chunk = w.chunk;
        event = refl;
        holds = w.holds;
        counted = omega arith;
        limited = λ h. h;
        filled = idle;
        uncounted = λ h. refl;
        tracks = refl;
        double_tracks = refl;
        named = omega arith;
        unasked = λ h. refl;
        few = omega arith;
        all = λ on. refl;
        annotations = refl;
        counters = refl;
        use_message = refl;
        same_tracks = refl;
        small = small';
      },
    )

pub annotated_if-Shows :
    (wanted : Bool) (v : EventVisitor) (field : StaticStr)
    (write : TrackEventWriter → ℕ → Option TrackEventWriter) (sub : ℕ → Layout) (want : ℕ)
    → IsSmall v.sequence
    → Idle v want
    → (wanted ≡ false → v.annotations ≡ false)
    → ((iid : ℕ) → IsU64 iid → Writes (message 4 (sub iid) end) (λ e. write e iid))
    → ShowsTo 1 want v (annotated_if wanted v field write)
unfolding annotated_if
annotated_if-Shows true v field write sub want small idle off writes =
    annotated-Shows v field write sub want small idle writes
annotated_if-Shows false v field write sub want small idle off writes =
    nothing_shown v want small (off refl) idle

-- The event gets its name.
pub named-Shows :
    (v : EventVisitor) (text : List ℕ) (op : TrackEventWriter → Option TrackEventWriter)
    → IsSmall v.sequence
    → v.use_message_as_name ≡ true
    → v.wrote_name ≡ false
    → Writes (string 23 text end) op
    → ShowsTo 1 0 v (op v.event >>= λ event. some (record v { wrote_name = true; event = event }))
unfolding occurrences
named-Shows v text op small asked unnamed w = (
  record v { event = record { buf = v.event.buf ++ w.chunk }; wrote_name = true },
  string 23 text end,
  rw (w.appends v.event) refl,
  record {
    chunk = w.chunk;
    event = refl;
    holds = w.holds;
    counted = omega arith;
    limited = λ h. h;
    filled = λ h. omega arith;
    uncounted = λ h. refl;
    tracks = refl;
    double_tracks = refl;
    named = rw unnamed refl;
    unasked = λ off. cc (asked, off);
    few = omega arith;
    all = λ on. refl;
    annotations = refl;
    counters = refl;
    use_message = refl;
    same_tracks = refl;
    small = small;
  },
)
