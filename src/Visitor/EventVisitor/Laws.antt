-- ===== src/Visitor/EventVisitor/Laws.antt =====
-- What an EventVisitor (src/visitor.rs) writes for all fields of an event.
use tracing_perfetto_file.Common.{ℕ, ◌≤◌, ◌≡◌, List, ◌++◌, Bool, true, false, min}
use tracing_perfetto_file.Common.Lists.{length}
use tracing_perfetto_file.Common.Maps.{PtrMap}
use tracing_perfetto_file.Emit.{TrackEventWriter}
use tracing_perfetto_file.Proto.Wire.{Layout, Encodes}
use tracing_perfetto_file.Visitor.Calls.{Call}
use tracing_perfetto_file.Visitor.EventVisitor.{EventVisitor}
use tracing_perfetto_file.Visitor.EventVisitor.Tallies.{occurrences}
use tracing_perfetto_file.Visitor.EventVisitor.Shown.{counters_in, entries_in, places, as_number}

-- What an event gets from its fields `calls`: the fields of the tree `l`. The sequence has the tracks
-- `tracks_of`.
pub record ShowsAll (event : TrackEventWriter) (tracks_of : PtrMap ℕ)
    (annotations counters use_message : Bool) (calls : List Call) (v' : EventVisitor) (l : Layout)
    : Type 0 where
  pub chunk : List ℕ
  pub event' : v'.event ≡ record { buf = event.buf ++ chunk }
  pub holds : Encodes l chunk
  pub counted : counters_in l ≡ min (places counters tracks_of calls) 8
  pub uncounted : counters ≡ false → counters_in l ≡ 0
  pub tracks : occurrences 31 l ≡ occurrences 12 l
  pub double_tracks : occurrences 45 l ≡ occurrences 46 l
  pub named : as_number v'.wrote_name ≡ occurrences 23 l
  pub unasked : use_message ≡ false → occurrences 23 l ≡ 0
  pub few : entries_in l ≤ length calls
  pub all : annotations ≡ true → entries_in l ≡ length calls
