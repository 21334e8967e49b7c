-- ===== src/Runtime/Runs.antt =====
-- Concrete counters of src/runtime.rs, and the theorems at them.
use tracing_perfetto_file.Common.{
  ℕ, ◌≡◌, ◌≢◌, ◌^◌, ◌-◌, List, [], ◌∷◌, some, none, true, false, arith,
}
use tracing_perfetto_file.Common.Lists.{All, length}
use tracing_perfetto_file.Common.Maps.{get}
use tracing_perfetto_file.Layer.{default}
use tracing_perfetto_file.Runtime.{Inner, counter_track_uuid}
use tracing_perfetto_file.Runtime.Ids.{alloc_uuids, alloc_uuids-Distinct, counter_track_uuid-stable}
use tracing_perfetto_file.Runtime.Draws.{Distinct}

-- A counter just below the point where it wraps.
abbrev near_wrap : Inner
near_wrap = record {
  id = 1;
  counter_tracks = (16, 5) ∷ [];
  next_sequence_id = 70000;
  next_uuid = 2 ^ 64 - 1;
  next_flow_id = 0;
  has_follows_from = false;
  next_tid_offset = 0;
  process_track = none;
  process_desc_emitted = false;
  config = record {
    span_mode = default;
    debug_annotations = false;
    poll_slices = false;
    source_locations = false;
    counters = true;
    process_arguments = true;
  };
}

alloc_uuids-Distinct_example :
    (uuids : List ℕ) × (inner' : Inner) × (alloc_uuids 3 near_wrap ≡ some (uuids, inner'))
    × (length uuids ≡ 3)
    × All (λ uuid. uuid ≢ 0) uuids
    × Distinct uuids
alloc_uuids-Distinct_example = alloc_uuids-Distinct 3 near_wrap (omega arith) (omega arith)

counter_track_uuid-stable_example :
    (uuid : ℕ) × (inner' : Inner) × (counter_track_uuid near_wrap 32 ≡ some (uuid, inner'))
    × (counter_track_uuid inner' 32 ≡ some (uuid, inner'))
    × (uuid ≢ 0)
    × (get inner'.counter_tracks 16 ≡ get near_wrap.counter_tracks 16)
counter_track_uuid-stable_example =
    counter_track_uuid-stable near_wrap 32 16 (omega arith) (omega arith) (omega arith, tt)
