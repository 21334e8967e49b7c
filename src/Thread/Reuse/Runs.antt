-- ===== src/Thread/Reuse/Runs.antt =====
-- Spans and threads that claim and give back tracks, and the theorems at them.
use tracing_perfetto_file.Common.{
  ℕ, ◌+◌, ◌≡◌, refl, subst, inl, inr, Bool-cases, List, [], ◌∷◌, true, false, Option, none, some,
  arith,
}
use tracing_perfetto_file.Common.Sums.{remove_at}
use tracing_perfetto_file.Layer.{default}
use tracing_perfetto_file.Runtime.{Inner, alloc_uuid, alloc_sequence_id, fetch_nonzero}
use tracing_perfetto_file.Runtime.Draws.{Distinct}
use tracing_perfetto_file.Spans.Pools.{TrackKey, Pools, new_pools, track_pool, eq, claim, release}
use tracing_perfetto_file.Spans.Pools.Instances.{list_queue, list_map}
use tracing_perfetto_file.Thread.Tracks.{
  Tracks, new_tracks, claim_track, claim_pool, release_track, drop_slots,
}
use tracing_perfetto_file.Thread.Tracks.Conserved.{ClaimResult, claim_track-Claims}
use tracing_perfetto_file.Thread.Tracks.Slots.{IsTracks, Agrees, Loses}
use tracing_perfetto_file.Thread.Tracks.Weights.{PoolFor, cached_weight}
use tracing_perfetto_file.Thread.Tracks.Released.{release_track-Loses}
use tracing_perfetto_file.Spans.Pools.Laws.{eq_refl}
use tracing_perfetto_file.Thread.Reuse.{
  State, Event, start_thread, new_span, close_span, exit_thread, initial, run, step, claim_if,
  claim_by, close, close_at, give_back, exit, start, track_of,
}
use tracing_perfetto_file.Thread.Reuse.Exclusive.{run-Distinct}
use tracing_perfetto_file.Thread.Reuse.Counts.{uuids_of}

abbrev work : TrackKey
work = record { name = record { ptr = 32; text = 119 ∷ [] }; parent_uuid = 3 }

abbrev counters : Inner
counters = record {
  id = 1;
  counter_tracks = [];
  next_sequence_id = 70000;
  next_uuid = 100;
  next_flow_id = 0;
  has_follows_from = false;
  next_tid_offset = 0;
  process_track = none;
  process_desc_emitted = false;
  config = record {
    span_mode = default;
    debug_annotations = false;
    poll_slices = false;
    source_locations = false;
    counters = true;
    process_arguments = true;
  };
}

-- Two threads; a span of the first closes on the second, whose next span reuses the track.
abbrev events : List Event
events =
    start_thread
    ∷ start_thread
    ∷ new_span 0 work
    ∷ new_span 0 work
    ∷ close_span (some 1) 1
    ∷ new_span 1 work
    ∷ exit_thread 0
    ∷ []

abbrev uuids_after : Option (State list_queue list_map) → Option (List ℕ)
uuids_after none = none
uuids_after (some st) = some (uuids_of st.spans)

reuses_track :
    uuids_after (run list_queue list_map (initial list_queue list_map counters) events)
    ≡ some (102 ∷ 103 ∷ [])
unfolding run initial step start claim_if claim_by close close_at give_back exit remove_at track_of
    claim_track release_track drop_slots track_pool new_tracks new_pools eq claim release
    fetch_nonzero alloc_uuid alloc_sequence_id claim_pool
reuses_track = refl

run-Distinct_example :
    (st : State list_queue list_map) × (run list_queue list_map
        (initial list_queue list_map counters)
        events
      ≡ some st)
    × Distinct (uuids_of st.spans)
run-Distinct_example = run-Distinct list_queue list_map counters events (omega arith) (omega arith)

new_pools-Agrees : Agrees list_queue list_map (new_pools list_queue list_map)
unfolding new_pools
new_pools-Agrees key p e = cc e

new_tracks-IsTracks_run : IsTracks list_queue list_map (new_pools list_queue list_map) new_tracks
unfolding new_tracks
new_tracks-IsTracks_run = record {
  eight = refl;
  within = omega arith;
  slots = (tt, (tt, (tt, (tt, (tt, (tt, (tt, (tt, tt))))))));
}

claim_track-Claims_example :
    ClaimResult list_queue list_map new_tracks
      (new_pools list_queue list_map)
      work
      (claim_track list_queue list_map new_tracks work (new_pools list_queue list_map))
claim_track-Claims_example =
    claim_track-Claims list_queue list_map new_tracks (new_pools list_queue list_map) work
      new_tracks-IsTracks_run new_pools-Agrees

-- A store with the pool of one key.
abbrev one_pool : Pools list_queue list_map
one_pool = record {
  pools = (work, 0) ∷ [];
  heap = record { key = work; tracks = 7 ∷ [] } ∷ [];
  reusable_keys = 1;
}

one_pool-Agrees : Agrees list_queue list_map one_pool
unfolding eq
one_pool-Agrees key p e = elim (Bool-cases (eq work key)) [
  | inl same ↦
      let at : some 0 ≡ some p = (rw same at e) in
      (let is : 0 ≡ p = cc at in
        subst (λ p. PoolFor list_queue list_map one_pool.heap key p) is (work, refl, same))
  | inr other ↦ (let at : none ≡ some p = (rw other at e) in cc at)
]

new_tracks-IsTracks_one : IsTracks list_queue list_map one_pool new_tracks
unfolding new_tracks
new_tracks-IsTracks_one = record {
  eight = refl;
  within = omega arith;
  slots = (tt, (tt, (tt, (tt, (tt, (tt, (tt, (tt, tt))))))));
}

release_track-Loses_example :
    (lost : Option (ℕ × ℕ)) × (t' : Tracks) × (s' : Pools list_queue list_map) × (release_track
        list_queue list_map new_tracks 0 9 one_pool
      ≡ some (t', s'))
    × IsTracks list_queue list_map s' t'
    × Loses list_queue list_map lost one_pool s'
        (λ w. cached_weight w new_tracks.track_pools + w 0 9)
        (λ w. cached_weight w t'.track_pools)
release_track-Loses_example =
    release_track-Loses list_queue list_map new_tracks one_pool work 0 9 new_tracks-IsTracks_one
      one_pool-Agrees (work, refl, eq_refl work)
