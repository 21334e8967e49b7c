-- ===== src/Thread/Reuse/Exclusive.antt =====
-- No two live spans have the same track (src/thread.rs, src/subscriber.rs).
use tracing_perfetto_file.Common.{
  ℕ, ◌+◌, ◌≤◌, ◌<◌, ◌≡◌, refl, sym, subst, inl, inr, List, [], ◌∷◌, ◌++◌, Option-cases, Option,
  none, some, arith,
}
use tracing_perfetto_file.Common.Lists.{length, get_elem?}
use tracing_perfetto_file.Common.Sums.{remove_at, sum_by-append, All-append_one, remove_at_lem}
use tracing_perfetto_file.Runtime.{Inner, u64_mod, alloc_sequence_id}
use tracing_perfetto_file.Runtime.Ids.{alloc_uuids, alloc_uuids-Distinct}
use tracing_perfetto_file.Runtime.Draws.{Distinct}
use tracing_perfetto_file.Spans.Pools.{TrackKey, ArrayQueue, PoolMap, Pools, new_pools}
use tracing_perfetto_file.Thread.Tracks.{Tracks, new_tracks}
use tracing_perfetto_file.Thread.Tracks.Weights.{sum_of, cached_weight}
use tracing_perfetto_file.Thread.Tracks.Slots.{IsTracks}
use tracing_perfetto_file.Thread.Tracks.Released.{drop_slots-shrinks}
use tracing_perfetto_file.Thread.Reuse.{
  LiveSpan, Event, start_thread, new_span, close_span, exit_thread, State, initial, claim_if,
  thread_at, index_of, close_at, close, exit, start, step, run,
}
use tracing_perfetto_file.Thread.Reuse.Balance.{
  HasPool, Valid, total, StepsTo, stays, tracks-Grows, held-Grows, new_span-StepsTo,
  give_back-StepsTo, Draws-next, Draws-sequence_id,
}
use tracing_perfetto_file.Thread.Reuse.Counts.{
  one_at, once-of-Distinct, Distinct-of-once, uuids_of, sum_of-uuids_of,
}

module _ (queue : ArrayQueue) (map : PoolMap) where
  new_span_if :
      (st : State queue map) (uuids : List ℕ) (i : ℕ) (key : TrackKey)
      → 1 ≤ length uuids
      → Valid queue map st uuids
      → StepsTo queue map st uuids (claim_if queue map st i key (get_elem? st.threads i))
  unfolding claim_if
  new_span_if st uuids i key enough v = elim (Option-cases (get_elem? st.threads i)) [
    | inl gone ↦ rw gone (stays queue map st uuids v)
    | inr (t, there) ↦ rw there (new_span-StepsTo queue map st uuids i key t there enough v)
  ]

  thread_there :
      (st : State queue map) (i : Option ℕ) (t : Tracks)
      → thread_at queue map st i ≡ some t
      → get_elem? st.threads (index_of queue map i) ≡ some t
  thread_there st none t e = cc e
  thread_there st (some i) t e = e

  close_at-StepsTo :
      (st : State queue map) (uuids : List ℕ) (i : Option ℕ) (span : LiveSpan) (pool : Option ℕ)
      → HasPool queue map st.pools.heap pool
      → Valid queue map st uuids
      → (st' : State queue map) × (close_at queue map st i span pool ≡ some st')
        × Valid queue map st' uuids
        × ((f : ℕ → ℕ) → total queue map f st' uuids ≤ total queue map f st uuids + f span.uuid)
  unfolding close_at
  close_at-StepsTo st uuids i span none own v = (st, refl, v, λ f. omega arith)
  close_at-StepsTo st uuids i span (some pool) own v =
      give_back-StepsTo queue map st uuids (index_of queue map i) pool span.uuid
        (thread_at queue map st i) (λ t e. thread_there st i t e) own v

  close-StepsTo :
      (st : State queue map) (uuids : List ℕ) (i : Option ℕ) (n : ℕ)
      → Valid queue map st uuids
      → StepsTo queue map st uuids (close queue map st i (remove_at st.spans n))
  unfolding close
  close-StepsTo st uuids i n v = elim (Option-cases (remove_at st.spans n)) [
    | inl gone ↦ rw gone (stays queue map st uuids v)
    | inr ((span, spans), there) ↦
        let r =
          remove_at_lem (λ span. HasPool queue map st.pools.heap span.pool) st.spans n span spans
            there in
        let left : Valid queue map (record st { spans = spans }) uuids = record {
          tracks = v.tracks;
          agrees = v.agrees;
          held = r.left v.held;
          draws = v.draws;
        } in
        let (st', e, v', balance) =
          close_at-StepsTo (record st { spans = spans }) uuids i span span.pool (r.taken v.held)
            left in
        rw there (
          st',
          uuids,
          e,
          v',
          omega arith,
          λ f. omega (arith, balance f, r.sums (λ span. f span.uuid)),
        )
  ]

  exit-StepsTo :
      (st : State queue map) (uuids : List ℕ) (i : ℕ)
      → Valid queue map st uuids
      → StepsTo queue map st uuids (exit queue map st (remove_at st.threads i))
  unfolding exit
  exit-StepsTo st uuids i v = elim (Option-cases (remove_at st.threads i)) [
    | inl gone ↦ rw gone (stays queue map st uuids v)
    | inr ((t, threads), there) ↦
        let r = remove_at_lem (IsTracks queue map st.pools) st.threads i t threads there in
        let x = r.taken v.tracks in
        let (s', e, g, weighs) =
          drop_slots-shrinks queue map t.track_pools st.pools v.agrees x.slots in
        rw there (
          record st { pools = s'; threads = threads },
          uuids,
          rw e refl,
          record {
            tracks = tracks-Grows queue map threads g (r.left v.tracks);
            agrees = g.agrees;
            held = held-Grows queue map st.spans g v.held;
            draws = v.draws;
          },
          omega arith,
          λ f.
              let (lost, balance) = weighs (λ p. f) in
              omega (arith, balance, r.sums (λ t. cached_weight (λ p. f) t.track_pools)),
        )
  ]

  new_tracks-IsTracks : (s : Pools queue map) → IsTracks queue map s new_tracks
  unfolding new_tracks
  new_tracks-IsTracks s = record {
    eight = refl;
    within = omega arith;
    slots = (tt, (tt, (tt, (tt, (tt, (tt, (tt, (tt, tt))))))));
  }

  new_tracks_weight : (w : ℕ → ℕ → ℕ) → cached_weight w new_tracks.track_pools ≡ 0
  unfolding new_tracks
  new_tracks_weight w = refl

  start-StepsTo :
      (st : State queue map) (uuids : List ℕ)
      → 1 ≤ length uuids
      → Valid queue map st uuids
      → StepsTo queue map st uuids (start queue map st)
  unfolding start alloc_sequence_id
  start-StepsTo st [] enough v = absurd (omega arith)
  start-StepsTo st (uuid ∷ uuids) enough v =
      let inner0 = (alloc_sequence_id st.inner).1 in
      let (inner1, e, d) =
        Draws-next inner0 uuid uuids
          (Draws-sequence_id st.inner inner0.next_sequence_id (uuid ∷ uuids) v.draws) in
      (
        record st { inner = inner1; threads = st.threads ++ new_tracks ∷ [] },
        uuids,
        rw e refl,
        record {
          tracks =
              All-append_one (IsTracks queue map st.pools) st.threads new_tracks v.tracks
                (new_tracks-IsTracks st.pools);
          agrees = v.agrees;
          held = v.held;
          draws = d;
        },
        omega arith,
        λ f. omega (
          arith,
          sum_by-append (λ t. cached_weight (λ p. f) t.track_pools) st.threads new_tracks,
          new_tracks_weight (λ p. f),
        ),
      )

  step-StepsTo :
      (st : State queue map) (uuids : List ℕ) (event : Event)
      → 1 ≤ length uuids
      → Valid queue map st uuids
      → StepsTo queue map st uuids (step queue map st event)
  unfolding step
  step-StepsTo st uuids start_thread enough v = start-StepsTo st uuids enough v
  step-StepsTo st uuids (new_span i key) enough v = new_span_if st uuids i key enough v
  step-StepsTo st uuids (close_span i n) enough v = close-StepsTo st uuids i n v
  step-StepsTo st uuids (exit_thread i) enough v = exit-StepsTo st uuids i v

  run-balanced :
      (st : State queue map) (uuids : List ℕ) (events : List Event)
      → length events ≤ length uuids
      → Valid queue map st uuids
      → (st' : State queue map) × (uuids' : List ℕ) × (run queue map st events ≡ some st')
        × ((f : ℕ → ℕ) → total queue map f st' uuids' ≤ total queue map f st uuids)
  unfolding run
  run-balanced st uuids [] enough v = (st, uuids, refl, λ f. omega arith)
  run-balanced st uuids (event ∷ events) enough v =
      let (st1, uuids1, e, v1, used, balance) = step-StepsTo st uuids event (omega arith) v in
      let (st2, uuids2, e2, balance2) = run-balanced st1 uuids1 events (omega (arith, used)) v1 in
      (st2, uuids2, rw e e2, λ f. omega (arith, balance f, balance2 f))

  initial-Valid :
      (inner inner' : Inner) (uuids : List ℕ)
      → alloc_uuids (length uuids) inner ≡ some (uuids, inner')
      → Valid queue map (initial queue map inner) uuids
  unfolding initial new_pools
  initial-Valid inner inner' uuids e = record {
    tracks = tt;
    agrees = λ key p there. cc (there, map.get-empty key);
    held = tt;
    draws = (inner', e);
  }

  initial_total :
      (f : ℕ → ℕ) (inner : Inner) (uuids : List ℕ)
      → total queue map f (initial queue map inner) uuids ≡ sum_of f uuids
  unfolding initial new_pools
  initial_total f inner uuids = omega arith

  -- From a layer without spans and threads, whose counter of uuids is below 2^64, after fewer than
  -- 2^64 calls of any threads in any order (threads that start and end, spans that claim or make
  -- their tracks, spans that close on any thread or on none): nothing panics, and the tracks of the
  -- spans that live at the end are all different.
  pub run-Distinct :
      (inner : Inner) (events : List Event)
      → inner.next_uuid < u64_mod
      → length events < u64_mod
      → (st : State queue map) × (run queue map (initial queue map inner) events ≡ some st)
        × Distinct (uuids_of st.spans)
  run-Distinct inner events small few =
      let (uuids, inner', drawn, len, nonzero, distinct) =
        alloc_uuids-Distinct (length events) inner small few in
      let (st, uuids', e, balance) =
        run-balanced (initial queue map inner) uuids events (omega (arith, len)) (
          initial-Valid inner inner' uuids
            (subst (λ n. alloc_uuids n inner ≡ some (uuids, inner')) (sym len) drawn)) in
      (
        st,
        e,
        Distinct-of-once (uuids_of st.spans) (λ v. omega (
          arith,
          balance (one_at v),
          initial_total (one_at v) inner uuids,
          sum_of-uuids_of (one_at v) st.spans,
          once-of-Distinct v uuids distinct,
        )),
      )
