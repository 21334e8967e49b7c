-- ===== src/Thread/Reuse.antt =====
-- What the spans of all threads do with their tracks (src/subscriber.rs over src/thread.rs): a new span
-- claims a track or makes one, a closed span gives its track back, and threads start and end. Each
-- handler is one step, so an interleaving of the threads is a list of events.
pub mod Balance
pub mod Counts
mod Exclusive
mod Runs
use tracing_perfetto_file.Common.{ℕ, List, [], ◌∷◌, ◌++◌, Option, none, some, ◌>>=◌}
use tracing_perfetto_file.Common.Lists.{get_elem?, set}
use tracing_perfetto_file.Common.Sums.{remove_at}
use tracing_perfetto_file.Runtime.{Inner, alloc_uuid, alloc_sequence_id}
use tracing_perfetto_file.Spans.Pools.{TrackKey, ArrayQueue, PoolMap, Pools, new_pools}
use tracing_perfetto_file.Thread.Tracks.{
  ClaimedTrack, Tracks, new_tracks, claim_track, release_track, release_pool, drop_slots,
}

-- `track_pool` and `track_uuid` of a span that has a lifetime track.
pub record LiveSpan : Type 0 where
  pub pool : Option ℕ
  pub uuid : ℕ

pub data Event : Type 0 where
  start_thread : Event
  -- `on_new_span` by a thread
  new_span : ℕ → TrackKey → Event
  -- `on_close` of a span by a thread, which may have no context any more
  close_span : Option ℕ → ℕ → Event
  exit_thread : ℕ → Event

-- The pool of the claim, and its uuid or else a new one (`create_span_track`).
uuid_of : Inner → Option ℕ → Option ℕ → Option (LiveSpan × Inner)
uuid_of inner pool (some uuid) = some (record { pool = pool; uuid = uuid }, inner)
uuid_of inner pool none =
    alloc_uuid inner >>= λ (uuid, inner). some (record { pool = pool; uuid = uuid }, inner)

pub track_of : Inner → Option ClaimedTrack → Option (LiveSpan × Inner)
unfolding uuid_of
track_of inner (some claimed) = uuid_of inner (some claimed.pool) claimed.uuid
track_of inner none = uuid_of inner none none

module _ (queue : ArrayQueue) (map : PoolMap) where
  pub record State : Type 0 where
    pub inner : Inner
    pub pools : Pools queue map
    pub threads : List Tracks
    pub spans : List LiveSpan

  pub initial : Inner → State
  initial inner = record { inner = inner; pools = new_pools queue map; threads = []; spans = [] }

  pub claim_by : State → ℕ → TrackKey → Tracks → Option State
  claim_by st i key t = claim_track queue map t key st.pools >>= λ (claimed, t, pools).
      track_of st.inner claimed >>= λ (span, inner). some (record st {
        inner = inner;
        pools = pools;
        threads = set st.threads i t;
        spans = span ∷ st.spans;
      })

  -- A thread without a context gets no track.
  pub claim_if : State → ℕ → TrackKey → Option Tracks → Option State
  claim_if st i key (some t) = claim_by st i key t
  claim_if st i key none = some st

  -- The `match` on the thread's context: into its cache, or straight to the pool.
  pub give_back : State → ℕ → ℕ → ℕ → Option Tracks → Option State
  give_back st i pool uuid (some t) = release_track queue map t pool uuid st.pools >>= λ (t, pools).
      some (record st { pools = pools; threads = set st.threads i t })
  give_back st i pool uuid none =
      release_pool queue map st.pools pool uuid >>= λ pools. some (record st { pools = pools })

  abbrev pub thread_at : State → Option ℕ → Option Tracks
  thread_at st none = none
  thread_at st (some i) = get_elem? st.threads i

  abbrev pub index_of : Option ℕ → ℕ
  index_of none = 0
  index_of (some i) = i

  -- A span without a pool drops its uuid.
  pub close_at : State → Option ℕ → LiveSpan → Option ℕ → Option State
  close_at st i span (some pool) = give_back st (index_of i) pool span.uuid (thread_at st i)
  close_at st i span none = some st

  pub close : State → Option ℕ → Option (LiveSpan × List LiveSpan) → Option State
  close st i (some (span, spans)) = close_at (record st { spans = spans }) i span span.pool
  close st i none = some st

  pub exit : State → Option (Tracks × List Tracks) → Option State
  exit st (some (t, threads)) = drop_slots queue map t.track_pools st.pools >>= λ pools.
      some (record st { pools = pools; threads = threads })
  exit st none = some st

  -- `ThreadCtx::new`, which draws a uuid for the track of the thread.
  pub start : State → Option State
  start st = alloc_uuid (alloc_sequence_id st.inner).1 >>= λ (uuid, inner).
      some (record st { inner = inner; threads = st.threads ++ new_tracks ∷ [] })

  pub step : State → Event → Option State
  step st start_thread = start st
  step st (new_span i key) = claim_if st i key (get_elem? st.threads i)
  step st (close_span i n) = close st i (remove_at st.spans n)
  step st (exit_thread i) = exit st (remove_at st.threads i)

  pub run : State → List Event → Option State
  run st [] = some st
  run st (event ∷ events) = step st event >>= λ st. run st events
