-- ===== src/Thread/Reuse/Balance.antt =====
-- Each step of the spans keeps the uuids in balance (src/thread.rs, src/subscriber.rs): no step adds
-- one to the live spans, the threads' slots, the pools and the uuids that are yet to come.
use tracing_perfetto_file.Common.{
  ℕ, ◌+◌, ◌≤◌, ◌≡◌, refl, sym, ◌∙◌, ap, subst, List, [], ◌∷◌, Option, none, some, >>=-eq-some,
  ◌>>=◌, arith,
}
use tracing_perfetto_file.Common.Lists.{length, get_elem?, set, All}
use tracing_perfetto_file.Common.Sums.{sum_by, sum_by-set, All-set, All-get, All-map}
use tracing_perfetto_file.Runtime.{Inner, alloc_uuid, fetch_nonzero}
use tracing_perfetto_file.Runtime.Ids.{alloc_uuids}
use tracing_perfetto_file.Spans.Pools.{TrackKey, ArrayQueue, PoolMap, TrackPool, Pools}
use tracing_perfetto_file.Thread.Tracks.{ClaimedTrack, Tracks}
use tracing_perfetto_file.Thread.Tracks.Weights.{
  sum_of, cached_weight, heap_weight, PoolFor, release_pool_lem, weight_of,
}
use tracing_perfetto_file.Thread.Tracks.Slots.{
  IsTracks, Agrees, Grows, PoolFor-Grows, slots-Grows, Keeps-Grows, pool_there,
}
use tracing_perfetto_file.Thread.Tracks.Conserved.{claim_weight, claim_track-Claims}
use tracing_perfetto_file.Thread.Tracks.Released.{release_track-Loses}
use tracing_perfetto_file.Thread.Reuse.{LiveSpan, uuid_of, track_of, State, claim_by, give_back}

-- The next uuids that `alloc_uuid` gives.
abbrev pub Draws : Inner → List ℕ → Type 0
Draws inner uuids = (inner' : Inner) × (alloc_uuids (length uuids) inner ≡ some (uuids, inner'))

pub Draws-next :
    (inner : Inner) (uuid : ℕ) (uuids : List ℕ)
    → Draws inner (uuid ∷ uuids)
    → (inner' : Inner) × (alloc_uuid inner ≡ some (uuid, inner')) × Draws inner' uuids
unfolding alloc_uuids
Draws-next inner uuid uuids (last, e) =
    let ((u, inner'), drawn, more) = >>=-eq-some (alloc_uuid inner) _ e in
    let ((us, inner''), rest, is) = >>=-eq-some (alloc_uuids (length uuids) inner') _ more in
    let first : u ≡ uuid = cc is in
    let others : us ≡ uuids = cc is in
    (
      inner',
      drawn ∙ ap (λ u. some (u, inner')) first,
      (inner'', rest ∙ ap (λ us. some (us, inner'')) others),
    )

-- The ids of sequences have a counter of their own.
abbrev with_sequence_id : ℕ → ℕ × Inner → ℕ × Inner
with_sequence_id id (uuid, inner) = (uuid, record inner { next_sequence_id = id })

abbrev taken : Inner → ℕ × ℕ → Option (ℕ × Inner)
taken inner (uuid, next) = some (uuid, record inner { next_uuid = next })

alloc_uuid_sequence_id :
    (inner : Inner) (id uuid : ℕ) (inner' : Inner)
    → alloc_uuid inner ≡ some (uuid, inner')
    → alloc_uuid (record inner { next_sequence_id = id })
      ≡ some (uuid, record inner' { next_sequence_id = id })
unfolding alloc_uuid
alloc_uuid_sequence_id inner id uuid inner' e = by_draw (fetch_nonzero 2 inner.next_uuid) e
  where
    by_draw :
        (r : Option (ℕ × ℕ))
        → (r >>= taken inner) ≡ some (uuid, inner')
        → (r >>= taken (record inner { next_sequence_id = id }))
          ≡ some (uuid, record inner' { next_sequence_id = id })
    by_draw none h = cc h
    by_draw (some (u, next)) h = ap (λ r. r >>= λ u. some (with_sequence_id id u)) h

pub Draws-sequence_id :
    (inner : Inner) (id : ℕ) (uuids : List ℕ)
    → Draws inner uuids
    → Draws (record inner { next_sequence_id = id }) uuids
unfolding alloc_uuids
Draws-sequence_id inner id [] d = (record inner { next_sequence_id = id }, refl)
Draws-sequence_id inner id (uuid ∷ uuids) d =
    let (inner1, e, d1) = Draws-next inner uuid uuids d in
    let (last, rest) = Draws-sequence_id inner1 id uuids d1 in
    (last, rw (alloc_uuid_sequence_id inner id uuid inner1 e) (rw rest refl))

module _ (queue : ArrayQueue) (map : PoolMap) where
  abbrev pub HasPool : List (TrackPool queue map) → Option ℕ → Type 0
  HasPool heap none = Unit {0}
  HasPool heap (some p) = (key : TrackKey) × PoolFor queue map heap key p

  pub HasPool-Grows :
      {s s' : Pools queue map} (pool : Option ℕ)
      → Grows queue map s s'
      → HasPool s.heap pool
      → HasPool s'.heap pool
  HasPool-Grows none g h = tt
  HasPool-Grows (some p) g (key, own) = (key, PoolFor-Grows queue map key p g own)

  pub record Valid (st : State queue map) (uuids : List ℕ) : Type 0 where
    pub tracks : All (IsTracks queue map st.pools) st.threads
    pub agrees : Agrees queue map st.pools
    pub held : All (λ span. HasPool st.pools.heap span.pool) st.spans
    pub draws : Draws st.inner uuids

  -- The uuids everywhere, weighed.
  abbrev pub total : (ℕ → ℕ) → State queue map → List ℕ → ℕ
  total f st uuids =
      sum_by (λ span. f span.uuid) st.spans
      + (sum_by (λ t. cached_weight (λ p. f) t.track_pools) st.threads
          + (heap_weight queue map (λ p. f) st.pools.heap + sum_of f uuids))

  -- A step returns a valid state, adds no uuid, and draws one at most.
  abbrev pub StepsTo : State queue map → List ℕ → Option (State queue map) → Type 0
  StepsTo st uuids r =
      (st' : State queue map) × (uuids' : List ℕ) × (r ≡ some st')
      × Valid st' uuids'
      × (length uuids ≤ length uuids' + 1)
      × ((f : ℕ → ℕ) → total f st' uuids' ≤ total f st uuids)

  pub stays : (st : State queue map) (uuids : List ℕ) → Valid st uuids → StepsTo st uuids (some st)
  stays st uuids v = (st, uuids, refl, v, omega arith, λ f. omega arith)

  pub tracks-Grows :
      {s s' : Pools queue map} (threads : List Tracks)
      → Grows queue map s s'
      → All (IsTracks queue map s) threads
      → All (IsTracks queue map s') threads
  tracks-Grows {s} {s'} threads g =
      All-map (IsTracks queue map s) (IsTracks queue map s') threads (λ t x. record {
        eight = x.eight;
        within = x.within;
        slots = slots-Grows queue map t.track_pools g x.slots;
      })

  pub held-Grows :
      {s s' : Pools queue map} (spans : List LiveSpan)
      → Grows queue map s s'
      → All (λ span. HasPool s.heap span.pool) spans
      → All (λ span. HasPool s'.heap span.pool) spans
  held-Grows {s} {s'} spans g = All-map _ _ spans (λ span h. HasPool-Grows span.pool g h)

  -- The track of a new span, from a claim or a new uuid.
  record Tracked (inner : Inner) (uuids : List ℕ) (pool : Option ℕ) (claimed : Option ℕ)
      (r : Option (LiveSpan × Inner)) : Type 0 where
    span : LiveSpan
    inner' : Inner
    uuids' : List ℕ
    returns : r ≡ some (span, inner')
    same_pool : span.pool ≡ pool
    draws : Draws inner' uuids'
    used : length uuids ≤ length uuids' + 1
    sums : (f : ℕ → ℕ) → f span.uuid + sum_of f uuids' ≡ weight_of f claimed + sum_of f uuids

  uuid_of-Tracked :
      (inner : Inner) (uuids : List ℕ) (pool claimed : Option ℕ)
      → 1 ≤ length uuids
      → Draws inner uuids
      → Tracked inner uuids pool claimed (uuid_of inner pool claimed)
  unfolding uuid_of
  uuid_of-Tracked inner uuids pool (some uuid) enough d = record {
    span = record { pool = pool; uuid = uuid };
    inner' = inner;
    uuids' = uuids;
    returns = refl;
    same_pool = refl;
    draws = d;
    used = omega arith;
    sums = λ f. refl;
  }
  uuid_of-Tracked inner [] pool none enough d = absurd (omega arith)
  uuid_of-Tracked inner (uuid ∷ uuids) pool none enough d =
      let (inner', e, d') = Draws-next inner uuid uuids d in
      record {
        span = record { pool = pool; uuid = uuid };
        inner' = inner';
        uuids' = uuids;
        returns = rw e refl;
        same_pool = refl;
        draws = d';
        used = omega arith;
        sums = λ f. omega arith;
      }

  claim_pool_of : Option ClaimedTrack → Option ℕ
  claim_pool_of none = none
  claim_pool_of (some c) = some c.pool

  claim_uuid_of : Option ClaimedTrack → Option ℕ
  claim_uuid_of none = none
  claim_uuid_of (some c) = c.uuid

  track_of-Tracked :
      (inner : Inner) (uuids : List ℕ) (claimed : Option ClaimedTrack)
      → 1 ≤ length uuids
      → Draws inner uuids
      → Tracked inner uuids (claim_pool_of claimed) (claim_uuid_of claimed) (track_of inner claimed)
  unfolding track_of claim_pool_of claim_uuid_of
  track_of-Tracked inner uuids none enough d = uuid_of-Tracked inner uuids none none enough d
  track_of-Tracked inner uuids (some c) enough d =
      uuid_of-Tracked inner uuids (some c.pool) c.uuid enough d

  claim_weight_lem :
      (f : ℕ → ℕ) (c : Option ClaimedTrack)
      → claim_weight (λ p. f) c ≡ weight_of f (claim_uuid_of c)
  unfolding claim_uuid_of
  claim_weight_lem f none = refl
  claim_weight_lem f (some c) = refl

  claim_HasPool :
      (heap : List (TrackPool queue map)) (key : TrackKey) (c : Option ClaimedTrack)
      → ((claimed : ClaimedTrack) → c ≡ some claimed → PoolFor queue map heap key claimed.pool)
      → HasPool heap (claim_pool_of c)
  unfolding claim_pool_of
  claim_HasPool heap key none h = tt
  claim_HasPool heap key (some c) h = (key, h c refl)

  pub new_span-StepsTo :
      (st : State queue map) (uuids : List ℕ) (i : ℕ) (key : TrackKey) (t : Tracks)
      → get_elem? st.threads i ≡ some t
      → 1 ≤ length uuids
      → Valid st uuids
      → StepsTo st uuids (claim_by queue map st i key t)
  unfolding claim_by
  new_span-StepsTo st uuids i key t there enough v =
      let x = All-get (IsTracks queue map st.pools) st.threads i t there v.tracks in
      let (c, lost, t', s', e, r) = claim_track-Claims queue map t st.pools key x v.agrees in
      let k = track_of-Tracked st.inner uuids c enough v.draws in
      (
        record st {
          inner = k.inner';
          pools = s';
          threads = set st.threads i t';
          spans = k.span ∷ st.spans;
        },
        k.uuids',
        rw e (rw k.returns refl),
        record {
          tracks =
              All-set (IsTracks queue map s') st.threads i t' r.tracks
                (tracks-Grows st.threads r.loses.grows v.tracks);
          agrees = r.loses.grows.agrees;
          held = (
            subst (HasPool s'.heap) (sym k.same_pool) (claim_HasPool s'.heap key c r.pool),
            held-Grows st.spans r.loses.grows v.held,
          );
          draws = k.draws;
        },
        k.used,
        λ f. omega (
          arith,
          r.loses.weighs (λ p. f),
          claim_weight_lem f c,
          k.sums f,
          sum_by-set (λ t. cached_weight (λ p. f) t.track_pools) st.threads i t t' there,
        ),
      )

  pub give_back-StepsTo :
      (st : State queue map) (uuids : List ℕ) (i pool uuid : ℕ) (t : Option Tracks)
      → ((t' : Tracks) → t ≡ some t' → get_elem? st.threads i ≡ some t')
      → HasPool st.pools.heap (some pool)
      → Valid st uuids
      → (st' : State queue map) × (give_back queue map st i pool uuid t ≡ some st')
        × Valid st' uuids
        × ((f : ℕ → ℕ) → total f st' uuids ≤ total f st uuids + f uuid)
  unfolding give_back
  give_back-StepsTo st uuids i pool uuid (some t) at (key, own) v =
      let there = at t refl in
      let x = All-get (IsTracks queue map st.pools) st.threads i t there v.tracks in
      let (lost, t', s', e, x', l) =
        release_track-Loses queue map t st.pools key pool uuid x v.agrees own in
      (
        record st { pools = s'; threads = set st.threads i t' },
        rw e refl,
        record {
          tracks =
              All-set (IsTracks queue map s') st.threads i t' x'
                (tracks-Grows st.threads l.grows v.tracks);
          agrees = l.grows.agrees;
          held = held-Grows st.spans l.grows v.held;
          draws = v.draws;
        },
        λ f. omega (
          arith,
          l.weighs (λ p. f),
          sum_by-set (λ t. cached_weight (λ p. f) t.track_pools) st.threads i t t' there,
        ),
      )
  give_back-StepsTo st uuids i pool uuid none at (key, own) v =
      let (there_pool, there, is) = pool_there queue map st.pools.heap key pool own in
      let (lost, s', e, r) = release_pool_lem queue map st.pools pool uuid there_pool there in
      let g : Grows queue map st.pools s' = Keeps-Grows queue map v.agrees r.keeps in
      (
        record st { pools = s' },
        rw e refl,
        record {
          tracks = tracks-Grows st.threads g v.tracks;
          agrees = g.agrees;
          held = held-Grows st.spans g v.held;
          draws = v.draws;
        },
        λ f. omega (arith, r.weighs (λ p. f)),
      )
