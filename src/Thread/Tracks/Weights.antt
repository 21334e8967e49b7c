-- ===== src/Thread/Tracks/Weights.antt =====
-- Where the reusable tracks of src/thread.rs and src/span_state.rs are, weighed: the tracks in the
-- queues of the pools and in the slots of a thread. An equation for all weights of a uuid in a pool
-- says that the same uuids are in the same pools as often.
use tracing_perfetto_file.Common.{
  ℕ, zero, suc, ◌+◌, ◌≡◌, refl, ap, subst, ltb, List, [], ◌∷◌, ◌++◌, true, false, Bool-cases, inl,
  inr, Option, none, some, ◌>>=◌, arith,
}
use tracing_perfetto_file.Common.Lists.{length, get_elem?, set}
use tracing_perfetto_file.Spans.Pools.{
  TrackKey, eq, ArrayQueue, PoolMap, TrackPool, claim, release, Pools,
}
use tracing_perfetto_file.Thread.Tracks.{CachedTrackPool, Cached, claim_pool, release_pool}

abbrev pub sum_of : (ℕ → ℕ) → List ℕ → ℕ
sum_of f [] = 0
sum_of f (uuid ∷ uuids) = f uuid + sum_of f uuids

pub sum_of-append :
    (f : ℕ → ℕ) (xs : List ℕ) (uuid : ℕ) → sum_of f (xs ++ uuid ∷ []) ≡ sum_of f xs + f uuid
sum_of-append f [] uuid = omega arith
sum_of-append f (x ∷ xs) uuid = omega (arith, sum_of-append f xs uuid)

-- The weight of a uuid, or of none.
abbrev pub weight_of : (ℕ → ℕ) → Option ℕ → ℕ
weight_of f none = 0
weight_of f (some uuid) = f uuid

-- The weight of a uuid that is dropped, with its pool.
abbrev pub lost_weight : (ℕ → ℕ → ℕ) → Option (ℕ × ℕ) → ℕ
lost_weight w none = 0
lost_weight w (some (pool, uuid)) = w pool uuid

abbrev pub cached_weight : (ℕ → ℕ → ℕ) → Cached → ℕ
cached_weight w [] = 0
cached_weight w (none ∷ slots) = cached_weight w slots
cached_weight w (some cached ∷ slots) =
    weight_of (w cached.pool) cached.local_uuid + cached_weight w slots

pub cached_weight-cons :
    (w : ℕ → ℕ → ℕ) (slot : Option CachedTrackPool) (slots : Cached)
    → cached_weight w (slot ∷ slots) ≡ cached_weight w (slot ∷ []) + cached_weight w slots
cached_weight-cons w none slots = omega arith
cached_weight-cons w (some cached) slots = omega arith

module _ (queue : ArrayQueue) (map : PoolMap) where
  abbrev pub heap_weight : (ℕ → ℕ → ℕ) → List (TrackPool queue map) → ℕ
  heap_weight w [] = 0
  heap_weight w (pool ∷ heap) =
      sum_of (w 0) (queue.contents pool.tracks) + heap_weight (λ p. w (suc p)) heap

  abbrev pub key_at : List (TrackPool queue map) → ℕ → Option TrackKey
  key_at heap p = get_elem? heap p >>= λ pool. some pool.key

  -- Pool `p` is there, and it is that of the key.
  abbrev pub PoolFor : List (TrackPool queue map) → TrackKey → ℕ → Type 0
  PoolFor heap key p = (k : TrackKey) × (key_at heap p ≡ some k) × (eq k key ≡ true)

  -- The queue of pool `p` has no place.
  abbrev pub IsFull : List (TrackPool queue map) → ℕ → Type 0
  IsFull heap p =
      (pool : TrackPool queue map) × (get_elem? heap p ≡ some pool)
      × (ltb (length (queue.contents pool.tracks)) 4 ≡ false)

  -- The store has the same pools under the same keys, whatever is in their queues.
  pub record Keeps (s s' : Pools queue map) : Type 0 where
    pub same_map : s'.pools ≡ s.pools
    pub same_keys : (q : ℕ) → key_at s'.heap q ≡ key_at s.heap q

  heap_weight-set :
      (w : ℕ → ℕ → ℕ) (heap : List (TrackPool queue map)) (p : ℕ) (pool pool' : TrackPool queue map)
      → get_elem? heap p ≡ some pool
      → heap_weight w (set heap p pool') + sum_of (w p) (queue.contents pool.tracks)
        ≡ heap_weight w heap + sum_of (w p) (queue.contents pool'.tracks)
  heap_weight-set w [] p pool pool' h = cc h
  heap_weight-set w (first ∷ heap) zero pool pool' h =
      let same : first ≡ pool = cc h in
      let weighs : sum_of (w 0) (queue.contents first.tracks)
          ≡ sum_of (w 0) (queue.contents pool.tracks) =
        ap (λ p. sum_of (w 0) (queue.contents p.tracks)) same in
      omega (arith, weighs)
  heap_weight-set w (first ∷ heap) (suc p) pool pool' h =
      omega (arith, heap_weight-set (λ q. w (suc q)) heap p pool pool' h)

  key_at-set :
      (heap : List (TrackPool queue map)) (p : ℕ) (pool pool' : TrackPool queue map)
      → get_elem? heap p ≡ some pool
      → pool'.key ≡ pool.key
      → (q : ℕ) → key_at (set heap p pool') q ≡ key_at heap q
  key_at-set [] p pool pool' h k q = refl
  key_at-set (first ∷ heap) zero pool pool' h k zero =
      let same : first ≡ pool = cc h in
      let keys : first.key ≡ pool.key = ap (λ p. p.key) same in cc (keys, k)
  key_at-set (first ∷ heap) zero pool pool' h k (suc q) = refl
  key_at-set (first ∷ heap) (suc p) pool pool' h k zero = refl
  key_at-set (first ∷ heap) (suc p) pool pool' h k (suc q) = key_at-set heap p pool pool' h k q

  get_elem?-set_same :
      (heap : List (TrackPool queue map)) (p : ℕ) (pool pool' : TrackPool queue map)
      → get_elem? heap p ≡ some pool
      → get_elem? (set heap p pool') p ≡ some pool'
  get_elem?-set_same [] p pool pool' h = cc h
  get_elem?-set_same (first ∷ heap) zero pool pool' h = refl
  get_elem?-set_same (first ∷ heap) (suc p) pool pool' h = get_elem?-set_same heap p pool pool' h

  pub Keeps-refl : (s : Pools queue map) → Keeps s s
  Keeps-refl s = record { same_map = refl; same_keys = λ q. refl }

  -- A claim takes the uuid that it gives out of the pool, and nothing else.
  pub record PoolClaimed (s : Pools queue map) (p : ℕ) (uuid : Option ℕ) (s' : Pools queue map)
      : Type 0 where
    pub keeps : Keeps s s'
    pub weighs :
        (w : ℕ → ℕ → ℕ) → weight_of (w p) uuid + heap_weight w s'.heap ≡ heap_weight w s.heap

  pub claim_pool_lem :
      (s : Pools queue map) (p : ℕ) (pool : TrackPool queue map)
      → get_elem? s.heap p ≡ some pool
      → (uuid : Option ℕ) × (s' : Pools queue map) × (claim_pool queue map s p ≡ some (uuid, s'))
        × PoolClaimed s p uuid s'
  unfolding claim_pool claim
  claim_pool_lem s p pool there = claim_by s p pool there (queue.contents pool.tracks) refl
    where
      claim_by :
          (s : Pools queue map) (p : ℕ) (pool : TrackPool queue map)
          → get_elem? s.heap p ≡ some pool
          → (uuids : List ℕ) → queue.contents pool.tracks ≡ uuids
          → (uuid : Option ℕ) × (s' : Pools queue map) × (claim_pool queue map s p
              ≡ some (uuid, s'))
            × PoolClaimed s p uuid s'
      claim_by s p pool there [] e = (
        none,
        s,
        rw there (rw (queue.pop-empty pool.tracks e) refl),
        record { keeps = Keeps-refl s; weighs = λ w. omega arith },
      )
      claim_by s p pool there (uuid ∷ rest) e =
          let (tracks, popped, left) = queue.pop-contents pool.tracks uuid rest e in
          let pool' : TrackPool queue map = record pool { tracks = tracks } in
          (
            some uuid,
            record s { heap = set s.heap p pool' },
            rw there (rw popped refl),
            record {
              keeps = record {
                same_map = refl;
                same_keys = key_at-set s.heap p pool pool' there refl;
              };
              weighs = λ w. omega (
                arith,
                heap_weight-set w s.heap p pool pool' there,
                ap (sum_of (w p)) e,
                ap (sum_of (w p)) left,
              );
            },
          )

  -- A release puts the uuid into the pool, unless that is full: then it is lost.
  pub record PoolReleased (s : Pools queue map) (p uuid : ℕ) (lost : Option (ℕ × ℕ))
      (s' : Pools queue map) : Type 0 where
    pub keeps : Keeps s s'
    pub weighs :
        (w : ℕ → ℕ → ℕ)
        → lost_weight w lost + heap_weight w s'.heap ≡ heap_weight w s.heap + w p uuid
    pub full : (q v : ℕ) → lost ≡ some (q, v) → IsFull s'.heap q

  pub release_pool_lem :
      (s : Pools queue map) (p uuid : ℕ) (pool : TrackPool queue map)
      → get_elem? s.heap p ≡ some pool
      → (lost : Option (ℕ × ℕ)) × (s' : Pools queue map) × (release_pool queue map s p uuid
          ≡ some s')
        × PoolReleased s p uuid lost s'
  unfolding release_pool release
  release_pool_lem s p uuid pool there =
      elim (Bool-cases (ltb (length (queue.contents pool.tracks)) 4)) [
        | inl room ↦
            let (tracks, pushed, now) = queue.push-contents pool.tracks uuid room in
            let pool' : TrackPool queue map = record pool { tracks = tracks } in
            (
              none,
              record s { heap = set s.heap p pool' },
              rw there (rw pushed refl),
              record {
                keeps = record {
                  same_map = refl;
                  same_keys = key_at-set s.heap p pool pool' there refl;
                };
                weighs = λ w. omega (
                  arith,
                  heap_weight-set w s.heap p pool pool' there,
                  ap (sum_of (w p)) now,
                  sum_of-append (w p) (queue.contents pool.tracks) uuid,
                );
                full = λ q v e. cc e;
              },
            )
        | inr full ↦ (
          some (p, uuid),
          record s { heap = set s.heap p pool },
          rw there (rw (queue.push-full pool.tracks uuid full) refl),
          record {
            keeps = record {
              same_map = refl;
              same_keys = key_at-set s.heap p pool pool there refl;
            };
            weighs = λ w. omega (arith, heap_weight-set w s.heap p pool pool there);
            full = λ q v e. (
              pool,
              (let same : p ≡ q = cc e in
                  subst (λ q. get_elem? (set s.heap p pool) q ≡ some pool) same
                    (get_elem?-set_same s.heap p pool pool there)),
              full,
            );
          },
        )
      ]
