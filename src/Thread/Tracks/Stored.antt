-- ===== src/Thread/Tracks/Stored.antt =====
-- How a call of `track_pool` (src/span_state.rs) changes where the reusable tracks are: not at all.
use tracing_perfetto_file.Common.{
  ℕ, zero, suc, ◌≡◌, refl, ap, subst, inl, inr, List, [], ◌∷◌, ◌++◌, true, Bool-cases, Option, none,
  some, arith,
}
use tracing_perfetto_file.Common.Lists.{length}
use tracing_perfetto_file.Spans.Pools.{
  TrackKey, eq, ArrayQueue, PoolMap, TrackPool, Pools, track_pool,
}
use tracing_perfetto_file.Spans.Pools.Laws.{added, track_pool_cases}
use tracing_perfetto_file.Thread.Tracks.Weights.{sum_of, heap_weight, key_at, PoolFor, Keeps-refl}
use tracing_perfetto_file.Thread.Tracks.Slots.{Agrees, Grows, Keeps-Grows}

module _ (queue : ArrayQueue) (map : PoolMap) where
  key_at-append :
      (heap : List (TrackPool queue map)) (pool : TrackPool queue map) (q : ℕ) (k : TrackKey)
      → key_at queue map heap q ≡ some k
      → key_at queue map (heap ++ pool ∷ []) q ≡ some k
  key_at-append [] pool q k h = cc h
  key_at-append (first ∷ heap) pool zero k h = h
  key_at-append (first ∷ heap) pool (suc q) k h = key_at-append heap pool q k h

  key_at_last :
      (heap : List (TrackPool queue map)) (pool : TrackPool queue map)
      → key_at queue map (heap ++ pool ∷ []) (length heap) ≡ some pool.key
  key_at_last [] pool = refl
  key_at_last (first ∷ heap) pool = key_at_last heap pool

  heap_weight-append :
      (w : ℕ → ℕ → ℕ) (heap : List (TrackPool queue map)) (pool : TrackPool queue map)
      → queue.contents pool.tracks ≡ []
      → heap_weight queue map w (heap ++ pool ∷ []) ≡ heap_weight queue map w heap
  heap_weight-append w [] pool e = omega (arith, ap (sum_of (w 0)) e)
  heap_weight-append w (first ∷ heap) pool e =
      omega (arith, heap_weight-append (λ p. w (suc p)) heap pool e)

  pub record Stored (s : Pools queue map) (key : TrackKey) (found : Option ℕ) (s' : Pools queue map)
      : Type 0 where
    pub grows : Grows queue map s s'
    pub weighs : (w : ℕ → ℕ → ℕ) → heap_weight queue map w s'.heap ≡ heap_weight queue map w s.heap
    pub pool : (p : ℕ) → found ≡ some p → PoolFor queue map s'.heap key p

  new_pool-Agrees :
      (s : Pools queue map) (key : TrackKey)
      → eq key key ≡ true
      → Agrees queue map s
      → Agrees queue map (added queue map s key)
  new_pool-Agrees s key same a j p e = elim (Bool-cases (eq key j)) [
    | inl is ↦
        let found : some (length s.heap) ≡ some p =
          cc (e, rw is at (map.get-insert s.pools key j (length s.heap))) in
        let last : length s.heap ≡ p = cc found in
        (
          key,
          subst (λ p. key_at queue map (added queue map s key).heap p ≡ some key) last
              (key_at_last s.heap (record { key = key; tracks = queue.new })),
          is,
        )
    | inr other ↦
        let old : map.get s.pools j ≡ some p =
          cc (e, rw other at (map.get-insert s.pools key j (length s.heap))) in
        let (k, at, is) = a j p old in
        (k, key_at-append s.heap (record { key = key; tracks = queue.new }) p k at, is)
  ]

  pub track_pool-Stored :
      (s : Pools queue map) (key : TrackKey)
      → eq key key ≡ true
      → Agrees queue map s
      → (found : Option ℕ) × (s' : Pools queue map) × (track_pool queue map s key ≡ (found, s'))
        × Stored s key found s'
  track_pool-Stored s key same a = elim (track_pool_cases queue map s key) [
    | inl (pool, there, e) ↦ (
      some pool,
      s,
      e,
      record {
        grows = Keeps-Grows queue map a (Keeps-refl queue map s);
        weighs = λ w. refl;
        pool = λ p h.
            (let is : pool ≡ p = cc h in
              subst (PoolFor queue map s.heap key) is (a key pool there));
      },
    )
    | inr (inl e) ↦ (
      none,
      s,
      e,
      record {
        grows = Keeps-Grows queue map a (Keeps-refl queue map s);
        weighs = λ w. refl;
        pool = λ p h. cc h;
      },
    )
    | inr (inr (missing, e)) ↦
        let pool : TrackPool queue map = record { key = key; tracks = queue.new } in
        (
          some (length s.heap),
          added queue map s key,
          e,
          record {
            grows = record {
              kept = λ q k h. key_at-append s.heap pool q k h;
              agrees = new_pool-Agrees s key same a;
            };
            weighs = λ w. heap_weight-append w s.heap pool queue.contents-new;
            pool = λ p h.
                (let is : length s.heap ≡ p = cc h in
                  subst (PoolFor queue map (added queue map s key).heap key) is
                    (key, key_at_last s.heap pool, same));
          },
        )
  ]
