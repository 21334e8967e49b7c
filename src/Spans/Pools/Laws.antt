-- ===== src/Spans/Pools/Laws.antt =====
-- The pools of src/span_state.rs: one for each key, and a bounded number of them.
use tracing_perfetto_file.Common.{
  ℕ, ◌+◌, ◌≤◌, ◌≡◌, refl, ◌∙◌, ap, ◌⊎◌, inl, inr, ltb, [], ◌∷◌, ◌++◌, true, false, Bool-cases,
  Option-cases, Option, none, some, ==_iff, arith,
}
use tracing_perfetto_file.Common.Lists.{length, length-append}
use tracing_perfetto_file.Spans.Pools.{
  max_reusable_keys, TrackKey, eq, ArrayQueue, PoolMap, Pools, create_vacant, create_entry,
  create_track_pool, track_pool_from, track_pool,
}

pub eq_refl : (k : TrackKey) → eq k k ≡ true
unfolding eq
eq_refl k = rw ((==_iff k.name.ptr k.name.ptr).1 refl) (
    rw ((==_iff (length k.name.text) (length k.name.text)).1 refl)
      ((==_iff k.parent_uuid k.parent_uuid).1 refl))

module _ (queue : ArrayQueue) (map : PoolMap) where
  -- The count is the number of pools, and below the limit.
  pub record IsPools (s : Pools queue map) : Type 0 where
    pub counted : s.reusable_keys ≡ length s.heap
    pub bounded : length s.heap ≤ max_reusable_keys

  -- What a call of `track_pool` does.
  pub record Served (s : Pools queue map) (key : TrackKey) (found : Option ℕ) (s' : Pools queue map)
      : Type 0 where
    pub kept : IsPools s'
    pub again : (pool : ℕ) → found ≡ some pool → track_pool queue map s' key ≡ (some pool, s')
    pub refused : found ≡ none → (s' ≡ s) × (length s.heap ≡ max_reusable_keys)
    pub others : (j : TrackKey) → eq key j ≡ false → map.get s'.pools j ≡ map.get s.pools j
    pub known : (pool : ℕ) → map.get s.pools key ≡ some pool → (found ≡ some pool) × (s' ≡ s)

  Served-known :
      (s : Pools queue map) (key : TrackKey) (pool : ℕ)
      → IsPools s
      → map.get s.pools key ≡ some pool
      → Served s key (some pool) s
  unfolding track_pool track_pool_from
  Served-known s key pool x there = record {
    kept = x;
    again = λ p e. (let same : pool ≡ p = cc e in rw there (ap (λ p. (some p, s)) same));
    refused = λ e. cc e;
    others = λ j e. refl;
    known = λ p e. (cc (there, e), refl);
  }

  -- The pools with a new one for `key`.
  abbrev pub added : Pools queue map → TrackKey → Pools queue map
  added s key = record {
    pools = map.insert s.pools key (length s.heap);
    heap = s.heap ++ record { key = key; tracks = queue.new } ∷ [];
    reusable_keys = s.reusable_keys + 1;
  }

  at_limit :
      (s : Pools queue map)
      → IsPools s
      → ltb s.reusable_keys max_reusable_keys ≡ false
      → length s.heap ≡ max_reusable_keys
  at_limit s x full = ground (arith, x.counted, x.bounded)

  below_limit :
      (s : Pools queue map) (key : TrackKey)
      → IsPools s
      → ltb s.reusable_keys max_reusable_keys ≡ true
      → length (added s key).heap ≤ max_reusable_keys
  below_limit s key x room =
      ground
        (arith, x.counted, length-append s.heap (record { key = key; tracks = queue.new } ∷ []))

  Served-new :
      (s : Pools queue map) (key : TrackKey)
      → IsPools s
      → map.get s.pools key ≡ none
      → Served s key (create_vacant queue map s key).0 (create_vacant queue map s key).1
  unfolding create_vacant track_pool track_pool_from
  Served-new s key x missing = elim (Bool-cases (ltb s.reusable_keys max_reusable_keys)) [
    | inl room ↦ rw room (record {
      kept = record {
        counted = omega (
          arith,
          x.counted,
          length-append s.heap (record { key = key; tracks = queue.new } ∷ []),
        );
        bounded = below_limit s key x room;
      };
      again = λ p e.
          (let same : length s.heap ≡ p = cc e in
            rw (map.get-insert s.pools key key (length s.heap))
              (rw (eq_refl key) (ap (λ p. (some p, added s key)) same)));
      refused = λ e. cc e;
      others = λ j e. map.get-insert s.pools key j (length s.heap) ∙ rw e refl;
      known = λ p e. cc (missing, e);
    })
    | inr full ↦ rw full (record {
      kept = x;
      again = λ p e. cc e;
      refused = λ e. (refl, at_limit s x full);
      others = λ j e. refl;
      known = λ p e. cc (missing, e);
    })
  ]

  -- `track_pool` keeps the count of pools right and at most 8192. A key that has a pool gets it, and
  -- nothing changes. A new key gets a pool, which every later call for it returns, unless there are
  -- 8192 pools; then nothing changes. The pools of other keys stay.
  pub track_pool-Served :
      (s : Pools queue map) (key : TrackKey)
      → IsPools s
      → let (found, s') = track_pool queue map s key in Served s key found s'
  unfolding track_pool track_pool_from create_track_pool create_entry
  track_pool-Served s key x = elim (Option-cases (map.get s.pools key)) [
    | inr (pool, there) ↦ rw there (Served-known s key pool x there)
    | inl missing ↦ rw missing (rw missing (Served-new s key x missing))
  ]

  -- The three things that `track_pool` does: it finds a pool, it has no room, or it adds one.
  pub track_pool_cases :
      (s : Pools queue map) (key : TrackKey)
      → ((pool : ℕ) × (map.get s.pools key ≡ some pool)
          × (track_pool queue map s key ≡ (some pool, s)))
        ⊎ (track_pool queue map s key ≡ (none, s))
        ⊎ ((map.get s.pools key ≡ none)
            × (track_pool queue map s key ≡ (some (length s.heap), added s key)))
  unfolding track_pool track_pool_from create_track_pool create_entry create_vacant
  track_pool_cases s key = elim (Option-cases (map.get s.pools key)) [
    | inr (pool, there) ↦ inl (pool, there, rw there refl)
    | inl missing ↦ elim (Bool-cases (ltb s.reusable_keys max_reusable_keys)) [
      | inl room ↦ inr (inr (missing, rw missing (rw missing (rw room refl))))
      | inr full ↦ inr (inl (rw missing (rw missing (rw full refl))))
    ]
  ]
