-- ===== src/Thread/Tracks/Slots.antt =====
-- The slots of a thread's cache of track pools (src/thread.rs): well-formedness, and the replacement
-- of a slot.
use tracing_perfetto_file.Common.{
  ℕ, zero, suc, ◌+◌, ◌%◌, ◌<◌, ◌≡◌, refl, sym, ◌∙◌, ap, subst, List, [], ◌∷◌, true, Option, none,
  some, >>=-eq-some, arith,
}
use tracing_perfetto_file.Common.Lists.{length, get_elem?, set, All}
use tracing_perfetto_file.Common.Sums.{All-set, All-get}
use tracing_perfetto_file.Common.Indexed.{get_elem?_within, length-set}
use tracing_perfetto_file.Spans.Pools.{TrackKey, eq, ArrayQueue, PoolMap, TrackPool, Pools}
use tracing_perfetto_file.Thread.Tracks.{
  CachedTrackPool, Cached, Tracks, release_local, release_old, replace_track_pool,
}
use tracing_perfetto_file.Thread.Tracks.Weights.{
  cached_weight, weight_of, lost_weight, heap_weight, key_at, PoolFor, IsFull, Keeps, Keeps-refl,
  release_pool_lem,
}

pub eq_trans : (a b c : TrackKey) → eq a b ≡ true → eq b c ≡ true → eq a c ≡ true
unfolding eq
eq_trans a b c p q = ground arith

cached_weight-set :
    (w : ℕ → ℕ → ℕ) (slots : Cached) (i : ℕ) (old : Option CachedTrackPool)
    (cached : CachedTrackPool)
    → get_elem? slots i ≡ some old
    → cached_weight w (set slots i (some cached)) + cached_weight w (old ∷ [])
      ≡ cached_weight w slots + weight_of (w cached.pool) cached.local_uuid
cached_weight-set w [] i old cached h = cc h
cached_weight-set w (none ∷ slots) zero none cached h = omega arith
cached_weight-set w (none ∷ slots) zero (some o) cached h = cc h
cached_weight-set w (some c ∷ slots) zero none cached h = cc h
cached_weight-set w (some c ∷ slots) zero (some o) cached h =
    let same : c ≡ o = cc h in
    let weighs : weight_of (w c.pool) c.local_uuid ≡ weight_of (w o.pool) o.local_uuid =
      ap (λ o. weight_of (w o.pool) o.local_uuid) same in
    omega (arith, weighs)
cached_weight-set w (none ∷ slots) (suc i) old cached h =
    omega (arith, cached_weight-set w slots i old cached h)
cached_weight-set w (some c ∷ slots) (suc i) old cached h =
    omega (arith, cached_weight-set w slots i old cached h)

module _ (queue : ArrayQueue) (map : PoolMap) where
  -- A slot has the pool of its key.
  abbrev pub IsSlot : List (TrackPool queue map) → Option CachedTrackPool → Type 0
  IsSlot heap none = Unit {0}
  IsSlot heap (some cached) = PoolFor queue map heap cached.key cached.pool

  pub record IsTracks (s : Pools queue map) (t : Tracks) : Type 0 where
    pub eight : length t.track_pools ≡ 8
    pub within : t.next_track_pool < 8
    pub slots : All (IsSlot s.heap) t.track_pools

  -- Every pool in the map is that of its key.
  abbrev pub Agrees : Pools queue map → Type 0
  Agrees s =
      (key : TrackKey) (p : ℕ) → map.get s.pools key ≡ some p → PoolFor queue map s.heap key p

  -- What a step does to the store: pools are only added.
  pub record Grows (s s' : Pools queue map) : Type 0 where
    pub kept :
        (q : ℕ) (k : TrackKey)
        → key_at queue map s.heap q ≡ some k
        → key_at queue map s'.heap q ≡ some k
    pub agrees : Agrees s'

  pub Grows-trans : {r s t : Pools queue map} → Grows r s → Grows s t → Grows r t
  Grows-trans a b = record { kept = λ q k e. b.kept q k (a.kept q k e); agrees = b.agrees }

  pub Keeps-Grows : {s s' : Pools queue map} → Agrees s → Keeps queue map s s' → Grows s s'
  Keeps-Grows a k = record {
    kept = λ q key e. k.same_keys q ∙ e;
    agrees = λ key p e.
        let (found, at, same) = a key p (sym (ap (λ m. map.get m key) k.same_map) ∙ e) in
        (found, k.same_keys p ∙ at, same);
  }

  pub PoolFor-Grows :
      {s s' : Pools queue map} (key : TrackKey) (p : ℕ)
      → Grows s s'
      → PoolFor queue map s.heap key p
      → PoolFor queue map s'.heap key p
  PoolFor-Grows key p g (k, at, same) = (k, g.kept p k at, same)

  pub slots-Grows :
      {s s' : Pools queue map} (slots : Cached)
      → Grows s s'
      → All (IsSlot s.heap) slots
      → All (IsSlot s'.heap) slots
  slots-Grows [] g x = tt
  slots-Grows (none ∷ slots) g (a, x) = (tt, slots-Grows slots g x)
  slots-Grows (some c ∷ slots) g (a, x) = (PoolFor-Grows c.key c.pool g a, slots-Grows slots g x)

  pub pool_there :
      (heap : List (TrackPool queue map)) (key : TrackKey) (p : ℕ)
      → PoolFor queue map heap key p
      → (pool : TrackPool queue map) × (get_elem? heap p ≡ some pool) × (eq pool.key key ≡ true)
  pool_there heap key p (k, at, same) =
      let (pool, there, is) = >>=-eq-some (get_elem? heap p) (λ pool. some pool.key) at in
      let keys : pool.key ≡ k = cc is in (pool, there, subst (λ k. eq k key ≡ true) (sym keys) same)

  -- What may be lost: a uuid of a pool whose queue has no place.
  pub record Loses (lost : Option (ℕ × ℕ)) (s s' : Pools queue map) (before after : (ℕ → ℕ → ℕ) → ℕ)
      : Type 0 where
    pub grows : Grows s s'
    pub weighs :
        (w : ℕ → ℕ → ℕ)
        → lost_weight w lost + (after w + heap_weight queue map w s'.heap)
          ≡ before w + heap_weight queue map w s.heap
    pub full : (q v : ℕ) → lost ≡ some (q, v) → IsFull queue map s'.heap q

  pub release_old_lem :
      (s : Pools queue map) (old : Option CachedTrackPool)
      → Agrees s
      → IsSlot s.heap old
      → (lost : Option (ℕ × ℕ)) × (s' : Pools queue map) × (release_old queue map s old ≡ some s')
        × Loses lost s s' (λ w. cached_weight w (old ∷ [])) (λ w. 0)
  unfolding release_old release_local
  release_old_lem s none a h = (
    none,
    s,
    refl,
    record {
      grows = Keeps-Grows a (Keeps-refl queue map s);
      weighs = λ w. omega arith;
      full = λ q v e. cc e;
    },
  )
  release_old_lem s (some old) a h = by_local s old old.local_uuid refl a h
    where
      by_local :
          (s : Pools queue map) (old : CachedTrackPool) (uuid : Option ℕ)
          → old.local_uuid ≡ uuid
          → Agrees s
          → PoolFor queue map s.heap old.key old.pool
          → (lost : Option (ℕ × ℕ)) × (s' : Pools queue map) × (release_local queue map s old.pool
                uuid
              ≡ some s')
            × Loses lost s s' (λ w. weight_of (w old.pool) uuid + 0) (λ w. 0)
      by_local s old none e a h = (
        none,
        s,
        refl,
        record {
          grows = Keeps-Grows a (Keeps-refl queue map s);
          weighs = λ w. omega arith;
          full = λ q v e. cc e;
        },
      )
      by_local s old (some uuid) e a h =
          let (pool, there, same) = pool_there s.heap old.key old.pool h in
          let (lost, s', e, r) = release_pool_lem queue map s old.pool uuid pool there in
          (
            lost,
            s',
            e,
            record {
              grows = Keeps-Grows a r.keeps;
              weighs = λ w. omega (arith, r.weighs w);
              full = r.full;
            },
          )

  -- The slot that is next gets the pool, with a local uuid or none; what it had goes to its pool.
  pub replace_lem :
      (t : Tracks) (key : TrackKey) (pool : ℕ) (uuid : Option ℕ) (s : Pools queue map)
      → IsTracks s t
      → Agrees s
      → PoolFor queue map s.heap key pool
      → (lost : Option (ℕ × ℕ)) × (t' : Tracks) × (s' : Pools queue map) × (replace_track_pool queue
            map t key pool uuid s
          ≡ some (t', s'))
        × IsTracks s' t'
        × Loses lost s s'
            (λ w. cached_weight w t.track_pools + weight_of (w pool) uuid)
            (λ w. cached_weight w t'.track_pools)
  unfolding replace_track_pool
  replace_lem t key pool uuid s x a h =
      let (old, there) =
        get_elem?_within t.track_pools t.next_track_pool (omega (arith, x.within, x.eight)) in
      let (lost, s', e, r) =
        release_old_lem s old a
          (All-get (IsSlot s.heap) t.track_pools t.next_track_pool old there x.slots) in
      let cached : CachedTrackPool = record { key = key; pool = pool; local_uuid = uuid } in
      let slots' = set t.track_pools t.next_track_pool (some cached) in
      (
        lost,
        record {
          track_pools = slots';
          next_track_pool = (t.next_track_pool + 1) % length t.track_pools;
        },
        s',
        rw there (rw e refl),
        record {
          eight = length-set t.track_pools t.next_track_pool (some cached) ∙ x.eight;
          within = rw x.eight (omega arith);
          slots =
              All-set (IsSlot s'.heap) t.track_pools t.next_track_pool (some cached)
                (PoolFor-Grows key pool r.grows h) (slots-Grows t.track_pools r.grows x.slots);
        },
        record {
          grows = r.grows;
          weighs = λ w. omega (
            arith,
            r.weighs w,
            cached_weight-set w t.track_pools t.next_track_pool old cached there,
          );
          full = r.full;
        },
      )
