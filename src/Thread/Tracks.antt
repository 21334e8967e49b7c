-- ===== src/Thread/Tracks.antt =====
-- src/thread.rs: the cache of track pools that a thread has. An `Arc<TrackPool>` is the number of the
-- pool in the heap of Spans/Pools; `none` is a number without a pool, which no Arc is.
pub mod Weights
pub mod Slots
pub mod Stored
pub mod Conserved
pub mod Released
use tracing_perfetto_file.Common.{
  ℕ, ◌+◌, ◌%◌, List, [], ◌∷◌, Bool, true, false, Option, none, some, ◌==◌, if◌then◌else◌, ◌>>=◌,
}
use tracing_perfetto_file.Common.Lists.{length, get_elem?, set, replicate}
use tracing_perfetto_file.Spans.Pools.{
  TrackKey, eq, ArrayQueue, PoolMap, TrackPool, claim, release, Pools, track_pool,
}

pub record CachedTrackPool : Type 0 where
  pub key : TrackKey
  pub pool : ℕ
  pub local_uuid : Option ℕ

pub record ClaimedTrack : Type 0 where
  pub pool : ℕ
  pub uuid : Option ℕ

abbrev pub Cached : Type 0
Cached = List (Option CachedTrackPool)

-- The fields `track_pools` and `next_track_pool` of a ThreadCtx.
pub record Tracks : Type 0 where
  pub track_pools : Cached
  pub next_track_pool : ℕ

unfoldable pub new_tracks : Tracks
new_tracks = record { track_pools = replicate 8 none; next_track_pool = 0 }

module _ (queue : ArrayQueue) (map : PoolMap) where
  claimed_from :
      Pools queue map
      → ℕ
      → TrackPool queue map
      → Option (ℕ × TrackPool queue map)
      → Option ℕ × Pools queue map
  claimed_from s p pool (some (uuid, pool')) = (some uuid, record s { heap = set s.heap p pool' })
  claimed_from s p pool none = (none, s)

  -- `pool.claim()`
  unfoldable pub claim_pool : Pools queue map → ℕ → Option (Option ℕ × Pools queue map)
  unfolding claimed_from
  claim_pool s p =
      get_elem? s.heap p >>= λ pool. some (claimed_from s p pool (claim queue map pool))

  -- `pool.release(uuid)`
  unfoldable pub release_pool : Pools queue map → ℕ → ℕ → Option (Pools queue map)
  release_pool s p uuid = get_elem? s.heap p >>= λ pool.
      some (record s { heap = set s.heap p (release queue map pool uuid) })

  -- A slot that the loops pass by.
  abbrev passed :
      Option CachedTrackPool
      → ClaimedTrack × Cached × Pools queue map
      → ClaimedTrack × Cached × Pools queue map
  passed slot (claimed, slots, s) = (claimed, slot ∷ slots, s)

  abbrev pass :
      Option CachedTrackPool
      → Option (ClaimedTrack × Cached × Pools queue map)
      → Option (ClaimedTrack × Cached × Pools queue map)
  pass slot none = none
  pass slot (some r) = some (passed slot r)

  -- The slot with the key: its local uuid, or one of the pool.
  claim_cached :
      CachedTrackPool
      → Cached
      → Pools queue map
      → Option ℕ
      → Option (Option (ClaimedTrack × Cached × Pools queue map))
  claim_cached cached slots s (some uuid) = some (
      some (
        record { pool = cached.pool; uuid = some uuid },
        some (record cached { local_uuid = none }) ∷ slots,
        s,
      ))
  claim_cached cached slots s none = claim_pool s cached.pool >>= λ (uuid, s). some (
      some (
        record { pool = cached.pool; uuid = uuid },
        some (record cached { local_uuid = none }) ∷ slots,
        s,
      ))

  -- The loop of `claim_track`; `some none` if no slot has the key.
  claim_slots :
      Cached
      → TrackKey
      → Pools queue map
      → Option (Option (ClaimedTrack × Cached × Pools queue map))
  unfolding claim_cached
  claim_slots [] key s = some none
  claim_slots (none ∷ slots) key s = claim_slots slots key s >>= λ r. some (pass none r)
  claim_slots (some cached ∷ slots) key s =
      let rest = claim_slots slots key s >>= λ r. some (pass (some cached) r) in
      if eq cached.key key then claim_cached cached slots s cached.local_uuid else rest

  -- `if let Some(old) = … && let Some(uuid) = old.local_uuid { old.pool.release(uuid) }`
  release_local : Pools queue map → ℕ → Option ℕ → Option (Pools queue map)
  release_local s p (some uuid) = release_pool s p uuid
  release_local s p none = some s

  pub release_old : Pools queue map → Option CachedTrackPool → Option (Pools queue map)
  unfolding release_local
  release_old s (some old) = release_local s old.pool old.local_uuid
  release_old s none = some s

  unfoldable pub replace_track_pool :
      Tracks → TrackKey → ℕ → Option ℕ → Pools queue map → Option (Tracks × Pools queue map)
  unfolding release_old
  replace_track_pool t key pool uuid s =
      let slot = t.next_track_pool in
      get_elem? t.track_pools slot >>= λ old. release_old s old >>= λ s. some (
        record {
          track_pools =
              set t.track_pools slot (some (record { key = key; pool = pool; local_uuid = uuid }));
          next_track_pool = (slot + 1) % length t.track_pools;
        },
        s,
      )

  -- Behind the loop: the pool of the store.
  claim_stored :
      Tracks
      → TrackKey
      → Option ℕ × Pools queue map
      → Option (Option ClaimedTrack × Tracks × Pools queue map)
  unfolding replace_track_pool
  claim_stored t key (none, s) = some (none, t, s)
  claim_stored t key (some pool, s) = claim_pool s pool >>= λ (uuid, s).
      replace_track_pool t key pool none s >>= λ (t, s).
      some (some (record { pool = pool; uuid = uuid }), t, s)

  claim_found :
      Tracks
      → TrackKey
      → Pools queue map
      → Option (ClaimedTrack × Cached × Pools queue map)
      → Option (Option ClaimedTrack × Tracks × Pools queue map)
  unfolding claim_stored
  claim_found t key s (some (claimed, slots, s')) =
      some (some claimed, record t { track_pools = slots }, s')
  claim_found t key s none = claim_stored t key (track_pool queue map s key)

  unfoldable pub claim_track :
      Tracks → TrackKey → Pools queue map → Option (Option ClaimedTrack × Tracks × Pools queue map)
  unfolding claim_found claim_slots
  claim_track t key s = claim_slots t.track_pools key s >>= λ found. claim_found t key s found

  abbrev pass_slot :
      Option CachedTrackPool → Option (Cached × Pools queue map) → Option (Cached × Pools queue map)
  pass_slot slot none = none
  pass_slot slot (some (slots, s)) = some (slot ∷ slots, s)

  -- The slot with the pool: the uuid stays there, or goes back to the pool.
  release_cached :
      CachedTrackPool
      → Cached
      → ℕ
      → Pools queue map
      → Option ℕ
      → Option (Option (Cached × Pools queue map))
  release_cached cached slots uuid s none =
      some (some (some (record cached { local_uuid = some uuid }) ∷ slots, s))
  release_cached cached slots uuid s (some old) =
      release_pool s cached.pool uuid >>= λ s. some (some (some cached ∷ slots, s))

  -- The loop of `release_track`; `Arc::ptr_eq` compares the numbers.
  release_slots : Cached → ℕ → ℕ → Pools queue map → Option (Option (Cached × Pools queue map))
  unfolding release_cached
  release_slots [] pool uuid s = some none
  release_slots (none ∷ slots) pool uuid s =
      release_slots slots pool uuid s >>= λ r. some (pass_slot none r)
  release_slots (some cached ∷ slots) pool uuid s =
      let rest = release_slots slots pool uuid s >>= λ r. some (pass_slot (some cached) r) in
      if cached.pool == pool then release_cached cached slots uuid s cached.local_uuid else rest

  release_found :
      Tracks
      → ℕ
      → ℕ
      → Pools queue map
      → Option (Cached × Pools queue map)
      → Option (Tracks × Pools queue map)
  unfolding replace_track_pool
  release_found t pool uuid s (some (slots, s')) = some (record t { track_pools = slots }, s')
  release_found t pool uuid s none =
      get_elem? s.heap pool >>= λ p. replace_track_pool t p.key pool (some uuid) s

  unfoldable pub release_track :
      Tracks → ℕ → ℕ → Pools queue map → Option (Tracks × Pools queue map)
  unfolding release_found release_slots
  release_track t pool uuid s =
      release_slots t.track_pools pool uuid s >>= λ found. release_found t pool uuid s found

  -- The loop of `Drop for ThreadCtx`: each local uuid goes back to its pool.
  unfoldable pub drop_slots : Cached → Pools queue map → Option (Pools queue map)
  unfolding release_old
  drop_slots [] s = some s
  drop_slots (slot ∷ slots) s = release_old s slot >>= λ s. drop_slots slots s
