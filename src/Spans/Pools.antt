-- ===== src/Spans/Pools.antt =====
-- src/span_state.rs: the pools of reusable tracks. An `Arc<TrackPool>` is the number of a pool in the
-- order of their creation; the DashMap of the pools and ArrayQueue are interfaces.
pub mod Laws
pub mod Instances
mod Runs
use tracing_perfetto_file.Common.{
  ℕ, ◌+◌, ◌≡◌, ltb, List, [], ◌∷◌, ◌++◌, Bool, true, false, ◌&&◌, Option, none, some, ◌==◌,
  if◌then◌else◌, ◌>>=◌,
}
use tracing_perfetto_file.Common.Lists.{length, get_elem?, set}
use tracing_perfetto_file.Common.Maps.{StaticStr}

abbrev pub max_reusable_keys : ℕ
max_reusable_keys = 8192

pub record TrackKey : Type 0 where
  pub name : StaticStr
  pub parent_uuid : ℕ

-- `TrackKey::eq`: the address and the length of the name, and the parent.
unfoldable pub eq : TrackKey → TrackKey → Bool
eq k other =
    k.name.ptr == other.name.ptr
    && (length k.name.text == length other.name.text && k.parent_uuid == other.parent_uuid)

-- `ArrayQueue<u64>` with four places: a full queue refuses, and the first in is the first out.
pub record ArrayQueue : Type 1 where
  pub Queue : Type 0
  pub new : Queue
  pub push : Queue → ℕ → Option Queue
  pub pop : Queue → Option (ℕ × Queue)
  pub contents : Queue → List ℕ
  pub contents-new : contents new ≡ []
  pub push-contents :
      (q : Queue) (uuid : ℕ)
      → ltb (length (contents q)) 4 ≡ true
      → (q' : Queue) × (push q uuid ≡ some q') × (contents q' ≡ contents q ++ uuid ∷ [])
  pub push-full : (q : Queue) (uuid : ℕ) → ltb (length (contents q)) 4 ≡ false → push q uuid ≡ none
  pub pop-empty : (q : Queue) → contents q ≡ [] → pop q ≡ none
  pub pop-contents :
      (q : Queue) (uuid : ℕ) (rest : List ℕ)
      → contents q ≡ uuid ∷ rest
      → (q' : Queue) × (pop q ≡ some (uuid, q')) × (contents q' ≡ rest)

-- `DashMap<TrackKey, Arc<TrackPool>>`
pub record PoolMap : Type 1 where
  pub Map : Type 0
  pub empty : Map
  pub get : Map → TrackKey → Option ℕ
  pub insert : Map → TrackKey → ℕ → Map
  pub get-empty : (k : TrackKey) → get empty k ≡ none
  pub get-insert :
      (m : Map) (k j : TrackKey) (pool : ℕ)
      → get (insert m k pool) j ≡ (if eq k j then some pool else get m j)

module _ (queue : ArrayQueue) (map : PoolMap) where
  pub record TrackPool : Type 0 where
    pub key : TrackKey
    pub tracks : queue.Queue

  unfoldable pub claim : TrackPool → Option (ℕ × TrackPool)
  claim pool =
      queue.pop pool.tracks >>= λ (uuid, tracks). some (uuid, record pool { tracks = tracks })

  released : TrackPool → Option queue.Queue → TrackPool
  released pool (some tracks) = record pool { tracks = tracks }
  released pool none = pool

  -- A uuid that does not fit is dropped.
  unfoldable pub release : TrackPool → ℕ → TrackPool
  unfolding released
  release pool uuid = released pool (queue.push pool.tracks uuid)

  -- The pools of a SpanStore; `heap` has the pools that were made.
  pub record Pools : Type 0 where
    pub pools : map.Map
    pub heap : List TrackPool
    pub reusable_keys : ℕ

  unfoldable pub new_pools : Pools
  new_pools = record { pools = map.empty; heap = []; reusable_keys = 0 }

  -- The vacant entry: `fetch_update` counts up below the limit.
  pub create_vacant : Pools → TrackKey → Option ℕ × Pools
  create_vacant s key =
      if ltb s.reusable_keys max_reusable_keys
      then (
        some (length s.heap),
        record {
          pools = map.insert s.pools key (length s.heap);
          heap = s.heap ++ record { key = key; tracks = queue.new } ∷ [];
          reusable_keys = s.reusable_keys + 1;
        },
      )
      else (none, s)

  create_entry : Pools → TrackKey → Option ℕ → Option ℕ × Pools
  unfolding create_vacant
  create_entry s key (some pool) = (some pool, s)
  create_entry s key none = create_vacant s key

  create_track_pool : Pools → TrackKey → Option ℕ × Pools
  unfolding create_entry
  create_track_pool s key = create_entry s key (map.get s.pools key)

  track_pool_from : Pools → TrackKey → Option ℕ → Option ℕ × Pools
  unfolding create_track_pool
  track_pool_from s key (some pool) = (some pool, s)
  track_pool_from s key none = create_track_pool s key

  unfoldable pub track_pool : Pools → TrackKey → Option ℕ × Pools
  unfolding track_pool_from
  track_pool s key = track_pool_from s key (map.get s.pools key)
