-- ===== src/Spans/Pools/Instances.antt =====
-- ArrayQueue and the map of the pools (src/span_state.rs) as lists.
use tracing_perfetto_file.Common.{
  ℕ, ◌≡◌, refl, List, [], ◌∷◌, ◌++◌, ltb, true, false, Option, none, some, if◌then◌else◌,
}
use tracing_perfetto_file.Common.Lists.{length}
use tracing_perfetto_file.Spans.Pools.{TrackKey, eq, ArrayQueue, PoolMap}

abbrev pub push_back : List ℕ → ℕ → Option (List ℕ)
push_back q uuid = if ltb (length q) 4 then some (q ++ uuid ∷ []) else none

abbrev pub pop_front : List ℕ → Option (ℕ × List ℕ)
pop_front [] = none
pop_front (uuid ∷ rest) = some (uuid, rest)

pub push_back_fits :
    (q : List ℕ) (uuid : ℕ)
    → ltb (length q) 4 ≡ true
    → (q' : List ℕ) × (push_back q uuid ≡ some q') × (q' ≡ q ++ uuid ∷ [])
push_back_fits q uuid room = (q ++ uuid ∷ [], rw room refl, refl)

pub push_back_full : (q : List ℕ) (uuid : ℕ) → ltb (length q) 4 ≡ false → push_back q uuid ≡ none
push_back_full q uuid full = rw full refl

abbrev pub list_queue : ArrayQueue
list_queue = record {
  Queue = List ℕ;
  new = [];
  push = push_back;
  pop = pop_front;
  contents = λ q. q;
  contents-new = refl;
  push-contents = push_back_fits;
  push-full = push_back_full;
  pop-empty = λ q e. rw e refl;
  pop-contents = λ q uuid rest e. (rest, rw e refl, refl);
}

abbrev pub find_pool : List (TrackKey × ℕ) → TrackKey → Option ℕ
find_pool [] j = none
find_pool ((k, pool) ∷ m) j = if eq k j then some pool else find_pool m j

abbrev pub list_map : PoolMap
list_map = record {
  Map = List (TrackKey × ℕ);
  empty = [];
  get = find_pool;
  insert = λ m k pool. (k, pool) ∷ m;
  get-empty = λ k. refl;
  get-insert = λ m k j pool. refl;
}
