-- ===== src/Spans.antt =====
-- src/span_state.rs: the store of active spans, with its fast slots and the overflow map, and the
-- pools of reusable tracks. DashMap is an interface; an `Arc<TrackPool>` is the number of a pool. A
-- panic is `none`.
pub mod Slots
pub mod Pools
pub mod Tiers
pub mod Refines
pub mod Instances
mod Runs
use tracing_perfetto_file.Common.{
  ℕ, ◌+◌, ◌-◌, ◌*◌, ◌/◌, ◌%◌, ◌^◌, ◌≡◌, ◌≢◌, bit_and, bit_xor, List, [], ◌∷◌, Bool, true, false,
  not, Option, none, some, ◌==◌, if◌then◌else◌, ◌>>=◌, ◌>>◌, guard,
}
use tracing_perfetto_file.Common.Lists.{get_elem?, set, replicate}
use tracing_perfetto_file.Runtime.{RetainedSpanData}

pub record SpanData : Type 0 where
  pub track_pool : Option ℕ
  pub track_uuid : Option ℕ
  pub retained : Option RetainedSpanData

-- `SpanData::new`
pub new_span : Option RetainedSpanData → SpanData
new_span retained = record { track_pool = none; track_uuid = none; retained = retained }

-- `StoreHasher::write_u64`: the new state of the hasher.
pub write_u64 : ℕ → ℕ → ℕ
write_u64 state value =
    let mixed = (bit_xor state value + 0x9e37_79b9_7f4a_7c15) % 2 ^ 64 in
    let mixed' = bit_xor mixed (mixed / 2 ^ 30) * 0xbf58_476d_1ce4_e5b9 % 2 ^ 64 in
    bit_xor mixed' (mixed' / 2 ^ 31)

abbrev pub fast_shards : ℕ
fast_shards = 8

abbrev pub fast_slots : ℕ
fast_slots = 4

pub record ActiveEntry : Type 0 where
  pub span_id : ℕ
  pub span_data : SpanData

-- The four slots of a shard.
abbrev pub ActiveSlots : Type 0
ActiveSlots = List (Option ActiveEntry)

-- `Result<(), SpanData>`, with the slots on `Ok`.
pub data Inserted : Type 0 where
  ok : ActiveSlots → Inserted
  err : SpanData → Inserted

abbrev behind : Option ActiveEntry → Inserted → Inserted
behind slot (ok slots) = ok (slot ∷ slots)
behind slot (err span) = err span

-- `ActiveSlots::insert`. Panics if the id is zero and a slot is free.
pub insert_slot : ActiveSlots → ℕ → SpanData → Option Inserted
insert_slot [] span_id span = some (err span)
insert_slot (none ∷ slots) span_id span =
    guard (not (span_id == 0))
    >> some (ok (some (record { span_id = span_id; span_data = span }) ∷ slots))
insert_slot (some entry ∷ slots) span_id span =
    insert_slot slots span_id span >>= λ r. some (behind (some entry) r)

-- `ActiveSlots::index`, from index `i`.
pub index_from : ℕ → ActiveSlots → ℕ → Option ℕ
index_from i [] span_id = none
index_from i (none ∷ slots) span_id = index_from (i + 1) slots span_id
index_from i (some entry ∷ slots) span_id =
    if entry.span_id == span_id then some i else index_from (i + 1) slots span_id

pub index : ActiveSlots → ℕ → Option ℕ
unfolding index_from
index slots span_id = index_from 0 slots span_id

-- What stands in slot `i`.
abbrev pub slot_at : ActiveSlots → Option ℕ → Option ActiveEntry
slot_at slots none = none
slot_at slots (some i) = get_elem? slots i >>= λ slot. slot

-- `self.entries[index].take()?`
take_at : ActiveSlots → Option ℕ → Option (SpanData × ActiveSlots)
take_at slots none = none
take_at slots (some i) =
    slot_at slots (some i) >>= λ entry. some (entry.span_data, set slots i none)

-- `ActiveSlots::take`, with the slots behind it.
pub take_slot : ActiveSlots → ℕ → Option (SpanData × ActiveSlots)
unfolding take_at index
take_slot slots span_id = take_at slots (index slots span_id)

-- `DashMap<u64, V>`; `get_mut` changes the value behind a `RefMut`.
pub record DashMap (V : Type 0) : Type 1 where
  pub Map : Type 0
  pub empty : Map
  pub get : Map → ℕ → Option V
  pub insert : Map → ℕ → V → Map
  pub remove : Map → ℕ → Option (V × Map)
  pub get_mut : Map → ℕ → (V → V) → Option Map
  pub get-empty : (k : ℕ) → get empty k ≡ none
  pub get-insert_same : (m : Map) (k : ℕ) (v : V) → get (insert m k v) k ≡ some v
  pub get-insert_other : (m : Map) (k j : ℕ) (v : V) → j ≢ k → get (insert m k v) j ≡ get m j
  pub remove-absent : (m : Map) (k : ℕ) → get m k ≡ none → remove m k ≡ none
  pub remove-present :
      (m : Map) (k : ℕ) (v : V)
      → get m k ≡ some v
      → (m' : Map) × (remove m k ≡ some (v, m'))
        × (get m' k ≡ none)
        × ((j : ℕ) → j ≢ k → get m' j ≡ get m j)
  pub get_mut-absent : (m : Map) (k : ℕ) (f : V → V) → get m k ≡ none → get_mut m k f ≡ none
  pub get_mut-present :
      (m : Map) (k : ℕ) (f : V → V) (v : V)
      → get m k ≡ some v
      → (m' : Map) × (get_mut m k f ≡ some m')
        × (get m' k ≡ some (f v))
        × ((j : ℕ) → j ≢ k → get m' j ≡ get m j)

-- The entry in slot `i` with its data changed.
change_at : ActiveSlots → ℕ → (SpanData → SpanData) → Option ActiveSlots
change_at slots i change = slot_at slots (some i) >>= λ entry.
    some (set slots i (some (record entry { span_data = change entry.span_data })))

-- `SpanStore::active_shard`
pub active_shard : ℕ → ℕ
active_shard span_id =
    let mixed = (span_id + 0x9e37_79b9_7f4a_7c15) % 2 ^ 64 in
    let mixed' = bit_xor mixed (mixed / 2 ^ 30) * 0xbf58_476d_1ce4_e5b9 % 2 ^ 64 in
    bit_and (bit_xor mixed' (mixed' / 2 ^ 27)) (fast_shards - 1)

module _ (map : DashMap SpanData) where
  pub record SpanStore : Type 0 where
    pub active : List ActiveSlots
    pub overflow : map.Map

  pub new_store : SpanStore
  new_store = record {
    active = replicate fast_shards (replicate fast_slots none);
    overflow = map.empty;
  }

  -- The `match` on the result of the slots' `insert`.
  insert_into : SpanStore → ℕ → ℕ → Inserted → SpanStore
  insert_into s shard span_id (ok slots) = record s { active = set s.active shard slots }
  insert_into s shard span_id (err span) = record s {
    overflow = map.insert s.overflow span_id span;
  }

  pub insert : SpanStore → ℕ → SpanData → Option SpanStore
  unfolding insert_into
  insert s span_id span =
      let shard = active_shard span_id in
      get_elem? s.active shard >>= λ slots.
      insert_slot slots span_id span >>= λ r. some (insert_into s shard span_id r)

  -- The data behind a `SpanRef`: `some none` is an absent span.
  get_from : SpanStore → ActiveSlots → ℕ → Option ℕ → Option SpanData
  get_from s slots span_id (some i) = slot_at slots (some i) >>= λ entry. some entry.span_data
  get_from s slots span_id none = map.get s.overflow span_id

  pub get : SpanStore → ℕ → Option (Option SpanData)
  unfolding get_from
  get s span_id = get_elem? s.active (active_shard span_id) >>= λ slots.
      some (get_from s slots span_id (index slots span_id))

  take_from : SpanStore → ℕ → ℕ → Option (SpanData × ActiveSlots) → Option (SpanData × SpanStore)
  take_from s shard span_id (some (span, slots)) =
      some (span, record s { active = set s.active shard slots })
  take_from s shard span_id none = map.remove s.overflow span_id >>= λ (span, overflow).
      some (span, record s { overflow = overflow })

  -- `some none` is an absent span.
  pub take : SpanStore → ℕ → Option (Option (SpanData × SpanStore))
  unfolding take_from
  take s span_id =
      let shard = active_shard span_id in
      get_elem? s.active shard >>= λ slots.
      some (take_from s shard span_id (take_slot slots span_id))

  change_in : SpanStore → ℕ → ActiveSlots → (SpanData → SpanData) → Option ℕ → Option SpanStore
  change_in s span_id slots change (some i) = change_at slots i change >>= λ slots.
      some (record s { active = set s.active (active_shard span_id) slots })
  change_in s span_id slots change none =
      map.get_mut s.overflow span_id change >>= λ overflow. some (record s { overflow = overflow })

  -- What the code does with a `SpanRefMut` is `change`; `some none` is an absent span.
  pub get_mut : SpanStore → ℕ → (SpanData → SpanData) → Option (Option SpanStore)
  unfolding change_in
  get_mut s span_id change = get_elem? s.active (active_shard span_id) >>= λ slots.
      some (change_in s span_id slots change (index slots span_id))
