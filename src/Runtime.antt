-- ===== src/Runtime.antt =====
-- src/runtime.rs: the values and counters that the layer's threads share. An atomic is the number
-- or Boolean that it holds; each operation on it is one step. The writer, the recorded error and
-- the queues of `Inner` stand in Runtime/Output, the span store in Spans.
pub mod Output
pub mod Draws
pub mod Ids
mod Runs
use tracing_perfetto_file.Common.{
  ℕ, zero, suc, ◌≡◌, refl, ◌+◌, ◌*◌, ◌/◌, ◌%◌, ◌^◌, bit_xor, List, [], ◌∷◌, Bool, true, false, not,
  Option, none, some, ◌==◌, if◌then◌else◌, ◌>>=◌, max,
}
use tracing_perfetto_file.Common.Int.{ℤ}
use tracing_perfetto_file.Common.Maps.{PtrMap, StaticStr, get, insert}
use tracing_perfetto_file.Layer.{Config}

abbrev pub u64_mod : ℕ
u64_mod = 2 ^ 64

pub data FieldValue : Type 0 where
  bool : Bool → FieldValue
  i64 : ℤ → FieldValue
  u64 : ℕ → FieldValue
  -- the bits of the float
  f64 : ℕ → FieldValue
  str : List ℕ → FieldValue

pub data PendingFlow : Type 0 where
  start terminate : ℕ → PendingFlow

pub record RetainedSpanData : Type 0 where
  pub fields : List (StaticStr × FieldValue)
  pub pending_flows : List PendingFlow
  pub poll_flow_id : Option ℕ

-- `RetainedSpanData::default()`
abbrev pub default_retained : RetainedSpanData
default_retained = record { fields = []; pending_flows = []; poll_flow_id = none }

pub clear : RetainedSpanData → RetainedSpanData
clear r = record r { fields = []; pending_flows = []; poll_flow_id = none }

-- `PtrHasher::write_usize`: the new state of the hasher. The old one is not read.
pub write_usize : ℕ → ℕ
write_usize value =
    let mixed = (value + 0x9e37_79b9_7f4a_7c15) % u64_mod in
    let mixed' = bit_xor mixed (mixed / 2 ^ 30) * 0xbf58_476d_1ce4_e5b9 % u64_mod in
    bit_xor mixed' (mixed' / 2 ^ 31)

-- `PtrHasher::write`
pub write : ℕ → List ℕ → ℕ
write state [] = state
write state (byte ∷ bytes) = write (bit_xor state byte * 0x100_0000_01b3 % u64_mod) bytes

-- The counters and flags of `Inner`.
pub record Inner : Type 0 where
  pub id : ℕ
  pub counter_tracks : PtrMap ℕ
  pub next_sequence_id : ℕ
  pub next_uuid : ℕ
  pub next_flow_id : ℕ
  pub has_follows_from : Bool
  pub next_tid_offset : ℕ
  pub process_track : Option ℕ
  pub process_desc_emitted : Bool
  pub config : Config

-- `Inner::new`: `uuid_base` and `flow_id_base` are random `u64` hashes, `sequence_hash` a third.
pub new : (id uuid_base flow_id_base sequence_hash : ℕ) → Config → Inner
new id uuid_base flow_id_base sequence_hash config = record {
  id = id;
  counter_tracks = [];
  next_sequence_id = max (sequence_hash % 2 ^ 32) 0x0001_0000;
  next_uuid = uuid_base;
  next_flow_id = flow_id_base;
  has_follows_from = false;
  next_tid_offset = 0;
  process_track = none;
  process_desc_emitted = false;
  config = config;
}

-- The loop over `fetch_add` in `alloc_uuid` and `alloc_flow_id`: the id, and the counter behind it.
-- The fuel runs out (`none`) only below two rounds, since one value of the counter is zero.
unfoldable pub fetch_nonzero : ℕ → ℕ → Option (ℕ × ℕ)
fetch_nonzero zero next = none
fetch_nonzero (suc fuel) next =
    let again = fetch_nonzero fuel ((next + 1) % u64_mod) in
    if next == 0 then again else some (next, (next + 1) % u64_mod)

unfoldable pub alloc_uuid : Inner → Option (ℕ × Inner)
alloc_uuid inner = fetch_nonzero 2 inner.next_uuid >>= λ (uuid, next).
    some (uuid, record inner { next_uuid = next })

unfoldable pub alloc_flow_id : Inner → Option (ℕ × Inner)
alloc_flow_id inner = fetch_nonzero 2 inner.next_flow_id >>= λ (id, next).
    some (id, record inner { next_flow_id = next })

unfoldable pub note_follows_from : Inner → Inner
note_follows_from inner = record inner { has_follows_from = true }

unfoldable pub alloc_sequence_id : Inner → ℕ × Inner
alloc_sequence_id inner = (
  inner.next_sequence_id,
  record inner { next_sequence_id = (inner.next_sequence_id + 1) % 2 ^ 32 },
)

-- The sum wraps, as it does in a release build.
pub alloc_tid : ℕ → Inner → ℕ × Inner
alloc_tid process_id inner = (
  (process_id + inner.next_tid_offset) % u64_mod,
  record inner { next_tid_offset = (inner.next_tid_offset + 1) % u64_mod },
)

process_track_uuid_from : Inner → Option ℕ → Option (ℕ × Inner)
process_track_uuid_from inner (some uuid) = some (uuid, inner)
process_track_uuid_from inner none =
    alloc_uuid inner >>= λ (uuid, inner'). some (uuid, record inner' { process_track = some uuid })

pub process_track_uuid : Inner → Option (ℕ × Inner)
unfolding process_track_uuid_from
process_track_uuid inner = process_track_uuid_from inner inner.process_track

pub claim_process_descriptor : Inner → Bool × Inner
claim_process_descriptor inner =
    (not inner.process_desc_emitted, record inner { process_desc_emitted = true })

pub counter_track_uuid_from : Inner → ℕ → Option ℕ → Option (ℕ × Inner)
counter_track_uuid_from inner key (some uuid) = some (uuid, inner)
counter_track_uuid_from inner key none = alloc_uuid inner >>= λ (uuid, inner').
    some (uuid, record inner' { counter_tracks = insert inner'.counter_tracks key uuid })

pub counter_track_uuid : Inner → ℕ → Option (ℕ × Inner)
unfolding counter_track_uuid_from
counter_track_uuid inner key = counter_track_uuid_from inner key (get inner.counter_tracks key)

-- Cleared data is that of a new span.
pub clear_lem : (r : RetainedSpanData) → clear r ≡ default_retained
unfolding clear
clear_lem r = refl
