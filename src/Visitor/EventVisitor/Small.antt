-- ===== src/Visitor/EventVisitor/Small.antt =====
-- The ids that an EventVisitor (src/visitor.rs) takes from its sequence stay `u64`.
use tracing_perfetto_file.Common.{
  ℕ, ◌+◌, ◌%◌, ◌^◌, ◌≡◌, refl, [], ◌∷◌, Bool-cases, inl, inr, Option, none, some, ◌==◌, arith,
}
use tracing_perfetto_file.Common.Lists.{All}
use tracing_perfetto_file.Common.Maps.{PtrMap, StaticStr, get, insert}
use tracing_perfetto_file.Proto.{IsU64}
use tracing_perfetto_file.Sequence.{
  Interner, Entries, SequenceState, intern, intern_found, intern_miss, intern_annotation_name,
  counter_track_uuid,
}

abbrev pub AreSmall : PtrMap ℕ → Type 0
AreSmall m = All (λ entry. IsU64 entry.1) m

pub get_small : (m : PtrMap ℕ) (k v : ℕ) → AreSmall m → get m k ≡ some v → IsU64 v
unfolding get
get_small [] k v h e = cc e
get_small ((j, w) ∷ m) k v (small, h) e = elim (Bool-cases (j == k)) [
  | inl hit ↦
      (let is : some w ≡ some v = (rw hit at e) in let same : w ≡ v = cc is in rw (← same) small)
  | inr miss ↦ get_small m k v h (rw miss at e)
]

insert_small : (m : PtrMap ℕ) (k v : ℕ) → AreSmall m → IsU64 v → AreSmall (insert m k v)
unfolding insert
insert_small [] k v h small = (small, tt)
insert_small ((j, w) ∷ m) k v (first, h) small = elim (Bool-cases (j == k)) [
  | inl hit ↦ rw hit (small, h)
  | inr miss ↦ rw miss (first, insert_small m k v h small)
]

-- All iids that the interner may give are `u64`.
pub record HasSmall (n : Interner) : Type 0 where
  pub known : AreSmall n.map
  pub last : IsU64 n.last_iid

found_small :
    (n : Interner) (s : StaticStr) (pending : Entries) (found : Option ℕ)
    → get n.map s.ptr ≡ found
    → HasSmall n
    → let (iid, n', _) = intern_found n s pending found in IsU64 iid × HasSmall n'
unfolding intern_found intern_miss
found_small n s pending (some iid) e h =
    let small = get_small n.map s.ptr iid h.known e in
    (small, record { known = h.known; last = small })
found_small n s pending none e h =
    let small : IsU64 ((n.next + 1) % 2 ^ 64) = omega arith in
    (
      small,
      record {
        known = insert_small n.map s.ptr ((n.next + 1) % 2 ^ 64) h.known small;
        last = small;
      },
    )

intern_small :
    (n : Interner) (s : StaticStr) (pending : Entries)
    → HasSmall n
    → let (iid, n', _) = intern n s pending in IsU64 iid × HasSmall n'
unfolding intern
intern_small n s pending h = elim (Bool-cases (n.last_key == s.ptr)) [
  | inl hit ↦ rw hit (h.last, h)
  | inr miss ↦ rw miss (found_small n s pending (get n.map s.ptr) refl h)
]

-- The iids of names and the uuids of counter tracks are `u64`.
pub record IsSmall (st : SequenceState) : Type 0 where
  pub names : HasSmall st.annotation_names
  pub tracks : AreSmall st.counter_track_cache

pub intern_annotation_name-IsSmall :
    (st : SequenceState) (name : StaticStr)
    → IsSmall st
    → let (iid, st') = intern_annotation_name st name in IsU64 iid × IsSmall st'
unfolding intern_annotation_name
intern_annotation_name-IsSmall st name h =
    let (small, names) = intern_small st.annotation_names name st.new_annotation_names h.names in
    (small, record { names = names; tracks = h.tracks })

pub counter_track_uuid-IsU64 :
    (st : SequenceState) (name : StaticStr) (uuid : ℕ)
    → IsSmall st
    → counter_track_uuid st name ≡ some uuid
    → IsU64 uuid
unfolding counter_track_uuid
counter_track_uuid-IsU64 st name uuid h e =
    get_small st.counter_track_cache name.ptr uuid h.tracks e
