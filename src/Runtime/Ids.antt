-- ===== src/Runtime/Ids.antt =====
-- The ids of src/runtime.rs: never zero, and distinct until a counter has gone round.
use tracing_perfetto_file.Common.{
  ℕ, zero, suc, ◌<◌, ◌≡◌, refl, ◌≢◌, inl, inr, List, [], ◌∷◌, Option, none, some, arith, ◌==◌,
  Bool-cases, ◌>>=◌, >>=-eq-some, subst,
}
use tracing_perfetto_file.Common.Lists.{All, length}
use tracing_perfetto_file.Common.Maps.{PtrMap, get, insert, get-insert_same, get-insert_other}
use tracing_perfetto_file.Runtime.{
  Inner, u64_mod, fetch_nonzero, alloc_uuid, counter_track_uuid, counter_track_uuid_from,
}
use tracing_perfetto_file.Runtime.Draws.{
  fetch_nonzero-Drew, draws, Distinct, at_step, draws-Distinct,
}

-- `n` calls of `alloc_uuid`, with the counter left by one in front of the next.
unfoldable pub alloc_uuids : ℕ → Inner → Option (List ℕ × Inner)
alloc_uuids zero inner = some ([], inner)
alloc_uuids (suc n) inner = alloc_uuid inner >>= λ (uuid, inner').
    alloc_uuids n inner' >>= λ (uuids, inner''). some (uuid ∷ uuids, inner'')

-- The calls draw from the counter `next_uuid`.
alloc_uuids-draws :
    (n : ℕ) (inner : Inner) (ids : List ℕ)
    → draws n inner.next_uuid ≡ some ids
    → (inner' : Inner) × (alloc_uuids n inner ≡ some (ids, inner'))
unfolding draws alloc_uuids alloc_uuid
alloc_uuids-draws zero inner ids h = (inner, cc h)
alloc_uuids-draws (suc n) inner ids h =
    let (drawn, e, rest) = >>=-eq-some (fetch_nonzero 2 inner.next_uuid) _ h in
    let (ids', e', final) = >>=-eq-some (draws n drawn.1) _ rest in
    let (inner', k) = alloc_uuids-draws n (record inner { next_uuid = drawn.1 }) ids' e' in
    (inner', rw e (rw k (cc final)))

-- With the counter below `u64_mod`: up to `u64_mod - 1` calls of `alloc_uuid` all return, with track uuids that are not zero and that
-- differ from one another, wherever the random start of the counter lies.
pub alloc_uuids-Distinct :
    (n : ℕ) (inner : Inner)
    → inner.next_uuid < u64_mod
    → n < u64_mod
    → (uuids : List ℕ) × (inner' : Inner) × (alloc_uuids n inner ≡ some (uuids, inner'))
      × (length uuids ≡ n)
      × All (λ uuid. uuid ≢ 0) uuids
      × Distinct uuids
alloc_uuids-Distinct n inner h room =
    let (uuids, drawn, from, nonzero, distinct, len) =
      draws-Distinct n inner.next_uuid 0 h (inl (omega arith)) in
    let start : at_step inner.next_uuid 0 ≡ inner.next_uuid = omega arith in
    let (inner', e) =
      alloc_uuids-draws n inner uuids (subst (λ k. draws n k ≡ some uuids) start drawn) in
    (uuids, inner', e, len, nonzero, distinct)

get-nonzero : (m : PtrMap ℕ) (k v : ℕ) → All (λ entry. entry.1 ≢ 0) m → get m k ≡ some v → v ≢ 0
unfolding get
get-nonzero [] k v all found = cc found
get-nonzero ((j, w) ∷ m) k v (nonzero, all) found = elim (Bool-cases (j == k)) [
  | inl same ↦ (let first : some w ≡ some v = (rw same at found) in λ e. nonzero (cc (first, e)))
  | inr other ↦ get-nonzero m k v all (rw other at found)
]

-- While no stored uuid is zero: the first call of `counter_track_uuid` for a key returns a uuid that is not zero; a second call
-- returns it again and changes nothing; the uuids of other keys stay.
pub counter_track_uuid-stable :
    (inner : Inner) (key other : ℕ)
    → inner.next_uuid < u64_mod
    → other ≢ key
    → All (λ entry. entry.1 ≢ 0) inner.counter_tracks
    → (uuid : ℕ) × (inner' : Inner) × (counter_track_uuid inner key ≡ some (uuid, inner'))
      × (counter_track_uuid inner' key ≡ some (uuid, inner'))
      × (uuid ≢ 0)
      × (get inner'.counter_tracks other ≡ get inner.counter_tracks other)
unfolding counter_track_uuid counter_track_uuid_from alloc_uuid
counter_track_uuid-stable inner key other h ne all = go (get inner.counter_tracks key) refl
  where
    go :
        (found : Option ℕ)
        → get inner.counter_tracks key ≡ found
        → (uuid : ℕ) × (inner' : Inner) × (counter_track_uuid_from inner key found
            ≡ some (uuid, inner'))
          × (counter_track_uuid inner' key ≡ some (uuid, inner'))
          × (uuid ≢ 0)
          × (get inner'.counter_tracks other ≡ get inner.counter_tracks other)
    go (some uuid) there = (
      uuid,
      inner,
      refl,
      rw there refl,
      get-nonzero inner.counter_tracks key uuid all there,
      refl,
    )
    go none missing =
        let (id, next', e, nonzero, _, _, _) = fetch_nonzero-Drew inner.next_uuid h in
        let m = insert inner.counter_tracks key id in
        (
          id,
          record inner { next_uuid = next'; counter_tracks = m },
          rw e refl,
          rw (get-insert_same inner.counter_tracks key id) refl,
          nonzero,
          get-insert_other inner.counter_tracks key other id ne,
        )
