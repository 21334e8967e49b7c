-- ===== src/Thread/Tracks/Released.antt =====
-- A release of a track by a thread, and the end of a thread (src/thread.rs).
use tracing_perfetto_file.Common.{
  ℕ, suc, ◌+◌, ◌≡◌, refl, sym, ◌∙◌, ap, subst, ◌⊎◌, inl, inr, [], ◌∷◌, Bool-cases, Option, none,
  some, ◌==◌, ==_iff, arith,
}
use tracing_perfetto_file.Common.Lists.{length, All}
use tracing_perfetto_file.Spans.Pools.{TrackKey, ArrayQueue, PoolMap, Pools}
use tracing_perfetto_file.Spans.Pools.Laws.{eq_refl}
use tracing_perfetto_file.Thread.Tracks.{
  CachedTrackPool, Cached, Tracks, release_cached, release_slots, release_found, release_track,
  drop_slots,
}
use tracing_perfetto_file.Thread.Tracks.Weights.{
  cached_weight, cached_weight-cons, weight_of, lost_weight, heap_weight, PoolFor, Keeps-refl,
  release_pool_lem,
}
use tracing_perfetto_file.Thread.Tracks.Slots.{
  IsSlot, IsTracks, Agrees, Grows, Grows-trans, Keeps-Grows, PoolFor-Grows, slots-Grows, pool_there,
  Loses, replace_lem, release_old_lem,
}

module _ (queue : ArrayQueue) (map : PoolMap) where
  -- A release into a slot.
  record IntoSlot (s : Pools queue map) (p uuid : ℕ) (slots : Cached) (lost : Option (ℕ × ℕ))
      (slots' : Cached) (s' : Pools queue map) : Type 0 where
    same_length : length slots' ≡ length slots
    slots_held : All (IsSlot queue map s'.heap) slots'
    loses :
        Loses queue map lost s s'
          (λ w. cached_weight w slots + w p uuid)
          (λ w. cached_weight w slots')

  abbrev SlotResult :
      Pools queue map → ℕ → ℕ → Cached → Option (Option (Cached × Pools queue map)) → Type 0
  SlotResult s p uuid slots r =
      (r ≡ some none)
      ⊎ ((lost : Option (ℕ × ℕ)) × (slots' : Cached) × (s' : Pools queue map) × (r
            ≡ some (some (slots', s')))
          × IntoSlot s p uuid slots lost slots' s')

  release_cached_lem :
      (s : Pools queue map) (cached : CachedTrackPool) (slots : Cached) (uuid : ℕ) (old : Option ℕ)
      → cached.local_uuid ≡ old
      → Agrees queue map s
      → PoolFor queue map s.heap cached.key cached.pool
      → All (IsSlot queue map s.heap) slots
      → SlotResult s cached.pool uuid
          (some cached ∷ slots)
          (release_cached queue map cached slots uuid s old)
  unfolding release_cached
  release_cached_lem s cached slots uuid none e a h x = inr (
    none,
    some (record cached { local_uuid = some uuid }) ∷ slots,
    s,
    refl,
    record {
      same_length = refl;
      slots_held = (h, x);
      loses = record {
        grows = Keeps-Grows queue map a (Keeps-refl queue map s);
        weighs = λ w. omega (arith, ap (weight_of (w cached.pool)) e);
        full = λ q v e. cc e;
      };
    },
  )
  release_cached_lem s cached slots uuid (some old) e a h x =
      let (pool, there, own) = pool_there queue map s.heap cached.key cached.pool h in
      let (lost, s', released, r) = release_pool_lem queue map s cached.pool uuid pool there in
      let grows : Grows queue map s s' = Keeps-Grows queue map a r.keeps in
      inr (
        lost,
        some cached ∷ slots,
        s',
        rw released refl,
        record {
          same_length = refl;
          slots_held = (
            PoolFor-Grows queue map cached.key cached.pool grows h,
            slots-Grows queue map slots grows x,
          );
          loses = record { grows = grows; weighs = λ w. omega (arith, r.weighs w); full = r.full };
        },
      )

  release_slots_lem :
      (s : Pools queue map) (p uuid : ℕ) (slots : Cached)
      → Agrees queue map s
      → All (IsSlot queue map s.heap) slots
      → SlotResult s p uuid slots (release_slots queue map slots p uuid s)
  unfolding release_slots
  release_slots_lem s p uuid [] a x = inl refl
  release_slots_lem s p uuid (none ∷ slots) a (_, x) = elim (release_slots_lem s p uuid slots a x) [
    | inl e ↦ inl (rw e refl)
    | inr (lost, slots', s', e, r) ↦ inr (
      lost,
      none ∷ slots',
      s',
      rw e refl,
      record {
        same_length = ap suc r.same_length;
        slots_held = (tt, r.slots_held);
        loses = r.loses;
      },
    )
  ]
  release_slots_lem s p uuid (some cached ∷ slots) a (h, x) = elim (Bool-cases (cached.pool == p)) [
    | inl same ↦ subst (SlotResult s p uuid (some cached ∷ slots)) (sym (rw same refl)) (
        subst
          (λ p.
            SlotResult s p uuid (some cached ∷ slots)
              (release_cached queue map cached slots uuid s cached.local_uuid))
          ((==_iff cached.pool p).0 same)
          (release_cached_lem s cached slots uuid cached.local_uuid refl a h x))
    | inr other ↦ elim (release_slots_lem s p uuid slots a x) [
      | inl e ↦ inl (rw other (rw e refl))
      | inr (lost, slots', s', e, r) ↦ inr (
        lost,
        some cached ∷ slots',
        s',
        rw other (rw e refl),
        record {
          same_length = ap suc r.same_length;
          slots_held =
              (PoolFor-Grows queue map cached.key cached.pool r.loses.grows h, r.slots_held);
          loses = record {
            grows = r.loses.grows;
            weighs = λ w. omega (arith, r.loses.weighs w);
            full = r.loses.full;
          };
        },
      )
    ]
  ]

  -- A thread releases a uuid of a pool: `release_track` returns, the uuid is then in that pool or a
  -- slot for it, and all other uuids stay, each with its pool and as often, but for one (the new one
  -- or one of a slot that is replaced), which is lost if the queue of its pool is full.
  pub release_track-Loses :
      (t : Tracks) (s : Pools queue map) (key : TrackKey) (p uuid : ℕ)
      → IsTracks queue map s t
      → Agrees queue map s
      → PoolFor queue map s.heap key p
      → (lost : Option (ℕ × ℕ)) × (t' : Tracks) × (s' : Pools queue map) × (release_track queue map
            t p uuid s
          ≡ some (t', s'))
        × IsTracks queue map s' t'
        × Loses queue map lost s s'
            (λ w. cached_weight w t.track_pools + w p uuid)
            (λ w. cached_weight w t'.track_pools)
  unfolding release_track release_found
  release_track-Loses t s key p uuid x a h =
      elim (release_slots_lem s p uuid t.track_pools a x.slots) [
        | inr (lost, slots', s', e, r) ↦ (
          lost,
          record t { track_pools = slots' },
          s',
          rw e refl,
          record { eight = r.same_length ∙ x.eight; within = x.within; slots = r.slots_held },
          r.loses,
        )
        | inl e ↦
            let (pool, there, own) = pool_there queue map s.heap key p h in
            let (lost, t', s', replaced, x', l) =
              replace_lem queue map t pool.key p (some uuid) s x a
                (pool.key, rw there refl, eq_refl pool.key) in
            (lost, t', s', rw e (rw there replaced), x', l)
      ]

  -- The end of a thread: its local uuids go to their pools, as far as these have places. None is
  -- added, and none appears twice.
  pub drop_slots-shrinks :
      (slots : Cached) (s : Pools queue map)
      → Agrees queue map s
      → All (IsSlot queue map s.heap) slots
      → (s' : Pools queue map) × (drop_slots queue map slots s ≡ some s')
        × Grows queue map s s'
        × ((w : ℕ → ℕ → ℕ)
            → (lost : ℕ) × (lost + heap_weight queue map w s'.heap
                ≡ cached_weight w slots + heap_weight queue map w s.heap))
  unfolding drop_slots
  drop_slots-shrinks [] s a x =
      (s, refl, Keeps-Grows queue map a (Keeps-refl queue map s), λ w. (0, omega arith))
  drop_slots-shrinks (slot ∷ slots) s a (h, x) =
      let (lost, s1, e, l) = release_old_lem queue map s slot a h in
      let (s2, e2, g, weighs) =
        drop_slots-shrinks slots s1 l.grows.agrees (slots-Grows queue map slots l.grows x) in
      (
        s2,
        rw e e2,
        Grows-trans queue map l.grows g,
        λ w.
            let (n, all) = weighs w in
            (
              lost_weight w lost + n,
              omega (arith, l.weighs w, all, cached_weight-cons w slot slots),
            ),
      )
