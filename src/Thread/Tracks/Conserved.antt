-- ===== src/Thread/Tracks/Conserved.antt =====
-- The claims and releases of src/thread.rs keep the reusable tracks: no uuid is given out and kept,
-- none appears twice, and each stays with the pool of its key.
use tracing_perfetto_file.Common.{
  ℕ, suc, ◌+◌, ◌≡◌, refl, sym, ◌∙◌, ap, subst, ◌⊎◌, inl, inr, [], ◌∷◌, true, Bool-cases, Option,
  none, some, arith,
}
use tracing_perfetto_file.Common.Lists.{length, All}
use tracing_perfetto_file.Spans.Pools.{TrackKey, eq, ArrayQueue, PoolMap, Pools}
use tracing_perfetto_file.Spans.Pools.Laws.{eq_refl}
use tracing_perfetto_file.Thread.Tracks.{
  CachedTrackPool, ClaimedTrack, Cached, Tracks, claim_cached, claim_slots, claim_stored,
  claim_found, claim_track,
}
use tracing_perfetto_file.Thread.Tracks.Weights.{
  cached_weight, weight_of, heap_weight, PoolFor, Keeps-refl, claim_pool_lem,
}
use tracing_perfetto_file.Thread.Tracks.Slots.{
  eq_trans, IsSlot, IsTracks, Agrees, Grows, Grows-trans, Keeps-Grows, PoolFor-Grows, slots-Grows,
  pool_there, Loses, replace_lem,
}
use tracing_perfetto_file.Thread.Tracks.Stored.{track_pool-Stored}

-- The weight of what a claim gives.
abbrev pub claim_weight : (ℕ → ℕ → ℕ) → Option ClaimedTrack → ℕ
claim_weight w none = 0
claim_weight w (some c) = weight_of (w c.pool) c.uuid

module _ (queue : ArrayQueue) (map : PoolMap) where
  -- A claim from a slot.
  pub record FromSlot (s : Pools queue map) (key : TrackKey) (slots : Cached) (c : ClaimedTrack)
      (slots' : Cached) (s' : Pools queue map) : Type 0 where
    pub grows : Grows queue map s s'
    pub same_length : length slots' ≡ length slots
    pub slots_held : All (IsSlot queue map s'.heap) slots'
    pub pool : PoolFor queue map s'.heap key c.pool
    pub weighs :
        (w : ℕ → ℕ → ℕ)
        → weight_of (w c.pool) c.uuid + (cached_weight w slots' + heap_weight queue map w s'.heap)
          ≡ cached_weight w slots + heap_weight queue map w s.heap

  abbrev SlotResult :
      Pools queue map
      → TrackKey
      → Cached
      → Option (Option (ClaimedTrack × Cached × Pools queue map))
      → Type 0
  SlotResult s key slots r =
      (r ≡ some none)
      ⊎ ((c : ClaimedTrack) × (slots' : Cached) × (s' : Pools queue map) × (r
            ≡ some (some (c, slots', s')))
          × FromSlot s key slots c slots' s')

  claim_cached_lem :
      (s : Pools queue map) (key : TrackKey) (cached : CachedTrackPool) (slots : Cached)
      (uuid : Option ℕ)
      → cached.local_uuid ≡ uuid
      → Agrees queue map s
      → PoolFor queue map s.heap cached.key cached.pool
      → eq cached.key key ≡ true
      → All (IsSlot queue map s.heap) slots
      → SlotResult s key (some cached ∷ slots) (claim_cached queue map cached slots s uuid)
  unfolding claim_cached
  claim_cached_lem s key cached slots (some uuid) e a (k, at, is) same x = inr (
    _,
    _,
    _,
    refl,
    record {
      grows = Keeps-Grows queue map a (Keeps-refl queue map s);
      same_length = refl;
      slots_held = ((k, at, is), x);
      pool = (k, at, eq_trans k cached.key key is same);
      weighs = λ w. omega (arith, ap (weight_of (w cached.pool)) e);
    },
  )
  claim_cached_lem s key cached slots none e a (k, at, is) same x =
      let (pool, there, own) = pool_there queue map s.heap cached.key cached.pool (k, at, is) in
      let (uuid, s', claimed, r) = claim_pool_lem queue map s cached.pool pool there in
      let grows : Grows queue map s s' = Keeps-Grows queue map a r.keeps in
      inr (
        record { pool = cached.pool; uuid = uuid },
        some (record cached { local_uuid = none }) ∷ slots,
        s',
        rw claimed refl,
        record {
          grows = grows;
          same_length = refl;
          slots_held = (
            PoolFor-Grows queue map cached.key cached.pool grows (k, at, is),
            slots-Grows queue map slots grows x,
          );
          pool =
              PoolFor-Grows queue map key cached.pool grows
                (k, at, eq_trans k cached.key key is same);
          weighs = λ w. omega (arith, ap (weight_of (w cached.pool)) e, r.weighs w);
        },
      )

  claim_slots_lem :
      (s : Pools queue map) (key : TrackKey) (slots : Cached)
      → Agrees queue map s
      → All (IsSlot queue map s.heap) slots
      → SlotResult s key slots (claim_slots queue map slots key s)
  unfolding claim_slots
  claim_slots_lem s key [] a x = inl refl
  claim_slots_lem s key (none ∷ slots) a (_, x) = elim (claim_slots_lem s key slots a x) [
    | inl e ↦ inl (rw e refl)
    | inr (c, slots', s', e, r) ↦ inr (
      c,
      none ∷ slots',
      s',
      rw e refl,
      record {
        grows = r.grows;
        same_length = ap suc r.same_length;
        slots_held = (tt, r.slots_held);
        pool = r.pool;
        weighs = r.weighs;
      },
    )
  ]
  claim_slots_lem s key (some cached ∷ slots) a (h, x) = elim (Bool-cases (eq cached.key key)) [
    | inl same ↦
        subst (SlotResult s key (some cached ∷ slots)) (sym (rw same refl))
          (claim_cached_lem s key cached slots cached.local_uuid refl a h same x)
    | inr other ↦ elim (claim_slots_lem s key slots a x) [
      | inl e ↦ inl (rw other (rw e refl))
      | inr (c, slots', s', e, r) ↦ inr (
        c,
        some cached ∷ slots',
        s',
        rw other (rw e refl),
        record {
          grows = r.grows;
          same_length = ap suc r.same_length;
          slots_held = (PoolFor-Grows queue map cached.key cached.pool r.grows h, r.slots_held);
          pool = r.pool;
          weighs = λ w. omega (arith, r.weighs w);
        },
      )
    ]
  ]

  -- What `claim_track` does: `c` is what it gives.
  pub record Claims (t : Tracks) (s : Pools queue map) (key : TrackKey) (c : Option ClaimedTrack)
      (lost : Option (ℕ × ℕ)) (t' : Tracks) (s' : Pools queue map) : Type 0 where
    pub tracks : IsTracks queue map s' t'
    pub loses :
        Loses queue map lost s s'
          (λ w. cached_weight w t.track_pools)
          (λ w. claim_weight w c + cached_weight w t'.track_pools)
    pub pool :
        (claimed : ClaimedTrack) → c ≡ some claimed → PoolFor queue map s'.heap key claimed.pool

  abbrev pub ClaimResult :
      Tracks
      → Pools queue map
      → TrackKey
      → Option (Option ClaimedTrack × Tracks × Pools queue map)
      → Type 0
  ClaimResult t s key r =
      (c : Option ClaimedTrack) × (lost : Option (ℕ × ℕ)) × (t' : Tracks) × (s' : Pools queue map)
      × (r ≡ some (c, t', s'))
      × Claims t s key c lost t' s'

  claim_stored_lem :
      (t : Tracks) (s : Pools queue map) (key : TrackKey) (found : Option ℕ) (s1 : Pools queue map)
      → IsTracks queue map s1 t
      → Grows queue map s s1
      → ((w : ℕ → ℕ → ℕ) → heap_weight queue map w s1.heap ≡ heap_weight queue map w s.heap)
      → ((p : ℕ) → found ≡ some p → PoolFor queue map s1.heap key p)
      → ClaimResult t s key (claim_stored queue map t key (found, s1))
  unfolding claim_stored
  claim_stored_lem t s key none s1 x g weighs pool = (
    none,
    none,
    t,
    s1,
    refl,
    record {
      tracks = x;
      loses = record { grows = g; weighs = λ w. omega (arith, weighs w); full = λ q v e. cc e };
      pool = λ c e. cc e;
    },
  )
  claim_stored_lem t s key (some p) s1 x g weighs pool =
      let own : PoolFor queue map s1.heap key p = pool p refl in
      let (there_pool, there, is) = pool_there queue map s1.heap key p own in
      let (uuid, s2, claimed, r) = claim_pool_lem queue map s1 p there_pool there in
      let g2 : Grows queue map s1 s2 = Keeps-Grows queue map g.agrees r.keeps in
      let x2 : IsTracks queue map s2 t = record {
        eight = x.eight;
        within = x.within;
        slots = slots-Grows queue map t.track_pools g2 x.slots;
      } in
      let (lost, t', s3, replaced, x3, l) =
        replace_lem queue map t key p none s2 x2 g2.agrees (PoolFor-Grows queue map key p g2 own) in
      (
        some (record { pool = p; uuid = uuid }),
        lost,
        t',
        s3,
        rw claimed (rw replaced refl),
        record {
          tracks = x3;
          loses = record {
            grows = Grows-trans queue map g (Grows-trans queue map g2 l.grows);
            weighs = λ w. omega (arith, weighs w, r.weighs w, l.weighs w);
            full = l.full;
          };
          pool = λ c e.
              (let same : p ≡ c.pool = ap (λ c. claim_pool_of c) e in
                subst (PoolFor queue map s3.heap key) same
                  (PoolFor-Grows queue map key p (Grows-trans queue map g2 l.grows) own));
        },
      )
    where
      claim_pool_of : Option ClaimedTrack → ℕ
      claim_pool_of none = 0
      claim_pool_of (some c) = c.pool

  -- For a key, whatever is cached: `claim_track` returns. If it gives a pool, that is the pool of the
  -- key. The uuid that it gives is taken out of that pool or its slot; all other uuids stay, each with
  -- its pool and as often, but for one, which is lost if the queue of its pool is full.
  pub claim_track-Claims :
      (t : Tracks) (s : Pools queue map) (key : TrackKey)
      → IsTracks queue map s t
      → Agrees queue map s
      → ClaimResult t s key (claim_track queue map t key s)
  unfolding claim_track claim_found
  claim_track-Claims t s key x a = elim (claim_slots_lem s key t.track_pools a x.slots) [
    | inr (c, slots', s', e, r) ↦ (
      some c,
      none,
      record t { track_pools = slots' },
      s',
      rw e refl,
      record {
        tracks = record {
          eight = r.same_length ∙ x.eight;
          within = x.within;
          slots = r.slots_held;
        };
        loses = record {
          grows = r.grows;
          weighs = λ w. omega (arith, r.weighs w);
          full = λ q v e. cc e;
        };
        pool = λ c' e.
            (let same : c ≡ c' = cc e in
              subst (λ c. PoolFor queue map s'.heap key c.pool) same r.pool);
      },
    )
    | inl e ↦
        let (found, s1, stored, r) = track_pool-Stored queue map s key (eq_refl key) a in
        rw e (
          rw stored (
            claim_stored_lem t s key found s1
              (record {
                eight = x.eight;
                within = x.within;
                slots = slots-Grows queue map t.track_pools r.grows x.slots;
              })
              r.grows r.weighs r.pool))
  ]
