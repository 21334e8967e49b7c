-- ===== src/Subscriber/Quiet.antt =====
-- The handlers of src/subscriber.rs after a write has failed.
use tracing_perfetto_file.Common.{
  ℕ, ◌≡◌, refl, sym, ◌∙◌, ap, true, ◌||◌, Option, none, some, if◌then◌else◌, if_true, if_false,
  true_or, and_not, inl, inr, ◌==◌, ==_iff, Bool-cases,
}
use tracing_perfetto_file.Runtime.{RetainedSpanData}
use tracing_perfetto_file.Spans.{SpanData, SpanStore, get}
use tracing_perfetto_file.Spans.Tiers.{IsStore}
use tracing_perfetto_file.Spans.Refines.{take-Updates}
use tracing_perfetto_file.Thread.Contexts.{acquire}
use tracing_perfetto_file.Spans.Pools.{Pools}
use tracing_perfetto_file.Thread.Tracks.Weights.{release_pool_lem, Keeps-refl}
use tracing_perfetto_file.Thread.Tracks.Slots.{Agrees, Grows, Keeps-Grows, pool_there}
use tracing_perfetto_file.Thread.Reuse.Balance.{HasPool}
use tracing_perfetto_file.Subscriber.{Moment, Parts, World, acquired, recycle_retained}
use tracing_perfetto_file.Subscriber.Spans.{
  on_close, context_to_close, close_slice, give_track, give_retained, close_taken,
}

module _ (p : Parts) (now : Moment) (w : World p) (failed : w.output.has_error ≡ true) where
  acquired_failed : (w : World p) → w.output.has_error ≡ true → acquired p now w ≡ some (none, w)
  unfolding acquired acquire
  acquired_failed w h =
      rw
        (if_true (w.output.has_error || (w.local.destroyed || w.local.in_use)) _ _
          (true_or w.output.has_error _ h))
        refl

  close_slice-none :
      (w : World p) (span : SpanData) (uuid : Option ℕ)
      → close_slice p now w span uuid none ≡ some w
  unfolding close_slice
  close_slice-none w span none = refl
  close_slice-none w span (some uuid) = refl

  give_track-none :
      (w : World p) (pool uuid : Option ℕ)
      → HasPool p.queue p.pool_map w.pools.heap pool
      → (pools : Pools p.queue p.pool_map) × (give_track p now w pool uuid none
          ≡ some (record w { pools = pools }))
        × (Agrees p.queue p.pool_map w.pools → Grows p.queue p.pool_map w.pools pools)
  unfolding give_track
  give_track-none w none uuid own =
      (w.pools, refl, λ a. Keeps-Grows p.queue p.pool_map a (Keeps-refl p.queue p.pool_map w.pools))
  give_track-none w (some pool) none own =
      (w.pools, refl, λ a. Keeps-Grows p.queue p.pool_map a (Keeps-refl p.queue p.pool_map w.pools))
  give_track-none w (some pool) (some uuid) (key, own) =
      let (there_pool, there, is) = pool_there p.queue p.pool_map w.pools.heap key pool own in
      let (lost, pools, e, r) =
        release_pool_lem p.queue p.pool_map w.pools pool uuid there_pool there in
      (pools, rw e refl, λ a. Keeps-Grows p.queue p.pool_map a r.keeps)

  give_retained-none :
      (w : World p) (retained : Option RetainedSpanData)
      → w.output.has_error ≡ true
      → give_retained p now w retained none ≡ some w
  unfolding give_retained recycle_retained
  give_retained-none w none h = refl
  give_retained-none w (some retained) h = rw (acquired_failed w h) refl

  already :
      (id j : ℕ)
      → get p.span_map w.store id ≡ some none
      → get p.span_map w.store j ≡ (if id == j then some none else get p.span_map w.store j)
  already id j absent = elim (Bool-cases (id == j)) [
    | inl same ↦ rw same (ap (λ k. get p.span_map w.store k) (sym ((==_iff id j).0 same)) ∙ absent)
    | inr other ↦ rw other refl
  ]

  -- The close of a span in the failed world `w`, whose spans are `store` without it.
  close_taken_failed :
      (span : SpanData) (store : SpanStore p.span_map)
      → HasPool p.queue p.pool_map w.pools.heap span.track_pool
      → (pools : Pools p.queue p.pool_map) × (close_taken p now (record w { store = store }) span
          ≡ some (record w { store = store; pools = pools }))
        × (Agrees p.queue p.pool_map w.pools → Grows p.queue p.pool_map w.pools pools)
  unfolding close_taken context_to_close
  close_taken_failed span store own =
      let w1 : World p = record w { store = store } in
      let (pools, e, grows) = give_track-none w1 span.track_pool span.track_uuid own in
      let w2 : World p = record w { store = store; pools = pools } in
      (
        pools,
        rw (if_false _ _ _ (and_not _ w.output.has_error failed)) (
            rw (close_slice-none w1 span span.track_uuid)
              (rw e (rw (give_retained-none w2 span.retained failed) refl))),
        grows,
      )

  -- What the close of a span changes after a failure: the spans, and the queues of the pools.
  pub closes_failed :
      (id : ℕ)
      → IsStore p.span_map w.store
      → ((span : SpanData)
          → get p.span_map w.store id ≡ some (some span)
          → HasPool p.queue p.pool_map w.pools.heap span.track_pool)
      → (store : SpanStore p.span_map) × (pools : Pools p.queue p.pool_map) × (on_close p now w id
          ≡ some (record w { store = store; pools = pools }))
        × IsStore p.span_map store
        × ((j : ℕ)
            → get p.span_map store j ≡ (if id == j then some none else get p.span_map w.store j))
        × (Agrees p.queue p.pool_map w.pools → Grows p.queue p.pool_map w.pools pools)
  unfolding on_close
  closes_failed id x own = elim (take-Updates p.span_map w.store id x) [
    | inl (absent, e) ↦ (
      w.store,
      w.pools,
      rw e refl,
      x,
      λ j. already id j absent,
      λ a. Keeps-Grows p.queue p.pool_map a (Keeps-refl p.queue p.pool_map w.pools),
    )
    | inr (span, store, there, e, updates) ↦
        let (pools, closed, grows) = close_taken_failed span store (own span there) in
        (store, pools, rw e closed, updates.store, updates.gets, grows)
  ]

  -- Once a write has failed, a span still closes, if the store is well-formed and the pool of the
  -- span's track is one that was made: the call returns, the store then lacks the span and has all
  -- others as before, nothing is written and no context is lent.
  pub on_close_failed :
      (id : ℕ)
      → IsStore p.span_map w.store
      → ((span : SpanData)
          → get p.span_map w.store id ≡ some (some span)
          → HasPool p.queue p.pool_map w.pools.heap span.track_pool)
      → (w' : World p) × (on_close p now w id ≡ some w')
        × (w'.output ≡ w.output)
        × (w'.queues ≡ w.queues)
        × (w'.local ≡ w.local)
        × IsStore p.span_map w'.store
        × ((j : ℕ)
            → get p.span_map w'.store j ≡ (if id == j then some none else get p.span_map w.store j))
  on_close_failed id x own =
      let (store, pools, e, is, gets, grows) = closes_failed id x own in
      (record w { store = store; pools = pools }, e, refl, refl, refl, is, gets)
