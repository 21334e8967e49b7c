-- ===== src/Thread/Contexts/Laws.antt =====
-- What `acquire` of src/thread.rs does on each branch.
use tracing_perfetto_file.Common.{
  ℕ, ◌+◌, ◌-◌, ◌%◌, ◌^◌, ◌<◌, ◌≡◌, refl, sym, ◌∙◌, ap, subst, ◌⊎◌, inl, inr, List, [], ◌∷◌, ◌++◌,
  Bool, true, false, Bool-cases, Option, none, some, ◌==◌, if◌then◌else◌, arith,
}
use tracing_perfetto_file.Common.Lists.{length, length-append, set}
use tracing_perfetto_file.Common.Sums.{All-append_one, All-set, All-get}
use tracing_perfetto_file.Runtime.{Inner, u64_mod, alloc_uuid, alloc_sequence_id}
use tracing_perfetto_file.Runtime.Draws.{fetch_nonzero-Drew}
use tracing_perfetto_file.Sequence
use tracing_perfetto_file.Thread.{new_retained}
use tracing_perfetto_file.Thread.Tracks.{new_tracks}
use tracing_perfetto_file.Thread.Contexts.{
  ThreadCtx, Contexts, new_context, position, retain, Acquired, lend, insert_thread_context,
  lend_found, acquire, context_of,
}
use tracing_perfetto_file.Thread.Contexts.Lookup.{
  IsKeyed, At, position_lem, context_of-retain, retain-IsKeyed, context_of-append, last_place,
  set-last,
}

-- The layer with one more sequence, and a later uuid.
abbrev pub with_next : Inner → ℕ → Inner
with_next inner next = record inner {
  next_sequence_id = (inner.next_sequence_id + 1) % 2 ^ 32;
  next_uuid = next;
}

module _ {Q : Type 0} where
  -- What `acquire` for the layer `inner` gives, which has the key `inner.id`: a context that is lent
  -- out is not lent again; one that is not is lent; and if there is none, a new one is lent, with a
  -- new queue, and the contexts of layers that are gone are removed.
  abbrev pub Outcome : Q → (ℕ → Bool) → Inner → List Q → Contexts → Acquired Q → Type 0
  Outcome new_queue alive inner queues contexts r =
      ((context : ThreadCtx) × (context_of contexts inner.id ≡ some context)
        × (context.borrowed ≡ true)
        × (r ≡ record { lent = none; inner = inner; queues = queues; contexts = contexts }))
      ⊎ ((context : ThreadCtx) × (context_of contexts inner.id ≡ some context)
          × (context.borrowed ≡ false)
          × (r.lent ≡ some inner.id)
          × (r.inner ≡ inner)
          × (r.queues ≡ queues)
          × ((q : ℕ)
              → context_of r.contexts q ≡ (
                  if inner.id == q
                  then some (record context { borrowed = true })
                  else context_of contexts q)))
      ⊎ ((context_of contexts inner.id ≡ none)
          × (context : ThreadCtx) × (context.borrowed ≡ true)
          × (context.buffer ≡ length queues)
          × (context.tracks ≡ new_tracks)
          × (context.retained_spans ≡ new_retained)
          × (r.lent ≡ some inner.id)
          × (next : ℕ) × (next < u64_mod)
          × (r.inner ≡ with_next inner next)
          × (r.queues ≡ queues ++ new_queue ∷ [])
          × ((q : ℕ)
              → context_of r.contexts q ≡ (
                  if inner.id == q
                  then some context
                  else if alive q
                  then context_of contexts q
                  else none)))

  module _ (new_queue : Q) (alive : ℕ → Bool) (raw_clock_ns : ℕ) (inner : Inner) (queues : List Q)
      (contexts : Contexts) (small : inner.next_uuid < u64_mod) (keyed : IsKeyed contexts) where
    lend_lem :
        (contexts : Contexts) (queues : List Q) (inner : Inner) (j key : ℕ) (context : ThreadCtx)
        (b : Bool)
        → context.borrowed ≡ b
        → lend inner queues contexts j (key, context) ≡ (
            if b
            then record { lent = none; inner = inner; queues = queues; contexts = contexts }
            else (record {
              lent = some key;
              inner = inner;
              queues = queues;
              contexts = set contexts j (key, record context { borrowed = true });
            }))
    unfolding lend
    lend_lem contexts queues inner j key context b e =
        ap
          (λ b.
            if b
            then record { lent = none; inner = inner; queues = queues; contexts = contexts }
            else (record {
              lent = some key;
              inner = inner;
              queues = queues;
              contexts = set contexts j (key, record context { borrowed = true });
            }))
          e

    abbrev Holds : Acquired Q → Type 0
    Holds r = Outcome new_queue alive inner queues contexts r × IsKeyed r.contexts

    lend_there :
        (j : ℕ) (context : ThreadCtx)
        → At contexts inner.id j context
        → Holds (lend inner queues contexts j (inner.id, context))
    lend_there j context at = elim (Bool-cases context.borrowed) [
      | inl lent ↦
          let e = lend_lem contexts queues inner j inner.id context true lent in
          subst Holds (sym e) (inl (context, at.found, lent, refl), keyed)
      | inr free ↦
          let e = lend_lem contexts queues inner j inner.id context false free in
          let own =
            All-get (λ entry. entry.1.inner ≡ entry.0) contexts j (inner.id, context) at.there
              keyed in
          subst Holds (sym e) (
            inr (
                inl (
                  context,
                  at.found,
                  free,
                  refl,
                  refl,
                  refl,
                  at.sets (record context { borrowed = true }),
                )),
            All-set (λ entry. entry.1.inner ≡ entry.0) contexts j
                (inner.id, record context { borrowed = true }) own keyed,
          )
    ]

    -- The new context: its queue, and the layer behind it.
    new_there :
        (context : ThreadCtx) × (next : ℕ) × (new_context inner (length queues) raw_clock_ns
          ≡ some (context, with_next inner next))
        × (next < u64_mod)
        × (context.tracks ≡ new_tracks)
        × (context.retained_spans ≡ new_retained)
        × (context.inner ≡ inner.id)
        × (context.borrowed ≡ false)
        × (context.buffer ≡ length queues)
    unfolding new_context alloc_uuid alloc_sequence_id
    new_there =
        let (uuid, next, drawn, nonzero, small, counted, which) =
          fetch_nonzero-Drew inner.next_uuid small in
        (
          record {
            inner = inner.id;
            borrowed = false;
            sequence = Sequence.new inner.next_sequence_id uuid raw_clock_ns;
            buffer = length queues;
            tracks = new_tracks;
            retained_spans = new_retained;
          },
          next,
          rw drawn refl,
          omega (arith, counted),
          refl,
          refl,
          refl,
          refl,
          refl,
        )

    lend_new :
        context_of contexts inner.id ≡ none
        → (r : Acquired Q) × (lend_found new_queue alive raw_clock_ns inner queues contexts none
            ≡ some r)
          × Holds r
    unfolding lend_found insert_thread_context
    lend_new absent =
        let (context, next, made, low, tracks, slots, own, free, buffer) = new_there in
        let inner' = with_next inner next in
        let kept = retain alive contexts in
        let at_q = λ (q : ℕ). context_of-retain alive contexts q keyed in
        let gone : context_of kept inner.id ≡ none =
          at_q inner.id ∙ rw absent (none_either (alive inner.id)) in
        let lent : ThreadCtx = record context { borrowed = true } in
        let last : length (kept ++ (inner.id, context) ∷ []) - 1 ≡ length kept =
          omega (arith, length-append kept ((inner.id, context) ∷ [])) in
        (
          record {
            lent = some inner.id;
            inner = inner';
            queues = queues ++ new_queue ∷ [];
            contexts = kept ++ (inner.id, lent) ∷ [];
          },
          rw made (
              rw (last, last_place kept (inner.id, context))
                (ap some (
                  lend_lem (kept ++ (inner.id, context) ∷ []) (queues ++ new_queue ∷ []) inner'
                    (length kept) inner.id context false free
                  ∙ rw (set-last kept (inner.id, context) (inner.id, lent)) refl))),
          (
            inr (
                inr (
                  absent,
                  lent,
                  refl,
                  buffer,
                  tracks,
                  slots,
                  refl,
                  next,
                  low,
                  refl,
                  refl,
                  λ q.
                      context_of-append kept inner.id lent q gone
                      ∙ ap (λ rest. if inner.id == q then some lent else rest) (at_q q),
                )),
            All-append_one (λ entry. entry.1.inner ≡ entry.0) kept (inner.id, lent)
                (retain-IsKeyed alive contexts keyed) own,
          ),
        )
      where
        none_either : (b : Bool) → ◌≡◌ {A = Option ThreadCtx} (if b then none else none) none
        none_either true = refl
        none_either false = refl

    -- A call of `acquire`, while the layer has no error and the thread still has its contexts: it
    -- returns. A context that is lent out is not lent again, and nothing changes. One that is not is
    -- lent, and no other changes. If there is none, a new one with a new queue is lent, and of the
    -- others exactly those of layers that are gone are removed.
    pub acquire-Outcome :
        (r : Acquired Q) × (acquire new_queue alive raw_clock_ns false inner queues
            (record { destroyed = false; in_use = false; contexts = contexts })
          ≡ some r)
        × (Outcome new_queue alive inner queues contexts r × IsKeyed r.contexts)
    unfolding acquire
    acquire-Outcome = elim (position_lem 0 contexts inner.id) [
      | inl (e, absent) ↦
          let (r, is, (outcome, keyed')) = lend_new absent in (r, rw e is, (outcome, keyed'))
      | inr (j, context, e, at) ↦
          let (outcome, keyed') = lend_there j context at in
          let at_j : position 0 contexts inner.id ≡ some j =
            e ∙ ap some (let z : 0 + j ≡ j = omega arith in z) in
          (
            lend inner queues contexts j (inner.id, context),
            rw at_j (unfold lend_found in rw at.there refl),
            (outcome, keyed'),
          )
    ]
