-- ===== src/Subscriber/Lent.antt =====
-- A context that a handler of src/subscriber.rs is lent, from `acquire` to the end of its guard.
use tracing_perfetto_file.Common.{
  ℕ, ◌≡◌, refl, sym, ◌∙◌, ap, inl, inr, true, false, ◌||◌, Bool-cases, or_false, Option, none, some,
  ◌==◌, if◌then◌else◌,
}
use tracing_perfetto_file.Common.Lists.{get_elem?, set}
use tracing_perfetto_file.Sequence.{SequenceState}
use tracing_perfetto_file.Thread.Contexts.{
  ThreadCtx, Contexts, Acquired, acquire, context_of, update, drop_guard,
}
use tracing_perfetto_file.Thread.Contexts.Laws.{Outcome, acquire-Outcome}
use tracing_perfetto_file.Subscriber.{
  Moment, Parts, World, Writer, acquired, with_writer, with_writer_value,
}
use tracing_perfetto_file.Subscriber.Calm.{Calm}
use tracing_perfetto_file.Thread.Contexts.Updates.{context_of-update}

module _ (p : Parts) (now : Moment) where
  -- The thread has a context of the layer, and it is not lent.
  pub record IsFree (w : World p) (context : ThreadCtx) : Type 0 where
    pub calm : Calm p w
    pub fine : w.output.has_error ≡ false
    pub lives : w.local.destroyed ≡ false
    pub unused : w.local.in_use ≡ false
    pub there : context_of w.local.contexts w.inner.id ≡ some context
    pub free : context.borrowed ≡ false

  -- The world with the contexts `contexts`.
  abbrev pub with_contexts : World p → Contexts → World p
  with_contexts w contexts = record w { local = record w.local { contexts = contexts } }

  -- The contexts, but `context` for the key of the layer.
  abbrev pub HasOnly : World p → Contexts → ThreadCtx → Type 0
  HasOnly w contexts context =
      (q : ℕ)
      → context_of contexts q
        ≡ (if w.inner.id == q then some context else context_of w.local.contexts q)

  -- A free context is the one that is lent.
  free-Outcome :
      (w : World p) (context : ThreadCtx) (r : Acquired p.ring.Queue)
      → IsFree w context
      → Outcome p.ring.empty now.alive w.inner w.queues w.local.contexts r
      → (r ≡ record {
        lent = some w.inner.id;
        inner = w.inner;
        queues = w.queues;
        contexts = r.contexts;
      })
        × HasOnly w r.contexts (record context { borrowed = true })
  free-Outcome w context r f (inl (c, at, borrowed, e)) =
      let same : some c ≡ some context = sym at ∙ f.there in
      let is : c ≡ context = cc same in
      let both : true ≡ false = sym borrowed ∙ (ap (λ c. c.borrowed) is ∙ f.free) in
      absurd (cc both)
  free-Outcome w context r f (inr (inl (c, at, free, lends, same_inner, same_queues, only))) =
      let same : some c ≡ some context = sym at ∙ f.there in
      let is : c ≡ context = cc same in
      (
        λ i. record {
          lent = lends i;
          inner = same_inner i;
          queues = same_queues i;
          contexts = r.contexts;
        },
        λ q.
            only q
            ∙ ap
                (λ c.
                  if w.inner.id == q
                  then some (record c { borrowed = true })
                  else context_of w.local.contexts q)
                is,
      )
  free-Outcome w context r f (inr (inr gone)) =
      let never : none ≡ some context = sym gone.0 ∙ f.there in absurd (cc never)

  pub acquired_there :
      (w : World p) (context : ThreadCtx)
      → IsFree w context
      → (contexts : Contexts) × (acquired p now w
          ≡ some (some w.inner.id, with_contexts w contexts))
        × HasOnly w contexts (record context { borrowed = true })
  unfolding acquired acquire
  acquired_there w context f =
      let (r, e, (outcome, keyed)) =
        acquire-Outcome p.ring.empty now.alive now.context_clock_ns w.inner w.queues
          w.local.contexts f.calm.small f.calm.keyed in
      let open_now : (w.output.has_error || (w.local.destroyed || w.local.in_use)) ≡ false =
        or_false _ _ f.fine (or_false _ _ f.lives f.unused) in
      let (is, only) = free-Outcome w context r f outcome in
      (
        r.contexts,
        rw open_now (
            rw e (
              ap
                (λ r. some (
                  r.lent,
                  record w {
                    inner = r.inner;
                    queues = r.queues;
                    local = record w.local { contexts = r.contexts };
                  },
                ))
                is)),
        only,
      )

  -- A write by the context `k`, which the queue of the context takes.
  pub with_writer_there :
      (w : World p) (k : ℕ) (context : ThreadCtx) (queue : p.ring.Queue)
      (write : Writer p → Option (Writer p)) (written : Writer p)
      → context_of w.local.contexts k ≡ some context
      → get_elem? w.queues context.buffer ≡ some queue
      → write (record {
        inner = w.inner;
        sequence = context.sequence;
        output = (w.output, queue);
        timestamp_ns = none;
      })
        ≡ some written
      → with_writer p now w k write
        ≡ some (record w {
          inner = written.inner;
          output = written.output.0;
          queues = set w.queues context.buffer written.output.1;
          local = record w.local {
            contexts =
                update w.local.contexts k
                  (λ context. record context { sequence = written.sequence });
          };
        })
  unfolding with_writer with_writer_value
  with_writer_there w k context queue write written there at wrote =
      rw there (rw at (rw wrote refl))

  -- The contexts, after the sequence is written back and the guard ends.
  pub written_back :
      (w : World p) (contexts : Contexts) (context : ThreadCtx) (sequence : SequenceState)
      → HasOnly w contexts (record context { borrowed = true })
      → HasOnly w
          (drop_guard
            (update contexts w.inner.id (λ context. record context { sequence = sequence }))
            w.inner.id)
          (record context { borrowed = false; sequence = sequence })
  unfolding drop_guard
  written_back w contexts context sequence only q = elim (Bool-cases (w.inner.id == q)) [
    | inl same ↦
        let lent : context_of contexts q ≡ some (record context { borrowed = true }) =
          only q ∙ rw same refl in
        let written : context_of (update contexts w.inner.id write) q
            ≡ some (record context { borrowed = true; sequence = sequence }) =
          context_of-update contexts w.inner.id q write ∙ rw same (rw lent refl) in
        rw same (context_of-update _ w.inner.id q free ∙ rw same (rw written refl))
    | inr other ↦ rw other (
        context_of-update _ w.inner.id q free
        ∙ rw other
            (context_of-update contexts w.inner.id q write ∙ rw other (only q ∙ rw other refl)))
  ]
    where
      write : ThreadCtx → ThreadCtx
      write context = record context { sequence = sequence }

      free : ThreadCtx → ThreadCtx
      free context = record context { borrowed = false }
