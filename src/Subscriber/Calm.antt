-- ===== src/Subscriber/Calm.antt =====
-- How the handlers of src/subscriber.rs get a context and retained data, and what that leaves alone.
use tracing_perfetto_file.Common.{
  ℕ, ◌<◌, ◌≡◌, refl, sym, ◌∙◌, ap, subst, inl, inr, true, false, ◌||◌, Bool-cases, Option-cases,
  Option, none, some, ◌==◌, ==_iff, if◌then◌else◌,
}
use tracing_perfetto_file.Common.Lists.{All}
use tracing_perfetto_file.Runtime.{default_retained, u64_mod}
use tracing_perfetto_file.Thread.{take_retained_span}
use tracing_perfetto_file.Thread.Blank.{IsBlank, take-IsBlank, new_retained-IsBlank}
use tracing_perfetto_file.Thread.Contexts.{
  ThreadCtx, Acquired, acquire, context_of, update, drop_guard,
}
use tracing_perfetto_file.Thread.Contexts.Laws.{Outcome, acquire-Outcome}
use tracing_perfetto_file.Thread.Contexts.Lookup.{IsKeyed}
use tracing_perfetto_file.Thread.Contexts.Guard.{update-IsKeyed}
use tracing_perfetto_file.Subscriber.{
  Moment, Parts, World, acquired, dropped, with_context, take_retained, take_from,
}
use tracing_perfetto_file.Thread.Contexts.Updates.{Blank, Blank-update}

module _ (p : Parts) where
  -- The thread may ask for contexts, and what its contexts keep for later spans is blank.
  pub record Calm (w : World p) : Type 0 where
    pub keyed : IsKeyed w.local.contexts
    pub small : w.inner.next_uuid < u64_mod
    pub blank : Blank w.local.contexts

  -- Nothing changes but the contexts, the queues and the ids of sequences and tracks.
  pub record Apart (w w' : World p) : Type 0 where
    pub store : w'.store ≡ w.store
    pub pools : w'.pools ≡ w.pools
    pub output : w'.output ≡ w.output
    pub config : w'.inner.config ≡ w.inner.config
    pub follows : w'.inner.has_follows_from ≡ w.inner.has_follows_from
    pub next_flow_id : w'.inner.next_flow_id ≡ w.inner.next_flow_id

  Apart-trans : {a b c : World p} → Apart a b → Apart b c → Apart a c
  Apart-trans x y = record {
    store = y.store ∙ x.store;
    pools = y.pools ∙ x.pools;
    output = y.output ∙ x.output;
    config = y.config ∙ x.config;
    follows = y.follows ∙ x.follows;
    next_flow_id = y.next_flow_id ∙ x.next_flow_id;
  }

  module _ (now : Moment) where
    -- What a call of `acquire` gives: the context of the key, if it lends one.
    abbrev pub Acquires : World p → Option (Option ℕ × World p) → Type 0
    Acquires w r =
        (lent : Option ℕ) × (w' : World p) × (r ≡ some (lent, w'))
        × Calm w'
        × Apart w w'
        × ((k : ℕ)
            → lent ≡ some k
            → (context : ThreadCtx) × (context_of w'.local.contexts k ≡ some context))

    abbrev after : World p → Acquired p.ring.Queue → World p
    after w r = record w {
      inner = r.inner;
      queues = r.queues;
      local = record w.local { contexts = r.contexts };
    }

    Outcome-Calm :
        (w : World p) (r : Acquired p.ring.Queue)
        → Calm w
        → IsKeyed r.contexts
        → Outcome p.ring.empty now.alive w.inner w.queues w.local.contexts r
        → Acquires w (some (r.lent, after w r))
    Outcome-Calm w r calm keyed (inl (c, at, borrowed, e)) = (
      r.lent,
      after w r,
      refl,
      record {
        keyed = keyed;
        small = subst (λ r. r.inner.next_uuid < u64_mod) (sym e) calm.small;
        blank = subst (λ r. Blank r.contexts) (sym e) calm.blank;
      },
      record {
        store = refl;
        pools = refl;
        output = refl;
        config = ap (λ r. r.inner.config) e;
        follows = ap (λ r. r.inner.has_follows_from) e;
        next_flow_id = ap (λ r. r.inner.next_flow_id) e;
      },
      λ k lends. (let never : none ≡ some k = sym (ap (λ r. r.lent) e) ∙ lends in cc never),
    )
    Outcome-Calm w r calm keyed (inr (inl (c, at, free, lends, same, q, contexts))) = (
      r.lent,
      after w r,
      refl,
      record {
        keyed = keyed;
        small = subst (λ i. i.next_uuid < u64_mod) (sym same) calm.small;
        blank = λ j context e. elim (Bool-cases (w.inner.id == j)) [
          | inl hit ↦
              let lent : some (record c { borrowed = true }) ≡ some context =
                sym (contexts j ∙ rw hit refl) ∙ e in
              let is : record c { borrowed = true } ≡ context = cc lent in
              subst (λ context. All IsBlank context.retained_spans) is (calm.blank w.inner.id c at)
          | inr miss ↦ calm.blank j context (sym (contexts j ∙ rw miss refl) ∙ e)
        ];
      },
      record {
        store = refl;
        pools = refl;
        output = refl;
        config = ap (λ i. i.config) same;
        follows = ap (λ i. i.has_follows_from) same;
        next_flow_id = ap (λ i. i.next_flow_id) same;
      },
      λ k lent. (
        record c { borrowed = true },
        (let is : w.inner.id ≡ k = cc (lends, lent) in
            contexts k ∙ rw ((==_iff w.inner.id k).1 is) refl),
      ),
    )
    Outcome-Calm w r calm keyed
          (inr (
            inr
              (absent, c, borrowed, buffer, tracks, slots, lends, next, low, same, q, contexts))) =
        (
          r.lent,
          after w r,
          refl,
          record {
            keyed = keyed;
            small = subst (λ i. i.next_uuid < u64_mod) (sym same) low;
            blank = λ j context e. elim (Bool-cases (w.inner.id == j)) [
              | inl hit ↦
                  let lent : some c ≡ some context = sym (contexts j ∙ rw hit refl) ∙ e in
                  let is : c ≡ context = cc lent in
                  subst (λ context. All IsBlank context.retained_spans) is
                    (subst (All IsBlank) (sym slots) new_retained-IsBlank)
              | inr miss ↦
                  let kept : (if now.alive j then context_of w.local.contexts j else none)
                      ≡ some context =
                    sym (contexts j ∙ rw miss refl) ∙ e in
                  elim (Bool-cases (now.alive j)) [
                    | inl lives ↦ calm.blank j context (rw lives at kept)
                    | inr dead ↦ (let never : none ≡ some context = (rw dead at kept) in cc never)
                  ]
            ];
          },
          record {
            store = refl;
            pools = refl;
            output = refl;
            config = ap (λ i. i.config) same;
            follows = ap (λ i. i.has_follows_from) same;
            next_flow_id = ap (λ i. i.next_flow_id) same;
          },
          λ k lent. (
            c,
            (let is : w.inner.id ≡ k = cc (lends, lent) in
                contexts k ∙ rw ((==_iff w.inner.id k).1 is) refl),
          ),
        )

    pub acquired-Acquires : (w : World p) → Calm w → Acquires w (acquired p now w)
    unfolding acquired acquire
    acquired-Acquires w calm =
        elim (Bool-cases (w.output.has_error || (w.local.destroyed || w.local.in_use))) [
          | inl shut ↦ (
            none,
            w,
            rw shut refl,
            calm,
            record {
              store = refl;
              pools = refl;
              output = refl;
              config = refl;
              follows = refl;
              next_flow_id = refl;
            },
            λ k e. cc e,
          )
          | inr open_now ↦
              let (r, e, (outcome, keyed)) =
                acquire-Outcome p.ring.empty now.alive now.context_clock_ns w.inner w.queues
                  w.local.contexts calm.small calm.keyed in
              let (lent, w', is, calm', apart, held) = Outcome-Calm w r calm keyed outcome in
              (lent, w', rw open_now (rw e is), calm', apart, held)
        ]

    -- Retained data for a span: blank, whether a context keeps some or not.
    pub take_retained-default :
        (w : World p)
        → Calm w
        → (w' : World p) × (take_retained p now w ≡ some (default_retained, w'))
          × Calm w'
          × Apart w w'
    unfolding take_retained take_from dropped with_context drop_guard
    take_retained-default w calm =
        let (lent, w1, e, calm1, apart, held) = acquired-Acquires w calm in
        elim (Option-cases lent) [
          | inl nothing ↦ (w1, rw e (rw nothing refl), calm1, apart)
          | inr (k, lends) ↦
              let (context, there) = held k lends in
              let (first, rest) =
                take-IsBlank context.retained_spans (calm1.blank k context there) in
              let (retained, slots) = take_retained_span context.retained_spans in
              let put : ThreadCtx → ThreadCtx =
                λ context. record context { retained_spans = slots } in
              let free : ThreadCtx → ThreadCtx = λ context. record context { borrowed = false } in
              let contexts1 = update w1.local.contexts k put in
              let contexts2 = update contexts1 k free in
              (
                record w1 { local = record w1.local { contexts = contexts2 } },
                rw e (
                    rw lends (
                      rw there (
                        ap
                          (λ r.
                            some
                              (r, record w1 { local = record w1.local { contexts = contexts2 } }))
                          first))),
                record {
                  keyed =
                      update-IsKeyed contexts1 k free (λ c. refl)
                        (update-IsKeyed w1.local.contexts k put (λ c. refl) calm1.keyed);
                  small = calm1.small;
                  blank =
                      Blank-update contexts1 k free
                        (λ c e.
                          Blank-update w1.local.contexts k put (λ c e. rest) calm1.blank k c e)
                        (Blank-update w1.local.contexts k put (λ c e. rest) calm1.blank);
                },
                Apart-trans apart (record {
                  store = refl;
                  pools = refl;
                  output = refl;
                  config = refl;
                  follows = refl;
                  next_flow_id = refl;
                }),
              )
        ]
