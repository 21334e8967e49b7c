-- ===== src/Subscriber/Silent.antt =====
-- Any sequence of calls of the handlers of src/subscriber.rs after a write has failed.
use tracing_perfetto_file.Common.{
  ℕ, ◌≡◌, refl, sym, ◌∙◌, ap, List, [], ◌∷◌, Bool, true, false, not, ◌||◌, Option, none, some,
  if◌then◌else◌, if_true, or_true, true_or, ◌==◌, ◌>>=◌,
}
use tracing_perfetto_file.Spans.{SpanData, get}
use tracing_perfetto_file.Spans.Tiers.{IsStore}
use tracing_perfetto_file.Thread.Tracks.Slots.{Agrees, Grows, Grows-trans, Keeps-Grows}
use tracing_perfetto_file.Thread.Tracks.Weights.{Keeps-refl}
use tracing_perfetto_file.Thread.Reuse.Balance.{HasPool, HasPool-Grows}
use tracing_perfetto_file.Visitor.Calls.{Call}
use tracing_perfetto_file.Subscriber.{Metadata, Registry, Moment, Parts, World}
use tracing_perfetto_file.Subscriber.Spans.{on_new_span, on_record, on_follows_from, on_close}
use tracing_perfetto_file.Subscriber.Slices.{on_enter, on_exit, no_slice}
use tracing_perfetto_file.Subscriber.Instants.{on_event}
use tracing_perfetto_file.Subscriber.Quiet.{closes_failed}

-- A call that `tracing` makes of a handler of the layer, with the registry that it reads.
pub data HandlerCall : Type 0 where
  new_span : Registry → (id : ℕ) → (values : List Call) → HandlerCall
  record_values : (id : ℕ) → (values : List Call) → HandlerCall
  follows_from : Registry → (id other : ℕ) → HandlerCall
  enter : Registry → (id : ℕ) → HandlerCall
  exit : (id : ℕ) → HandlerCall
  event : Metadata → (values : List Call) → (enclosing : Option ℕ) → HandlerCall
  close : (id : ℕ) → HandlerCall

-- The calls that close span `j`.
unfoldable pub closes : ℕ → HandlerCall → Bool
closes j (new_span registry id values) = false
closes j (record_values id values) = false
closes j (follows_from registry id other) = false
closes j (enter registry id) = false
closes j (exit id) = false
closes j (event metadata values enclosing) = false
closes j (close id) = id == j

unfoldable pub any_closes : ℕ → List (Moment × HandlerCall) → Bool
any_closes j [] = false
any_closes j ((now, call) ∷ calls) = closes j call || any_closes j calls

module _ (p : Parts) where
  unfoldable pub handle : Moment → World p → HandlerCall → Option (World p)
  handle now w (new_span registry id values) = on_new_span p now registry w id values
  handle now w (record_values id values) = on_record p now w id values
  handle now w (follows_from registry id other) = on_follows_from p now registry w id other
  handle now w (enter registry id) = on_enter p now registry w id
  handle now w (exit id) = on_exit p now w id
  handle now w (event metadata values enclosing) = on_event p now w metadata values enclosing
  handle now w (close id) = on_close p now w id

  -- The calls in their order, each at its moment.
  unfoldable pub run_handlers : World p → List (Moment × HandlerCall) → Option (World p)
  run_handlers w [] = some w
  run_handlers w ((now, call) ∷ calls) = handle now w call >>= λ w. run_handlers w calls

  -- A world in which a write has failed. Its store is well-formed, a pool in the map is one of its key,
  -- and the pool of a span's track, if it has one, was made.
  pub record IsFailed (w : World p) : Type 0 where
    pub failed : w.output.has_error ≡ true
    pub store : IsStore p.span_map w.store
    pub agrees : Agrees p.queue p.pool_map w.pools
    pub owned :
        (j : ℕ) (span : SpanData)
        → get p.span_map w.store j ≡ some (some span)
        → HasPool p.queue p.pool_map w.pools.heap span.track_pool

  -- From `w` to `w'`, only the spans of `gone` went, and only they and the pools changed.
  pub record Silent (w : World p) (gone : ℕ → Bool) (w' : World p) : Type 0 where
    pub rest : w' ≡ record w { store = w'.store; pools = w'.pools }
    pub gets :
        (j : ℕ)
        → get p.span_map w'.store j ≡ (if gone j then some none else get p.span_map w.store j)
    pub grows : Grows p.queue p.pool_map w.pools w'.pools
    pub still : IsFailed w'

  quiet_lem :
      (w : World p) (gone : Bool)
      → gone ≡ false
      → (j : ℕ) → get p.span_map w.store j ≡ (if gone then some none else get p.span_map w.store j)
  quiet_lem w gone e j = rw e refl

  same-Silent :
      (w : World p) (gone : ℕ → Bool) → ((j : ℕ) → gone j ≡ false) → IsFailed w → Silent w gone w
  same-Silent w gone none_gone x = record {
    rest = refl;
    gets = λ j. quiet_lem w (gone j) (none_gone j) j;
    grows = Keeps-Grows p.queue p.pool_map x.agrees (Keeps-refl p.queue p.pool_map w.pools);
    still = x;
  }

  stored_before :
      (w w' : World p) (gone : Bool) (j : ℕ) (span : SpanData)
      → get p.span_map w'.store j ≡ (if gone then some none else get p.span_map w.store j)
      → get p.span_map w'.store j ≡ some (some span)
      → get p.span_map w.store j ≡ some (some span)
  stored_before w w' true j span e there = cc (e, there)
  stored_before w w' false j span e there = sym e ∙ there

  close-Silent :
      (now : Moment) (w : World p) (id : ℕ)
      → IsFailed w
      → (w' : World p) × (on_close p now w id ≡ some w') × Silent w (λ j. id == j) w'
  close-Silent now w id x =
      let (store, pools, e, is, gets, grows) =
        closes_failed p now w x.failed id x.store (x.owned id) in
      let w' : World p = record w { store = store; pools = pools } in
      let grown : Grows p.queue p.pool_map w.pools pools = grows x.agrees in
      (
        w',
        e,
        record {
          rest = refl;
          gets = gets;
          grows = grown;
          still = record {
            failed = x.failed;
            store = is;
            agrees = grown.agrees;
            owned = λ j span there.
                HasPool-Grows p.queue p.pool_map span.track_pool grown
                  (x.owned j span (stored_before w w' (id == j) j span (gets j) there));
          };
        },
      )

  handle-Silent :
      (now : Moment) (w : World p) (call : HandlerCall)
      → IsFailed w
      → (w' : World p) × (handle now w call ≡ some w') × Silent w (λ j. closes j call) w'
  unfolding handle closes on_new_span on_record on_follows_from on_enter on_exit on_event no_slice
  handle-Silent now w (new_span registry id values) x =
      (w, if_true w.output.has_error _ _ x.failed, same-Silent w _ (λ j. refl) x)
  handle-Silent now w (record_values id values) x = (
    w,
    if_true _ _ _ (or_true (not w.inner.config.debug_annotations) w.output.has_error x.failed),
    same-Silent w _ (λ j. refl) x,
  )
  handle-Silent now w (follows_from registry id other) x =
      (w, if_true _ _ _ (true_or w.output.has_error _ x.failed), same-Silent w _ (λ j. refl) x)
  handle-Silent now w (enter registry id) x =
      (w, if_true _ _ _ (or_true _ w.output.has_error x.failed), same-Silent w _ (λ j. refl) x)
  handle-Silent now w (exit id) x =
      (w, if_true _ _ _ (or_true _ w.output.has_error x.failed), same-Silent w _ (λ j. refl) x)
  handle-Silent now w (event metadata values enclosing) x =
      (w, if_true w.output.has_error _ _ x.failed, same-Silent w _ (λ j. refl) x)
  handle-Silent now w (close id) x = close-Silent now w id x

  gone_later :
      {A : Type 0} (now later : Bool) (nothing a b c : A)
      → c ≡ (if later then nothing else b)
      → b ≡ (if now then nothing else a)
      → c ≡ (if now || later then nothing else a)
  gone_later true true nothing a b c s t = s
  gone_later true false nothing a b c s t = s ∙ t
  gone_later false true nothing a b c s t = s
  gone_later false false nothing a b c s t = s ∙ t

  Silent-trans :
      (u v w : World p) (gone later : ℕ → Bool)
      → Silent u gone v
      → Silent v later w
      → Silent u (λ j. gone j || later j) w
  Silent-trans u v w gone later s t = record {
    rest = t.rest ∙ ap (λ (v : World p). record v { store = w.store; pools = w.pools }) s.rest;
    gets = λ j. gone_later (gone j) (later j) _ _ _ _ (t.gets j) (s.gets j);
    grows = Grows-trans p.queue p.pool_map s.grows t.grows;
    still = t.still;
  }

  -- Once a write has failed, any sequence of calls of the seven handlers returns, each call at its
  -- own moment, if the store of spans is well-formed, each pool in the map is one of its key, and
  -- the pool of each stored span's track, if it has one, was made. Afterwards all but the spans
  -- and the pools of tracks is as before: nothing is written or queued, no context is changed and
  -- no id is drawn. The spans that a call of the sequence closes are gone, all others are as
  -- before, none is new, the pools that were made are still there, and the conditions hold again.
  pub run_handlers-Silent :
      (w : World p) (calls : List (Moment × HandlerCall))
      → IsFailed w
      → (w' : World p) × (run_handlers w calls ≡ some w') × Silent w (λ j. any_closes j calls) w'
  unfolding run_handlers any_closes
  run_handlers-Silent w [] x = (w, refl, same-Silent w _ (λ j. refl) x)
  run_handlers-Silent w ((now, call) ∷ calls) x =
      let (v, e, s) = handle-Silent now w call x in
      let (w', e2, t) = run_handlers-Silent v calls s.still in
      (w', rw e e2, Silent-trans w v w' _ _ s t)
