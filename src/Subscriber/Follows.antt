-- ===== src/Subscriber/Follows.antt =====
-- The handlers of src/subscriber.rs that only change spans: `on_record` and `on_follows_from`.
use tracing_perfetto_file.Common.{
  ℕ, ◌<◌, ◌≡◌, ◌≢◌, refl, sym, ◌∙◌, ap, inl, inr, List, [], ◌∷◌, ◌++◌, true, false, Bool-cases,
  if_false, or_false, not, Option, none, some, ◌==◌, ==_iff, if◌then◌else◌,
}
use tracing_perfetto_file.Runtime.{
  RetainedSpanData, PendingFlow, default_retained, u64_mod, alloc_flow_id, note_follows_from,
}
use tracing_perfetto_file.Runtime.Draws.{fetch_nonzero-Drew}
use tracing_perfetto_file.Spans.{SpanData, SpanStore, get, get_mut}
use tracing_perfetto_file.Spans.Tiers.{IsStore, Updates}
use tracing_perfetto_file.Spans.Refines.{get_mut-Updates}
use tracing_perfetto_file.Visitor.Calls.{Call, store_values}
use tracing_perfetto_file.Subscriber.{
  RegistrySpan, Registry, Moment, Parts, World, modify_span, modify_found, ensure_retained,
  queue_flow,
}
use tracing_perfetto_file.Subscriber.Spans.{
  absent_of, record_values, on_record, on_follows_from, link_found,
}
use tracing_perfetto_file.Subscriber.Calm.{Calm, Apart, take_retained-default}

-- The retained data of a span, or what a span without any gets.
abbrev retained_or : Option RetainedSpanData → RetainedSpanData
retained_or none = default_retained
retained_or (some retained) = retained

-- A span with one more flow, behind the others.
abbrev pub queued : SpanData → PendingFlow → SpanData
queued span flow = record span {
  retained = some (record (retained_or span.retained) {
    pending_flows = (retained_or span.retained).pending_flows ++ flow ∷ [];
  });
}

-- A span with values recorded.
abbrev pub recorded : SpanData → List Call → SpanData
recorded span values = record span {
  retained = some (record (retained_or span.retained) {
    fields = store_values (retained_or span.retained).fields values;
  });
}

module _ (p : Parts) (now : Moment) where
  ensure_retained_lem :
      (w : World p) (retained : Option RetainedSpanData)
      → Calm p w
      → (w' : World p) × (ensure_retained p now w retained ≡ some (retained_or retained, w'))
        × Calm p w'
        × Apart p w w'
  unfolding ensure_retained
  ensure_retained_lem w none calm = take_retained-default p now w calm
  ensure_retained_lem w (some retained) calm = (
    w,
    refl,
    calm,
    record {
      store = refl;
      pools = refl;
      output = refl;
      config = refl;
      follows = refl;
      next_flow_id = refl;
    },
  )

  -- A change of a span that is there.
  modify_span_lem :
      (w w1 : World p) (id : ℕ) (span span' : SpanData)
      (change : SpanData → World p → Option (SpanData × World p))
      → IsStore p.span_map w.store
      → get p.span_map w.store id ≡ some (some span)
      → change span w ≡ some (span', w1)
      → w1.store ≡ w.store
      → (store : SpanStore p.span_map) × (modify_span p now w id change
          ≡ some (record w1 { store = store }))
        × Updates p.span_map w.store store id (some span')
  unfolding modify_span modify_found
  modify_span_lem w w1 id span span' change x there changed same =
      elim (get_mut-Updates p.span_map w.store id (λ _. span') x) [
        | inl (absent, e) ↦
            (let never : some none ≡ some (some span) = sym absent ∙ there in cc never)
        | inr (d, store, found, e, updates) ↦ (
          store,
          rw there (rw changed (rw (ap (λ s. get_mut p.span_map s id (λ _. span')) same ∙ e) refl)),
          updates,
        )
      ]

  -- A span that is there, in a well-formed store, while annotations are on, no write has failed and the
  -- thread's contexts keep blank data: `on_record` returns, the span has the values recorded over the
  -- ones that it has, or over none, and the other spans stay; nothing is written.
  pub on_record-Updates :
      (w : World p) (id : ℕ) (values : List Call) (span : SpanData)
      → Calm p w
      → IsStore p.span_map w.store
      → w.output.has_error ≡ false
      → w.inner.config.debug_annotations ≡ true
      → get p.span_map w.store id ≡ some (some span)
      → (w' : World p) × (on_record p now w id values ≡ some w')
        × Updates p.span_map w.store w'.store id (some (recorded span values))
        × (w'.output ≡ w.output)
        × Calm p w'
  unfolding on_record
  on_record-Updates w id values span calm x fine wanted there =
      let (w1, e, calm1, apart) = ensure_retained_lem w span.retained calm in
      let (store, modified, updates) =
        modify_span_lem w w1 id span (recorded span values) (record_values p now values) x there
          (unfold record_values in rw e refl) apart.store in
      (
        record w1 { store = store },
        if_false _ _ _ (
              or_false (not w.inner.config.debug_annotations) w.output.has_error (ap not wanted)
                fine)
            ∙ modified,
        updates,
        apart.output,
        record { keyed = calm1.keyed; small = calm1.small; blank = calm1.blank },
      )

  queue_flow_lem :
      (w : World p) (span : SpanData) (flow : PendingFlow)
      → Calm p w
      → (w' : World p) × (queue_flow p now span w flow ≡ some (queued span flow, w'))
        × Calm p w'
        × Apart p w w'
  unfolding queue_flow
  queue_flow_lem w span flow calm =
      let (w1, e, calm1, apart) = ensure_retained_lem w span.retained calm in
      (w1, rw e refl, calm1, apart)

  -- One flow more on a span that is there.
  queue_on :
      (w : World p) (id : ℕ) (span : SpanData) (flow : PendingFlow)
      → Calm p w
      → IsStore p.span_map w.store
      → get p.span_map w.store id ≡ some (some span)
      → (w' : World p) × (modify_span p now w id (λ span w. queue_flow p now span w flow) ≡ some w')
        × Updates p.span_map w.store w'.store id (some (queued span flow))
        × Calm p w'
        × (w'.inner.has_follows_from ≡ w.inner.has_follows_from)
        × (w'.output ≡ w.output)
  queue_on w id span flow calm x there =
      let (w1, e, calm1, apart) = queue_flow_lem w span flow calm in
      let (store, modified, updates) =
        modify_span_lem w w1 id span (queued span flow) _ x there e apart.store in
      (
        record w1 { store = store },
        modified,
        updates,
        record { keyed = calm1.keyed; small = calm1.small; blank = calm1.blank },
        apart.follows,
        apart.output,
      )

  -- Two different spans that the registry and a well-formed store have, while no write has failed, the
  -- counters are below 2^64 and the thread's contexts keep blank data: `on_follows_from` returns and
  -- draws a flow id that is not zero. Behind the flows that they have, the span that is followed gets
  -- the start of the flow and the other one its end; all other spans stay. From then on the layer looks
  -- for flows, and nothing is written.
  pub on_follows_from-Links :
      (registry : Registry) (w : World p) (id follows : ℕ) (known known' : RegistrySpan)
      (span followed : SpanData)
      → Calm p w
      → IsStore p.span_map w.store
      → w.output.has_error ≡ false
      → w.inner.next_flow_id < u64_mod
      → registry id ≡ some known
      → registry follows ≡ some known'
      → follows ≢ id
      → get p.span_map w.store id ≡ some (some span)
      → get p.span_map w.store follows ≡ some (some followed)
      → (flow : ℕ) × (w' : World p) × (on_follows_from p now registry w id follows ≡ some w')
        × (flow ≢ 0)
        × (w'.inner.has_follows_from ≡ true)
        × (w'.output ≡ w.output)
        × IsStore p.span_map w'.store
        × ((j : ℕ)
            → get p.span_map w'.store j ≡ (
                if id == j
                then some (some (queued span (PendingFlow.terminate flow)))
                else if follows == j
                then some (some (queued followed (PendingFlow.start flow)))
                else get p.span_map w.store j))
  unfolding on_follows_from link_found absent_of alloc_flow_id note_follows_from
  on_follows_from-Links registry w id follows known known' span followed calm x fine small e e' ne
        there there' =
      let (flow, next, drawn, nonzero, low, counted, which) =
        fetch_nonzero-Drew w.inner.next_flow_id small in
      let w1 : World p = record w {
        inner = record w.inner { has_follows_from = true; next_flow_id = next };
      } in
      let calm1 : Calm p w1 = record {
        keyed = calm.keyed;
        small = calm.small;
        blank = calm.blank;
      } in
      let (w2, modified, updates, calm2, has, out) =
        queue_on w1 follows followed (PendingFlow.start flow) calm1 x there' in
      let apart : (follows == id) ≡ false = elim (Bool-cases (follows == id)) [
        | inl same ↦ absurd (ne ((==_iff follows id).0 same))
        | inr other ↦ other
      ] in
      let still : get p.span_map w2.store id ≡ some (some span) =
        updates.gets id ∙ rw apart there in
      let (w3, modified', updates', calm3, has', out') =
        queue_on w2 id span (PendingFlow.terminate flow) calm2 updates.store still in
      (
        flow,
        w3,
        if_false _ _ _
              (or_false w.output.has_error _ fine (or_false _ _ (ap absent_of e) (ap absent_of e')))
            ∙ rw drawn (rw there' (rw modified modified')),
        nonzero,
        has' ∙ has,
        out' ∙ out,
        updates'.store,
        λ j.
            updates'.gets j
            ∙ ap
                (λ rest.
                  if id == j then some (some (queued span (PendingFlow.terminate flow))) else rest)
                (updates.gets j),
      )
