-- ===== src/Subscriber/Runs.antt =====
-- The handlers of src/subscriber.rs at two spans, and the theorems at them.
use tracing_perfetto_file.Common.{
  ℕ, ap, Bool, true, false, Option, ◌≡◌, ◌≢◌, ◌∙◌, sym, subst, refl, List, [], ◌∷◌, none, some,
  ◌==◌, if◌then◌else◌, arith,
}
use tracing_perfetto_file.Common.Maps
use tracing_perfetto_file.Common.Maps.{StaticStr}
use tracing_perfetto_file.Proto.Fields.{Writes}
use tracing_perfetto_file.Runtime.{FieldValue, PendingFlow}
use tracing_perfetto_file.Sequence
use tracing_perfetto_file.Sequence.{
  SequenceState, intern_annotation_name, intern, intern_found, intern_miss, after_reserved,
}
use tracing_perfetto_file.Spans.{SpanData, get}
use tracing_perfetto_file.Spans.Tiers.{IsStore, Updates}
use tracing_perfetto_file.Spans.Instances.{assoc}
use tracing_perfetto_file.Spans.Pools.Instances.{list_queue, list_map}
use tracing_perfetto_file.Thread.Contexts.{ThreadCtx, context_of}
use tracing_perfetto_file.Thread.Reuse.Balance.{HasPool}
use tracing_perfetto_file.Visitor.Calls.{Call}
use tracing_perfetto_file.Subscriber.{Moment, World}
use tracing_perfetto_file.Subscriber.Spans.{on_record, on_follows_from, on_close}
use tracing_perfetto_file.Subscriber.Calm.{Calm}
use tracing_perfetto_file.Subscriber.Quiet.{on_close_failed}
use tracing_perfetto_file.Subscriber.Silent.{
  HandlerCall, any_closes, run_handlers, IsFailed, Silent, run_handlers-Silent,
}
use tracing_perfetto_file.Thread.Tracks.Slots.{Agrees}
use tracing_perfetto_file.Spans.Pools.{new_pools}
use tracing_perfetto_file.Spans.Refines.{new_store-IsStore}
use tracing_perfetto_file.Subscriber.Follows.{
  queued, recorded, on_record-Updates, on_follows_from-Links,
}
use tracing_perfetto_file.Subscriber.Layouts.{
  AreStored, EventAdds, fields_state, fields_layout, flows_layout, write_pending_flows-Writes,
  write_stored_fields-EventAdds,
}
use tracing_perfetto_file.Subscriber.Events.{write_pending_flows, write_stored_fields}
use tracing_perfetto_file.Subscriber.Instances.{
  parts, read_metadata, registry, now, first_span, second_span, with_first, with_both, first_there,
  second_there, world,
}

-- The same after a write that failed.
abbrev failed : World parts
failed = record world { output = record world.output { has_error = true } }

no_context : (k : ℕ) (context : ThreadCtx) → ¬ (context_of [] k ≡ some context)
unfolding context_of
no_context k context e = cc e

world-Calm : Calm parts world
world-Calm = record {
  keyed = tt;
  small = omega arith;
  blank = λ k context e. absurd (no_context k context e);
}

abbrev values : List Call
values = Call.u64 (record { ptr = 80; text = 110 ∷ [] }) 41 ∷ []

on_record-Updates_example :
    (w' : World parts) × (on_record parts now world 1 values ≡ some w')
    × Updates assoc with_both.0 w'.store 1 (some (recorded first_span values))
    × (w'.output ≡ world.output)
    × Calm parts w'
on_record-Updates_example =
    on_record-Updates parts now world 1 values first_span world-Calm with_both.2.store refl refl
      first_there

on_follows_from-Links_example :
    (flow : ℕ) × (w' : World parts) × (on_follows_from parts now registry world 2 1 ≡ some w')
    × (flow ≢ 0)
    × (w'.inner.has_follows_from ≡ true)
    × (w'.output ≡ world.output)
    × IsStore assoc w'.store
    × ((j : ℕ)
        → get assoc w'.store j ≡ (
            if 2 == j
            then some (some (queued second_span (PendingFlow.terminate flow)))
            else if 1 == j
            then some (some (queued first_span (PendingFlow.start flow)))
            else get assoc with_both.0 j))
on_follows_from-Links_example =
    on_follows_from-Links parts now registry world 2 1
      (record { metadata = read_metadata; parent = some 1 })
      (record { metadata = read_metadata; parent = none }) second_span first_span world-Calm
      with_both.2.store refl (omega arith) refl refl (λ (e : ◌≡◌ {A = ℕ} 1 2). absurd (omega arith))
      second_there first_there

first_poolless :
    (span : SpanData)
    → get assoc with_both.0 1 ≡ some (some span)
    → HasPool list_queue list_map world.pools.heap span.track_pool
first_poolless span e =
    let same : some (some first_span) ≡ some (some span) = sym first_there ∙ e in
    let is : first_span ≡ span = cc same in
    subst (λ span. HasPool list_queue list_map world.pools.heap span.track_pool) is tt

on_close_failed_example :
    (w' : World parts) × (on_close parts now failed 1 ≡ some w')
    × (w'.output ≡ failed.output)
    × (w'.queues ≡ failed.queues)
    × (w'.local ≡ failed.local)
    × IsStore assoc w'.store
    × ((j : ℕ) → get assoc w'.store j ≡ (if 1 == j then some none else get assoc with_both.0 j))
on_close_failed_example = on_close_failed parts now failed refl 1 with_both.2.store first_poolless

new_pools-Agrees_layer : Agrees list_queue list_map (new_pools list_queue list_map)
unfolding new_pools
new_pools-Agrees_layer key p e = cc e

-- A store has spans without a pool, and no others.
Poolless : Option (Option SpanData) → Type 0
Poolless r = (span : SpanData) → r ≡ some (some span) → span.track_pool ≡ none

stored_Poolless : (new : SpanData) → new.track_pool ≡ none → Poolless (some (some new))
unfolding Poolless
stored_Poolless new e span there =
    let same : new ≡ span = cc there in ap (λ (s : SpanData). s.track_pool) (sym same) ∙ e

either_Poolless :
    (same : Bool) (r new old : Option (Option SpanData))
    → r ≡ (if same then new else old)
    → Poolless new
    → Poolless old
    → Poolless r
either_Poolless true r new old e n o = subst Poolless (sym e) n
either_Poolless false r new old e n o = subst Poolless (sym e) o

absent_Poolless : (r : Option (Option SpanData)) → r ≡ some none → Poolless r
unfolding Poolless
absent_Poolless r e span there = cc (e, there)

both_Poolless : (j : ℕ) → Poolless (get assoc with_both.0 j)
both_Poolless j =
    either_Poolless (2 == j) _ _ _ (with_both.2.gets j) (stored_Poolless second_span refl) (
      either_Poolless (1 == j) _ _ _ (with_first.2.gets j) (stored_Poolless first_span refl)
        (absent_Poolless _ ((new_store-IsStore assoc).1 j)))

failed-IsFailed : IsFailed parts failed
unfolding Poolless
failed-IsFailed = record {
  failed = refl;
  store = with_both.2.store;
  agrees = new_pools-Agrees_layer;
  owned = λ j span there.
      subst (HasPool list_queue list_map world.pools.heap) (sym (both_Poolless j span there)) tt;
}

-- Both spans are used, a third one is new, and the first one closes twice.
abbrev handler_calls : List (Moment × HandlerCall)
handler_calls =
    (now, HandlerCall.new_span registry 3 values)
    ∷ (now, HandlerCall.enter registry 1)
    ∷ (now, HandlerCall.record_values 2 values)
    ∷ (now, HandlerCall.follows_from registry 2 1)
    ∷ (now, HandlerCall.event read_metadata values (some 1))
    ∷ (now, HandlerCall.exit 1)
    ∷ (now, HandlerCall.close 1)
    ∷ (now, HandlerCall.close 1)
    ∷ []

run_handlers-Silent_example :
    (w' : World parts) × (run_handlers parts failed handler_calls ≡ some w')
    × Silent parts failed (λ j. any_closes j handler_calls) w'
run_handlers-Silent_example = run_handlers-Silent parts failed handler_calls failed-IsFailed

abbrev flows : List PendingFlow
flows = PendingFlow.start 3 ∷ PendingFlow.terminate 6 ∷ []

write_pending_flows-Writes_example :
    Writes (flows_layout flows) (λ e. some (write_pending_flows e flows))
write_pending_flows-Writes_example =
    write_pending_flows-Writes flows (omega arith, (omega arith, tt))

abbrev stored : List (StaticStr × FieldValue)
stored =
    (record { ptr = 80; text = 110 ∷ [] }, FieldValue.u64 41)
    ∷ (record { ptr = 81; text = 111 ∷ [] }, FieldValue.str (120 ∷ []))
    ∷ []

abbrev sequence : SequenceState
sequence = Sequence.new 70000 9 5

stored-AreStored : AreStored sequence stored
unfolding intern_annotation_name intern intern_found intern_miss Sequence.new after_reserved
    Maps.get Maps.insert
stored-AreStored = ((omega arith, omega arith), ((omega arith, omega arith), tt))

write_stored_fields-EventAdds_example :
    EventAdds sequence
      (fields_state sequence stored)
      (fields_layout sequence stored)
      (λ e. write_stored_fields e stored)
write_stored_fields-EventAdds_example =
    write_stored_fields-EventAdds sequence stored stored-AreStored
