-- ===== src/Subscriber/SliceRuns.antt =====
-- Slices of a span (src/subscriber.rs) on a thread whose sequence is initialized.
use tracing_perfetto_file.Common.{
  ◌≡◌, refl, subst, [], ◌∷◌, Bool, true, false, none, some, ◌==◌, ◌&&◌, if◌then◌else◌, arith, inl,
}
use tracing_perfetto_file.Common.Lists.{All}
use tracing_perfetto_file.Common.Maps
use tracing_perfetto_file.Layer.{SpanMode, emit_thread_slices}
use tracing_perfetto_file.Sequence
use tracing_perfetto_file.Sequence.{
  SequenceState, intern_event_name, intern_annotation_name, intern_category, intern_source_location,
  source_location_found, register_level_name, register_level_value, level_value_seen, intern,
  intern_found, intern_miss, after_reserved,
}
use tracing_perfetto_file.Thread.{new_retained}
use tracing_perfetto_file.Thread.Blank.{IsBlank, new_retained-IsBlank}
use tracing_perfetto_file.Thread.Tracks.{new_tracks}
use tracing_perfetto_file.Thread.Contexts.{ThreadCtx, context_of}
use tracing_perfetto_file.Subscriber.{Level, RegistrySpan, Registry, World, pending_flows, fields}
use tracing_perfetto_file.Subscriber.Events.{announce_level, level_values}
use tracing_perfetto_file.Subscriber.Spans.{is_thread_tracks}
use tracing_perfetto_file.Subscriber.Slices.{no_slice, slice_track, on_enter, on_exit}
use tracing_perfetto_file.Subscriber.Layouts.{fields_state}
use tracing_perfetto_file.Subscriber.Lent.{IsFree}
use tracing_perfetto_file.Subscriber.Sliced.{Writable, Slices, open_sequence}
use tracing_perfetto_file.Subscriber.Exit.{exit_layout, on_exit-Slices}
use tracing_perfetto_file.Subscriber.Enter.{enter_state, enter_layout, IsHead, on_enter-Slices}
use tracing_perfetto_file.Subscriber.Instances.{
  parts, now, first_span, with_both, world, layer, first_there,
}

abbrev context : ThreadCtx
context = record {
  inner = 1;
  borrowed = false;
  sequence = record (Sequence.new 70000 9 5) { initialized = true; first_packet_done = true };
  buffer = 0;
  tracks = new_tracks;
  retained_spans = new_retained;
}

-- Thread slices with their fields, once a relation was noted.
abbrev busy : World parts
busy = record world {
  inner = record layer {
    has_follows_from = true;
    config = record layer.config { span_mode = SpanMode.thread_tracks; source_locations = true };
  };
  queues = [] ∷ [];
  local = record world.local { contexts = (1, context) ∷ [] };
}

abbrev known : RegistrySpan
known = record {
  metadata = record {
    callsite = 4096;
    name = record { ptr = 32; text = 114 ∷ [] };
    target = record { ptr = 48; text = 97 ∷ [] };
    level = Level.info;
    file = some (record { ptr = 90; text = 102 ∷ [] });
    line = some 12;
    fields = [];
  };
  parent = none;
}

abbrev only_first : Registry
only_first id = if id == 1 then some known else none

context-IsBlank :
    (c : ThreadCtx) (hit : Bool)
    → (if hit then some context else none) ≡ some c
    → All IsBlank c.retained_spans
context-IsBlank c true e =
    let is : context ≡ c = cc e in subst (λ c. All IsBlank c.retained_spans) is new_retained-IsBlank
context-IsBlank c false e = (let never : none ≡ some c = e in absurd (cc never))

busy-IsFree : IsFree parts now busy context
unfolding context_of
busy-IsFree = record {
  calm = record {
    keyed = (refl, tt);
    small = omega arith;
    blank = λ k c e. context-IsBlank c (1 == k) e;
  };
  fine = refl;
  lives = refl;
  unused = refl;
  there = refl;
  free = refl;
}

exit-Writable :
    Writable parts now busy context []
      (exit_layout first_span true none)
      (open_sequence parts now context)
unfolding pending_flows Sequence.new
exit-Writable = record {
  at = refl;
  initialized = refl;
  ready = record { done = refl; small_id = omega arith; prefix = inl refl };
  clock = omega arith;
  fits = record {
    categories = tt;
    event_names = tt;
    annotation_names = tt;
    annotation_values = tt;
    locations = tt;
    total = omega arith;
  };
  room = omega arith;
  small = omega arith;
}

on_exit-Slices_example :
    (w' : World parts) × (on_exit parts now busy 1 ≡ some w')
    × Slices parts now busy 1 first_span context []
        (emit_thread_slices busy.inner.config.span_mode && busy.inner.has_follows_from)
        (exit_layout first_span
          (emit_thread_slices busy.inner.config.span_mode && busy.inner.has_follows_from)
          none)
        (open_sequence parts now context)
        w'
unfolding no_slice slice_track pending_flows emit_thread_slices
on_exit-Slices_example =
    on_exit-Slices parts now busy 1 first_span context [] none busy-IsFree with_both.2.store refl
      first_there refl tt (omega arith, tt) exit-Writable

abbrev entered : SequenceState
entered =
    enter_state busy.inner.config now.addresses known.metadata first_span none
      (open_sequence parts now context)

enter-IsHead :
    IsHead busy.inner.config now.addresses known.metadata first_span none
      (open_sequence parts now context)
unfolding Sequence.new intern_event_name intern_annotation_name intern_category
    intern_source_location source_location_found register_level_name register_level_value
    level_value_seen intern intern_found intern_miss after_reserved Maps.get Maps.insert
    announce_level level_values is_thread_tracks fields pending_flows fields_state
enter-IsHead = (omega arith, (omega arith, omega arith), ((omega arith, omega arith), tt))

enter-Writable :
    Writable parts now busy context []
      (enter_layout busy.inner.config now.addresses known.metadata first_span true none
        (open_sequence parts now context))
      entered
unfolding Sequence.new intern_event_name intern_annotation_name intern_category
    intern_source_location source_location_found register_level_name register_level_value
    level_value_seen intern intern_found intern_miss after_reserved Maps.get Maps.insert
    announce_level level_values is_thread_tracks fields pending_flows fields_state
enter-Writable = record {
  at = refl;
  initialized = refl;
  ready = record { done = refl; small_id = omega arith; prefix = inl refl };
  clock = omega arith;
  fits = record {
    categories = ((omega arith, omega arith), tt);
    event_names = ((omega arith, omega arith), tt);
    annotation_names = ((omega arith, omega arith), ((omega arith, omega arith), tt));
    annotation_values = ((omega arith, omega arith), tt);
    locations = ((omega arith, omega arith, omega arith), tt);
    total = omega arith;
  };
  room = omega arith;
  small = omega arith;
}

on_enter-Slices_example :
    let st = open_sequence parts now context in
    let a = now.addresses in
    (w' : World parts) × (on_enter parts now only_first busy 1 ≡ some w')
    × Slices parts now busy 1 first_span context [] true
        (enter_layout busy.inner.config a known.metadata first_span true none st)
        (enter_state busy.inner.config a known.metadata first_span none st)
        w'
unfolding no_slice slice_track pending_flows emit_thread_slices
on_enter-Slices_example =
    on_enter-Slices parts now only_first busy 1 known first_span context [] none busy-IsFree
      with_both.2.store refl refl first_there refl enter-IsHead (λ flow e. absurd (cc e))
      (omega arith, tt) enter-Writable
