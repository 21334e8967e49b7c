-- ===== src/Spans/Runs.antt =====
-- The theorems on the span store at an association list.
use tracing_perfetto_file.Common.{◌≡◌, ◌⊎◌, none, some, arith}
use tracing_perfetto_file.Spans.{SpanData, new_span, DashMap, SpanStore, new_store}
use tracing_perfetto_file.Spans
use tracing_perfetto_file.Spans.Refines.{
  insert-Updates, take-Updates, get_mut-Updates, new_store-IsStore,
}
use tracing_perfetto_file.Spans.Tiers.{Updates}
use tracing_perfetto_file.Spans.Instances.{assoc}

abbrev idle : SpanData
idle = record { track_pool = none; track_uuid = some 5; retained = none }

insert-Updates_example :
    (s' : SpanStore assoc) × (Spans.insert assoc (new_store assoc) 7 idle ≡ some s')
    × Updates assoc (new_store assoc) s' 7 (some idle)
insert-Updates_example =
    insert-Updates assoc (new_store assoc) 7 idle (new_store-IsStore assoc).0 (omega arith)
      ((new_store-IsStore assoc).1 7)

-- A store that has span 7.
abbrev with_idle :
    (s' : SpanStore assoc) × (Spans.insert assoc (new_store assoc) 7 idle ≡ some s')
    × Updates assoc (new_store assoc) s' 7 (some idle)
with_idle =
    insert-Updates assoc (new_store assoc) 7 idle (new_store-IsStore assoc).0 (omega arith)
      ((new_store-IsStore assoc).1 7)

take-Updates_example :
    ((Spans.get assoc with_idle.0 7 ≡ some none) × (Spans.take assoc with_idle.0 7 ≡ some none))
    ⊎ ((d : SpanData) × (s' : SpanStore assoc) × (Spans.get assoc with_idle.0 7 ≡ some (some d))
        × (Spans.take assoc with_idle.0 7 ≡ some (some (d, s')))
        × Updates assoc with_idle.0 s' 7 none)
take-Updates_example = take-Updates assoc with_idle.0 7 with_idle.2.store

abbrev forget_track : SpanData → SpanData
forget_track d = record d { track_uuid = none }

get_mut-Updates_example :
    ((Spans.get assoc with_idle.0 7 ≡ some none)
      × (Spans.get_mut assoc with_idle.0 7 forget_track ≡ some none))
    ⊎ ((d : SpanData) × (s' : SpanStore assoc) × (Spans.get assoc with_idle.0 7 ≡ some (some d))
        × (Spans.get_mut assoc with_idle.0 7 forget_track ≡ some (some s'))
        × Updates assoc with_idle.0 s' 7 (some (forget_track d)))
get_mut-Updates_example = get_mut-Updates assoc with_idle.0 7 forget_track with_idle.2.store
