-- ===== src/Thread/Contexts/Runs.antt =====
-- Threads with contexts of two layers, and the theorems at them.
use tracing_perfetto_file.Common.{ℕ, ◌≡◌, refl, [], ◌∷◌, List, Bool, true, false, some, none, arith}
use tracing_perfetto_file.Layer.{default}
use tracing_perfetto_file.Runtime.{Inner}
use tracing_perfetto_file.Sequence
use tracing_perfetto_file.Thread.{new_retained}
use tracing_perfetto_file.Thread.Tracks.{new_tracks}
use tracing_perfetto_file.Thread.Contexts.{ThreadCtx, Contexts, Acquired, acquire, context_of}
use tracing_perfetto_file.Thread.Contexts.Laws.{Outcome, acquire-Outcome}
use tracing_perfetto_file.Thread.Contexts.Lookup.{IsKeyed}
use tracing_perfetto_file.Thread.Contexts.Guard.{
  Call, acquire_for, drop_for, change_for, Keeps, run_calls, run_calls-Keeps,
}

abbrev layer : Inner
layer = record {
  id = 4;
  counter_tracks = [];
  next_sequence_id = 70000;
  next_uuid = 100;
  next_flow_id = 0;
  has_follows_from = false;
  next_tid_offset = 0;
  process_track = none;
  process_desc_emitted = false;
  config = record {
    span_mode = default;
    debug_annotations = false;
    poll_slices = false;
    source_locations = false;
    counters = true;
    process_arguments = true;
  };
}

abbrev other_layer : Inner
other_layer = record layer { id = 5 }

-- A context of layer 3, lent out.
abbrev lent_context : ThreadCtx
lent_context = record {
  inner = 3;
  borrowed = true;
  sequence = Sequence.new 70000 9 5;
  buffer = 0;
  tracks = new_tracks;
  retained_spans = new_retained;
}

abbrev contexts : Contexts
contexts = (3, lent_context) ∷ []

abbrev all_alive : ℕ → Bool
all_alive id = true

-- The queues are numbers here.
acquire-Outcome_example :
    (r : Acquired ℕ) × (acquire 0 all_alive 8 false layer
        (6 ∷ [])
        (record { destroyed = false; in_use = false; contexts = contexts })
      ≡ some r)
    × (Outcome 0 all_alive layer (6 ∷ []) contexts r × IsKeyed r.contexts)
acquire-Outcome_example =
    acquire-Outcome 0 all_alive 8 layer (6 ∷ []) contexts (omega arith) (refl, tt)

-- Another layer gets a context and gives it back; layer 3 asks again for its own.
abbrev calls : List (Call ℕ)
calls =
    acquire_for 0 all_alive 8 false false false layer []
    ∷ acquire_for 0 all_alive 8 false false false (record layer { id = 3 }) []
    ∷ change_for 4 (λ context. record context { buffer = 1 })
    ∷ drop_for 4
    ∷ []

run_calls-Keeps_example : Keeps 3 lent_context (run_calls contexts calls)
run_calls-Keeps_example =
    run_calls-Keeps contexts calls 3 lent_context (refl, tt) (unfold context_of in refl) refl
      (
        (refl, omega arith),
        (
          (refl, omega arith),
          (
            ((λ (e : ◌≡◌ {A = ℕ} 4 3). absurd (omega arith)), λ c. refl),
            ((λ (e : ◌≡◌ {A = ℕ} 4 3). absurd (omega arith)), tt),
          ),
        ),
      )
