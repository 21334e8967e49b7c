-- ===== src/Runtime/Output/Interleave/Runs.antt =====
-- Any run of steps keeps the explanation of the sink and the queues.
use tracing_perfetto_file.Common.{
  ℕ, ◌≡◌, refl, sym, subst, List, [], ◌∷◌, ◌++◌, true, false, Option, none, some, append-nil,
  append_assoc, Bool-cases, inl, inr,
}
use tracing_perfetto_file.Common.Lists.{length, get_elem?, length-append}
use tracing_perfetto_file.Runtime.Output.{Sink, Ring, Output}
use tracing_perfetto_file.Runtime.Output.Interleave.{
  Event, deliver, drain, register, sent, all_sent, System, at_queue, step, run, Explained,
  more_queues, AllRegistered, initial,
}
use tracing_perfetto_file.Common.Indexed.{length-set}
use tracing_perfetto_file.Runtime.Output.Interleave.Steps.{
  same_streams, step-sticky, step-Explained,
}

module _ (sink : Sink) (ring : Ring) where
  open sink use {Writer, written}
  open ring use {Queue, contents}

  length-at_queue :
      (s : System sink ring) (i : ℕ) (act : Queue → Output sink ring × Queue) (found : Option Queue)
      → length (at_queue sink ring s i act found).queues ≡ length s.queues
  unfolding at_queue
  length-at_queue s i act none = refl
  length-at_queue s i act (some q) = length-set s.queues i (act q).1

  length-step :
      (s : System sink ring) (e : Event)
      → length (step sink ring s e).queues ≡ more_queues (length s.queues) e
  unfolding step
  length-step s (deliver i bytes) = length-at_queue s i _ (get_elem? s.queues i)
  length-step s (drain i) = length-at_queue s i _ (get_elem? s.queues i)
  length-step s register = length-append s.queues (ring.empty ∷ [])

  run-sticky :
      (s : System sink ring) (es : List Event)
      → s.output.has_error ≡ true
      → (run sink ring s es).output.has_error ≡ true
  unfolding run
  run-sticky s [] failed = failed
  run-sticky s (e ∷ es) failed =
      run-sticky (step sink ring s e) es (step-sticky sink ring s e failed)

  fine_before :
      (s : System sink ring) (es : List Event)
      → (run sink ring s es).output.has_error ≡ false
      → s.output.has_error ≡ false
  fine_before s es fine = elim (Bool-cases s.output.has_error) [
    | inl failed ↦ cc (run-sticky s es failed, fine)
    | inr before ↦ before
  ]

  -- Whatever the interleaving, while no write fails: the sink holds whole packets, and those of a
  -- thread in the order in which they ended; the others wait, in order, in that thread's queue.
  pub run-Explained :
      (es : List Event) {base : List ℕ} {s : System sink ring} {streams : ℕ → List (List ℕ)}
      → Explained sink ring base s streams
      → AllRegistered (length s.queues) es
      → (run sink ring s es).output.has_error ≡ false
      → Explained sink ring base (run sink ring s es) (λ j. streams j ++ all_sent j es)
  unfolding run
  run-Explained [] {s = s} {streams = streams} x r fine =
      same_streams sink ring streams _ (λ j. sym (append-nil (streams j))) x
  run-Explained (e ∷ es) {s = s} {streams = streams} x r fine =
      let before = fine_before (step sink ring s e) es fine in
      let rest = subst (λ n. AllRegistered n es) (sym (length-step s e)) r.1 in
      same_streams sink ring _ _ (λ j. append_assoc (streams j) (sent j e) (all_sent j es))
        (run-Explained es (step-Explained sink ring e x r.0 before) rest fine)

  pub initial-Explained :
      (w : Writer) → Explained sink ring (written w) (initial sink ring w) (λ j. [])
  initial-Explained w = record {
    log = [];
    queued = λ j. [];
    in_sink = sym (append-nil (written w));
    in_order = λ j. refl;
    in_queue = λ j q there. cc there;
    unregistered = λ j beyond. refl;
  }

  pub run-initial-Explained :
      (w : Writer) (es : List Event)
      → AllRegistered 0 es
      → (run sink ring (initial sink ring w) es).output.has_error ≡ false
      → Explained sink ring
          (written w)
          (run sink ring (initial sink ring w) es)
          (λ j. all_sent j es)
  run-initial-Explained w es r fine = run-Explained es (initial-Explained w) r fine
