-- ===== src/Runtime/Output/Interleave/Steps.antt =====
-- One step keeps the explanation of the sink and the queues.
use tracing_perfetto_file.Common.{
  ℕ, ◌≤◌, ◌≡◌, sym, ap, ◌∙◌, ◌⊎◌, List, [], ◌∷◌, ◌++◌, true, false, none, some, arith, append-nil,
  append_assoc, Bool-cases, Option-cases, inl, inr, ◌==◌, ==_iff, if◌then◌else◌,
}
use tracing_perfetto_file.Common.Lists.{length, get_elem?, set, length-append}
use tracing_perfetto_file.Runtime.Output.{Sink, Ring, Output, push_packet}
use tracing_perfetto_file.Runtime.Output.Drain.{drain_thread_buffer-Drained}
use tracing_perfetto_file.Runtime.Output.Interleave.{
  Event, deliver, drain, register, sent, bytes_of, packets_of, label, joined, System, step,
  Explained, IsRegistered,
}
use tracing_perfetto_file.Runtime.Output.Interleave.Logs.{
  bytes_of-append, bytes_of-label, joined-append, packets_of-append, packets_of-label,
}
use tracing_perfetto_file.Common.Indexed.{
  get_elem?-set, get_elem?-beyond, get_elem?-append_one, length-set, get_elem?_within,
}

module _ (sink : Sink) (ring : Ring) where
  open sink use {Writer, written}
  open ring use {Queue, contents}

  -- A queue of thread `i` that is drained with trailing packets behind it.
  module _ {base : List ℕ} {s : System sink ring} {streams : ℕ → List (List ℕ)}
      (x : Explained sink ring base s streams) (i : ℕ) (q : Queue)
      (at : get_elem? s.queues i ≡ some q) where
    drained :
        (more : List (List ℕ)) (o : Output sink ring) (q' : Queue)
        → written o.writer ≡ written s.output.writer ++ (contents q ++ joined more)
        → contents q' ≡ []
        → Explained sink ring base
            (record { output = o; queues = set s.queues i q' })
            (λ j. streams j ++ (if i == j then more else []))
    drained more o q' whole empty = record {
      log = x.log ++ label i (x.queued i ++ more);
      queued = λ j. if i == j then [] else x.queued j;
      in_sink =
          whole
          ∙ ap (λ (t : List ℕ). t ++ (contents q ++ joined more)) x.in_sink
          ∙ append_assoc base (bytes_of x.log) (contents q ++ joined more)
          ∙ ap (λ (t : List ℕ). base ++ (bytes_of x.log ++ t))
              (ap (λ (t : List ℕ). t ++ joined more) (x.in_queue i q at)
                ∙ sym (joined-append (x.queued i) more)
                ∙ sym (bytes_of-label i (x.queued i ++ more)))
          ∙ ap (◌++◌ base) (sym (bytes_of-append x.log (label i (x.queued i ++ more))));
      in_order = λ j. order j;
      in_queue = λ j p there. waits j p there;
      unregistered = λ j beyond. ground (arith, x.unregistered j, length-set s.queues i q');
    }
      where
        order :
            (j : ℕ)
            → packets_of j (x.log ++ label i (x.queued i ++ more))
                ++ (if i == j then [] else x.queued j)
              ≡ streams j ++ (if i == j then more else [])
        order j = elim (Bool-cases (i == j)) [
          | inl same ↦ rw same (
              append-nil _
              ∙ packets_of-append j x.log (label i (x.queued i ++ more))
              ∙ ap (◌++◌ (packets_of j x.log)) (
                  packets_of-label i j (x.queued i ++ more)
                  ∙ rw same (ap (λ (k : ℕ). x.queued k ++ more) ((==_iff i j).0 same)))
              ∙ sym (append_assoc (packets_of j x.log) (x.queued j) more)
              ∙ ap (λ (t : List (List ℕ)). t ++ more) (x.in_order j))
          | inr other ↦ rw other (
              ap (λ (t : List (List ℕ)). t ++ x.queued j)
                (packets_of-append j x.log (label i (x.queued i ++ more))
                  ∙ ap (◌++◌ (packets_of j x.log))
                      (packets_of-label i j (x.queued i ++ more) ∙ rw other)
                  ∙ append-nil (packets_of j x.log))
              ∙ x.in_order j
              ∙ sym (append-nil (streams j)))
        ]

        waits :
            (j : ℕ) (p : Queue)
            → get_elem? (set s.queues i q') j ≡ some p
            → contents p ≡ joined (if i == j then [] else x.queued j)
        waits j p there =
            let found : (if i == j then some q' else get_elem? s.queues j) ≡ some p =
              sym (get_elem?-set s.queues i j q' q at) ∙ there in
            ground (arith, found, empty, x.in_queue j p)

    -- A packet that fits the queue.
    queued_up :
        (bytes : List ℕ) (q' : Queue)
        → contents q' ≡ contents q ++ bytes
        → Explained sink ring base
            (record s { queues = set s.queues i q' })
            (λ j. streams j ++ (if i == j then bytes ∷ [] else []))
    queued_up bytes q' longer = record {
      log = x.log;
      queued = λ j. x.queued j ++ (if i == j then bytes ∷ [] else []);
      in_sink = x.in_sink;
      in_order = λ j.
          sym (append_assoc (packets_of j x.log) (x.queued j) (if i == j then bytes ∷ [] else []))
          ∙ ap (λ (t : List (List ℕ)). t ++ (if i == j then bytes ∷ [] else [])) (x.in_order j);
      in_queue = λ j p there. waits j p there (Bool-cases (i == j));
      unregistered = λ j beyond. outside j beyond (get_elem?-beyond s.queues j);
    }
      where
        waits :
            (j : ℕ) (p : Queue)
            → get_elem? (set s.queues i q') j ≡ some p
            → ((i == j) ≡ true) ⊎ ((i == j) ≡ false)
            → contents p ≡ joined (x.queued j ++ (if i == j then bytes ∷ [] else []))
        waits j p there (inl same) =
            let found : some q' ≡ some p =
              rw same at (sym (get_elem?-set s.queues i j q' q at) ∙ there) in
            let it : p ≡ q' = cc found in
            let here : contents p ≡ contents q ++ bytes = ap contents it ∙ longer in
            here
            ∙ ap (λ (t : List ℕ). t ++ bytes)
                (x.in_queue i q at ∙ ap (λ (k : ℕ). joined (x.queued k)) ((==_iff i j).0 same))
            ∙ ap (◌++◌ (joined (x.queued j))) (sym (append-nil bytes))
            ∙ sym (joined-append (x.queued j) (bytes ∷ []))
            ∙ rw same
        waits j p there (inr other) =
            let found : get_elem? s.queues j ≡ some p =
              rw other at (sym (get_elem?-set s.queues i j q' q at) ∙ there) in
            x.in_queue j p found ∙ ap joined (sym (append-nil (x.queued j))) ∙ rw other

        outside :
            (j : ℕ)
            → length (set s.queues i q') ≤ j
            → (length s.queues ≤ j → get_elem? s.queues j ≡ none)
            → x.queued j ++ (if i == j then bytes ∷ [] else []) ≡ []
        outside j beyond missing =
            let out : length s.queues ≤ j = omega (arith, length-set s.queues i q') in
            elim (Bool-cases (i == j)) [
              | inl same ↦
                  let there : get_elem? s.queues j ≡ some q =
                    ap (get_elem? s.queues) (sym ((==_iff i j).0 same)) ∙ at in
                  cc (missing out, there)
              | inr other ↦ rw other (append-nil (x.queued j) ∙ x.unregistered j out)
            ]

  pub same_streams :
      {base : List ℕ} {s : System sink ring} (f g : ℕ → List (List ℕ))
      → ((j : ℕ) → f j ≡ g j)
      → Explained sink ring base s f
      → Explained sink ring base s g
  same_streams f g same x = record {
    log = x.log;
    queued = x.queued;
    in_sink = x.in_sink;
    in_order = λ j. x.in_order j ∙ same j;
    in_queue = x.in_queue;
    unregistered = x.unregistered;
  }

  pub registered :
      {base : List ℕ} {s : System sink ring} {streams : ℕ → List (List ℕ)}
      → Explained sink ring base s streams
      → Explained sink ring base (record s { queues = s.queues ++ ring.empty ∷ [] }) streams
  registered {s = s} x = record {
    log = x.log;
    queued = x.queued;
    in_sink = x.in_sink;
    in_order = x.in_order;
    in_queue = λ j q there. waits j q there (get_elem?-append_one s.queues ring.empty j);
    unregistered =
        λ j beyond. x.unregistered j (omega (arith, length-append s.queues (ring.empty ∷ [])));
  }
    where
      waits :
          (j : ℕ) (q : Queue)
          → get_elem? (s.queues ++ ring.empty ∷ []) j ≡ some q
          → (get_elem? (s.queues ++ ring.empty ∷ []) j ≡ get_elem? s.queues j)
            ⊎ ((length s.queues ≤ j)
                × (get_elem? (s.queues ++ ring.empty ∷ []) j ≡ some ring.empty))
            ⊎ (get_elem? (s.queues ++ ring.empty ∷ []) j ≡ none)
          → contents q ≡ joined (x.queued j)
      waits j q there (inl old) = x.in_queue j q (sym old ∙ there)
      waits j q there (inr (inr nothing)) = cc (there, nothing)
      waits j q there (inr (inl (beyond, new))) =
          let it : q ≡ ring.empty = cc (there, new) in
          ap contents it ∙ ring.contents-empty ∙ ap joined (sym (x.unregistered j beyond))

  -- A stuck flag: no step takes an error back.
  pub step-sticky :
      (s : System sink ring) (e : Event)
      → s.output.has_error ≡ true
      → (step sink ring s e).output.has_error ≡ true
  unfolding step push_packet
  step-sticky s (deliver i bytes) failed = elim (Option-cases (get_elem? s.queues i)) [
    | inl missing ↦ rw missing failed
    | inr (q, there) ↦ rw there (elim (Option-cases (ring.push_entire_slice q bytes)) [
      | inl full ↦
          rw full ((drain_thread_buffer-Drained sink ring s.output q bytes).0.sticky failed)
      | inr (q', fits) ↦ rw fits failed
    ])
  ]
  step-sticky s (drain i) failed = elim (Option-cases (get_elem? s.queues i)) [
    | inl missing ↦ rw missing failed
    | inr (q, there) ↦
        rw there ((drain_thread_buffer-Drained sink ring s.output q []).0.sticky failed)
  ]
  step-sticky s register failed = failed

  pub step-Explained :
      {base : List ℕ} {s : System sink ring} {streams : ℕ → List (List ℕ)} (e : Event)
      → Explained sink ring base s streams
      → IsRegistered (length s.queues) e
      → (step sink ring s e).output.has_error ≡ false
      → Explained sink ring base (step sink ring s e) (λ j. streams j ++ sent j e)
  unfolding step push_packet
  step-Explained {s = s} (deliver i bytes) x r fine =
      let (q, there) = get_elem?_within s.queues i r in
      rw there (elim (Option-cases (ring.push_entire_slice q bytes)) [
        | inl full ↦ rw full (
            let (d, empty) = drain_thread_buffer-Drained sink ring s.output q bytes in
            let whole = d.complete (rw (there, full) at fine) in
            drained x i q there (bytes ∷ []) _ _
              (whole
                ∙ ap (λ (t : List ℕ). written s.output.writer ++ (contents q ++ t))
                    (sym (append-nil bytes)))
              empty)
        | inr (q', fits) ↦
            rw fits (queued_up x i q there bytes q' (ring.contents-push q q' bytes fits))
      ])
  step-Explained {s = s} {streams = streams} (drain i) x r fine =
      let (q, there) = get_elem?_within s.queues i r in
      let (d, empty) = drain_thread_buffer-Drained sink ring s.output q [] in
      rw there (
        same_streams _ _ (λ j. ground arith)
          (drained x i q there [] _ _ (d.complete (rw there at fine)) empty))
  step-Explained {s = s} {streams = streams} register x r fine =
      same_streams streams _ (λ j. sym (append-nil (streams j))) (registered x)
