-- ===== src/Runtime/Output/Drain.antt =====
-- `drain_thread_buffer` and the end of a packet: what reaches the sink, on every branch.
use tracing_perfetto_file.Common.{
  ℕ, ◌+◌, ◌≡◌, refl, sym, ap, subst, ◌∙◌, ◌⊎◌, List, [], ◌∷◌, ◌++◌, true, false, Option, none, some,
  arith, append-nil, append_assoc, min, Bool-cases, inl, inr, ◌==◌, ==_iff,
}
use tracing_perfetto_file.Common.Lists.{length, take, take-append_front, take-append_beyond}
use tracing_perfetto_file.Runtime.Output.{
  Sink, Ring, IoError, Output, keep_first, record_error, record_if, write_second, write_slices,
  drain_queue, write_trailing, drain_thread_buffer,
}

module _ (sink : Sink) (ring : Ring) where
  open sink use {Writer, write_all, written, write_all_ok, write_all_err}
  open ring use {Queue, contents}

  -- What a call that writes `bytes` does to the sink: all of them, or an error and a front part.
  abbrev pub Wrote : Writer → List ℕ → Writer → Option IoError → Type 0
  Wrote w bytes w' error =
      (error ≡ none → written w' ≡ written w ++ bytes)
      × ((n : ℕ) × (written w' ≡ written w ++ take n bytes))

  write_all-Wrote :
      (w : Writer) (bytes : List ℕ) → Wrote w bytes (write_all w bytes).0 (write_all w bytes).1
  write_all-Wrote w bytes = (write_all_ok w bytes, write_all_err w bytes)

  -- One write after another that went well.
  Wrote-then :
      (w w' w'' : Writer) (xs ys : List ℕ) (error : Option IoError)
      → written w' ≡ written w ++ xs
      → Wrote w' ys w'' error
      → Wrote w (xs ++ ys) w'' error
  Wrote-then w w' w'' xs ys error e (all, (n, front)) = (
    λ went_well. all went_well ∙ ap (λ (t : List ℕ). t ++ ys) e ∙ append_assoc (written w) xs ys,
    (
      length xs + n,
      front
          ∙ ap (λ (t : List ℕ). t ++ take n ys) e
          ∙ append_assoc (written w) xs (take n ys)
          ∙ ap (◌++◌ (written w)) (take-append_beyond n xs ys),
    ),
  )

  -- A write that failed, with no other after it.
  Wrote-failed :
      (w w' : Writer) (xs ys : List ℕ) (e : IoError)
      → Wrote w xs w' (some e)
      → Wrote w (xs ++ ys) w' (some e)
  Wrote-failed w w' xs ys e (all, (n, front)) = (
    λ absent. cc absent,
    (min n (length xs), front ∙ ap (◌++◌ (written w)) (take-append_front n xs ys)),
  )

  write_slices-Wrote :
      (w : Writer) (xs ys : List ℕ)
      → let (w', error) = write_slices sink ring w (xs, ys) in Wrote w (xs ++ ys) w' error
  unfolding write_slices
  write_slices-Wrote w xs ys = second (write_all w xs).0 (write_all w xs).1 (write_all-Wrote w xs)
    where
      second :
          (w' : Writer) (error : Option IoError)
          → Wrote w xs w' error
          → let (w'', error') = write_second sink ring w' error ys in Wrote w (xs ++ ys) w'' error'
      second w' none wrote = Wrote-then w w' _ xs ys _ (wrote.0 refl) (write_all-Wrote w' ys)
      second w' (some e) wrote = Wrote-failed w w' xs ys e wrote

  length-eq-zero : (xs : List ℕ) → length xs ≡ 0 → xs ≡ []
  length-eq-zero [] e = refl
  length-eq-zero (x ∷ xs) e = absurd (omega arith)

  -- What the block that reads the queue does, before the trailing bytes.
  abbrev Emptied : Output sink ring → Queue → Writer → Option IoError → Queue → Type 0
  Emptied o q w error q' =
      (contents q' ≡ [])
      × (o.has_error ≡ false → Wrote o.writer (contents q) w error)
      × (o.has_error ≡ true → (w ≡ o.writer) × (error ≡ none))

  drain_queue-Emptied :
      (o : Output sink ring) (q : Queue)
      → let (w, error, q') = drain_queue sink ring o q in Emptied o q w error q'
  unfolding drain_queue
  drain_queue-Emptied o q = elim (Bool-cases (ring.slots q == 0)) [
    | inl none_there ↦ rw none_there (nothing none_there)
    | inr some_there ↦ rw some_there (elim (Bool-cases o.has_error) [
      | inl failed ↦ rw failed (ring.contents-commit_all q, λ e. cc e, λ _. (refl, refl))
      | inr fine ↦ rw fine (
        ring.contents-commit_all q,
        λ _. slices (ring.as_slices q) (ring.as_slices-contents q),
        λ e. cc e,
      )
    ])
  ]
    where
      nothing : (ring.slots q == 0) ≡ true → Emptied o q o.writer none q
      nothing h =
          let nil : contents q ≡ [] =
            length-eq-zero (contents q) (sym (ring.slots-contents q) ∙ (==_iff _ _).0 h) in
          let whole : written o.writer ≡ written o.writer ++ contents q =
            rw nil (sym (append-nil (written o.writer))) in
          (nil, λ _. (λ _. whole, (0, sym (append-nil (written o.writer)))), λ _. (refl, refl))

      slices :
          (p : List ℕ × List ℕ)
          → p.0 ++ p.1 ≡ contents q
          → let (w, error) = write_slices sink ring o.writer p in
            Wrote o.writer (contents q) w error
      slices p e =
          subst
            (λ bytes.
              Wrote o.writer bytes (write_slices sink ring o.writer p).0
                (write_slices sink ring o.writer p).1)
            e (write_slices-Wrote o.writer p.0 p.1)

  -- What `drain_thread_buffer` promises: the queue is empty, the sink has a front part of the queue
  -- and the trailing bytes, and all of it if no error is recorded; after an error the sink is left
  -- alone, and the first error stays.
  pub record Drained (o : Output sink ring) (stream : List ℕ) (o' : Output sink ring) : Type 0 where
    pub front : (n : ℕ) × (written o'.writer ≡ written o.writer ++ take n stream)
    pub complete : o'.has_error ≡ false → written o'.writer ≡ written o.writer ++ stream
    pub silent : o.has_error ≡ true → o'.writer ≡ o.writer
    pub sticky : o.has_error ≡ true → o'.has_error ≡ true
    pub first_error : (e : IoError) → o.error ≡ some e → o'.error ≡ some e
    pub recorded :
        o'.has_error ≡ true → (o.has_error ≡ true) ⊎ ((e : IoError) × (o'.error ≡ some e))

  pub keep_first-some :
      (old : Option IoError) (e : IoError) → (first : IoError) × (keep_first old e ≡ some first)
  unfolding keep_first
  keep_first-some none e = (e, refl)
  keep_first-some (some first) e = (first, refl)

  finish_failed :
      (o : Output sink ring) (stream : List ℕ)
      → o.has_error ≡ true
      → Drained o stream (record o { writer = o.writer })
  finish_failed o stream failed = record {
    front = (0, sym (append-nil (written o.writer)));
    complete = λ fine. cc (failed, fine);
    silent = λ _. refl;
    sticky = λ h. h;
    first_error = λ e h. h;
    recorded = λ h. inl h;
  }

  finish :
      (o : Output sink ring) (stream : List ℕ) (w : Writer) (error : Option IoError)
      → o.has_error ≡ false
      → Wrote o.writer stream w error
      → Drained o stream (record_if sink ring (record o { writer = w }) error)
  unfolding record_error
  finish o stream w none fine wrote = record {
    front = wrote.1;
    complete = λ _. wrote.0 refl;
    silent = λ failed. cc (failed, fine);
    sticky = λ failed. failed;
    first_error = λ e h. h;
    recorded = λ h. inl h;
  }
  finish o stream w (some e) fine wrote = record {
    front = wrote.1;
    complete = λ h. cc h;
    silent = λ failed. cc (failed, fine);
    sticky = λ _. refl;
    first_error = λ first h. rw h;
    recorded = λ _. inr (keep_first-some o.error e);
  }

  write_trailing-failed :
      (w : Writer) (error : Option IoError) (trailing : List ℕ)
      → write_trailing sink ring w error true trailing ≡ (w, error)
  unfolding write_trailing
  write_trailing-failed w none [] = refl
  write_trailing-failed w none (byte ∷ trailing) = refl
  write_trailing-failed w (some e) trailing = refl

  write_trailing-Wrote :
      (w w' : Writer) (bytes : List ℕ) (error : Option IoError) (trailing : List ℕ)
      → Wrote w bytes w' error
      → let (w'', error') = write_trailing sink ring w' error false trailing in
        Wrote w (bytes ++ trailing) w'' error'
  unfolding write_trailing
  write_trailing-Wrote w w' bytes none [] wrote =
      subst (λ bs. Wrote w bs w' none) (sym (append-nil bytes)) wrote
  write_trailing-Wrote w w' bytes none (byte ∷ trailing) wrote =
      Wrote-then w w' _ bytes (byte ∷ trailing) _ (wrote.0 refl)
        (write_all-Wrote w' (byte ∷ trailing))
  write_trailing-Wrote w w' bytes (some e) trailing wrote = Wrote-failed w w' bytes trailing e wrote

  abbrev Done : Output sink ring → List ℕ → Writer × Option IoError → Type 0
  Done o stream (w, error) = Drained o stream (record_if sink ring (record o { writer = w }) error)

  -- The trailing bytes, behind a queue that was read.
  trailing_Drained :
      (o : Output sink ring) (bytes trailing : List ℕ) (w : Writer) (error : Option IoError)
      → (o.has_error ≡ false → Wrote o.writer bytes w error)
      → (o.has_error ≡ true → (w ≡ o.writer) × (error ≡ none))
      → let (w', error') = write_trailing sink ring w error o.has_error trailing in
        Drained o (bytes ++ trailing) (record_if sink ring (record o { writer = w' }) error')
  trailing_Drained o bytes trailing w error wrote unchanged = elim (Bool-cases o.has_error) [
    | inl failed ↦
        subst (Done o (bytes ++ trailing))
          (sym (
            ap (λ h. write_trailing sink ring w error h trailing) failed
            ∙ write_trailing-failed w error trailing
            ∙ ap (λ (v : Writer). (v, error)) (unchanged failed).0
            ∙ ap (λ (e : Option IoError). (o.writer, e)) (unchanged failed).1))
          (finish_failed o (bytes ++ trailing) failed)
    | inr fine ↦
        subst (Done o (bytes ++ trailing))
          (sym (ap (λ h. write_trailing sink ring w error h trailing) fine))
          (finish o (bytes ++ trailing) _ _ fine
            (write_trailing-Wrote o.writer w bytes error trailing (wrote fine)))
  ]

  -- `drain_thread_buffer` empties the queue. The sink gets the queue and the trailing bytes in
  -- full, or a front part of them and the error is recorded; after an error it gets nothing, and
  -- the first error stays.
  pub drain_thread_buffer-Drained :
      (o : Output sink ring) (q : Queue) (trailing : List ℕ)
      → let (o', q') = drain_thread_buffer sink ring o q trailing in
        Drained o (contents q ++ trailing) o' × (contents q' ≡ [])
  unfolding drain_thread_buffer
  drain_thread_buffer-Drained o q trailing =
      let (empty, wrote, unchanged) = drain_queue-Emptied o q in
      let (w, error, q') = drain_queue sink ring o q in
      (trailing_Drained o (contents q) trailing w error wrote unchanged, empty)
