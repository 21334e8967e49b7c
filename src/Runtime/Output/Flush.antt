-- ===== src/Runtime/Output/Flush.antt =====
-- `flush_all`: every queue is drained, and the first error is reported.
use tracing_perfetto_file.Common.{
  ℕ, ◌+◌, ◌≡◌, refl, sym, ap, subst, ◌∙◌, List, [], ◌∷◌, ◌++◌, true, false, Option, none, some,
  arith, append-nil, append_assoc, min, Bool-cases, inl, inr,
}
use tracing_perfetto_file.Common.Lists.{length, take, take-append_front, take-append_beyond}
use tracing_perfetto_file.Runtime.Output.{
  Sink, Ring, IoError, Output, keep_first, record_error, record_if, drain_thread_buffer, drain_all,
  FlushResult, ok, err, flush_result, flush_all,
}
use tracing_perfetto_file.Runtime.Output.Drain.{
  Drained, drain_thread_buffer-Drained, keep_first-some,
}

-- An error is kept wherever the flag is set.
abbrev pub IsRecorded : (sink : Sink) (ring : Ring) → Output sink ring → Type 0
IsRecorded sink ring o = o.has_error ≡ true → (e : IoError) × (o.error ≡ some e)

module _ (sink : Sink) (ring : Ring) where
  open sink use {Writer, written, written-flush}
  open ring use {Queue, contents}

  -- Two drains, one after the other.
  pub Drained-then :
      (o o' o'' : Output sink ring) (xs ys : List ℕ)
      → Drained sink ring o xs o'
      → Drained sink ring o' ys o''
      → Drained sink ring o (xs ++ ys) o''
  Drained-then o o' o'' xs ys d d' = record {
    front = elim (Bool-cases o'.has_error) [
      | inl failed ↦ (
        min d.front.0 (length xs),
        ap written (d'.silent failed)
            ∙ d.front.1
            ∙ ap (◌++◌ (written o.writer)) (take-append_front d.front.0 xs ys),
      )
      | inr fine ↦ (
        length xs + d'.front.0,
        d'.front.1
            ∙ ap (λ (t : List ℕ). t ++ take d'.front.0 ys) (d.complete fine)
            ∙ append_assoc (written o.writer) xs (take d'.front.0 ys)
            ∙ ap (◌++◌ (written o.writer)) (take-append_beyond d'.front.0 xs ys),
      )
    ];
    complete = λ fine.
        d'.complete fine
        ∙ ap (λ (t : List ℕ). t ++ ys) (d.complete (fine_before fine))
        ∙ append_assoc (written o.writer) xs ys;
    silent = λ failed. d'.silent (d.sticky failed) ∙ d.silent failed;
    sticky = λ failed. d'.sticky (d.sticky failed);
    first_error = λ e h. d'.first_error e (d.first_error e h);
    recorded = λ h. elim (d'.recorded h) [
      | inr e ↦ inr e
      | inl failed ↦ elim (d.recorded failed) [
        | inl before ↦ inl before
        | inr (e, first) ↦ inr (e, d'.first_error e first)
      ]
    ];
  }
    where
      fine_before : o''.has_error ≡ false → o'.has_error ≡ false
      fine_before fine = elim (Bool-cases o'.has_error) [
        | inl failed ↦ cc (d'.sticky failed, fine)
        | inr before ↦ before
      ]

  nothing_Drained : (o : Output sink ring) → Drained sink ring o [] o
  nothing_Drained o = record {
    front = (0, sym (append-nil (written o.writer)));
    complete = λ _. sym (append-nil (written o.writer));
    silent = λ _. refl;
    sticky = λ h. h;
    first_error = λ e h. h;
    recorded = λ h. inl h;
  }

  -- The bytes of all queues, in the order of the threads.
  abbrev pub all_contents : List Queue → List ℕ
  all_contents [] = []
  all_contents (q ∷ qs) = contents q ++ all_contents qs

  drain_all-Drained :
      (o : Output sink ring) (qs : List Queue)
      → let (o', qs') = drain_all sink ring o qs in
        Drained sink ring o (all_contents qs) o' × (all_contents qs' ≡ [])
  unfolding drain_all
  drain_all-Drained o [] = (nothing_Drained o, refl)
  drain_all-Drained o (q ∷ qs) =
      let (o', q') = drain_thread_buffer sink ring o q [] in
      let (first, empty) = drain_thread_buffer-Drained sink ring o q [] in
      let (rest, empties) = drain_all-Drained o' qs in
      (
        Drained-then o o' _ (contents q) (all_contents qs)
            (subst (λ bytes. Drained sink ring o bytes o') (append-nil (contents q)) first) rest,
        ap (λ (t : List ℕ). t ++ all_contents (drain_all sink ring o' qs).1) empty ∙ empties,
      )

  record Synced (o o' : Output sink ring) : Type 0 where
    same : written o'.writer ≡ written o.writer
    fine : o'.has_error ≡ false → o.has_error ≡ false
    sticky : o.has_error ≡ true → o'.has_error ≡ true
    first_error : (e : IoError) → o.error ≡ some e → o'.error ≡ some e
    recorded : IsRecorded sink ring o → IsRecorded sink ring o'

  sync :
      (o : Output sink ring) (w : Writer) (error : Option IoError)
      → written w ≡ written o.writer
      → Synced o (record_if sink ring (record o { writer = w }) error)
  unfolding record_error
  sync o w none same = record {
    same = same;
    fine = λ h. h;
    sticky = λ h. h;
    first_error = λ e h. h;
    recorded = λ h. h;
  }
  sync o w (some e) same = record {
    same = same;
    fine = λ h. cc h;
    sticky = λ h. refl;
    first_error = λ first h. unfold keep_first in rw h;
    recorded = λ h _. keep_first-some sink ring o.error e;
  }

  -- What `flush_all` promises: if it returns `ok`, all queued bytes are in the sink; if it returns
  -- an error, that is the first one that was ever recorded.
  pub record Flushed (o : Output sink ring) (qs : List Queue) (result : FlushResult)
      (o' : Output sink ring) (qs' : List Queue) : Type 0 where
    pub emptied : all_contents qs' ≡ []
    pub on_ok : result ≡ ok → written o'.writer ≡ written o.writer ++ all_contents qs
    pub on_err : (e : IoError) → result ≡ err e → o'.error ≡ some e
    pub earlier : (e : IoError) → o.has_error ≡ true → o.error ≡ some e → result ≡ err e
    pub front : (n : ℕ) × (written o'.writer ≡ written o.writer ++ take n (all_contents qs))
    pub kept : IsRecorded sink ring o'

  flush_result-ok :
      (other : IoError) (o : Output sink ring)
      → flush_result sink ring other o ≡ ok
      → o.has_error ≡ false
  unfolding flush_result
  flush_result-ok other o h = ground arith

  flush_result-err :
      (other : IoError) (o : Output sink ring) (e : IoError)
      → IsRecorded sink ring o
      → flush_result sink ring other o ≡ err e
      → o.error ≡ some e
  unfolding flush_result
  flush_result-err other o e kept h = elim (Bool-cases o.has_error) [
    | inl failed ↦ let (first, there) = kept failed in ground (arith, failed, there)
    | inr fine ↦ ground (arith, fine)
  ]

  flush_result-failed :
      (other : IoError) (o : Output sink ring) (e : IoError)
      → o.has_error ≡ true
      → o.error ≡ some e
      → flush_result sink ring other o ≡ err e
  unfolding flush_result
  flush_result-failed other o e failed there = ground arith

  -- `flush_all`, if a set error flag has an error recorded: every queue is empty after it. On `ok`
  -- the sink got the contents of all queues, in full and in order. On `err` the error is the
  -- recorded one, an error that was recorded before wins, and the sink got a front part of the
  -- contents.
  pub flush_all-Flushed :
      (other : IoError) (o : Output sink ring) (qs : List Queue)
      → IsRecorded sink ring o
      → let (result, o', qs') = flush_all sink ring other o qs in Flushed o qs result o' qs'
  unfolding flush_all
  flush_all-Flushed other o qs kept =
      let (o', qs') = drain_all sink ring o qs in
      let (d, empty) = drain_all-Drained o qs in
      let s = sync o' (sink.flush o'.writer).0 (sink.flush o'.writer).1 (written-flush o'.writer) in
      let o'' =
        record_if sink ring (record o' { writer = (sink.flush o'.writer).0 })
          (sink.flush o'.writer).1 in
      let kept' : IsRecorded sink ring o' = λ h. elim (d.recorded h) [
        | inr there ↦ there
        | inl before ↦ let (e, first) = kept before in (e, d.first_error e first)
      ] in
      record {
        emptied = empty;
        on_ok = λ h. s.same ∙ d.complete (s.fine (flush_result-ok other o'' h));
        on_err = λ e h. flush_result-err other o'' e (s.recorded kept') h;
        earlier = λ e failed first.
            flush_result-failed other o'' e (s.sticky (d.sticky failed))
              (s.first_error e (d.first_error e first));
        front = (d.front.0, s.same ∙ d.front.1);
        kept = s.recorded kept';
      }
