-- ===== src/Runtime/Output/Interleave/Examples.antt =====
-- Concrete runs of the output, and the theorems at them.
use tracing_perfetto_file.Common.{ℕ, ◌≡◌, refl, List, [], ◌∷◌, true, false, none, arith}
use tracing_perfetto_file.Runtime.Output.{
  Output, drain_thread_buffer, err, flush_all, push_packet, push_or_drain, drain_queue,
  write_trailing, writes_trailing, write_slices, write_second, drain_all, flush_result,
  record_error, keep_first,
}
use tracing_perfetto_file.Runtime.Output.Drain.{Drained, drain_thread_buffer-Drained}
use tracing_perfetto_file.Runtime.Output.Flush.{Flushed, flush_all-Flushed}
use tracing_perfetto_file.Runtime.Output.Interleave.{
  Event, deliver, drain, register, run, Explained, all_sent, initial, step, at_queue,
}
use tracing_perfetto_file.Runtime.Output.Interleave.Runs.{run-initial-Explained}
use tracing_perfetto_file.Runtime.Output.Instances.{Disk, disk_full, disk, small_queue}

abbrev sound : Disk
sound = record { content = 9 ∷ []; broken = false }

abbrev at_start : Output disk small_queue
at_start = record { writer = sound; error = none; has_error = false }

abbrev on_broken : Output disk small_queue
on_broken = record { writer = record sound { broken = true }; error = none; has_error = false }

-- Two threads; the third packet of thread 0 does not fit its queue.
abbrev two_threads : List Event
two_threads =
    register
    ∷ deliver 0 (1 ∷ 2 ∷ 3 ∷ 4 ∷ [])
    ∷ register
    ∷ deliver 1 (5 ∷ 6 ∷ [])
    ∷ deliver 0 (7 ∷ 8 ∷ 9 ∷ [])
    ∷ deliver 0 (10 ∷ 11 ∷ [])
    ∷ drain 1
    ∷ []

two_threads_written :
    (run disk small_queue (initial disk small_queue sound) two_threads).output.writer.content
    ≡ 9 ∷ 1 ∷ 2 ∷ 3 ∷ 4 ∷ 7 ∷ 8 ∷ 9 ∷ 10 ∷ 11 ∷ 5 ∷ 6 ∷ []
unfolding run step at_queue push_packet push_or_drain drain_thread_buffer drain_queue write_trailing
    writes_trailing write_slices write_second
two_threads_written = refl

run-initial-Explained_example :
    Explained disk small_queue
      (9 ∷ [])
      (run disk small_queue (initial disk small_queue sound) two_threads)
      (λ j. all_sent j two_threads)
run-initial-Explained_example =
    run-initial-Explained disk small_queue sound two_threads
      (tt, (omega arith, (tt, (omega arith, (omega arith, (omega arith, (omega arith, tt)))))))
      no_error
  where
    no_error :
        (run disk small_queue (initial disk small_queue sound) two_threads).output.has_error ≡ false
    no_error =
        unfold run step at_queue push_packet push_or_drain drain_thread_buffer drain_queue
          write_trailing writes_trailing write_slices write_second in
        refl

flush_broken :
    (flush_all disk small_queue disk_full on_broken ((1 ∷ 2 ∷ []) ∷ (3 ∷ []) ∷ [])).0
    ≡ err disk_full
unfolding flush_all drain_all drain_thread_buffer drain_queue write_trailing writes_trailing
    write_slices write_second record_error keep_first flush_result
flush_broken = refl

flush_all-Flushed_example :
    let queues : List (List ℕ) = (1 ∷ 2 ∷ []) ∷ (3 ∷ []) ∷ [] in
    let (result, o', queues') = flush_all disk small_queue disk_full on_broken queues in
    Flushed disk small_queue on_broken queues result o' queues'
flush_all-Flushed_example =
    flush_all-Flushed disk small_queue disk_full on_broken ((1 ∷ 2 ∷ []) ∷ (3 ∷ []) ∷ [])
      (λ failed. cc failed)

drain_thread_buffer-Drained_example :
    let (o', q') = drain_thread_buffer disk small_queue on_broken (1 ∷ 2 ∷ []) (3 ∷ []) in
    Drained disk small_queue on_broken (1 ∷ 2 ∷ 3 ∷ []) o' × (q' ≡ [])
drain_thread_buffer-Drained_example =
    drain_thread_buffer-Drained disk small_queue on_broken (1 ∷ 2 ∷ []) (3 ∷ [])
