-- ===== src/Runtime/Output/Interleave.antt =====
-- All threads together: packets end, queues are drained (by `flush_all`, or when a thread exits) and
-- threads register, in any order. Each step holds the locks that the code takes.
mod Logs
mod Steps
mod Examples
pub mod Runs
use tracing_perfetto_file.Common.{
  ℕ, zero, suc, ◌+◌, ◌≤◌, ◌<◌, ◌≡◌, refl, sym, ap, subst, ◌∙◌, ◌≢◌, ◌⊎◌, List, [], ◌∷◌, ◌++◌, Bool,
  true, false, Option, none, some, arith, append-nil, append_assoc, Bool-cases, Option-cases, inl,
  inr, ◌==◌, ==_iff, if◌then◌else◌,
}
use tracing_perfetto_file.Common.Lists.{length, get_elem?, set, length-append, All}
use tracing_perfetto_file.Runtime.Output.{
  Sink, Ring, IoError, Output, drain_thread_buffer, push_packet,
}
use tracing_perfetto_file.Runtime.Output.Drain.{Drained, drain_thread_buffer-Drained}

pub data Event : Type 0 where
  -- thread `i` ends a packet
  deliver : ℕ → List ℕ → Event
  -- the queue of thread `i` is drained
  drain : ℕ → Event
  -- `register_thread` for a new thread
  register : Event

-- The packets that an event adds to the stream of thread `j`, and those that a run adds.
abbrev pub sent : ℕ → Event → List (List ℕ)
sent j (deliver i bytes) = if i == j then bytes ∷ [] else []
sent j (drain i) = []
sent j register = []

abbrev pub all_sent : ℕ → List Event → List (List ℕ)
all_sent j [] = []
all_sent j (e ∷ es) = sent j e ++ all_sent j es

-- A log of packets, each with its thread: its bytes, and the packets of one thread.
abbrev pub bytes_of : List (ℕ × List ℕ) → List ℕ
bytes_of [] = []
bytes_of ((i, p) ∷ log) = p ++ bytes_of log

abbrev pub packets_of : ℕ → List (ℕ × List ℕ) → List (List ℕ)
packets_of j [] = []
packets_of j ((i, p) ∷ log) = if i == j then p ∷ packets_of j log else packets_of j log

abbrev pub label : ℕ → List (List ℕ) → List (ℕ × List ℕ)
label i [] = []
label i (p ∷ ps) = (i, p) ∷ label i ps

abbrev pub joined : List (List ℕ) → List ℕ
joined [] = []
joined (p ∷ ps) = p ++ joined ps

-- Threads deliver packets only after they registered.
abbrev pub IsRegistered : ℕ → Event → Type 0
IsRegistered n (deliver i bytes) = i < n
IsRegistered n (drain i) = i < n
IsRegistered n register = Unit

-- The number of queues behind an event.
abbrev pub more_queues : ℕ → Event → ℕ
more_queues n (deliver i bytes) = n
more_queues n (drain i) = n
more_queues n register = n + 1

abbrev pub AllRegistered : ℕ → List Event → Type 0
AllRegistered n [] = Unit
AllRegistered n (e ∷ es) = IsRegistered n e × AllRegistered (more_queues n e) es

module _ (sink : Sink) (ring : Ring) where
  open sink use {Writer, written}
  open ring use {Queue, contents}

  pub record System : Type 0 where
    pub output : Output sink ring
    pub queues : List ring.Queue

  -- A step at the queue of thread `i`; nothing, where there is none.
  pub at_queue : System → ℕ → (Queue → Output sink ring × Queue) → Option Queue → System
  at_queue s i act none = s
  at_queue s i act (some q) =
      let (o, q') = act q in record { output = o; queues = set s.queues i q' }

  unfoldable pub step : System → Event → System
  unfolding at_queue
  step s (deliver i bytes) =
      at_queue s i (λ q. push_packet sink ring s.output q bytes) (get_elem? s.queues i)
  step s (drain i) =
      at_queue s i (λ q. drain_thread_buffer sink ring s.output q []) (get_elem? s.queues i)
  step s register = record s { queues = s.queues ++ ring.empty ∷ [] }

  pub run : System → List Event → System
  unfolding step
  run s [] = s
  run s (e ∷ es) = run (step s e) es

  -- The stream so far, taken apart: a log of whole packets that the sink holds behind `base`, and
  -- for each thread the packets that still wait in its queue.
  pub record Explained (base : List ℕ) (s : System) (streams : ℕ → List (List ℕ)) : Type 0 where
    pub log : List (ℕ × List ℕ)
    pub queued : ℕ → List (List ℕ)
    pub in_sink : written s.output.writer ≡ base ++ bytes_of log
    pub in_order : (j : ℕ) → packets_of j log ++ queued j ≡ streams j
    pub in_queue :
        (j : ℕ) (q : Queue) → get_elem? s.queues j ≡ some q → contents q ≡ joined (queued j)
    pub unregistered : (j : ℕ) → length s.queues ≤ j → queued j ≡ []

  -- The layer at the start: no thread, nothing recorded.
  abbrev pub initial : Writer → System
  initial w = record {
    output = record { writer = w; error = none; has_error = false };
    queues = [];
  }
