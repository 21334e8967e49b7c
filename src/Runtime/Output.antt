-- ===== src/Runtime/Output.antt =====
-- src/runtime.rs: the output path of `Inner`. The sink (`dyn Write`) and the queues of `rtrb` are
-- interfaces with the behaviour that they document.
pub mod Drain
pub mod Flush
pub mod Instances
pub mod Interleave
use tracing_perfetto_file.Common.{
  ℕ, ◌≤◌, ◌≡◌, ◌++◌, List, [], ◌∷◌, Bool, true, false, not, ◌&&◌, Option, none, some, ◌==◌,
  if◌then◌else◌,
}
use tracing_perfetto_file.Common.Lists.{length, take}

-- The kind and the text of an `std::io::Error`.
pub record IoError : Type 0 where
  pub kind : ℕ
  pub text : List ℕ

-- `std::io::Write`: on an error `write_all` may have written any front part of its bytes.
pub record Sink : Type 1 where
  pub Writer : Type 0
  pub write_all : Writer → List ℕ → Writer × Option IoError
  pub flush : Writer → Writer × Option IoError
  pub written : Writer → List ℕ
  pub write_all_ok :
      (w : Writer) (bytes : List ℕ)
      → (write_all w bytes).1 ≡ none
      → written (write_all w bytes).0 ≡ written w ++ bytes
  pub write_all_err :
      (w : Writer) (bytes : List ℕ)
      → (n : ℕ) × (written (write_all w bytes).0 ≡ written w ++ take n bytes)
  pub written-flush : (w : Writer) → written (flush w).0 ≡ written w

-- The single-producer queue of `rtrb`, with the bytes that are published and not yet read.
-- `push_entire_slice` takes all bytes or, on `none`, nothing; the two slices of a chunk of all
-- slots are the contents.
pub record Ring : Type 1 where
  pub Queue : Type 0
  pub empty : Queue
  pub contents : Queue → List ℕ
  pub push_entire_slice : Queue → List ℕ → Option Queue
  pub slots : Queue → ℕ
  pub as_slices : Queue → List ℕ × List ℕ
  pub commit_all : Queue → Queue
  pub contents-empty : contents empty ≡ []
  pub contents-push :
      (q q' : Queue) (bytes : List ℕ)
      → push_entire_slice q bytes ≡ some q'
      → contents q' ≡ contents q ++ bytes
  pub slots-contents : (q : Queue) → slots q ≡ length (contents q)
  pub as_slices-contents : (q : Queue) → (as_slices q).0 ++ (as_slices q).1 ≡ contents q
  pub contents-commit_all : (q : Queue) → contents (commit_all q) ≡ []

-- `if recorded.is_none() { *recorded = Some(error) }`
pub keep_first : Option IoError → IoError → Option IoError
keep_first none e = some e
keep_first (some old) e = some old

pub data FlushResult : Type 0 where
  ok : FlushResult
  err : IoError → FlushResult

module _ (sink : Sink) (ring : Ring) where
  open sink use {Writer, write_all, flush}
  open ring use {Queue, push_entire_slice, slots, as_slices, commit_all}

  -- The fields of `Inner` that the output path uses, the queues apart.
  pub record Output : Type 0 where
    pub writer : sink.Writer
    pub error : Option IoError
    pub has_error : Bool

  pub record_error : Output → IoError → Output
  unfolding keep_first
  record_error o e = record o { error = keep_first o.error e; has_error = true }

  -- `if let Some(error) = error { self.record_error(error) }`
  abbrev pub record_if : Output → Option IoError → Output
  record_if o none = o
  record_if o (some e) = record_error o e

  -- The two `write_all` calls on the slices of a chunk: the second only if the first went well.
  write_second : Writer → Option IoError → List ℕ → Writer × Option IoError
  write_second w (some e) second = (w, some e)
  write_second w none second = write_all w second

  write_slices : Writer → List ℕ × List ℕ → Writer × Option IoError
  unfolding write_second
  write_slices w (first, second) =
      let (w', error) = write_all w first in write_second w' error second

  -- The block `if available != 0`: the writer and the error, and the queue. `read_chunk` of the
  -- reported slots succeeds.
  drain_queue : Output → Queue → Writer × Option IoError × Queue
  drain_queue o q =
      if slots q == 0
      then (o.writer, none, q)
      else if o.has_error
      then (o.writer, none, commit_all q)
      else (let (w, error) = write_slices o.writer (as_slices q) in (w, error, commit_all q))

  -- `error.is_none() && !self.has_error() && !trailing.is_empty()`
  writes_trailing : Option IoError → Bool → List ℕ → Bool
  writes_trailing none has_error (byte ∷ trailing) = not has_error
  writes_trailing none has_error [] = false
  writes_trailing (some e) has_error trailing = false

  write_trailing : Writer → Option IoError → Bool → List ℕ → Writer × Option IoError
  unfolding writes_trailing
  write_trailing w error has_error trailing =
      if writes_trailing error has_error trailing then write_all w trailing else (w, error)

  pub drain_thread_buffer : Output → Queue → List ℕ → Output × Queue
  drain_thread_buffer o q trailing =
      let (w, error, q') = drain_queue o q in
      let (w', error') = write_trailing w error o.has_error trailing in
      (record_if (record o { writer = w' }) error', q')

  -- The end of a packet (`Drop for Packet`): into the queue, or, if that is full, after it.
  push_or_drain : Output → Queue → List ℕ → Option Queue → Output × Queue
  push_or_drain o q bytes (some q') = (o, q')
  push_or_drain o q bytes none = drain_thread_buffer o q bytes

  pub push_packet : Output → Queue → List ℕ → Output × Queue
  unfolding push_or_drain
  push_packet o q bytes = push_or_drain o q bytes (push_entire_slice q bytes)

  -- The loop of `flush_all` over the queues of all threads.
  drain_all : Output → List Queue → Output × List Queue
  drain_all o [] = (o, [])
  drain_all o (q ∷ qs) =
      let (o', q') = drain_thread_buffer o q [] in
      let (o'', qs') = drain_all o' qs in (o'', q' ∷ qs')

  -- `IoError` for a `has_error` with no recorded error: "tracing-perfetto-file: write error".
  flush_result : IoError → Output → FlushResult
  flush_result other o =
      if o.has_error then (elim o.error [ some e ↦ err e | none ↦ err other ]) else ok

  pub flush_all : IoError → Output → List Queue → FlushResult × Output × List Queue
  flush_all other o qs =
      let (o', qs') = drain_all o qs in
      let (w, error) = flush o'.writer in
      let o'' = record_if (record o' { writer = w }) error in (flush_result other o'', o'', qs')
