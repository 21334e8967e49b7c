-- ===== src/Runtime/Output/Instances.antt =====
-- The sink and the queues of a thread (src/runtime.rs): a disk that can break, and queues of eight bytes.
use tracing_perfetto_file.Common.{
  ℕ, ◌+◌, ◌≡◌, refl, Bool-cases, List, [], ◌++◌, Bool, Option, none, some, leb, if◌then◌else◌,
  arith, append-nil, inl, inr,
}
use tracing_perfetto_file.Common.Lists.{length, take, take_all}
use tracing_perfetto_file.Runtime.Output.{Sink, Ring, IoError}

pub record Disk : Type 0 where
  pub content : List ℕ
  pub broken : Bool

abbrev pub disk_full : IoError
disk_full = record { kind = 28; text = [] }

-- A broken disk takes the first byte and fails.
abbrev disk_write : Disk → List ℕ → Disk × Option IoError
disk_write d bytes =
    if d.broken
    then (record d { content = d.content ++ take 1 bytes }, some disk_full)
    else (record d { content = d.content ++ bytes }, none)

pub disk_write_ok :
    (d : Disk) (bytes : List ℕ)
    → (disk_write d bytes).1 ≡ none
    → (disk_write d bytes).0.content ≡ d.content ++ bytes
disk_write_ok d bytes h = ground arith

pub disk_write_err :
    (d : Disk) (bytes : List ℕ)
    → (n : ℕ) × ((disk_write d bytes).0.content ≡ d.content ++ take n bytes)
disk_write_err d bytes = elim (Bool-cases d.broken) [
  | inl broken ↦ (1, rw broken refl)
  | inr fine ↦ (length bytes, rw (fine, take_all bytes) refl)
]

abbrev pub disk : Sink
disk = record {
  Writer = Disk;
  write_all = disk_write;
  flush = λ d. (d, none);
  written = λ d. d.content;
  write_all_ok = disk_write_ok;
  write_all_err = disk_write_err;
  written-flush = λ d. refl;
}

abbrev push_slice : List ℕ → List ℕ → Option (List ℕ)
push_slice q bytes = if leb (length q + length bytes) 8 then some (q ++ bytes) else none

pub push_slice_contents : (q q' bytes : List ℕ) → push_slice q bytes ≡ some q' → q' ≡ q ++ bytes
push_slice_contents q q' bytes h = ground arith

abbrev pub small_queue : Ring
small_queue = record {
  Queue = List ℕ;
  empty = [];
  contents = λ q. q;
  push_entire_slice = push_slice;
  slots = length;
  as_slices = λ q. (q, []);
  commit_all = λ q. [];
  contents-empty = refl;
  contents-push = push_slice_contents;
  slots-contents = λ q. refl;
  as_slices-contents = append-nil;
  contents-commit_all = λ q. refl;
}
