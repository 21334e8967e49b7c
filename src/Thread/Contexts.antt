-- ===== src/Thread/Contexts.antt =====
-- src/thread.rs: the contexts of one thread, by layer, and the guard that lends one out. A guard points
-- into the Box of a context, which keeps its place when the vector changes: the model names the
-- context by its key, the id of the layer. `Drop for ThreadCtx` of a layer that is gone has no effect
-- that any layer sees.
pub mod Lookup
pub mod Updates
pub mod Laws
pub mod Guard
mod Runs
use tracing_perfetto_file.Common.{
  ℕ, ◌+◌, ◌-◌, List, [], ◌∷◌, ◌++◌, Bool, true, false, ◌||◌, Option, none, some, ◌==◌,
  if◌then◌else◌, ◌>>=◌,
}
use tracing_perfetto_file.Common.Lists.{length, get_elem?, set}
use tracing_perfetto_file.Runtime.{Inner, alloc_sequence_id, alloc_uuid}
use tracing_perfetto_file.Sequence
use tracing_perfetto_file.Sequence.{SequenceState}
use tracing_perfetto_file.Thread.{Retained, new_retained}
use tracing_perfetto_file.Thread.Tracks.{Tracks, new_tracks}

-- `inner` is the id of the layer that the weak pointer points to; `buffer` is the place of the queue
-- in the layer's list, whose two ends are `producer` and `buffer` of the code.
pub record ThreadCtx : Type 0 where
  pub inner : ℕ
  pub borrowed : Bool
  pub sequence : SequenceState
  pub buffer : ℕ
  pub tracks : Tracks
  pub retained_spans : Retained

abbrev pub Contexts : Type 0
Contexts = List (ℕ × ThreadCtx)

-- The thread-local: whether the thread has destroyed it, whether its RefCell is borrowed, and what it
-- holds.
pub record Local : Type 0 where
  pub destroyed : Bool
  pub in_use : Bool
  pub contexts : Contexts

-- `ThreadCtx::new`, where `buffer` queues are registered already; `raw_clock_ns` is the clock.
pub new_context : Inner → ℕ → ℕ → Option (ThreadCtx × Inner)
new_context inner buffer raw_clock_ns =
    let (sequence_id, inner') = alloc_sequence_id inner in
    alloc_uuid inner' >>= λ (uuid, inner''). some (
      record {
        inner = inner.id;
        borrowed = false;
        sequence = Sequence.new sequence_id uuid raw_clock_ns;
        buffer = buffer;
        tracks = new_tracks;
        retained_spans = new_retained;
      },
      inner'',
    )

-- The loop of `acquire`, from index `i`.
pub position : ℕ → Contexts → ℕ → Option ℕ
position i [] key = none
position i ((k, context) ∷ contexts) key =
    if k == key then some i else position (i + 1) contexts key

-- `retain`, where `alive` says whether a layer has a strong pointer.
pub retain : (ℕ → Bool) → Contexts → Contexts
retain alive [] = []
retain alive ((k, context) ∷ contexts) =
    if alive context.inner then (k, context) ∷ retain alive contexts else retain alive contexts

-- What `acquire` gives: the key of the guarded context, if it lends one.
pub record Acquired {ℓ} (Q : Type ℓ) : Type ℓ where
  pub lent : Option ℕ
  pub inner : Inner
  pub queues : List Q
  pub contexts : Contexts

-- `if context.borrowed { return None; } context.borrowed = true;` on the context in place `i`.
lend {ℓ} : {Q : Type ℓ} → Inner → List Q → Contexts → ℕ → ℕ × ThreadCtx → Acquired Q
lend inner queues contexts i (key, context) =
    if context.borrowed
    then record { lent = none; inner = inner; queues = queues; contexts = contexts }
    else (record {
      lent = some key;
      inner = inner;
      queues = queues;
      contexts = set contexts i (key, record context { borrowed = true });
    })

module _ {ℓ} {Q : Type ℓ} (new_queue : Q) (alive : ℕ → Bool) (raw_clock_ns : ℕ) where
  -- `insert_thread_context`: the contexts, the layer, and the queues, with a new one.
  pub insert_thread_context : Contexts → ℕ → Inner → List Q → Option (Contexts × Inner × List Q)
  insert_thread_context contexts key inner queues =
      new_context inner (length queues) raw_clock_ns >>= λ (context, inner).
      some (retain alive contexts ++ (key, context) ∷ [], inner, queues ++ new_queue ∷ [])

  lend_found : Inner → List Q → Contexts → Option ℕ → Option (Acquired Q)
  unfolding lend insert_thread_context
  lend_found inner queues contexts (some i) =
      get_elem? contexts i >>= λ entry. some (lend inner queues contexts i entry)
  lend_found inner queues contexts none =
      insert_thread_context contexts inner.id inner queues >>= λ (contexts, inner, queues).
      get_elem? contexts (length contexts - 1) >>= λ entry.
      some (lend inner queues contexts (length contexts - 1) entry)

  -- `acquire`; `none` is an index out of bounds, or a counter of uuids that never gives one.
  unfoldable pub acquire : Bool → Inner → List Q → Local → Option (Acquired Q)
  unfolding lend_found
  acquire has_error inner queues local =
      if has_error || (local.destroyed || local.in_use)
      then some (record { lent = none; inner = inner; queues = queues; contexts = local.contexts })
      else lend_found inner queues local.contexts (position 0 local.contexts inner.id)

-- The context with a key.
unfoldable pub context_of : Contexts → ℕ → Option ThreadCtx
context_of [] key = none
context_of ((k, context) ∷ contexts) key =
    if k == key then some context else context_of contexts key

-- A change of the context behind a guard.
unfoldable pub update : Contexts → ℕ → (ThreadCtx → ThreadCtx) → Contexts
update [] key change = []
update ((k, context) ∷ contexts) key change =
    if k == key then (k, change context) ∷ contexts else (k, context) ∷ update contexts key change

-- `Drop for ThreadCtxGuard`
unfoldable pub drop_guard : Contexts → ℕ → Contexts
unfolding update
drop_guard contexts key = update contexts key (λ context. record context { borrowed = false })
