-- ===== src/Thread.antt =====
-- src/thread.rs: the retained span data that a thread keeps for its next spans.
pub mod Tracks
pub mod Reuse
pub mod Contexts
pub mod Blank
mod Runs
use tracing_perfetto_file.Common.{
  ℕ, ◌+◌, List, [], ◌∷◌, ◌++◌, Bool, true, false, Option, none, some, ◌==◌, if◌then◌else◌, ◌>>=◌,
}
use tracing_perfetto_file.Common.Lists.{replicate, length, get_elem?, set}
use tracing_perfetto_file.Runtime.{RetainedSpanData, default_retained, clear}

-- `retained_spans`: four slots.
abbrev pub Retained : Type 0
Retained = List (Option RetainedSpanData)

pub new_retained : Retained
new_retained = replicate 4 none

-- The loop of `take_retained_span`: the first filled slot is emptied.
pub take_retained_span : Retained → RetainedSpanData × Retained
take_retained_span [] = (default_retained, [])
take_retained_span (none ∷ slots) =
    let (retained, slots) = take_retained_span slots in (retained, none ∷ slots)
take_retained_span (some retained ∷ slots) = (retained, none ∷ slots)

-- The loop of `return_retained_span`: the first free slot is filled; without one, the data is dropped.
put_retained : Retained → RetainedSpanData → Retained
put_retained [] retained = []
put_retained (none ∷ slots) retained = some retained ∷ slots
put_retained (some old ∷ slots) retained = some old ∷ put_retained slots retained

pub return_retained_span : Retained → RetainedSpanData → Retained
unfolding put_retained
return_retained_span slots retained = put_retained slots (clear retained)
