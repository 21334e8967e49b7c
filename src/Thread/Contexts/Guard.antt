-- ===== src/Thread/Contexts/Guard.antt =====
-- A guard of src/thread.rs has its context to itself for as long as it lives.
use tracing_perfetto_file.Common.{
  ℕ, ◌<◌, ◌≡◌, ◌≢◌, refl, sym, ◌∙◌, ap, inl, inr, List, [], ◌∷◌, Bool, true, false, ◌||◌,
  Bool-cases, Option, none, some, ◌==◌, ==_iff, if◌then◌else◌, ◌>>=◌,
}
use tracing_perfetto_file.Common.Lists.{All}
use tracing_perfetto_file.Runtime.{Inner, u64_mod}
use tracing_perfetto_file.Thread.Contexts.{
  ThreadCtx, Contexts, Acquired, acquire, context_of, update, drop_guard,
}
use tracing_perfetto_file.Thread.Contexts.Laws.{Outcome, acquire-Outcome}
use tracing_perfetto_file.Thread.Contexts.Lookup.{IsKeyed}

-- What happens on a thread: a layer asks for its context, a guard is dropped, and the context behind
-- a guard is changed.
pub data Call (Q : Type 0) : Type 0 where
  acquire_for : Q → (ℕ → Bool) → ℕ → (has_error destroyed in_use : Bool) → Inner → List Q → Call Q
  drop_for : ℕ → Call Q
  change_for : ℕ → (ThreadCtx → ThreadCtx) → Call Q

pub update_other :
    (contexts : Contexts) (k key : ℕ) (change : ThreadCtx → ThreadCtx)
    → k ≢ key
    → context_of (update contexts k change) key ≡ context_of contexts key
unfolding update context_of
update_other [] k key change ne = refl
update_other ((j, context) ∷ contexts) k key change ne = elim (Bool-cases (j == k)) [
  | inl same ↦
      let other : (j == key) ≡ false = elim (Bool-cases (j == key)) [
        | inl hit ↦ absurd (ne (sym ((==_iff j k).0 same) ∙ (==_iff j key).0 hit))
        | inr miss ↦ miss
      ] in
      rw same (rw other refl)
  | inr miss ↦
      rw miss (
        ap (λ rest. if j == key then some context else rest)
          (update_other contexts k key change ne))
]

pub update-IsKeyed :
    (contexts : Contexts) (k : ℕ) (change : ThreadCtx → ThreadCtx)
    → ((context : ThreadCtx) → (change context).inner ≡ context.inner)
    → IsKeyed contexts
    → IsKeyed (update contexts k change)
unfolding update
update-IsKeyed [] k change same h = tt
update-IsKeyed ((j, context) ∷ contexts) k change same (own, h) = elim (Bool-cases (j == k)) [
  | inl hit ↦ rw hit (same context ∙ own, h)
  | inr miss ↦ rw miss (own, update-IsKeyed contexts k change same h)
]

-- The context of `key` after a call: the same.
abbrev pub Keeps : ℕ → ThreadCtx → Option Contexts → Type 0
Keeps key context r =
    (contexts' : Contexts) × (r ≡ some contexts')
    × IsKeyed contexts'
    × (context_of contexts' key ≡ some context)

module _ {Q : Type 0} where
  unfoldable pub call : Contexts → Call Q → Option Contexts
  call contexts (acquire_for new_queue alive clock has_error destroyed in_use inner queues) =
      acquire new_queue alive clock has_error inner queues
        (record { destroyed = destroyed; in_use = in_use; contexts = contexts })
      >>= λ r. some r.contexts
  call contexts (drop_for key) = some (drop_guard contexts key)
  call contexts (change_for key change) = some (update contexts key change)

  unfoldable pub run_calls : Contexts → List (Call Q) → Option Contexts
  run_calls contexts [] = some contexts
  run_calls contexts (c ∷ calls) = call contexts c >>= λ contexts. run_calls contexts calls

  -- A call while layer `key` lives and its guard is not used: by that layer itself only another
  -- `acquire`, and by others anything.
  abbrev pub IsForeign : ℕ → Call Q → Type 0
  IsForeign key (acquire_for new_queue alive clock has_error destroyed in_use inner queues) =
      (alive key ≡ true) × (inner.next_uuid < u64_mod)
  IsForeign key (drop_for k) = k ≢ key
  IsForeign key (change_for k change) =
      (k ≢ key) × ((context : ThreadCtx) → (change context).inner ≡ context.inner)

  Outcome-Keeps :
      (new_queue : Q) (alive : ℕ → Bool) (inner : Inner) (queues : List Q) (contexts : Contexts)
      (r : Acquired Q) (key : ℕ) (context : ThreadCtx)
      → context_of contexts key ≡ some context
      → context.borrowed ≡ true
      → alive key ≡ true
      → Outcome new_queue alive inner queues contexts r
      → context_of r.contexts key ≡ some context
  Outcome-Keeps new_queue alive inner queues contexts r key context held lent lives
        (inl (c, at, borrowed, e)) =
      ap (λ r. context_of r.contexts key) e ∙ held
  Outcome-Keeps new_queue alive inner queues contexts r key context held lent lives
        (inr (inl (c, at, free, l, i, q, now))) =
      elim (Bool-cases (inner.id == key)) [
        | inl same ↦
            let both : some c ≡ some context =
              sym at ∙ ap (λ k. context_of contexts k) ((==_iff inner.id key).0 same) ∙ held in
            let is : c ≡ context = cc both in
            let never : false ≡ true = sym free ∙ ap (λ c. c.borrowed) is ∙ lent in
            absurd (let no : ⊥ = cc never in no)
        | inr other ↦ now key ∙ rw other held
      ]
  Outcome-Keeps new_queue alive inner queues contexts r key context held lent lives
        (inr (inr (absent, c, borrowed, buffer, tracks, slots, l, next, low, i, q, now))) =
      elim (Bool-cases (inner.id == key)) [
        | inl same ↦
            let both : none ≡ some context =
              sym absent ∙ ap (λ k. context_of contexts k) ((==_iff inner.id key).0 same) ∙ held in
            absurd (let no : ⊥ = cc both in no)
        | inr other ↦ now key ∙ rw (other, lives) held
      ]

  acquire-Keeps :
      (new_queue : Q) (alive : ℕ → Bool) (clock : ℕ) (has_error destroyed in_use : Bool)
      (inner : Inner) (queues : List Q) (contexts : Contexts) (key : ℕ) (context : ThreadCtx)
      → IsKeyed contexts
      → context_of contexts key ≡ some context
      → context.borrowed ≡ true
      → alive key ≡ true
      → inner.next_uuid < u64_mod
      → Keeps key context (
          call contexts (acquire_for new_queue alive clock has_error destroyed in_use inner queues))
  unfolding call acquire
  acquire-Keeps new_queue alive clock has_error destroyed in_use inner queues contexts key context
        keyed held lent lives small =
      elim (Bool-cases (has_error || (destroyed || in_use))) [
        | inl shut ↦ (contexts, rw shut refl, keyed, held)
        | inr open_now ↦
            let (r, e, (outcome, keyed')) =
              acquire-Outcome new_queue alive clock inner queues contexts small keyed in
            (
              r.contexts,
              rw open_now (rw e refl),
              keyed',
              Outcome-Keeps new_queue alive inner queues contexts r key context held lent lives
                  outcome,
            )
      ]

  call-Keeps :
      (contexts : Contexts) (c : Call Q) (key : ℕ) (context : ThreadCtx)
      → IsKeyed contexts
      → context_of contexts key ≡ some context
      → context.borrowed ≡ true
      → IsForeign key c
      → Keeps key context (call contexts c)
  unfolding call drop_guard
  call-Keeps contexts (acquire_for new_queue alive clock has_error destroyed in_use inner queues)
        key context keyed held lent (lives, small) =
      acquire-Keeps new_queue alive clock has_error destroyed in_use inner queues contexts key
        context keyed held lent lives small
  call-Keeps contexts (drop_for k) key context keyed held lent ne = (
    drop_guard contexts k,
    refl,
    update-IsKeyed contexts k _ (λ c. refl) keyed,
    update_other contexts k key _ ne ∙ held,
  )
  call-Keeps contexts (change_for k change) key context keyed held lent (ne, same) = (
    update contexts k change,
    refl,
    update-IsKeyed contexts k change same keyed,
    update_other contexts k key change ne ∙ held,
  )

  -- While the guard of a live layer is out and not used, whatever else happens on the thread (contexts
  -- of other layers that are asked for, made, changed, given back or removed, and further calls of
  -- `acquire` by the layer itself): nothing panics, and the context behind the guard is there, still
  -- lent out, and not changed.
  pub run_calls-Keeps :
      (contexts : Contexts) (calls : List (Call Q)) (key : ℕ) (context : ThreadCtx)
      → IsKeyed contexts
      → context_of contexts key ≡ some context
      → context.borrowed ≡ true
      → All (IsForeign key) calls
      → Keeps key context (run_calls contexts calls)
  unfolding run_calls
  run_calls-Keeps contexts [] key context keyed held lent foreign = (contexts, refl, keyed, held)
  run_calls-Keeps contexts (c ∷ calls) key context keyed held lent (here, foreign) =
      let (contexts', e, keyed', held') = call-Keeps contexts c key context keyed held lent here in
      rw e (run_calls-Keeps contexts' calls key context keyed' held' lent foreign)
