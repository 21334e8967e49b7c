-- ===== src/Thread/Contexts/Lookup.antt =====
-- The contexts of a thread (src/thread.rs), by key and by place.
use tracing_perfetto_file.Common.{
  ℕ, suc, ◌+◌, ◌≡◌, refl, sym, ◌∙◌, ap, ◌⊎◌, inl, inr, List, [], ◌∷◌, ◌++◌, Bool, true, false,
  Bool-cases, none, some, ◌==◌, ==_iff, if◌then◌else◌, arith,
}
use tracing_perfetto_file.Common.Lists.{length, get_elem?, set, All}
use tracing_perfetto_file.Thread.Contexts.{ThreadCtx, Contexts, position, retain, context_of}

-- Each context is that of the layer of its key.
abbrev pub IsKeyed : Contexts → Type 0
IsKeyed contexts = All (λ entry. entry.1.inner ≡ entry.0) contexts

-- The context in place `j` is the first with its key.
pub record At (contexts : Contexts) (key j : ℕ) (context : ThreadCtx) : Type 0 where
  pub there : get_elem? contexts j ≡ some (key, context)
  pub found : context_of contexts key ≡ some context
  pub sets :
      (context' : ThreadCtx) (q : ℕ)
      → context_of (set contexts j (key, context')) q
        ≡ (if key == q then some context' else context_of contexts q)

At-behind :
    (k : ℕ) (first : ThreadCtx) (contexts : Contexts) (key j : ℕ) (context : ThreadCtx)
    → (k == key) ≡ false
    → At contexts key j context
    → At ((k, first) ∷ contexts) key (suc j) context
unfolding context_of
At-behind k first contexts key j context other at = record {
  there = at.there;
  found = rw other at.found;
  sets = λ context' q. rw (at.sets context' q) (ground (arith, other));
}

pub position_lem :
    (i : ℕ) (contexts : Contexts) (key : ℕ)
    → ((position i contexts key ≡ none) × (context_of contexts key ≡ none))
      ⊎ ((j : ℕ) × (context : ThreadCtx) × (position i contexts key ≡ some (i + j))
          × At contexts key j context)
unfolding position context_of
position_lem i [] key = inl (refl, refl)
position_lem i ((k, context) ∷ contexts) key = elim (Bool-cases (k == key)) [
  | inl same ↦
      let is : k ≡ key = (==_iff k key).0 same in
      inr (
        0,
        context,
        rw same (ap some (let e : i ≡ i + 0 = omega arith in e)),
        record {
          there = ap (λ k. some (k, context)) is;
          found = rw same refl;
          sets = λ context' q. ground (arith, same);
        },
      )
  | inr other ↦ elim (position_lem (i + 1) contexts key) [
    | inl (e, absent) ↦ inl (rw other e, rw other absent)
    | inr (j, found, e, at) ↦ inr (
      suc j,
      found,
      rw other (e ∙ ap some (let e : i + 1 + j ≡ i + suc j = omega arith in e)),
      At-behind k context contexts key j found other at,
    )
  ]
]

pub context_of-retain :
    (alive : ℕ → Bool) (contexts : Contexts) (q : ℕ)
    → IsKeyed contexts
    → context_of (retain alive contexts) q ≡ (if alive q then context_of contexts q else none)
unfolding retain context_of
context_of-retain alive [] q h = elim (Bool-cases (alive q)) [
  | inl yes_alive ↦ rw yes_alive refl
  | inr dead ↦ rw dead refl
]
context_of-retain alive ((k, context) ∷ contexts) q (own, h) =
    let rest = context_of-retain alive contexts q h in
    elim (Bool-cases (alive context.inner)) [
      | inl lives ↦ elim (Bool-cases (k == q)) [
        | inl same ↦
            let at_q : alive q ≡ true = sym (ap alive (own ∙ (==_iff k q).0 same)) ∙ lives in
            rw (lives, same, at_q) refl
        | inr other ↦ rw (lives, other) rest
      ]
      | inr dead ↦ elim (Bool-cases (k == q)) [
        | inl same ↦
            let at_q : alive q ≡ false = sym (ap alive (own ∙ (==_iff k q).0 same)) ∙ dead in
            rw (dead, same, at_q) (rest ∙ rw at_q refl)
        | inr other ↦ rw (dead, other) rest
      ]
    ]

pub retain-IsKeyed :
    (alive : ℕ → Bool) (contexts : Contexts) → IsKeyed contexts → IsKeyed (retain alive contexts)
unfolding retain
retain-IsKeyed alive [] h = tt
retain-IsKeyed alive ((k, context) ∷ contexts) (own, h) = elim (Bool-cases (alive context.inner)) [
  | inl lives ↦ rw lives (own, retain-IsKeyed alive contexts h)
  | inr dead ↦ rw dead (retain-IsKeyed alive contexts h)
]

-- A context that is pushed behind the others.
pub context_of-append :
    (contexts : Contexts) (k : ℕ) (context : ThreadCtx) (q : ℕ)
    → context_of contexts k ≡ none
    → context_of (contexts ++ (k, context) ∷ []) q
      ≡ (if k == q then some context else context_of contexts q)
unfolding context_of
context_of-append [] k context q h = refl
context_of-append ((j, first) ∷ contexts) k context q h = elim (Bool-cases (j == k)) [
  | inl same ↦ (let never : some first ≡ none = (rw same at h) in cc never)
  | inr other ↦
      let absent : context_of contexts k ≡ none = (rw other at h) in
      rw (context_of-append contexts k context q absent) (ground (arith, other))
]

pub last_place : {A : Type 0} (xs : List A) (x : A) → get_elem? (xs ++ x ∷ []) (length xs) ≡ some x
last_place [] x = refl
last_place (y ∷ xs) x = last_place xs x

pub set-last :
    {A : Type 0} (xs : List A) (x y : A) → set (xs ++ x ∷ []) (length xs) y ≡ xs ++ y ∷ []
set-last [] x y = refl
set-last (z ∷ xs) x y = ap (◌∷◌ z) (set-last xs x y)
