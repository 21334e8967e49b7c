-- ===== src/Runtime/Draws.antt =====
-- Numbers that are drawn one after the other from a counter (src/runtime.rs).
use tracing_perfetto_file.Common.{
  ℕ, zero, suc, ◌+◌, ◌%◌, ◌≤◌, ◌<◌, ◌≡◌, refl, ◌≢◌, ◌⊎◌, inl, inr, List, [], ◌∷◌, Option, some,
  arith, ◌==◌, ==_iff, Bool-cases, ◌>>=◌,
}
use tracing_perfetto_file.Common.Lists.{All, length}
use tracing_perfetto_file.Runtime.{u64_mod, fetch_nonzero}

-- What a draw from a counter at `next` gives.
abbrev Drew : ℕ → Option (ℕ × ℕ) → Type 0
Drew next r =
    (id next' : ℕ) × (r ≡ some (id, next'))
    × (id ≢ 0)
    × (id < u64_mod)
    × (next' ≡ (id + 1) % u64_mod)
    × ((id ≡ next) ⊎ ((next ≡ 0) × (id ≡ 1)))

pub fetch_nonzero-Drew : (next : ℕ) → next < u64_mod → Drew next (fetch_nonzero 2 next)
unfolding fetch_nonzero
fetch_nonzero-Drew next h = elim (Bool-cases (next == 0)) [
  | inl at_zero ↦
      let zero_there : next ≡ 0 = (==_iff next 0).0 at_zero in
      (
        1,
        2,
        rw zero_there refl,
        (λ e. absurd (omega arith)),
        omega arith,
        refl,
        inr (zero_there, refl),
      )
  | inr other ↦
      (next, (next + 1) % u64_mod, rw other refl, (λ e. absurd (ground arith)), h, refl, inl refl)
]

-- `n` draws, one after another.
unfoldable pub draws : ℕ → ℕ → Option (List ℕ)
draws zero next = some []
draws (suc n) next =
    fetch_nonzero 2 next >>= λ (id, next'). draws n next' >>= λ ids. some (id ∷ ids)

abbrev pub Distinct : List ℕ → Type 0
Distinct [] = Unit
Distinct (x ∷ xs) = All (λ y. x ≢ y) xs × Distinct xs

-- The counter started at `base`; `t` steps from there.
abbrev pub at_step : ℕ → ℕ → ℕ
at_step base t = (base + t) % u64_mod

abbrev pub From : ℕ → ℕ → ℕ → Type 0
From base s x = (t : ℕ) × (s ≤ t) × (t < u64_mod) × (x ≡ at_step base t)

-- Zero has been passed within the first `s` steps.
abbrev Passed : ℕ → ℕ → Type 0
Passed base s = (z : ℕ) × (z < s) × (at_step base z ≡ 0)

-- There is room for `n` more draws.
abbrev Room : ℕ → ℕ → ℕ → Type 0
Room base s n = (s + n < u64_mod) ⊎ (Passed base s × (s + n ≤ u64_mod))

From-later : (base s t : ℕ) (xs : List ℕ) → s ≤ t → All (From base t) xs → All (From base s) xs
From-later base s t [] h a = tt
From-later base s t (x ∷ xs) h ((u, low, high, e), rest) =
    ((u, omega arith, high, e), From-later base s t xs h rest)

pub apart :
    (base s x : ℕ) (xs : List ℕ)
    → x ≡ at_step base s
    → s < u64_mod
    → All (From base (s + 1)) xs
    → All (λ y. x ≢ y) xs
apart base s x [] e h a = tt
apart base s x (y ∷ ys) e h ((u, low, high, e'), rest) =
    (λ same. absurd (omega arith), apart base s x ys e h rest)

draws-step :
    (n next id next' : ℕ) (ids : List ℕ)
    → fetch_nonzero 2 next ≡ some (id, next')
    → draws n next' ≡ some ids
    → draws (suc n) next ≡ some (id ∷ ids)
unfolding draws
draws-step n next id next' ids e later = rw e (rw later refl)

-- What `n` draws give from step `s` of a counter that started at `base`.
abbrev DrawsFrom : ℕ → ℕ → ℕ → Type 0
DrawsFrom n base s =
    (ids : List ℕ) × (draws n (at_step base s) ≡ some ids)
    × All (From base s) ids
    × All (λ x. x ≢ 0) ids
    × Distinct ids
    × (length ids ≡ n)

-- A first id `id`, which stands at step `t`, before draws from the step behind it.
first_draw :
    (n base s t id next' : ℕ)
    → fetch_nonzero 2 (at_step base s) ≡ some (id, next')
    → id ≢ 0
    → s ≤ t
    → t < u64_mod
    → id ≡ at_step base t
    → next' ≡ at_step base (t + 1)
    → DrawsFrom n base (t + 1)
    → DrawsFrom (suc n) base s
first_draw n base s t id next' e nonzero low high at_t behind
      (ids, drawn, from, nonzeros, distinct, len) =
    let drawn' : draws n next' ≡ some ids = rw behind drawn in
    (
      id ∷ ids,
      draws-step n (at_step base s) id next' ids e drawn',
      ((t, low, high, at_t), From-later base s (t + 1) ids (omega arith) from),
      (nonzero, nonzeros),
      (apart base t id ids at_t high from, distinct),
      rw len refl,
    )

-- One draw before more: the step behind it, and what is left of the room there.
draw_more :
    (n base s : ℕ)
    → base < u64_mod
    → Drew (at_step base s) (fetch_nonzero 2 (at_step base s))
    → Room base s (suc n)
    → ((s' : ℕ) → Room base s' n → DrawsFrom n base s')
    → DrawsFrom (suc n) base s
draw_more n base s h (id, next', e, nonzero, small, advanced, inl same) (inl before) later =
    first_draw n base s s id next' e nonzero (omega arith) (omega arith) same (omega arith)
      (later (s + 1) (inl (omega arith)))
draw_more n base s h (id, next', e, nonzero, small, advanced, inl same)
      (inr ((z, early, zeroed), before)) later =
    first_draw n base s s id next' e nonzero (omega arith) (omega arith) same (omega arith)
      (later (s + 1) (inr ((z, omega arith, zeroed), omega arith)))
draw_more n base s h (id, next', e, nonzero, small, advanced, inr (at_zero, one)) (inl before)
      later =
    first_draw n base s (s + 1) id next' e nonzero (omega arith) (omega arith) (omega arith)
      (omega arith) (later (s + 1 + 1) (inr ((s, omega arith, at_zero), omega arith)))
draw_more n base s h (id, next', e, nonzero, small, advanced, inr (at_zero, one))
      (inr ((z, early, zeroed), before)) later =
    absurd (omega arith)

pub draws-Distinct : (n base s : ℕ) → base < u64_mod → Room base s n → DrawsFrom n base s
unfolding draws
draws-Distinct zero base s h room = ([], refl, tt, tt, tt, refl)
draws-Distinct (suc n) base s h room =
    draw_more n base s h (fetch_nonzero-Drew (at_step base s) (omega arith)) room
      (λ s' room'. draws-Distinct n base s' h room')
