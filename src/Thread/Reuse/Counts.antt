-- ===== src/Thread/Reuse/Counts.antt =====
-- Different numbers, by how often a list has each (for the tracks of src/thread.rs).
use tracing_perfetto_file.Common.{
  ℕ, ◌+◌, ◌≤◌, ◌≡◌, ◌≢◌, refl, sym, ap, subst, inl, inr, List, [], ◌∷◌, map, ◌==◌, ==_iff,
  if◌then◌else◌, Bool-cases, true, arith,
}
use tracing_perfetto_file.Common.Lists.{All}
use tracing_perfetto_file.Common.Sums.{sum_by}
use tracing_perfetto_file.Runtime.Draws.{Distinct}
use tracing_perfetto_file.Thread.Tracks.Weights.{sum_of}
use tracing_perfetto_file.Thread.Reuse.{LiveSpan}

-- 1 at a number, and 0 elsewhere.
abbrev pub one_at : ℕ → ℕ → ℕ
one_at v u = if u == v then 1 else 0

absent-zero : (v : ℕ) (xs : List ℕ) → All (λ y. v ≢ y) xs → sum_of (one_at v) xs ≡ 0
absent-zero v [] h = refl
absent-zero v (x ∷ xs) (ne, h) = elim (Bool-cases (x == v)) [
  | inl same ↦ absurd (ne (sym ((==_iff x v).0 same)))
  | inr other ↦ rw other (omega (arith, absent-zero v xs h))
]

pub once-of-Distinct : (v : ℕ) (xs : List ℕ) → Distinct xs → sum_of (one_at v) xs ≤ 1
once-of-Distinct v [] h = omega arith
once-of-Distinct v (x ∷ xs) (fresh, h) = elim (Bool-cases (x == v)) [
  | inl same ↦
      let is : x ≡ v = (==_iff x v).0 same in
      let none_left : sum_of (one_at v) xs ≡ 0 =
        absent-zero v xs (subst (λ v. All (λ y. v ≢ y) xs) is fresh) in
      rw same (omega (arith, none_left))
  | inr other ↦ rw other (omega (arith, once-of-Distinct v xs h))
]

zero-absent : (v : ℕ) (xs : List ℕ) → sum_of (one_at v) xs ≡ 0 → All (λ y. v ≢ y) xs
zero-absent v [] h = tt
zero-absent v (x ∷ xs) h = elim (Bool-cases (x == v)) [
  | inl same ↦
      (let counted : 1 + sum_of (one_at v) xs ≡ 0 = rw same at h in absurd (omega (arith, counted)))
  | inr other ↦
      let rest : 0 + sum_of (one_at v) xs ≡ 0 = rw other at h in
      (
        λ e. (let hit : (x == v) ≡ true = (==_iff x v).1 (sym e) in cc (hit, other)),
        zero-absent v xs (omega (arith, rest)),
      )
]

pub Distinct-of-once : (xs : List ℕ) → ((v : ℕ) → sum_of (one_at v) xs ≤ 1) → Distinct xs
Distinct-of-once [] h = tt
Distinct-of-once (x ∷ xs) h =
    let hit : (x == x) ≡ true = (==_iff x x).1 refl in
    let at_x : 1 + sum_of (one_at x) xs ≤ 1 = rw hit at (h x) in
    (
      zero-absent x xs (omega (arith, at_x)),
      Distinct-of-once xs
          (λ v. (let all : one_at v x + sum_of (one_at v) xs ≤ 1 = h v in omega (arith, all))),
    )

abbrev pub uuids_of : List LiveSpan → List ℕ
uuids_of spans = map (λ span. span.uuid) spans

pub sum_of-uuids_of :
    (f : ℕ → ℕ) (spans : List LiveSpan)
    → sum_of f (uuids_of spans) ≡ sum_by (λ span. f span.uuid) spans
sum_of-uuids_of f [] = refl
sum_of-uuids_of f (span ∷ spans) = ap (λ n. f span.uuid + n) (sum_of-uuids_of f spans)
