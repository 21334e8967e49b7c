-- ===== src/Common/Indexed.antt =====
-- Lists with a changed or added entry.
use Prim.Native.Nat.{ℕ, zero, suc, ◌≤◌, ◌<◌}
use mathlib.Core.Path.{◌≡◌, refl, ap}
use mathlib.Core.Logic.{◌⊎◌, inl, inr}
use mathlib.Core.List.{List, [], ◌∷◌, ◌++◌}
use mathlib.Core.Option.{none, some}
use native.Mathlib.Omega.{arith}
use tracing_perfetto_file.Common.Tests.{◌==◌, if◌then◌else◌}
use tracing_perfetto_file.Common.Lists.{length, get_elem?, set, replicate}

module _ {ℓ} {A : Type ℓ} where
  pub get_elem?-set :
      (xs : List A) (i j : ℕ) (v w : A)
      → get_elem? xs i ≡ some w
      → get_elem? (set xs i v) j ≡ (if i == j then some v else get_elem? xs j)
  get_elem?-set [] i j v w h = cc h
  get_elem?-set (x ∷ xs) zero zero v w h = ground arith
  get_elem?-set (x ∷ xs) zero (suc j) v w h = ground arith
  get_elem?-set (x ∷ xs) (suc i) zero v w h = ground arith
  get_elem?-set (x ∷ xs) (suc i) (suc j) v w h = ground (arith, get_elem?-set xs i j v w h)

  pub get_elem?-beyond : (xs : List A) (i : ℕ) → length xs ≤ i → get_elem? xs i ≡ none
  get_elem?-beyond [] i h = refl
  get_elem?-beyond (x ∷ xs) zero h = elim h [ ]
  get_elem?-beyond (x ∷ xs) (suc i) h = get_elem?-beyond xs i (omega arith)

  pub get_elem?-append_one :
      (xs : List A) (v : A) (i : ℕ)
      → (get_elem? (xs ++ v ∷ []) i ≡ get_elem? xs i)
        ⊎ ((length xs ≤ i) × (get_elem? (xs ++ v ∷ []) i ≡ some v))
        ⊎ (get_elem? (xs ++ v ∷ []) i ≡ none)
  get_elem?-append_one [] v zero = inr (inl (omega arith, refl))
  get_elem?-append_one [] v (suc i) = inl refl
  get_elem?-append_one (x ∷ xs) v zero = inl refl
  get_elem?-append_one (x ∷ xs) v (suc i) = elim (get_elem?-append_one xs v i) [
    | inl old ↦ inl old
    | inr (inl (beyond, new)) ↦ inr (inl (omega arith, new))
    | inr (inr nothing) ↦ inr (inr nothing)
  ]

  pub length-set : (xs : List A) (i : ℕ) (v : A) → length (set xs i v) ≡ length xs
  length-set [] i v = refl
  length-set (x ∷ xs) zero v = refl
  length-set (x ∷ xs) (suc i) v = ap suc (length-set xs i v)

  pub get_elem?_within : (xs : List A) (i : ℕ) → i < length xs → (x : A) × (get_elem? xs i ≡ some x)
  get_elem?_within [] i h = elim h [ ]
  get_elem?_within (x ∷ xs) zero h = (x, refl)
  get_elem?_within (x ∷ xs) (suc i) h = get_elem?_within xs i (omega arith)

  pub get_elem?-replicate : (n i : ℕ) (a b : A) → get_elem? (replicate n a) i ≡ some b → a ≡ b
  get_elem?-replicate zero i a b h = cc h
  get_elem?-replicate (suc n) zero a b h = cc h
  get_elem?-replicate (suc n) (suc i) a b h = get_elem?-replicate n i a b h
