-- ===== src/Common/Sums.antt =====
-- Sums over a list, and lists with one entry taken out or changed.
use Prim.Native.Nat.{ℕ, zero, suc, ◌+◌}
use mathlib.Core.Path.{◌≡◌, ap, subst}
use mathlib.Core.List.{List, [], ◌∷◌, ◌++◌}
use mathlib.Core.Option.{Option, none, some}
use native.Mathlib.Omega.{arith}
use tracing_perfetto_file.Common.Tests.{◌>>=◌, >>=-eq-some}
use tracing_perfetto_file.Common.Lists.{get_elem?, set, All}

module _ {ℓ} {A : Type ℓ} where
  -- A list without its entry `n`, and that entry.
  unfoldable pub remove_at : List A → ℕ → Option (A × List A)
  remove_at [] n = none
  remove_at (x ∷ xs) zero = some (x, xs)
  remove_at (x ∷ xs) (suc n) = remove_at xs n >>= λ (y, rest). some (y, x ∷ rest)

  abbrev pub sum_by : (A → ℕ) → List A → ℕ
  sum_by g [] = 0
  sum_by g (x ∷ xs) = g x + sum_by g xs

  pub sum_by-append :
      (g : A → ℕ) (xs : List A) (y : A) → sum_by g (xs ++ y ∷ []) ≡ sum_by g xs + g y
  sum_by-append g [] y = omega arith
  sum_by-append g (x ∷ xs) y = omega (arith, sum_by-append g xs y)

  pub sum_by-set :
      (g : A → ℕ) (xs : List A) (i : ℕ) (x y : A)
      → get_elem? xs i ≡ some x
      → sum_by g (set xs i y) + g x ≡ sum_by g xs + g y
  sum_by-set g [] i x y h = cc h
  sum_by-set g (z ∷ xs) zero x y h =
      let same : z ≡ x = cc h in let e : g z ≡ g x = ap g same in omega (arith, e)
  sum_by-set g (z ∷ xs) (suc i) x y h = omega (arith, sum_by-set g xs i x y h)

  pub All-append_one {κ} :
      (P : A → Type κ) (xs : List A) (y : A) → All P xs → P y → All P (xs ++ y ∷ [])
  All-append_one P [] y h p = (p, tt)
  All-append_one P (x ∷ xs) y (a, h) p = (a, All-append_one P xs y h p)

  pub All-set {κ} :
      (P : A → Type κ) (xs : List A) (i : ℕ) (y : A) → P y → All P xs → All P (set xs i y)
  All-set P [] i y p h = h
  All-set P (x ∷ xs) zero y p (a, h) = (p, h)
  All-set P (x ∷ xs) (suc i) y p (a, h) = (a, All-set P xs i y p h)

  pub All-get {κ} :
      (P : A → Type κ) (xs : List A) (i : ℕ) (x : A) → get_elem? xs i ≡ some x → All P xs → P x
  All-get P [] i x e h = cc e
  All-get P (z ∷ xs) zero x e (a, h) = let same : z ≡ x = cc e in subst P same a
  All-get P (z ∷ xs) (suc i) x e (a, h) = All-get P xs i x e h

  pub All-map {κ μ} :
      (P : A → Type κ) (Q : A → Type μ) (xs : List A) → ((x : A) → P x → Q x) → All P xs → All Q xs
  All-map P Q [] f h = tt
  All-map P Q (x ∷ xs) f (a, h) = (f x a, All-map P Q xs f h)

module _ {A : Type 0} where
  -- What was taken out and what is left make up the list.
  pub record Removed (P : A → Type 0) (xs : List A) (y : A) (rest : List A) : Type 0 where
    pub taken : All P xs → P y
    pub left : All P xs → All P rest
    pub sums : (g : A → ℕ) → g y + sum_by g rest ≡ sum_by g xs

  pub remove_at_lem :
      (P : A → Type 0) (xs : List A) (n : ℕ) (y : A) (rest : List A)
      → remove_at xs n ≡ some (y, rest)
      → Removed P xs y rest
  unfolding remove_at
  remove_at_lem P [] n y rest e = cc e
  remove_at_lem P (x ∷ xs) zero y rest e =
      let same : x ≡ y = cc e in
      let tail : xs ≡ rest = cc e in
      record {
        taken = λ h. subst P same h.0;
        left = λ h. subst (All P) tail h.1;
        sums = λ g.
            (let a : g x ≡ g y = ap g same in
              let b : sum_by g xs ≡ sum_by g rest = ap (sum_by g) tail in omega (arith, a, b));
      }
  remove_at_lem P (x ∷ xs) (suc n) y rest e =
      let ((z, zs), there, is) = >>=-eq-some (remove_at xs n) (λ r. some (r.0, x ∷ r.1)) e in
      let same : z ≡ y = cc is in
      let tail : x ∷ zs ≡ rest = cc is in
      let r = remove_at_lem P xs n z zs there in
      record {
        taken = λ h. subst P same (r.taken h.1);
        left = λ h. subst (All P) tail (h.0, r.left h.1);
        sums = λ g.
            (let a : g z ≡ g y = ap g same in
              let b : g x + sum_by g zs ≡ sum_by g rest = ap (sum_by g) tail in
              omega (arith, a, b, r.sums g));
      }
