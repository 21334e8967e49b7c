-- ===== src/Common/Lists.antt =====
-- Lists measured, cut and indexed by native numbers, under the library's names.
use Prim.Native.Nat.{ℕ, zero, suc, ◌+◌, min}
use mathlib.Core.Path.{◌≡◌, refl, sym, ap, ◌∙◌}
use mathlib.Core.List.{List, [], ◌∷◌, ◌++◌}
use mathlib.Core.Option.{Option, none, some}
use native.Mathlib.Omega.{arith}
use native.Mathlib.Nat.{zero-add, suc-add}

module _ {ℓ} {A : Type ℓ} where
  abbrev pub length : List A → ℕ
  length [] = 0
  length (x ∷ xs) = suc (length xs)

  abbrev pub get_elem? : List A → ℕ → Option A
  get_elem? [] i = none
  get_elem? (x ∷ xs) zero = some x
  get_elem? (x ∷ xs) (suc i) = get_elem? xs i

  -- A write out of bounds changes nothing.
  abbrev pub set : List A → ℕ → A → List A
  set [] i v = []
  set (x ∷ xs) zero v = v ∷ xs
  set (x ∷ xs) (suc i) v = x ∷ set xs i v

  abbrev pub take : ℕ → List A → List A
  take zero xs = []
  take (suc n) [] = []
  take (suc n) (x ∷ xs) = x ∷ take n xs

  abbrev pub drop : ℕ → List A → List A
  drop zero xs = xs
  drop (suc n) [] = []
  drop (suc n) (x ∷ xs) = drop n xs

  abbrev pub replicate : ℕ → A → List A
  replicate zero a = []
  replicate (suc n) a = a ∷ replicate n a

  abbrev pub All {κ} : (A → Type κ) → List A → Type κ
  All P [] = Unit {κ}
  All P (x ∷ xs) = P x × All P xs

  pub length-append : (xs ys : List A) → length (xs ++ ys) ≡ length xs + length ys
  length-append [] ys = omega arith
  length-append (x ∷ xs) ys = omega (arith, length-append xs ys)

  pub take-append : (xs ys : List A) → take (length xs) (xs ++ ys) ≡ xs
  take-append [] ys = refl
  take-append (x ∷ xs) ys = ap (◌∷◌ x) (take-append xs ys)

  pub drop-append : (xs ys : List A) → drop (length xs) (xs ++ ys) ≡ ys
  drop-append [] ys = refl
  drop-append (x ∷ xs) ys = drop-append xs ys

  pub length-take : (n : ℕ) (xs : List A) → length (take n xs) ≡ min n (length xs)
  length-take zero xs = omega arith
  length-take (suc n) [] = omega arith
  length-take (suc n) (x ∷ xs) = omega (arith, length-take n xs)

  pub length-replicate : (n : ℕ) (a : A) → length (replicate n a) ≡ n
  length-replicate zero a = refl
  length-replicate (suc n) a = ap suc (length-replicate n a)

  pub drop-append_beyond : (n : ℕ) (xs ys : List A) → drop (length xs + n) (xs ++ ys) ≡ drop n ys
  drop-append_beyond n [] ys = ap (λ (k : ℕ). drop k ys) (zero-add n)
  drop-append_beyond n (x ∷ xs) ys =
      ap (λ (k : ℕ). drop k (x ∷ xs ++ ys)) (suc-add (length xs) n) ∙ drop-append_beyond n xs ys

  pub take-append_front : (n : ℕ) (xs ys : List A) → take n xs ≡ take (min n (length xs)) (xs ++ ys)
  take-append_front zero xs ys =
      ap (λ (k : ℕ). take k (xs ++ ys)) (let e : 0 ≡ min 0 (length xs) = omega arith in e)
  take-append_front (suc n) [] ys =
      ap (λ (k : ℕ). take k ys) (let e : 0 ≡ min (suc n) 0 = omega arith in e)
  take-append_front (suc n) (x ∷ xs) ys =
      ap (◌∷◌ x) (take-append_front n xs ys)
      ∙ ap (λ (k : ℕ). take k (x ∷ xs ++ ys))
          (let e : suc (min n (length xs)) ≡ min (suc n) (suc (length xs)) = omega arith in e)

  pub take-append_beyond :
      (n : ℕ) (xs ys : List A) → xs ++ take n ys ≡ take (length xs + n) (xs ++ ys)
  take-append_beyond n [] ys = ap (λ (k : ℕ). take k ys) (sym (zero-add n))
  take-append_beyond n (x ∷ xs) ys =
      ap (◌∷◌ x) (take-append_beyond n xs ys)
      ∙ ap (λ (k : ℕ). take k (x ∷ xs ++ ys)) (sym (suc-add (length xs) n))

  pub take_all : (xs : List A) → take (length xs) xs ≡ xs
  take_all [] = refl
  take_all (x ∷ xs) = ap (◌∷◌ x) (take_all xs)
