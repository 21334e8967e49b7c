-- ===== src/Common/Maps.antt =====
-- Rust's `HashMap<usize, V>` as an association list, and `&'static str` as a pointer with the bytes
-- that stand there.
use Prim.Native.Nat.{ℕ}
use mathlib.Core.Path.{◌≡◌, refl}
use mathlib.Core.Logic.{◌≢◌}
use mathlib.Core.List.{List, [], ◌∷◌}
use mathlib.Core.Option.{Option, none, some}
use native.Mathlib.Omega.{arith}
use tracing_perfetto_file.Common.Tests.{◌==◌, if◌then◌else◌}

pub record StaticStr : Type 0 where
  pub ptr : ℕ
  pub text : List ℕ

abbrev pub PtrMap {ℓ} : Type ℓ → Type ℓ
PtrMap V = List (ℕ × V)

module _ {ℓ} {V : Type ℓ} where
  unfoldable pub get : PtrMap V → ℕ → Option V
  get [] k = none
  get ((j, v) ∷ m) k = if j == k then some v else get m k

  unfoldable pub insert : PtrMap V → ℕ → V → PtrMap V
  insert [] k v = (k, v) ∷ []
  insert ((j, w) ∷ m) k v = if j == k then (k, v) ∷ m else (j, w) ∷ insert m k v

  pub get-insert :
      (m : PtrMap V) (k j : ℕ) (v : V) → get (insert m k v) j ≡ (if k == j then some v else get m j)
  unfolding get insert
  get-insert [] k j v = refl
  get-insert ((i, w) ∷ m) k j v = ground (arith, get-insert m k j v)

  pub get-insert_same : (m : PtrMap V) (k : ℕ) (v : V) → get (insert m k v) k ≡ some v
  get-insert_same m k v = ground (arith, get-insert m k k v)

  pub get-insert_other : (m : PtrMap V) (k j : ℕ) (v : V) → j ≢ k → get (insert m k v) j ≡ get m j
  get-insert_other m k j v ne = ground (arith, get-insert m k j v)
