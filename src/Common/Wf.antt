-- ===== src/Common/Wf.antt =====
-- `<` on the native numbers is well founded.
use Prim.Native.Nat.{ℕ, zero, suc, ◌<◌}
use mathlib.Core.WellFounded.{Acc, WellFounded}
use native.Mathlib.Omega.{arith}

below_Acc : (bound n : ℕ) → n < bound → Acc ◌<◌ n
below_Acc zero n h = elim h [ ]
below_Acc (suc bound) n h = Acc.intro n λ m less. below_Acc bound m (omega arith)

unfoldable pub below_wf : WellFounded ◌<◌
unfolding below_Acc
below_wf = record { apply = λ n. below_Acc (suc n) n (omega arith) }
