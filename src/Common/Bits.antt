-- ===== src/Common/Bits.antt =====
-- The bitwise operations of the source as arithmetic: masks, and the union of disjoint bits.
use Prim.Native.Nat.{
  ℕ, zero, suc, ◌+◌, ◌*◌, ◌/◌, ◌%◌, ◌^◌, ◌≤◌, ◌<◌, min, max, bit_and, bit_or, bit_xor, differ,
  digits, bit_and-bitwise, bit_or-bitwise, bit_xor-bitwise,
}
use mathlib.Core.Path.{◌≡◌, refl, ap, ◌∙◌}
use mathlib.Core.Bool.{Bool, true, ◌&&◌}
use native.Mathlib.Omega.{arith}
use native.Mathlib.Nat.{pow-suc}
use tracing_perfetto_file.Common.Tests.{◌==◌, ==_iff}

-- The answer of `digits` does not depend on its count, once that is large enough.
module _ (rest : ℕ → ℕ) (op : ℕ → ℕ → ℕ) where
  enough_digits : (a b k l : ℕ) → a ≤ k → a ≤ l → digits rest op k a b ≡ digits rest op l a b
  enough_digits zero b zero zero hk hl = refl
  enough_digits zero b zero (suc l) hk hl = refl
  enough_digits zero b (suc k) zero hk hl = refl
  enough_digits zero b (suc k) (suc l) hk hl = refl
  enough_digits (suc a) b zero l hk hl = elim hk [ ]
  enough_digits (suc a) b (suc k) zero hk hl = elim hl [ ]
  enough_digits (suc a) b (suc k) (suc l) hk hl =
      ap (λ (t : ℕ). t * 2 + op (suc a % 2) (b % 2))
        (enough_digits (suc a / 2) (b / 2) k l (omega arith) (omega arith))

  -- The lowest digit apart from the others.
  lowest_digit :
      (a b : ℕ)
      → digits rest op (suc a) (suc a) b
        ≡ digits rest op (suc a / 2) (suc a / 2) (b / 2) * 2 + op (suc a % 2) (b % 2)
  lowest_digit a b =
      ap (λ (t : ℕ). t * 2 + op (suc a % 2) (b % 2))
        (enough_digits (suc a / 2) (b / 2) a (suc a / 2) (omega arith) (omega arith))

bit_and_digit : (a b : ℕ) → bit_and a b ≡ bit_and (a / 2) (b / 2) * 2 + min (a % 2) (b % 2)
bit_and_digit zero b = rw (bit_and-bitwise 0 b, bit_and-bitwise 0 (b / 2)) (omega arith)
bit_and_digit (suc a) b =
    rw (bit_and-bitwise (suc a) b, bit_and-bitwise (suc a / 2) (b / 2))
      (lowest_digit (λ y. zero) min a b)

bit_or_digit : (a b : ℕ) → bit_or a b ≡ bit_or (a / 2) (b / 2) * 2 + max (a % 2) (b % 2)
bit_or_digit zero b = rw (bit_or-bitwise 0 b, bit_or-bitwise 0 (b / 2)) (omega arith)
bit_or_digit (suc a) b =
    rw (bit_or-bitwise (suc a) b, bit_or-bitwise (suc a / 2) (b / 2))
      (lowest_digit (λ y. y) max a b)

bit_xor_digit : (a b : ℕ) → bit_xor a b ≡ bit_xor (a / 2) (b / 2) * 2 + differ (a % 2) (b % 2)
bit_xor_digit zero b = rw (bit_xor-bitwise 0 b, bit_xor-bitwise 0 (b / 2)) (omega arith)
bit_xor_digit (suc a) b =
    rw (bit_xor-bitwise (suc a) b, bit_xor-bitwise (suc a / 2) (b / 2))
      (lowest_digit (λ y. y) differ a b)

bit_and-zero_below : (n a : ℕ) → a ≤ n → bit_and a 0 ≡ 0
bit_and-zero_below n zero h = refl
bit_and-zero_below zero (suc a) h = elim h [ ]
bit_and-zero_below (suc n) (suc a) h =
    omega (arith, bit_and_digit (suc a) 0, bit_and-zero_below n (suc a / 2) (omega arith))

bit_or-zero_below : (n a : ℕ) → a ≤ n → bit_or a 0 ≡ a
bit_or-zero_below n zero h = refl
bit_or-zero_below zero (suc a) h = elim h [ ]
bit_or-zero_below (suc n) (suc a) h =
    omega (arith, bit_or_digit (suc a) 0, bit_or-zero_below n (suc a / 2) (omega arith))

pub bit_or-zero : (a : ℕ) → bit_or a 0 ≡ a
bit_or-zero a = bit_or-zero_below a a (omega arith)

-- The mask of three ones.
pub bit_and_three_ones : (a : ℕ) → bit_and a 7 ≡ a % 8
bit_and_three_ones a = omega (
  arith,
  bit_and_digit a 7,
  bit_and_digit (a / 2) 3,
  bit_and_digit (a / 2 / 2) 1,
  bit_and-zero_below (a / 2 / 2 / 2) (a / 2 / 2 / 2),
)

-- The mask of seven ones.
pub bit_and_seven_ones : (a : ℕ) → bit_and a 0x7f ≡ a % 128
bit_and_seven_ones a = omega (
  arith,
  bit_and_digit a 127,
  bit_and_digit (a / 2) 63,
  bit_and_digit (a / 2 / 2) 31,
  bit_and_digit (a / 2 / 2 / 2) 15,
  bit_and_three_ones (a / 2 / 2 / 2 / 2),
)

bit_or_double : (q b : ℕ) → bit_or (q * 2) b ≡ bit_or q (b / 2) * 2 + b % 2
bit_or_double q b =
    bit_or_digit (q * 2) b
    ∙ ap (λ (t : ℕ). bit_or t (b / 2) * 2 + max (q * 2 % 2) (b % 2))
        (let halved : q * 2 / 2 ≡ q = omega arith in halved)
    ∙ omega arith

-- A number shifted by three bits, with a number of three bits.
pub bit_or_shifted : (q r : ℕ) → r < 8 → bit_or (q * 8) r ≡ q * 8 + r
bit_or_shifted q r h =
    let parts : q * 8 ≡ q * 2 * 2 * 2 = omega arith in
    let gone : r / 2 / 2 / 2 ≡ 0 = omega arith in
    ap (λ (t : ℕ). bit_or t r) parts
    ∙ omega (
      arith,
      bit_or_double (q * 2 * 2) r,
      bit_or_double (q * 2) (r / 2),
      bit_or_double q (r / 2 / 2),
      ap (bit_or q) gone,
      bit_or-zero q,
    )

-- An exclusive or has no more bits than its operands.
pub bit_xor-lt : (k a b : ℕ) → a < 2 ^ k → b < 2 ^ k → bit_xor a b < 2 ^ k
bit_xor-lt zero zero zero ha hb = omega arith
bit_xor-lt zero zero (suc b) ha hb = absurd (omega arith)
bit_xor-lt zero (suc a) b ha hb = absurd (omega arith)
bit_xor-lt (suc k) a b ha hb = ground (
  arith,
  pow-suc 2 k,
  bit_xor_digit a b,
  differ-le (a % 2) (b % 2),
  bit_xor-lt k (a / 2) (b / 2) (omega (arith, pow-suc 2 k)) (omega (arith, pow-suc 2 k)),
)
  where
    differ-le : (x y : ℕ) → differ x y ≤ max x y
    differ-le zero y = omega arith
    differ-le (suc x) zero = omega arith
    differ-le (suc x) (suc y) = omega (arith, differ-le x y)

-- A property of the numbers below a bound, by evaluation.
true_below : ℕ → (ℕ → Bool) → Bool
true_below zero test = true
true_below (suc n) test = true_below n test && test n

true_below_sound :
    (n : ℕ) (test : ℕ → Bool) → true_below n test ≡ true → (x : ℕ) → x < n → test x ≡ true
unfolding true_below
true_below_sound zero test e x h = elim h [ ]
true_below_sound (suc n) test e x h = ground (arith, true_below_sound n test (ground arith) x)

top_bit_table : true_below 256 (λ b. bit_or b 0x80 == b % 128 + 128) ≡ true
unfolding true_below
top_bit_table = refl

-- A byte with its top bit set.
pub bit_or_top : (b : ℕ) → b < 256 → bit_or b 0x80 ≡ b % 128 + 128
bit_or_top b h = (==_iff _ _).0 (true_below_sound 256 _ top_bit_table b h)
