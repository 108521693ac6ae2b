-- ===== src/Prelude/Bits.antt =====
-- The binary digits of a number, and the laws of the native operations on them: a mask is its set
-- of digits.
use Prim.Native.Nat.{
  ℕ, zero, suc, ◌+◌, ◌*◌, ◌/◌, ◌%◌, ◌≤◌, min, max, ◌^◌, ◌-◌, ◌<◌, bit_and, bit_or, bit_xor, digits,
  differ, bit_and-bitwise, bit_or-bitwise, bit_xor-bitwise,
}
use mathlib.Core.Path.{◌≡◌, refl, sym, ap, ◌∙◌}
use mathlib.Core.Logic.{◌⊎◌, inl, inr}
use mathlib.Core.Bool.{Bool, true, false, not, ◌&&◌, ◌||◌}
use native.Mathlib.Omega.{arith}
use native.Mathlib.Nat.{pow-suc}
use nagisa.Prelude.Tests.{◌==◌, ltb}

pub test_bit : ℕ → ℕ → Bool
test_bit a zero = a % 2 == 1
test_bit a (suc i) = test_bit (a / 2) i

module _ (z : ℕ → ℕ) (f : ℕ → ℕ → ℕ) where
  digits-zero : (rounds b : ℕ) → digits z f rounds 0 b ≡ z b
  digits-zero zero b = refl
  digits-zero (suc rounds) b = refl

  -- As many rounds as the number are enough, more change nothing.
  digits-rounds : (a r s b : ℕ) → a ≤ r → a ≤ s → digits z f r a b ≡ digits z f s a b
  digits-rounds zero r s b p q = digits-zero r b ∙ sym (digits-zero s b)
  digits-rounds (suc a) zero s b p q = absurd (omega arith)
  digits-rounds (suc a) (suc r) zero b p q = absurd (omega arith)
  digits-rounds (suc a) (suc r) (suc s) b p q =
      ap (λ (high : ℕ). high * 2 + f (suc a % 2) (b % 2))
        (digits-rounds (suc a / 2) r s (b / 2) (omega arith) (omega arith))

  -- Any operation that works digit by digit, in terms of its lowest digit.
  bitwise_step :
      (op : ℕ → ℕ → ℕ)
      → ((x y : ℕ) → op x y ≡ digits z f x x y)
      → (a b : ℕ) → op (suc a) b ≡ op (suc a / 2) (b / 2) * 2 + f (suc a % 2) (b % 2)
  bitwise_step op law a b =
      law (suc a) b
      ∙ ap (λ (high : ℕ). high * 2 + f (suc a % 2) (b % 2))
          (digits-rounds (suc a / 2) a (suc a / 2) (b / 2) (omega arith) (omega arith)
            ∙ sym (law (suc a / 2) (b / 2)))

bit_and_step : (a b : ℕ) → bit_and a b ≡ bit_and (a / 2) (b / 2) * 2 + min (a % 2) (b % 2)
bit_and_step zero b = omega (arith, bit_and-bitwise 0 b, bit_and-bitwise 0 (b / 2))
bit_and_step (suc a) b = bitwise_step _ min bit_and bit_and-bitwise a b

bit_or_step : (a b : ℕ) → bit_or a b ≡ bit_or (a / 2) (b / 2) * 2 + max (a % 2) (b % 2)
bit_or_step zero b = omega (arith, bit_or-bitwise 0 b, bit_or-bitwise 0 (b / 2))
bit_or_step (suc a) b = bitwise_step _ max bit_or bit_or-bitwise a b

bit_xor_step : (a b : ℕ) → bit_xor a b ≡ bit_xor (a / 2) (b / 2) * 2 + differ (a % 2) (b % 2)
bit_xor_step zero b = omega (arith, bit_xor-bitwise 0 b, bit_xor-bitwise 0 (b / 2))
bit_xor_step (suc a) b = bitwise_step _ differ bit_xor bit_xor-bitwise a b

digit-cases : (a : ℕ) → (a % 2 ≡ 0) ⊎ (a % 2 ≡ 1)
digit-cases a = omega arith

differ_parity : (a b : ℕ) → differ (a % 2) (b % 2) ≡ (a % 2 + b % 2) % 2
differ_parity a b = elim (digit-cases a) [
  | inl p ↦ rw p (omega arith)
  | inr p ↦ elim (digit-cases b) [ inl q ↦ rw (p, q) | inr q ↦ rw (p, q) ]
]

pub test_bit-bit_and : (i a b : ℕ) → test_bit (bit_and a b) i ≡ (test_bit a i && test_bit b i)
unfolding test_bit
test_bit-bit_and zero a b = ground (arith, bit_and_step a b)
test_bit-bit_and (suc i) a b =
    let e : bit_and a b / 2 ≡ bit_and (a / 2) (b / 2) = omega (arith, bit_and_step a b) in
    rw e (test_bit-bit_and i (a / 2) (b / 2))

pub test_bit-bit_or : (i a b : ℕ) → test_bit (bit_or a b) i ≡ (test_bit a i || test_bit b i)
unfolding test_bit
test_bit-bit_or zero a b = ground (arith, bit_or_step a b)
test_bit-bit_or (suc i) a b =
    let e : bit_or a b / 2 ≡ bit_or (a / 2) (b / 2) = omega (arith, bit_or_step a b) in
    rw e (test_bit-bit_or i (a / 2) (b / 2))

abbrev xor_b : Bool → Bool → Bool
xor_b true b = not b
xor_b false b = b

test_bit-bit_xor : (i a b : ℕ) → test_bit (bit_xor a b) i ≡ xor_b (test_bit a i) (test_bit b i)
unfolding test_bit
test_bit-bit_xor zero a b = ground (arith, bit_xor_step a b, differ_parity a b)
test_bit-bit_xor (suc i) a b =
    let e : bit_xor a b / 2 ≡ bit_xor (a / 2) (b / 2) =
      omega (arith, bit_xor_step a b, differ_parity a b) in
    rw e (test_bit-bit_xor i (a / 2) (b / 2))

-- `a &^ b`: the digits of `a` that `b` lacks.
unfoldable pub and_not : ℕ → ℕ → ℕ
and_not a b = bit_and a (bit_xor a b)

and_xor : (p q : Bool) → (p && xor_b p q) ≡ (p && not q)
and_xor true q = refl
and_xor false q = refl

pub test_bit-and_not : (i a b : ℕ) → test_bit (and_not a b) i ≡ (test_bit a i && not (test_bit b i))
unfolding and_not
test_bit-and_not i a b =
    rw test_bit-bit_and (rw test_bit-bit_xor (and_xor (test_bit a i) (test_bit b i)))

-- Two numbers with the same digits are equal.
eq_of_test_bit_fuel : (n a b : ℕ) → a + b ≤ n → ((i : ℕ) → test_bit a i ≡ test_bit b i) → a ≡ b
unfolding test_bit
eq_of_test_bit_fuel zero a b h same = omega arith
eq_of_test_bit_fuel (suc n) zero zero h same = refl
eq_of_test_bit_fuel (suc n) zero (suc b) h same =
    ground (arith, same 0, eq_of_test_bit_fuel n 0 (suc b / 2) (omega arith) (λ i. same (suc i)))
eq_of_test_bit_fuel (suc n) (suc a) b h same =
    ground
      (arith, same 0, eq_of_test_bit_fuel n (suc a / 2) (b / 2) (omega arith) (λ i. same (suc i)))

pub eq_of_test_bit : (a b : ℕ) → ((i : ℕ) → test_bit a i ≡ test_bit b i) → a ≡ b
eq_of_test_bit a b same = eq_of_test_bit_fuel (a + b) a b (omega arith) same

pub test_bit-zero : (i : ℕ) → test_bit 0 i ≡ false
unfolding test_bit
test_bit-zero zero = refl
test_bit-zero (suc i) = test_bit-zero i

two_pow_pos : (k : ℕ) → 0 < 2 ^ k
two_pow_pos zero = omega arith
two_pow_pos (suc k) = omega (arith, two_pow_pos k, pow-suc 2 k)

-- A power of two has one digit.
pub test_bit-pow : (k i : ℕ) → test_bit (2 ^ k) i ≡ (k == i)
unfolding test_bit
test_bit-pow zero zero = refl
test_bit-pow zero (suc i) = ground (arith, test_bit-zero i)
test_bit-pow (suc k) zero = ground (arith, pow-suc 2 k)
test_bit-pow (suc k) (suc i) =
    let e : 2 ^ suc k / 2 ≡ 2 ^ k = omega (arith, pow-suc 2 k) in
    rw e (test_bit-pow k i ∙ ground arith)

-- `2 ^ n - 1` has the lowest `n` digits.
pub test_bit-ones : (n i : ℕ) → test_bit (2 ^ n - 1) i ≡ ltb i n
unfolding test_bit
test_bit-ones zero i = test_bit-zero i ∙ ground arith
test_bit-ones (suc n) zero = ground (arith, pow-suc 2 n, two_pow_pos n)
test_bit-ones (suc n) (suc i) =
    let e : (2 ^ suc n - 1) / 2 ≡ 2 ^ n - 1 = omega (arith, pow-suc 2 n, two_pow_pos n) in
    rw e (test_bit-ones n i ∙ ground arith)
