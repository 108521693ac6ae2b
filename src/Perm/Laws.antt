-- ===== src/Perm/Laws.antt =====
-- The mask tests in terms of single permissions.
use nagisa.Prelude.{ℕ, ◌≡◌, refl, ◌∙◌, ◌↔◌, Bool, true, false, ◌&&◌, arith, bit_and, ==_iff}
use nagisa.Prelude.Bits.{test_bit, test_bit-bit_and, test_bit-zero, eq_of_test_bit}
use nagisa.Perm.{PermMask, has}

and_absorb : (p q : Bool) → (q ≡ true → p ≡ true) → (p && q) ≡ q
and_absorb true q h = refl
and_absorb false true h = h refl
and_absorb false false h = refl

-- `m.Has(want)`: each permission of `want` is one of `m`.
pub has_iff :
    (m want : PermMask)
    → (has m want ≡ true) ↔ ((i : ℕ) → test_bit want i ≡ true → test_bit m i ≡ true)
unfolding has
has_iff m want = (
  λ h i w. ground (arith, test_bit-bit_and i m want, ==_iff (bit_and m want) want),
  λ all. (==_iff _ _).1 (
      eq_of_test_bit _ _
        λ i. test_bit-bit_and i m want ∙ and_absorb (test_bit m i) (test_bit want i) (all i)),
)

pub has_self : (m : PermMask) → has m m ≡ true
has_self m = (has_iff m m).1 (λ i h. h)

pub has_trans : (a b d : PermMask) → has a b ≡ true → has b d ≡ true → has a d ≡ true
has_trans a b d p q = (has_iff a d).1 (λ i h. (has_iff a b).0 p i ((has_iff b d).0 q i h))

-- A meet is in each of its sides, and in what holds both.
pub has-bit_and : (a b : PermMask) → has a (bit_and a b) ≡ true
has-bit_and a b = (has_iff _ _).1 (λ i h. ground (arith, test_bit-bit_and i a b))

pub has-bit_and_right : (a b : PermMask) → has b (bit_and a b) ≡ true
has-bit_and_right a b = (has_iff _ _).1 (λ i h. ground (arith, test_bit-bit_and i a b))

pub has_of_both : (a b d : PermMask) → has a d ≡ true → has b d ≡ true → has (bit_and a b) d ≡ true
has_of_both a b d p q =
    (has_iff _ _).1
      (λ i h. ground (arith, test_bit-bit_and i a b, (has_iff a d).0 p i h, (has_iff b d).0 q i h))

pub has_zero : (m : PermMask) → has m 0 ≡ true
has_zero m = (has_iff m 0).1 (λ i h. cc (test_bit-zero i))
