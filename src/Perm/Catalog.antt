-- ===== src/Perm/Catalog.antt =====
-- The list form of a mask: what the catalogue lists for it, and the mask that a list makes.
use nagisa.Prelude.{
  ℕ, zero, suc, ◌+◌, ◌^◌, ◌≤◌, ◌≡◌, refl, ◌∙◌, sym, ap, inl, inr, Bool, true, ◌&&◌, ◌||◌, arith,
  ◌==◌, leb, ltb, List, [], ◌∷◌, any, bit_and, bit_or, Bool-cases,
}
use nagisa.Prelude.Int.{ℤ, pos}
use nagisa.Prelude.Bits.{
  test_bit, test_bit-bit_and, test_bit-bit_or, test_bit-pow, test_bit-ones, test_bit-zero,
  eq_of_test_bit,
}
use nagisa.Perm.{
  PermMask, has, perm_bit, mask_loop, perm_mask_from, values_loop, permission_values,
  permission_catalog, perm_all,
}
use nagisa.Perm.Laws.{has_iff}

single_iff :
    (m k : ℕ) → ((i : ℕ) → test_bit (2 ^ k) i ≡ true → test_bit m i ≡ true) → test_bit m k ≡ true
single_iff m k all = all k (test_bit-pow k k ∙ ground arith)

-- A mask has a single permission exactly if the digit is set.
pub has-pow : (m k : ℕ) → has m (2 ^ k) ≡ test_bit m k
has-pow m k = elim (Bool-cases (test_bit m k)) [
  | inl set ↦
      (has_iff m (2 ^ k)).1
        (λ i w. let e : k ≡ i = ground (arith, test_bit-pow k i) in rw (← e) set)
      ∙ sym set
  | inr clear ↦ elim (Bool-cases (has m (2 ^ k))) [
    | inl h ↦ cc (single_iff m k ((has_iff m (2 ^ k)).0 h))
    | inr h ↦ h ∙ sym clear
  ]
]

test_bit-mask_loop :
    (i mask : ℕ) (ps : List ℤ)
    → test_bit (mask_loop mask ps) i ≡ (test_bit mask i || any (λ p. test_bit (perm_bit p) i) ps)
unfolding mask_loop
test_bit-mask_loop i mask [] = ground arith
test_bit-mask_loop i mask (p ∷ ps) =
    ground (
      arith,
      test_bit-mask_loop i (bit_or mask (perm_bit p)) ps,
      test_bit-bit_or i mask (perm_bit p),
    )

-- The enum values `a + 1` to `a + n`.
values_from : ℕ → ℕ → List ℤ
values_from a zero = []
values_from a (suc n) = pos (suc a) ∷ values_from (suc a) n

module _ (m i : ℕ) where
  abbrev listed : ℤ → Bool
  listed p = has m (perm_bit p) && test_bit (perm_bit p) i

  any-values_loop :
      (ps : List ℤ) → any (λ p. test_bit (perm_bit p) i) (values_loop m ps) ≡ any listed ps
  unfolding values_loop
  any-values_loop [] = refl
  any-values_loop (p ∷ ps) = ground (arith, any-values_loop ps)

  listed_lem : (a : ℕ) → a ≤ 62 → listed (pos (suc a)) ≡ (test_bit m a && (a == i))
  listed_lem a h =
      let e : perm_bit (pos (suc a)) ≡ 2 ^ a = unfold perm_bit in ground arith in
      rw (e, has-pow m a, test_bit-pow a i)

  here_split :
      (a n : ℕ)
      → ((test_bit m a && (a == i)) || (test_bit m i && (leb (suc a) i && ltb i (suc a + n))))
        ≡ (test_bit m i && (leb a i && ltb i (a + suc n)))
  here_split a n = elim (Bool-cases (a == i)) [
    | inl e ↦ let p : a ≡ i = ground arith in rw p (ground arith)
    | inr e ↦ ground arith
  ]

  any-values_from :
      (a n : ℕ)
      → a + n ≤ 63
      → any listed (values_from a n) ≡ (test_bit m i && (leb a i && ltb i (a + n)))
  unfolding values_from
  any-values_from a zero h = ground arith
  any-values_from a (suc n) h =
      rw (listed_lem a (omega arith), any-values_from (suc a) n (omega arith)) (here_split a n)

test_bit-perm_mask_from :
    (i : ℕ) (ps : List ℤ) → test_bit (perm_mask_from ps) i ≡ any (λ p. test_bit (perm_bit p) i) ps
unfolding perm_mask_from
test_bit-perm_mask_from i ps = ground (arith, test_bit-mask_loop i 0 ps, test_bit-zero i)

test_bit-all : (m i : ℕ) → test_bit (bit_and m perm_all) i ≡ (test_bit m i && ltb i 12)
test_bit-all m i = rw test_bit-bit_and (ap (λ b. test_bit m i && b) (test_bit-ones 12 i))

digits_agree :
    (m i : ℕ) → test_bit (perm_mask_from (permission_values m)) i ≡ test_bit (bit_and m perm_all) i
unfolding permission_values values_from
digits_agree m i =
    test_bit-perm_mask_from i (values_loop m permission_catalog)
    ∙ any-values_loop m i permission_catalog
    ∙ any-values_from m i 0 12 (omega arith)
    ∙ upto_twelve
    ∙ sym (test_bit-all m i)
  where
    upto_twelve : (test_bit m i && (leb 0 i && ltb i 12)) ≡ (test_bit m i && ltb i 12)
    upto_twelve = ground arith

-- Listing a mask by the catalogue and reading the list back keeps exactly the known permissions.
pub perm_mask_from-permission_values :
    (m : PermMask) → perm_mask_from (permission_values m) ≡ bit_and m perm_all
perm_mask_from-permission_values m = eq_of_test_bit _ _ (digits_agree m)
