-- ===== src/Prelude/Prefixes.antt =====
-- Prefixes of texts.
use Prim.Native.Nat.{ℕ, zero, suc, ◌+◌, ◌≤◌}
use mathlib.Core.Path.{◌≡◌, refl}
use mathlib.Core.Bool.{true}
use mathlib.Core.List.{[], ◌∷◌, ◌++◌}
use native.Mathlib.Omega.{arith}
use nagisa.Prelude.Lists.{length, drop}
use nagisa.Prelude.Texts.{Text, has_prefix, ends_with_slash, slash}

pub has_prefix-append : (p r : Text) → has_prefix (p ++ r) p ≡ true
unfolding has_prefix
has_prefix-append [] [] = refl
has_prefix-append [] (c ∷ r) = refl
has_prefix-append (c ∷ p) r = ground (arith, has_prefix-append p r)

pub has_prefix_split : (s p : Text) → has_prefix s p ≡ true → s ≡ p ++ drop (length p) s
unfolding has_prefix
has_prefix_split [] [] h = refl
has_prefix_split [] (b ∷ p) h = cc
has_prefix_split (a ∷ s) [] h = refl
has_prefix_split (a ∷ s) (b ∷ p) h = ground (arith, has_prefix_split s p)

pub length_of_has_prefix : (s p : Text) → has_prefix s p ≡ true → length p ≤ length s
unfolding has_prefix
length_of_has_prefix [] [] h = omega arith
length_of_has_prefix [] (b ∷ p) h = cc
length_of_has_prefix (a ∷ s) [] h = omega arith
length_of_has_prefix (a ∷ s) (b ∷ p) h = ground (arith, length_of_has_prefix s p)

-- A prefix of `a ++ b` that is no longer than `a` is a prefix of `a`.
pub has_prefix_shorter :
    (a b p : Text) → has_prefix (a ++ b) p ≡ true → length p ≤ length a → has_prefix a p ≡ true
unfolding has_prefix
has_prefix_shorter [] b [] h le = refl
has_prefix_shorter [] b (d ∷ p) h le = absurd (omega arith)
has_prefix_shorter (c ∷ a) b [] h le = refl
has_prefix_shorter (c ∷ a) b (d ∷ p) h le = ground (arith, has_prefix_shorter a b p)

pub eq_of_has_prefix : (s p : Text) → has_prefix s p ≡ true → length s ≤ length p → s ≡ p
unfolding has_prefix
eq_of_has_prefix [] [] h le = refl
eq_of_has_prefix [] (b ∷ p) h le = cc
eq_of_has_prefix (a ∷ s) [] h le = absurd (omega arith)
eq_of_has_prefix (a ∷ s) (b ∷ p) h le = ground (arith, eq_of_has_prefix s p)

pub has_prefix_longer : (s t p : Text) → has_prefix s p ≡ true → has_prefix (s ++ t) p ≡ true
unfolding has_prefix
has_prefix_longer [] [] [] h = refl
has_prefix_longer [] (c ∷ t) [] h = refl
has_prefix_longer [] t (b ∷ p) h = cc
has_prefix_longer (a ∷ s) t [] h = refl
has_prefix_longer (a ∷ s) t (b ∷ p) h = ground (arith, has_prefix_longer s t p)

pub append_injective_right : (a b c d : Text) → length a ≡ length c → a ++ b ≡ c ++ d → b ≡ d
append_injective_right [] b [] d e h = h
append_injective_right [] b (y ∷ c) d e h = absurd (omega arith)
append_injective_right (x ∷ a) b [] d e h = absurd (omega arith)
append_injective_right (x ∷ a) b (y ∷ c) d e h =
    append_injective_right a b c d (omega arith) (ground arith)

pub drop_append : (p r : Text) → drop (length p) (p ++ r) ≡ r
drop_append [] r = refl
drop_append (c ∷ p) r = drop_append p r

pub drop-append_le : (n : ℕ) (s t : Text) → n ≤ length s → drop n (s ++ t) ≡ drop n s ++ t
drop-append_le zero s t h = refl
drop-append_le (suc n) [] t h = absurd (omega arith)
drop-append_le (suc n) (c ∷ s) t h = drop-append_le n s t (omega arith)

pub ends_with_slash-append : (s : Text) → ends_with_slash (s ++ slash ∷ []) ≡ true
unfolding ends_with_slash
ends_with_slash-append [] = refl
ends_with_slash-append (c ∷ []) = refl
ends_with_slash-append (c ∷ d ∷ s) = ends_with_slash-append (d ∷ s)

pub has_prefix_self : (s : Text) → has_prefix s s ≡ true
unfolding has_prefix
has_prefix_self [] = refl
has_prefix_self (c ∷ s) = ground (arith, has_prefix_self s)

pub length-drop : (n : ℕ) (s : Text) → n ≤ length s → length (drop n s) + n ≡ length s
length-drop zero s h = omega arith
length-drop (suc n) [] h = absurd (omega arith)
length-drop (suc n) (c ∷ s) h = omega (arith, length-drop n s (omega arith))

pub drop_all : (s : Text) → drop (length s) s ≡ []
drop_all [] = refl
drop_all (c ∷ s) = drop_all s

pub append_injective_left : (a b c d : Text) → length a ≡ length c → a ++ b ≡ c ++ d → a ≡ c
append_injective_left [] b [] d e h = refl
append_injective_left [] b (y ∷ c) d e h = absurd (omega arith)
append_injective_left (x ∷ a) b [] d e h = absurd (omega arith)
append_injective_left (x ∷ a) b (y ∷ c) d e h =
    ground (arith, append_injective_left a b c d (omega arith))
