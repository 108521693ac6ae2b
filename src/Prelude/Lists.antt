-- ===== src/Prelude/Lists.antt =====
-- Lists over the native numbers: the library's names where it has them.
use Prim.Native.Nat.{ℕ, zero, suc, ◌+◌, ◌≤◌, min}
use mathlib.Core.Path.{◌≡◌, refl, ap}
use mathlib.Core.Bool.{Bool, true, false, ◌&&◌, ◌||◌}
use mathlib.Core.List.{List, [], ◌∷◌, ◌++◌}
use native.Mathlib.Omega.{arith}
use nagisa.Prelude.Tests.{if◌then◌else◌, ◌==◌, leb}

module _ {ℓ} {A : Type ℓ} where
  abbrev pub length : List A → ℕ
  length [] = 0
  length (x ∷ xs) = suc (length xs)

  abbrev pub take : ℕ → List A → List A
  take zero xs = []
  take (suc n) [] = []
  take (suc n) (x ∷ xs) = x ∷ take n xs

  abbrev pub drop : ℕ → List A → List A
  drop zero xs = xs
  drop (suc n) [] = []
  drop (suc n) (x ∷ xs) = drop n xs

  -- The rows that pass a Boolean test.
  abbrev pub keep : (A → Bool) → List A → List A
  keep p [] = []
  keep p (x ∷ xs) = let rest = keep p xs in if p x then x ∷ rest else rest

  abbrev pub any : (A → Bool) → List A → Bool
  any p [] = false
  any p (x ∷ xs) = p x || any p xs

  abbrev pub all : (A → Bool) → List A → Bool
  all p [] = true
  all p (x ∷ xs) = p x && all p xs

  abbrev pub is_empty : List A → Bool
  is_empty [] = true
  is_empty (_ ∷ _) = false

  pub length-append : (xs ys : List A) → length (xs ++ ys) ≡ length xs + length ys
  length-append [] ys = omega arith
  length-append (x ∷ xs) ys = omega (arith, length-append xs ys)

  pub length-take : (n : ℕ) (xs : List A) → length (take n xs) ≡ min n (length xs)
  length-take zero xs = omega arith
  length-take (suc n) [] = omega arith
  length-take (suc n) (x ∷ xs) = omega (arith, length-take n xs)

  pub take_of_length-le : (n : ℕ) (xs : List A) → length xs ≤ n → take n xs ≡ xs
  take_of_length-le zero [] h = refl
  take_of_length-le zero (x ∷ xs) h = absurd (omega arith)
  take_of_length-le (suc n) [] h = refl
  take_of_length-le (suc n) (x ∷ xs) h = ap (λ t. x ∷ t) (take_of_length-le n xs (omega arith))

module _ {ℓ} {A : Type ℓ} (key : A → ℕ) where
  abbrev pub earliest_first : A → List A → List A
  earliest_first a [] = a ∷ []
  earliest_first a (b ∷ rest) =
      let later = earliest_first a rest in if leb (key a) (key b) then a ∷ b ∷ rest else b ∷ later

  -- `Order` by a column.
  abbrev pub ordered_by : List A → List A
  ordered_by [] = []
  ordered_by (a ∷ rest) = earliest_first a (ordered_by rest)

-- `slices.Contains` on identifiers.
abbrev pub contains : ℕ → List ℕ → Bool
contains a xs = any (λ x. x == a) xs

-- Every element has a property.
abbrev pub Every {ℓ κ} : {A : Type ℓ} → (A → Type κ) → List A → Type κ
Every P [] = Unit
Every P (x ∷ xs) = P x × Every P xs

module _ {ℓ κ} {A : Type ℓ} where
  pub Every-keep : (P : A → Type κ) (p : A → Bool) (xs : List A) → Every P xs → Every P (keep p xs)
  Every-keep P p [] all = all
  Every-keep P p (x ∷ xs) (here, there) = one (p x) (Every-keep P p xs there)
    where
      one : (b : Bool) → Every P (keep p xs) → Every P (if b then x ∷ keep p xs else keep p xs)
      one true rest = (here, rest)
      one false rest = rest

  pub Every-take : (P : A → Type κ) (n : ℕ) (xs : List A) → Every P xs → Every P (take n xs)
  Every-take P zero xs all = tt
  Every-take P (suc n) [] all = all
  Every-take P (suc n) (x ∷ xs) (here, there) = (here, Every-take P n xs there)

pub Every-map {ℓ κ μ} :
    {A : Type ℓ} (P : A → Type κ) (Q : A → Type μ)
    → ((x : A) → P x → Q x)
    → (xs : List A) → Every P xs
    → Every Q xs
Every-map P Q f [] all = tt
Every-map P Q f (x ∷ xs) (here, there) = (f x here, Every-map P Q f xs there)
