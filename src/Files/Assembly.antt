-- ===== src/Files/Assembly.antt =====
-- internal/biz/file.go: what `CompleteUpload` makes of the recorded parts.
use nagisa.Prelude.{
  ℕ, zero, suc, ◌+◌, ◌≡◌, refl, sym, ◌∙◌, ap, Bool, true, false, not, ◌&&◌, ◌||◌, Option, none,
  some, List, [], ◌∷◌, ◌++◌, Text, keep, all, map, is_empty, ltb, ◌==◌, if◌then◌else◌, arith,
}
use nagisa.Prelude.Int.{ℤ, pos, pos_part, ltb_ℤ}
use nagisa.Store.{UploadPart}
use nagisa.Files.Sessions.{sum_sizes}
use nagisa.Files.Collecting.{take_parts, assemble, assembled}

abbrev pub numbered : ℕ → List UploadPart → List UploadPart
numbered i parts = keep (λ p. p.part_number == i) parts

-- The parts with the numbers from `i`, as many as asked for, in the order of their numbers.
abbrev pub in_order : ℕ → ℕ → List UploadPart → List UploadPart
in_order zero i parts = []
in_order (suc rounds) i parts = numbered i parts ++ in_order rounds (i + 1) parts

abbrev pub is_large : ℕ → ℤ → ℕ → UploadPart → Bool
is_large least last i p = not (ltb_ℤ (pos i) last && ltb p.size least)

-- Every number has a part, and all but the last are large enough.
abbrev pub is_whole : ℕ → ℕ → ℤ → ℕ → List UploadPart → Bool
is_whole zero least last i parts = true
is_whole (suc rounds) least last i parts =
    all (is_large least last i) (numbered i parts)
    && (not (is_empty (numbered i parts)) && is_whole rounds least last (i + 1) parts)

abbrev keys_of : List UploadPart → List Text
keys_of = map (λ p. p.storage_key)

module _ {ℓ} {A : Type ℓ} where
  append_assoc : (xs ys zs : List A) → (xs ++ ys) ++ zs ≡ xs ++ (ys ++ zs)
  append_assoc [] ys zs = refl
  append_assoc (x ∷ xs) ys zs = ap (λ t. x ∷ t) (append_assoc xs ys zs)

  append_nil : (xs : List A) → xs ++ [] ≡ xs
  append_nil [] = refl
  append_nil (x ∷ xs) = ap (λ t. x ∷ t) (append_nil xs)

or_true : (b : Bool) → (b || true) ≡ true
or_true true = refl
or_true false = refl

or_false : (b : Bool) → (b || false) ≡ b
or_false true = refl
or_false false = refl

sum_sizes-append : (ps qs : List UploadPart) → sum_sizes (ps ++ qs) ≡ sum_sizes ps + sum_sizes qs
sum_sizes-append [] qs = omega arith
sum_sizes-append (p ∷ ps) qs = omega (arith, sum_sizes-append ps qs)

keys_of-append : (ps qs : List UploadPart) → keys_of (ps ++ qs) ≡ keys_of ps ++ keys_of qs
keys_of-append [] qs = refl
keys_of-append (p ∷ ps) qs = ap (λ t. p.storage_key ∷ t) (keys_of-append ps qs)

module _ (least : ℕ) (last : ℤ) where
  -- The parts `ps` of a number, on top of what was found before.
  abbrev taken : ℕ → List UploadPart → Bool → ℕ → List Text → Option (Bool × ℕ × List Text)
  taken i ps found total keys =
      if all (is_large least last i) ps
      then some (found || not (is_empty ps), total + sum_sizes ps, keys ++ keys_of ps)
      else none

  taken-cons :
      (i : ℕ) (p : UploadPart) (ps : List UploadPart) (found small : Bool) (total : ℕ)
      (keys : List Text)
      → (if small then none else taken i ps true (total + p.size) (keys ++ p.storage_key ∷ [])) ≡ (
          if not small && all (is_large least last i) ps
          then some (found || true, total + (p.size + sum_sizes ps), keys ++ keys_of (p ∷ ps))
          else none)
  taken-cons i p ps found true total keys = refl
  taken-cons i p ps found false total keys =
      let sums : total + p.size + sum_sizes ps ≡ total + (p.size + sum_sizes ps) = omega arith in
      rw (sums, append_assoc keys (p.storage_key ∷ []) (keys_of ps), or_true found) refl

  -- The head of the parts has the number or not.
  taken_head :
      (i : ℕ) (p : UploadPart) (rest : List UploadPart)
      → ((found : Bool) (total : ℕ) (keys : List Text)
          → take_parts least last i rest found total keys
            ≡ taken i (numbered i rest) found total keys)
      → (same found : Bool) (total : ℕ) (keys : List Text)
      → (if not same
          then take_parts least last i rest found total keys
          else if ltb_ℤ (pos i) last && ltb p.size least
          then none
          else take_parts least last i rest true (total + p.size) (keys ++ p.storage_key ∷ []))
        ≡ taken i (if same then p ∷ numbered i rest else numbered i rest) found total keys
  taken_head i p rest below false found total keys = below found total keys
  taken_head i p rest below true found total keys =
      rw (below true (total + p.size) (keys ++ p.storage_key ∷ []))
        (taken-cons i p (numbered i rest) found (ltb_ℤ (pos i) last && ltb p.size least) total keys)

  take_parts_lem :
      (i : ℕ) (parts : List UploadPart) (found : Bool) (total : ℕ) (keys : List Text)
      → take_parts least last i parts found total keys ≡ taken i (numbered i parts) found total keys
  unfolding take_parts
  take_parts_lem i [] found total keys =
      let sums : total + 0 ≡ total = omega arith in rw (sums, append_nil keys, or_false found) refl
  take_parts_lem i (p ∷ rest) found total keys =
      taken_head i p rest (take_parts_lem i rest) (p.part_number == i) found total keys

  abbrev whole : ℕ → ℕ → List UploadPart → ℕ → List Text → Option (ℕ × List Text)
  whole rounds i parts total keys =
      if is_whole rounds least last i parts
      then some
          (total + sum_sizes (in_order rounds i parts), keys ++ keys_of (in_order rounds i parts))
      else none

  -- What `assemble` does with what it took of a number.
  abbrev go_on : ℕ → ℕ → List UploadPart → Option (Bool × ℕ × List Text) → Option (ℕ × List Text)
  go_on rounds i parts taken_parts = elim taken_parts [
    | none ↦ none
    | some (found, total, keys) ↦
        if found then assemble rounds least last (i + 1) parts total keys else none
  ]

  -- One number, and then the rest.
  whole-suc :
      (rounds i : ℕ) (parts ps : List UploadPart) (large full : Bool) (total : ℕ) (keys : List Text)
      → (if large
          then (if full
              then whole rounds (i + 1) parts (total + sum_sizes ps) (keys ++ keys_of ps)
              else none)
          else none)
        ≡ (if large && (full && is_whole rounds least last (i + 1) parts)
            then some (
              total + sum_sizes (ps ++ in_order rounds (i + 1) parts),
              keys ++ keys_of (ps ++ in_order rounds (i + 1) parts),
            )
            else none)
  whole-suc rounds i parts ps false full total keys = refl
  whole-suc rounds i parts ps true false total keys = refl
  whole-suc rounds i parts ps true true total keys =
      let rest = in_order rounds (i + 1) parts in
      let sums : total + sum_sizes (ps ++ rest) ≡ total + sum_sizes ps + sum_sizes rest =
        omega (arith, sum_sizes-append ps rest) in
      rw (sums, keys_of-append ps rest, sym (append_assoc keys (keys_of ps) (keys_of rest))) refl

  go_on_lem :
      (rounds i : ℕ) (parts ps : List UploadPart)
      → ((total : ℕ) (keys : List Text)
          → assemble rounds least last (i + 1) parts total keys
            ≡ whole rounds (i + 1) parts total keys)
      → (large full : Bool) (total : ℕ) (keys : List Text)
      → go_on rounds i parts
          (if large then some (full, total + sum_sizes ps, keys ++ keys_of ps) else none)
        ≡ (if large
            then (if full
                then whole rounds (i + 1) parts (total + sum_sizes ps) (keys ++ keys_of ps)
                else none)
            else none)
  go_on_lem rounds i parts ps below false full total keys = refl
  go_on_lem rounds i parts ps below true false total keys = refl
  go_on_lem rounds i parts ps below true true total keys =
      below (total + sum_sizes ps) (keys ++ keys_of ps)

  assemble_lem :
      (rounds i : ℕ) (parts : List UploadPart) (total : ℕ) (keys : List Text)
      → assemble rounds least last i parts total keys ≡ whole rounds i parts total keys
  unfolding assemble
  assemble_lem zero i parts total keys =
      let sums : total + 0 ≡ total = omega arith in rw (sums, append_nil keys) refl
  assemble_lem (suc rounds) i parts total keys =
      let ps = numbered i parts in
      let large = all (is_large least last i) ps in
      ap (go_on rounds i parts) (take_parts_lem i parts false total keys)
      ∙ go_on_lem rounds i parts ps (assemble_lem rounds (i + 1) parts) large (not (is_empty ps))
          total keys
      ∙ whole-suc rounds i parts ps large (not (is_empty ps)) total keys

-- The loop of `CompleteUpload` over the numbers passes exactly if every number from 1 to the last has a part
-- and no part but those of the last number is below the least size. It collects the parts in the order of
-- their numbers.
pub assembled-in_order :
    (least : ℕ) (last : ℤ) (parts : List UploadPart)
    → assembled least last parts ≡ (
        if is_whole (pos_part last) least last 1 parts
        then some (
          sum_sizes (in_order (pos_part last) 1 parts),
          map (λ p. p.storage_key) (in_order (pos_part last) 1 parts),
        )
        else none)
unfolding assembled
assembled-in_order least last parts =
    assemble_lem least last (pos_part last) 1 parts 0 []
    ∙ ap
        (λ t.
          if is_whole (pos_part last) least last 1 parts
          then some (t, map (λ p. p.storage_key) (in_order (pos_part last) 1 parts))
          else none)
        (omega arith)
