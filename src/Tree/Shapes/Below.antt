-- ===== src/Tree/Shapes/Below.antt =====
-- A path prefix is descent: a row whose path starts with the path of another row is that row, or its
-- parent's path does too.
use nagisa.Prelude.{
  ℕ, zero, suc, ◌+◌, ◌≤◌, ◌≡◌, ◌≢◌, sym, ◌∙◌, ap, subst, inl, inr, true, some, [], ◌∷◌, ◌++◌, Text,
  length, slash, arith, has_prefix,
}
use nagisa.Prelude.Prefixes.{
  length_of_has_prefix, has_prefix_shorter, eq_of_has_prefix, append_injective_right,
}
use nagisa.Prelude.{length-append}
use native.Mathlib.Decide.{dec_le, ℕ_discrete}
use nagisa.Access.{Uuid}
use nagisa.Tree.Shapes.{Shape, Shapes, Segments, IsRooted, IsUnder, IsPlaced, IsTree}

pub some_injective {ℓ} : {A : Type ℓ} {a b : A} → some a ≡ some b → a ≡ b
some_injective e = cc

-- The row `n`, or a row that the parents lead up from to `n`.
pub data IsWithin (s : Shapes) (n : Shape) : Shape → Type 0 where
  itself : IsWithin s n n
  inside : {r p : Shape} → s r.parent ≡ some p → IsWithin s n p → IsWithin s n r

module _ (g : Segments) (s : Shapes) (t : IsTree g s) where
  stem_of : (r : Shape) → IsPlaced g s r → (stem : Text) × (r.path ≡ stem ++ g.seg r.id)
  stem_of r (inl rooted) = (slash ∷ [], rooted.1)
  stem_of r (inr (p, under)) = (p.path, under.2)

  -- Two rows with the same path are one.
  same_path :
      (i j : Uuid) (r n : Shape) → s i ≡ some r → s j ≡ some n → r.path ≡ n.path → r.id ≡ n.id
  same_path i j r n er en e =
      let (a, pa) = stem_of r (t.placed i r er) in
      let (b, pb) = stem_of n (t.placed j n en) in
      let whole : a ++ g.seg r.id ≡ b ++ g.seg n.id = sym pa ∙ e ∙ pb in
      g.seg_injective _ _ (
        append_injective_right a _ b _
          (omega (
            arith,
            ap length whole,
            length-append a (g.seg r.id),
            length-append b (g.seg n.id),
            g.seg_length r.id,
            g.seg_length n.id,
          ))
          whole)

  -- A row other than `n` whose path starts with that of `n` has its parent there too.
  pub parent_below :
      (i j : Uuid) (r p n : Shape)
      → s i ≡ some r
      → s j ≡ some n
      → IsUnder g s r p
      → has_prefix r.path n.path ≡ true
      → r.id ≢ n.id
      → has_prefix p.path n.path ≡ true
  parent_below i j r p n er en under below ne =
      let (a, _, la) = t.measured j n en in
      let (b, _, lb) = t.measured r.parent p under.0 in
      let lr : length r.path ≡ length p.path + 37 =
        ap length under.2
        ∙ length-append p.path (g.seg r.id)
        ∙ ap (λ k. length p.path + k) (g.seg_length r.id) in
      let le : length n.path ≤ length r.path = length_of_has_prefix r.path n.path below in
      elim (dec_le (length n.path) (length p.path)) [
        | yes short ↦ has_prefix_shorter p.path (g.seg r.id) n.path (rw under.2 at below) short
        | no long ↦
            absurd
              (ne (same_path i j r n er en (eq_of_has_prefix r.path n.path below (omega arith))))
      ]

  -- A row at the root level lies below no other row.
  pub rooted_below :
      (i j : Uuid) (r n : Shape)
      → s i ≡ some r
      → s j ≡ some n
      → IsRooted g s r
      → has_prefix r.path n.path ≡ true
      → r.id ≡ n.id
  rooted_below i j r n er en rooted below =
      let (a, _, la) = t.measured j n en in
      let lr : length r.path ≡ 38 = ap length rooted.1 ∙ ap suc (g.seg_length r.id) in
      same_path i j r n er en (eq_of_has_prefix r.path n.path below (omega arith))

  pub same_row : (i j : Uuid) (r n : Shape) → s i ≡ some r → s j ≡ some n → r.id ≡ n.id → r ≡ n
  same_row i j r n er en e =
      let ij : i ≡ j = sym (t.keyed i r er) ∙ e ∙ t.keyed j n en in
      some_injective (sym er ∙ ap s ij ∙ en)

  -- Something lies below a row other than the row itself only if the row is a folder.
  below_by_length :
      (k : ℕ) (i j : Uuid) (r n : Shape)
      → s i ≡ some r
      → s j ≡ some n
      → length r.path ≤ k
      → has_prefix r.path n.path ≡ true
      → r.id ≢ n.id
      → n.is_folder ≡ true
  below_by_length zero i j r n er en short below ne =
      let (a, _, la) = t.measured i r er in absurd (omega arith)
  below_by_length (suc k) i j r n er en short below ne = elim (t.placed i r er) [
    | inl rooted ↦ absurd (ne (rooted_below i j r n er en rooted below))
    | inr (p, under) ↦ elim (ℕ_discrete p.id n.id) [
      | yes same ↦ rw (← same_row r.parent j p n under.0 en same) under.1
      | no other ↦
          below_by_length k r.parent j p n under.0 en
            (let lr : length r.path ≡ length p.path + 37 =
                ap length under.2
                ∙ length-append p.path (g.seg r.id)
                ∙ ap (λ k. length p.path + k) (g.seg_length r.id) in
              omega arith)
            (parent_below i j r p n er en under below ne) other
    ]
  ]

  pub below_needs_folder :
      (i j : Uuid) (r n : Shape)
      → s i ≡ some r
      → s j ≡ some n
      → has_prefix r.path n.path ≡ true
      → r.id ≢ n.id
      → n.is_folder ≡ true
  below_needs_folder i j r n er en below ne =
      below_by_length (length r.path) i j r n er en (omega arith) below ne

  IsWithin-by_length :
      (k : ℕ) (i j : Uuid) (r n : Shape)
      → s i ≡ some r
      → s j ≡ some n
      → length r.path ≤ k
      → has_prefix r.path n.path ≡ true
      → IsWithin s n r
  IsWithin-by_length zero i j r n er en short below =
      let (a, _, la) = t.measured i r er in absurd (omega arith)
  IsWithin-by_length (suc k) i j r n er en short below = elim (ℕ_discrete r.id n.id) [
    | yes same ↦ subst (IsWithin s n) (sym (same_row i j r n er en same)) IsWithin.itself
    | no other ↦ elim (t.placed i r er) [
      | inl rooted ↦ absurd (other (rooted_below i j r n er en rooted below))
      | inr (p, up) ↦ IsWithin.inside up.0 (
          IsWithin-by_length k r.parent j p n up.0 en
            (let lr : length r.path ≡ length p.path + 37 =
                ap length up.2
                ∙ length-append p.path (g.seg r.id)
                ∙ ap (λ k. length p.path + k) (g.seg_length r.id) in
              omega arith)
            (parent_below i j r p n er en up below other))
    ]
  ]

  -- A path prefix is descent.
  pub IsWithin-of_prefix :
      (i j : Uuid) (r n : Shape)
      → s i ≡ some r
      → s j ≡ some n
      → has_prefix r.path n.path ≡ true
      → IsWithin s n r
  IsWithin-of_prefix i j r n er en below =
      IsWithin-by_length (length r.path) i j r n er en (omega arith) below
