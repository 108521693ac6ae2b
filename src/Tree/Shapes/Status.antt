-- ===== src/Tree/Shapes/Status.antt =====
-- Marking a subtree as trashed, or as live again, keeps the tree invariant; and what lies below a
-- trashed row is trashed.
use native.Mathlib.Decide.{ℕ_discrete}
use nagisa.Prelude.{
  ℕ, zero, suc, ◌≤◌, ◌+◌, ◌≡◌, sym, ◌∙◌, ap, subst, inl, inr, Bool, true, false, some, Text, length,
  arith, has_prefix, if◌then◌else◌, Bool-cases, Option-cases, length-append,
}
use nagisa.Prelude.Prefixes.{has_prefix_longer}
use nagisa.Access.{Uuid}
use nagisa.Tree.Shapes.{Shape, Shapes, Segments, IsUnder, IsPlaced, IsMeasured, IsTree}
use nagisa.Tree.Shapes.Below.{parent_below, rooted_below, same_row, some_injective}
use nagisa.Tree.Shapes.Moving.{map_shape, map_shapes}

abbrev pub flagged : Text → Bool → Shape → Shape
flagged path b r = record r { is_trashed = if has_prefix r.path path then b else r.is_trashed }

module _ (g : Segments) (s : Shapes) (t : IsTree g s) where
  before :
      (f : Shape → Shape) (i : Uuid) (r' : Shape)
      → map_shapes f s i ≡ some r'
      → (r : Shape) × (s i ≡ some r) × (f r ≡ r')
  before f i r' e = elim (Option-cases (s i)) [
    | inl absent ↦ cc
    | inr (r, er) ↦ (r, er, some_injective (sym (ap (map_shape f) er) ∙ e))
  ]

  -- Any marking that is closed under what it has to be closed under keeps the invariant.
  marked-IsTree :
      (path : Text) (b : Bool)
      → ((i : Uuid) (r p : Shape)
          → s i ≡ some r
          → IsUnder g s r p
          → (flagged path b p).is_trashed ≡ true
          → (flagged path b r).is_trashed ≡ true)
      → IsTree g (map_shapes (flagged path b) s)
  marked-IsTree path b closed = record {
    no_nil = ap (map_shape (flagged path b)) t.no_nil;
    keyed = λ i r' e.
        let (r, er, m) = before (flagged path b) i r' e in
        ap (λ (q : Shape). q.id) (sym m) ∙ t.keyed i r er;
    measured = λ i r' e.
        let (r, er, m) = before (flagged path b) i r' e in
        subst (IsMeasured g (map_shapes (flagged path b) s)) m (t.measured i r er);
    placed = λ i r' e.
        let (r, er, m) = before (flagged path b) i r' e in
        subst (IsPlaced g (map_shapes (flagged path b) s)) m (elim (t.placed i r er) [
          | inl rooted ↦ inl rooted
          | inr (p, under) ↦ inr (
            flagged path b p,
            (
              ap (map_shape (flagged path b)) under.0,
              under.1,
              under.2,
              under.3,
              closed i r p er under,
            ),
          )
        ]);
  }

  below_parent :
      (path : Text) (r p : Shape)
      → IsUnder g s r p
      → has_prefix p.path path ≡ true
      → has_prefix r.path path ≡ true
  below_parent path r p under below =
      ap (λ q. has_prefix q path) under.2 ∙ has_prefix_longer p.path (g.seg r.id) path below

  -- Trashing everything whose path starts with some path.
  pub trashed-IsTree : (path : Text) → IsTree g (map_shapes (flagged path true) s)
  trashed-IsTree path = marked-IsTree path true closed
    where
      closed :
          (i : Uuid) (r p : Shape)
          → s i ≡ some r
          → IsUnder g s r p
          → (flagged path true p).is_trashed ≡ true
          → (flagged path true r).is_trashed ≡ true
      closed i r p er under e = elim (Bool-cases (has_prefix r.path path)) [
        | inl below ↦ rw below
        | inr out ↦ elim (Bool-cases (has_prefix p.path path)) [
          | inl p_below ↦ let below = below_parent path r p under p_below in cc
          | inr p_out ↦ rw out (under.4 (rw p_out at e))
        ]
      ]

  -- Reviving the subtree of a row whose parent, if it has one, is live.
  pub revived-IsTree :
      (n : Shape)
      → s n.id ≡ some n
      → ((p : Shape) → IsUnder g s n p → p.is_trashed ≡ false)
      → IsTree g (map_shapes (flagged n.path false) s)
  revived-IsTree n at_n live = marked-IsTree n.path false closed
    where
      cleared : (p : Shape) → p.is_trashed ≡ false → (flagged n.path false p).is_trashed ≡ false
      cleared p h = ground arith

      closed :
          (i : Uuid) (r p : Shape)
          → s i ≡ some r
          → IsUnder g s r p
          → (flagged n.path false p).is_trashed ≡ true
          → (flagged n.path false r).is_trashed ≡ true
      closed i r p er under e = elim (Bool-cases (has_prefix r.path n.path)) [
        | inr out ↦ elim (Bool-cases (has_prefix p.path n.path)) [
          | inl p_below ↦ let below = below_parent n.path r p under p_below in cc
          | inr p_out ↦ rw out (under.4 (rw p_out at e))
        ]
        | inl below ↦ elim (ℕ_discrete r.id n.id) [
          | yes same ↦
              let live_p =
                live p
                  (subst (λ q. IsUnder g s q p) (same_row g s t i n.id r n er at_n same) under) in
              let never = cleared p live_p in cc
          | no other ↦
              let p_below = parent_below g s t i n.id r p n er at_n under below other in
              let never = rw p_below at e in cc
        ]
      ]

  -- What lies below a trashed row is trashed.
  below_by_length :
      (k : ℕ) (i j : Uuid) (r n : Shape)
      → s i ≡ some r
      → s j ≡ some n
      → length r.path ≤ k
      → has_prefix r.path n.path ≡ true
      → n.is_trashed ≡ true
      → r.is_trashed ≡ true
  below_by_length zero i j r n er en short below trashed =
      let (a, _, la) = t.measured i r er in absurd (omega arith)
  below_by_length (suc k) i j r n er en short below trashed = elim (ℕ_discrete r.id n.id) [
    | yes same ↦ rw (same_row g s t i j r n er en same) trashed
    | no other ↦ elim (t.placed i r er) [
      | inl rooted ↦ absurd (other (rooted_below g s t i j r n er en rooted below))
      | inr (p, under) ↦ under.4 (
          below_by_length k r.parent j p n under.0 en (shorter r p under short)
            (parent_below g s t i j r p n er en under below other) trashed)
    ]
  ]
    where
      shorter : {k : ℕ} (r p : Shape) → IsUnder g s r p → length r.path ≤ suc k → length p.path ≤ k
      shorter r p under h =
          let lr : length r.path ≡ length p.path + length (g.seg r.id) =
            ap length under.2 ∙ length-append p.path (g.seg r.id) in
          omega (arith, g.seg_length r.id)

  pub below_trashed :
      (i j : Uuid) (r n : Shape)
      → s i ≡ some r
      → s j ≡ some n
      → has_prefix r.path n.path ≡ true
      → n.is_trashed ≡ true
      → r.is_trashed ≡ true
  below_trashed i j r n er en below trashed =
      below_by_length (length r.path) i j r n er en (omega arith) below trashed
