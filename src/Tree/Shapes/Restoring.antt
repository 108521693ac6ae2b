-- ===== src/Tree/Shapes/Restoring.antt =====
-- Restoring a trashed subtree keeps the tree invariant: it is moved under a live folder, or to the root
-- level, and revived there. A live folder never lies inside a trashed subtree.
use nagisa.Prelude.{
  ◌≡◌, refl, sym, ◌∙◌, ap, ◌⊎◌, inl, inr, true, false, some, [], ◌∷◌, ◌++◌, Text, slash, arith,
  has_prefix, Bool-cases, ==_iff,
}
use nagisa.Prelude.Int.{ℤ, pos, ◌+ℤ◌}
use nagisa.Access.{Uuid}
use nagisa.Tree.Shapes.{Shape, Shapes, Segments, IsTree}
use nagisa.Tree.Shapes.Below.{some_injective}
use nagisa.Tree.Shapes.Moving.{moved, map_shape, map_shapes, IsTarget}
use nagisa.Tree.Shapes.Relocation.{moved-IsTree}
use nagisa.Tree.Shapes.Status.{flagged, revived-IsTree, below_trashed}

-- A place that a node may be restored to: the root level or a live folder.
abbrev pub IsLive : Shapes → Uuid → Text → ℤ → Type 0
IsLive s target path depth =
    ((target ≡ 0) × (path ≡ slash ∷ []) × (depth +ℤ pos 1 ≡ pos 0))
    ⊎ ((p : Shape) × ((s target ≡ some p)
          × (p.is_folder ≡ true)
          × (p.is_trashed ≡ false)
          × (p.path ≡ path)
          × (p.depth ≡ depth)))

module _ (g : Segments) (s : Shapes) (t : IsTree g s) (n : Shape) (at_n : s n.id ≡ some n)
    (trashed : n.is_trashed ≡ true) (target : Uuid) (path : Text) (depth delta : ℤ)
    (live : IsLive s target path depth) (shift : n.depth +ℤ delta ≡ depth +ℤ pos 1) where
  abbrev new_path : Text
  new_path = path ++ g.seg n.id

  abbrev placed : Shapes
  placed = map_shapes (moved n.id n.path target new_path delta) s

  to_target : IsLive s target path depth → IsTarget g s n target path depth
  to_target (inl top) = inl top
  to_target (inr (p, (at_p, folder, alive, same_path, same_depth))) =
      inr (p, at_p, folder, alive, outside, same_path, same_depth)
    where
      outside : has_prefix p.path n.path ≡ false
      outside = elim (Bool-cases (has_prefix p.path n.path)) [
        | inl below ↦ let gone = below_trashed g s t target n.id p n at_p at_n below trashed in cc
        | inr out ↦ out
      ]

  placed-IsTree : IsTree g placed
  placed-IsTree = moved-IsTree g s t n at_n target path depth delta (to_target live) shift

  moved_flag : (r : Shape) → (moved n.id n.path target new_path delta r).is_trashed ≡ r.is_trashed
  unfolding moved
  moved_flag r = ground arith

  abbrev root : Shape
  root = record n { parent = target; path = new_path; depth = n.depth +ℤ delta }

  root_row : moved n.id n.path target new_path delta n ≡ root
  unfolding moved
  root_row = rw ((==_iff n.id n.id).1 refl, moved)

  parent_live :
      IsLive s target path depth → (p : Shape) → placed target ≡ some p → p.is_trashed ≡ false
  parent_live (inl (top, _, _)) p e =
      let never =
        sym (ap (map_shape (moved n.id n.path target new_path delta)) t.no_nil)
        ∙ ap placed (sym top)
        ∙ e in
      cc
  parent_live (inr (q, (at_q, folder, alive, _, _))) p e =
      ap (λ (r : Shape). r.is_trashed)
        (some_injective (sym e ∙ ap (map_shape (moved n.id n.path target new_path delta)) at_q))
      ∙ moved_flag q
      ∙ alive

  pub restored-IsTree : IsTree g (map_shapes (flagged new_path false) placed)
  restored-IsTree =
      revived-IsTree g placed placed-IsTree root
        (ap (map_shape (moved n.id n.path target new_path delta)) at_n ∙ ap some root_row)
        (λ p under. parent_live live p under.0)
