-- ===== src/Tree/Shapes/Moving.antt =====
-- How a move changes the shapes, and where a subtree may be moved to.
use nagisa.Prelude.{
  ℕ, ◌+◌, ◌-◌, ◌≤◌, ◌≡◌, ap, true, false, Option, none, some, [], ◌∷◌, ◌++◌, Text, length, slash,
  arith, has_prefix, drop, ◌==◌, if◌then◌else◌, ◌⊎◌,
}
use nagisa.Prelude.Int.{ℤ, pos, ◌+ℤ◌, pos_part, neg_part, eq_of_parts, +ℤ_parts}
use nagisa.Access.{Uuid}
use nagisa.Tree.Shapes.{Shape, Shapes, Segments}

-- A subtree moves: the root of it is placed anew, and what lies below keeps the rest of its path.
unfoldable pub moved : Uuid → Text → Uuid → Text → ℤ → Shape → Shape
moved id old_path target new_path delta r =
    if r.id == id
    then record r { parent = target; path = new_path; depth = r.depth +ℤ delta }
    else if has_prefix r.path old_path
    then record r { path = new_path ++ drop (length old_path) r.path; depth = r.depth +ℤ delta }
    else r

abbrev pub map_shape : (Shape → Shape) → Option Shape → Option Shape
map_shape f none = none
map_shape f (some r) = some (f r)

abbrev pub map_shapes : (Shape → Shape) → Shapes → Shapes
map_shapes f s i = map_shape f (s i)

pub shift_depth :
    (d a e : ℕ) (delta : ℤ) → a ≤ d → pos a +ℤ delta ≡ pos e → pos d +ℤ delta ≡ pos (e + d - a)
unfolding ◌+ℤ◌
shift_depth d a e delta le h = ground arith

pub shift_deeper : (x y delta : ℤ) → x ≡ y +ℤ pos 1 → x +ℤ delta ≡ (y +ℤ delta) +ℤ pos 1
shift_deeper x y delta h = eq_of_parts _ _ (
    omega (
      arith,
      +ℤ_parts x delta,
      +ℤ_parts (y +ℤ delta) (pos 1),
      +ℤ_parts y delta,
      +ℤ_parts y (pos 1),
      ap pos_part h,
      ap neg_part h,
    ))

-- Where a subtree may be placed: the root level, or a live folder outside of the subtree.
abbrev pub IsTarget : Segments → Shapes → Shape → Uuid → Text → ℤ → Type 0
IsTarget g s n target path depth =
    ((target ≡ 0) × (path ≡ slash ∷ []) × (depth +ℤ pos 1 ≡ pos 0))
    ⊎ ((p : Shape) × (s target ≡ some p)
        × (p.is_folder ≡ true)
        × (p.is_trashed ≡ false)
        × (has_prefix p.path n.path ≡ false)
        × (p.path ≡ path)
        × (p.depth ≡ depth))
