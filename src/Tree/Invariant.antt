-- ===== src/Tree/Invariant.antt =====
-- The tree invariant of a database, and the reads of the usecase that its operations rely on.
pub mod Writes
pub mod Reads
pub mod Places
pub mod Relocate
pub mod Moves
pub mod Updates
pub mod Trashing
pub mod Restoring
pub mod Aside
pub mod Creating
use nagisa.Prelude.{
  ℕ, ◌+◌, ◌≡◌, refl, sym, ◌∙◌, ap, Bool, true, false, not, ◌&&◌, Option, none, some, List, [], ◌∷◌,
  ◌++◌, Text, length, length-append, slash, arith, ◌⊎◌, inl, inr, if◌then◌else◌, Bool-cases, ◌==◌,
}
use nagisa.Prelude.Prefixes.{append_injective_left}
use nagisa.Perm.{is_folder_kind, is_trashed_status}
use nagisa.Access.{Uuid, Node}
use nagisa.Store.{Platform, IsStandard, Db, find_node}
use nagisa.Store.Rows.{map_option}
use nagisa.Tree.Shapes.{Shape, Shapes, Segments, IsTree}

abbrev pub shape_of : Node → Shape
shape_of n = record {
  id = n.id;
  parent = n.parent_id;
  path = n.path;
  depth = n.depth;
  is_folder = is_folder_kind n.kind;
  is_trashed = is_trashed_status n.status;
}

unfoldable pub shapes : Db → Shapes
shapes db i = map_option shape_of (find_node i db)

-- The node in memory and its row agree on what the tree invariant reads.
abbrev pub IsRow : Db → Node → Type 0
IsRow db node = shapes db node.id ≡ some (shape_of node)

module _ (platform : Platform) (std : IsStandard platform) where
  abbrev pub segment : Uuid → Text
  segment a = platform.uuid_text a ++ slash ∷ []

  pub segment-length : (a : Uuid) → length (segment a) ≡ 37
  segment-length a =
      omega (arith, length-append (platform.uuid_text a) (slash ∷ []), std.text_length a)

  pub segment-injective : (a b : Uuid) → segment a ≡ segment b → a ≡ b
  segment-injective a b e =
      std.text_injective a b
        (append_injective_left _ _ _ _ (omega (arith, std.text_length a, std.text_length b)) e)

  unfoldable pub segments : Segments
  segments = record {
    seg = segment;
    seg_length = segment-length;
    seg_injective = segment-injective;
  }

  -- Every row hangs under its parent folder, its path and depth say so, and what lies in a trashed
  -- folder is trashed.
  abbrev pub IsWellFormed : Db → Type 0
  IsWellFormed db = IsTree segments (shapes db)
