-- ===== src/Tree/Shapes.antt =====
-- What the tree invariant reads of a row, and the invariant: every row hangs under its parent folder,
-- and the materialised path and the depth agree with that.
pub mod Below
pub mod Moving
pub mod Relocation
pub mod Status
pub mod Restoring
pub mod Growth
use nagisa.Prelude.{
  ℕ, ◌+◌, ◌*◌, ◌≡◌, ◌⊎◌, Bool, true, false, Option, none, some, List, ◌∷◌, ◌++◌, Text, length,
  slash,
}
use nagisa.Prelude.Int.{ℤ, pos, ◌+ℤ◌}
use nagisa.Access.{Uuid}

pub record Shape : Type 0 where
  pub id : Uuid
  pub parent : Uuid
  pub path : Text
  pub depth : ℤ
  pub is_folder : Bool
  pub is_trashed : Bool

abbrev pub Shapes : Type 0
Shapes = Uuid → Option Shape

-- The segment of an identifier in a path, and what is known of segments.
pub record Segments : Type 0 where
  pub seg : Uuid → Text
  pub seg_length : (a : Uuid) → length (seg a) ≡ 37
  pub seg_injective : (a b : Uuid) → seg a ≡ seg b → a ≡ b

module _ (g : Segments) (s : Shapes) where
  abbrev pub IsRooted : Shape → Type 0
  IsRooted r = (r.parent ≡ 0) × (r.path ≡ slash ∷ g.seg r.id) × (r.depth ≡ pos 0)

  -- `p` is the folder that `r` lies in; what lies in a trashed folder is trashed.
  abbrev pub IsUnder : Shape → Shape → Type 0
  IsUnder r p =
      (s r.parent ≡ some p)
      × (p.is_folder ≡ true)
      × (r.path ≡ p.path ++ g.seg r.id)
      × (r.depth ≡ p.depth +ℤ pos 1)
      × (p.is_trashed ≡ true → r.is_trashed ≡ true)

  abbrev pub IsPlaced : Shape → Type 0
  IsPlaced r = IsRooted r ⊎ ((p : Shape) × IsUnder r p)

  -- The depth counts the segments of the path beyond the first.
  abbrev pub IsMeasured : Shape → Type 0
  IsMeasured r = (d : ℕ) × (r.depth ≡ pos d) × (length r.path ≡ 38 + 37 * d)

  pub record IsTree : Type 0 where
    pub no_nil : s 0 ≡ none
    pub keyed : (i : Uuid) (r : Shape) → s i ≡ some r → r.id ≡ i
    pub placed : (i : Uuid) (r : Shape) → s i ≡ some r → IsPlaced r
    pub measured : (i : Uuid) (r : Shape) → s i ≡ some r → IsMeasured r
