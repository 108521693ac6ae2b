-- ===== src/Tree/Invariant/Writes.antt =====
-- What the repository's writes do to the shapes of the rows.
use nagisa.Prelude.{
  ℕ, true, has_prefix, ◌≡◌, refl, sym, ◌∙◌, ap, fun_ext, false, Option, none, some, Text, arith,
  inl, inr, if◌then◌else◌, Bool-cases, Option-cases, ◌==◌, is_empty, map,
}
use nagisa.Prelude.Int.{ℤ}
use nagisa.Errors.{ok}
use nagisa.Access.{Uuid, Node}
use nagisa.Store.{
  is_below, status_row, set_subtree_status, Platform, Db, find_node, update_rows, update_node,
  rename_node, relocate_subtree, relocate_row, written, or_root,
}
use nagisa.Store.Rows.{map_option, find_node-map, find_node-id}
use nagisa.Tree.Shapes.{Shape, Shapes}
use nagisa.Tree.Shapes.Moving.{moved, map_shape, map_shapes}
use nagisa.Tree.Shapes.Status.{flagged}
use nagisa.Perm.{NodeStatus}
use nagisa.Tree.Shapes.Below.{some_injective}
use nagisa.Tree.Invariant.{shape_of, shapes}

-- Rewriting every row changes the shapes by what the rewriting does to a shape.
shapes-map :
    (f : Node → Node) (h : Shape → Shape) (db : Db)
    → ((n : Node) → shape_of (f n) ≡ h (shape_of n))
    → ((n : Node) → (f n).id ≡ n.id)
    → shapes (record db { nodes = map f db.nodes }) ≡ map_shapes h (shapes db)
unfolding shapes
shapes-map f h db same keyed =
    fun_ext λ i. ap (map_option shape_of) (find_node-map f keyed i db) ∙ at_row (find_node i db)
  where
    at_row :
        (o : Option Node)
        → map_option shape_of (map_option f o) ≡ map_shape h (map_option shape_of o)
    at_row none = refl
    at_row (some n) = ap some (same n)

map_shapes-id : (s : Shapes) → map_shapes (λ r. r) s ≡ s
map_shapes-id s = fun_ext λ i. at_row (s i)
  where
    at_row : (o : Option Shape) → map_shape (λ r. r) o ≡ o
    at_row none = refl
    at_row (some r) = refl

second : {A B : Type 0} {x y : A} {u v : B} → ◌≡◌ {A = A × B} (x, u) (y, v) → u ≡ v
second e = ap (λ q. q.1) e

rename_node_ok :
    (platform : Platform) (id : Uuid) (name : Text) (db after : Db)
    → rename_node platform id name db ≡ (ok tt, after)
    → update_rows
        (λ r. r.id == id)
        (λ r. record r { name = name; name_lower = platform.to_lower name })
        db
      ≡ after
unfolding rename_node
rename_node_ok platform id name db after e = elim (Option-cases (find_node id db)) [
  | inl absent ↦ let lost = rw (absent, rename_node) at e in cc
  | inr (n, found) ↦ let won = rw (found, rename_node) at e in second won
]

pub shapes-rename_node :
    (platform : Platform) (id : Uuid) (name : Text) (db after : Db)
    → rename_node platform id name db ≡ (ok tt, after)
    → shapes after ≡ shapes db
shapes-rename_node platform id name db after e =
    ap shapes (sym (rename_node_ok platform id name db after e))
    ∙ shapes-map
        (λ r.
          if r.id == id then record r { name = name; name_lower = platform.to_lower name } else r)
        (λ r. r) db (λ r. ground arith) (λ r. ground arith)
    ∙ map_shapes-id (shapes db)

relocate_subtree_ok :
    (n : Node) (target : Uuid) (path : Text) (delta : ℤ) (db after : Db)
    → relocate_subtree n target path delta db ≡ (ok tt, after)
    → record db { nodes = map (relocate_row n.id (or_root n.path) target path delta) db.nodes }
      ≡ after
unfolding relocate_subtree
relocate_subtree_ok n target path delta db after e = elim (Option-cases (find_node n.id db)) [
  | inl absent ↦ let lost = rw (absent, relocate_subtree) at e in cc
  | inr (m, found) ↦ let won = rw (found, relocate_subtree) at e in second won
]

relocate_row-shape :
    (id : Uuid) (old_path : Text) (target : Uuid) (path : Text) (delta : ℤ) (r : Node)
    → shape_of (relocate_row id old_path target path delta r)
      ≡ moved id old_path target path delta (shape_of r)
unfolding relocate_row moved
relocate_row-shape id old_path target path delta r = ground arith

relocate_row-id :
    (id : Uuid) (old_path : Text) (target : Uuid) (path : Text) (delta : ℤ) (r : Node)
    → (relocate_row id old_path target path delta r).id ≡ r.id
unfolding relocate_row
relocate_row-id id old_path target path delta r = ground arith

pub shapes-relocate_subtree :
    (n : Node) (target : Uuid) (path : Text) (delta : ℤ) (db after : Db)
    → is_empty n.path ≡ false
    → relocate_subtree n target path delta db ≡ (ok tt, after)
    → shapes after ≡ map_shapes (moved n.id n.path target path delta) (shapes db)
shapes-relocate_subtree n target path delta db after full e =
    ap shapes (sym (relocate_subtree_ok n target path delta db after e))
    ∙ shapes-map _ _ db (relocate_row-shape n.id (or_root n.path) target path delta)
        (relocate_row-id n.id (or_root n.path) target path delta)
    ∙ ap (λ p. map_shapes (moved n.id p target path delta) (shapes db)) (rw full)

pub update_node_ok :
    (n m : Node) (db after : Db)
    → update_node n db ≡ (ok m, after)
    → (row : Node) × (find_node n.id db ≡ some row)
      × (update_rows (λ r. r.id == n.id) (written n) db ≡ after)
unfolding update_node
update_node_ok n m db after e = elim (Option-cases (find_node n.id db)) [
  | inl absent ↦ let lost = rw (absent, update_node) at e in cc
  | inr (row, found) ↦ let won = rw (found, update_node) at e in (row, found, second won)
]

-- The row that an update writes, where the node's shape is the row's own.
written_row :
    (n r : Node)
    → (r.id ≡ n.id → shape_of r ≡ shape_of n)
    → shape_of (if r.id == n.id then written n r else r) ≡ shape_of r
written_row n r same = elim (Bool-cases (r.id == n.id)) [
  | inl here ↦ rw here (sym (same (ground arith)))
  | inr other ↦ rw other
]

-- Writing a node whose shape its row has already changes no shape.
pub shapes-update_node :
    (n m : Node) (db after : Db)
    → shapes db n.id ≡ some (shape_of n)
    → update_node n db ≡ (ok m, after)
    → shapes after ≡ shapes db
unfolding shapes
shapes-update_node n m db after same e =
    let (row, found, wrote) = update_node_ok n m db after e in
    ap shapes (sym wrote)
    ∙ fun_ext λ i.
      ap (map_option shape_of)
        (find_node-map (λ r. if r.id == n.id then written n r else r) (λ r. ground arith) i db)
      ∙ at_row i (find_node i db) refl
  where
    at_row :
        (i : Uuid) (o : Option Node)
        → find_node i db ≡ o
        → map_option shape_of (map_option (λ r. if r.id == n.id then written n r else r) o)
          ≡ map_option shape_of o
    at_row i none e = refl
    at_row i (some r) e = ap some (
        written_row n r λ here.
          let at_n : find_node n.id db ≡ some r =
            ap (λ j. find_node j db) (sym here ∙ find_node-id i db r e) ∙ e in
          some_injective (ap (map_option shape_of) (sym at_n) ∙ same))

status_row-shape :
    (n : Node) (at : ℕ) (r : Node)
    → (shape_of (if is_below n.path r then status_row n NodeStatus.trashed at r else r)
        ≡ flagged n.path true (shape_of r))
      × (shape_of (if is_below n.path r then status_row n NodeStatus.active at r else r)
          ≡ flagged n.path false (shape_of r))
unfolding status_row
status_row-shape n at r = elim (Bool-cases (has_prefix r.path n.path)) [
  | inl below ↦ rw below (refl, refl)
  | inr out ↦ rw out (refl, refl)
]

status_row-id :
    (n : Node) (at : ℕ) (r : Node)
    → ((if is_below n.path r then status_row n NodeStatus.trashed at r else r).id ≡ r.id)
      × ((if is_below n.path r then status_row n NodeStatus.active at r else r).id ≡ r.id)
unfolding status_row
status_row-id n at r = ground arith

-- Trashing marks the shapes below the node.
pub shapes-set_subtree_status :
    (n : Node) (at : ℕ) (db : Db)
    → (shapes (set_subtree_status n NodeStatus.trashed at db).1
        ≡ map_shapes (flagged n.path true) (shapes db))
      × (shapes (set_subtree_status n NodeStatus.active at db).1
          ≡ map_shapes (flagged n.path false) (shapes db))
unfolding set_subtree_status
shapes-set_subtree_status n at db = (
  shapes-map _ _ db (λ r. (status_row-shape n at r).0) (λ r. (status_row-id n at r).0),
  shapes-map _ _ db (λ r. (status_row-shape n at r).1) (λ r. (status_row-id n at r).1),
)
