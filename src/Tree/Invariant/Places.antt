-- ===== src/Tree/Invariant/Places.antt =====
-- Where a node may be placed in a well-formed tree, and what its path is there.
use nagisa.Prelude.{
  ℕ, ◌+◌, ◌*◌, ◌≤◌, ◌≡◌, ◌≢◌, refl, sym, ◌∙◌, ap, Bool, true, false, ◌&&◌, some, [], ◌∷◌, ◌++◌,
  Text, length, slash, arith, inl, inr, Bool-cases, ◌==◌, is_empty, has_prefix, ends_with_slash,
  text_eq,
}
use mathlib.Core.List.{append_assoc}
use nagisa.Prelude.Prefixes.{ends_with_slash-append}
use nagisa.Prelude.Int.{ℤ, pos, ◌+ℤ◌, ◌-ℤ◌, eq_of_parts, +ℤ_parts, -ℤ_parts}
use nagisa.Errors.{ok}
use nagisa.Access.{Uuid, Node, is_folder}
use nagisa.Store.{Platform, IsStandard, Db, rename_node}
use nagisa.Store.Rows.{map_option, find_node-id, bind_ok, if_ok, pure_ok}
use nagisa.Tree.Config.{NodeUsecase}
use nagisa.Tree.Chain.{root_node}
use nagisa.Tree.Naming.{child_path}
use nagisa.Tree.Moves.{rename_to}
use nagisa.Tree.Shapes.{Shape}
use nagisa.Tree.Shapes.Below.{below_needs_folder}
use nagisa.Tree.Shapes.Moving.{IsTarget}
use nagisa.Tree.Invariant.{shape_of, shapes, segments, IsWellFormed, IsRow}
use nagisa.Tree.Invariant.Writes.{shapes-rename_node}
use nagisa.Tree.Invariant.Reads.{IsParent}

-- The difference that the subtree's depths are shifted by.
pub shift_eq : (d e : ℤ) → d +ℤ (e -ℤ d) ≡ e
shift_eq d e = eq_of_parts _ _ (omega (arith, +ℤ_parts d (e -ℤ d), -ℤ_parts e d))

not_both : (a b : Bool) → (a && b) ≡ false → a ≡ true → b ≡ false
not_both true b h e = h
not_both false b h e = cc

pub root_depth : root_node.depth +ℤ pos 1 ≡ pos 0
unfolding ◌+ℤ◌
root_depth = refl

pub root_ends : ends_with_slash root_node.path ≡ true
unfolding ends_with_slash
root_ends = refl

apart_of : (a b : Uuid) → (a == b) ≡ false → a ≢ b
apart_of a b e same = ground arith

module _ (platform : Platform) (std : IsStandard platform) (uc : NodeUsecase) where
  -- Under a path that ends with a slash the child's segment is put right behind.
  pub child_path-append :
      (path : Text) (id : Uuid)
      → ends_with_slash path ≡ true
      → child_path platform path id ≡ path ++ (platform.uuid_text id ++ slash ∷ [])
  unfolding child_path
  child_path-append [] id e = cc
  child_path-append (x ∷ path) id e = rw (e, child_path)

  pub path_ends :
      (db : Db)
      → IsWellFormed platform std db
      → (i : Uuid) (r : Shape) → shapes db i ≡ some r
      → ends_with_slash r.path ≡ true
  unfolding segments
  path_ends db wf i r er = elim (wf.placed i r er) [
    | inl rooted ↦
        ap ends_with_slash (rooted.1) ∙ ends_with_slash-append (slash ∷ platform.uuid_text r.id)
    | inr (p, under) ↦
        ap ends_with_slash
          (under.2 ∙ sym (append_assoc p.path (platform.uuid_text r.id) (slash ∷ [])))
        ∙ ends_with_slash-append (p.path ++ platform.uuid_text r.id)
  ]

  pub rename_to_ok :
      {out : Node} {after : Db} (n : Node) (name : Text) (db : Db)
      → rename_to platform uc n name db ≡ (ok out, after)
      → (shapes after ≡ shapes db) × (shape_of out ≡ shape_of n)
  unfolding rename_to
  rename_to_ok n name db e =
      if_ok (text_eq name n.name) _ _ db e
        (λ same h. pure_ok h λ p q. (ap shapes (sym q), ap shape_of (sym p)))
        (λ other h. bind_ok (rename_node platform n.id name) db h λ u mid r h₁. pure_ok h₁ λ p q.
          (ap shapes (sym q) ∙ shapes-rename_node platform n.id name db mid r, ap shape_of (sym p)))

  -- The parent that a node is moved under is a target in the sense of the shapes.
  pub parent-IsTarget :
      (db : Db)
      → IsWellFormed platform std db
      → (node : Node) (target : Uuid) (p : Node) → IsRow db node
      → (target == node.id) ≡ false
      → IsParent target db p
      → (is_folder node && has_prefix p.path node.path) ≡ false
      → IsTarget (segments platform std) (shapes db) (shape_of node) target p.path p.depth
        × (child_path platform p.path node.id
            ≡ p.path ++ (platform.uuid_text node.id ++ slash ∷ []))
  unfolding shapes
  parent-IsTarget db wf node target p at_n other (inl (top, root)) clear = (
    inl (top, ap (λ r. r.path) root, ap (λ r. r.depth +ℤ pos 1) root ∙ root_depth),
    child_path-append p.path node.id (ap (λ r. ends_with_slash r.path) root ∙ root_ends),
  )
  parent-IsTarget db wf node target p at_n other (inr (found, folder, live)) clear =
      let at_p : shapes db target ≡ some (shape_of p) = ap (map_option shape_of) found in
      let apart : has_prefix p.path node.path ≡ false =
        elim (Bool-cases (has_prefix p.path node.path)) [
          | inl below ↦ not_both (is_folder node) _ clear (
              below_needs_folder _ (shapes db) wf target node.id (shape_of p) (shape_of node) at_p
                at_n below
                (λ same.
                  apart_of target node.id other (sym (find_node-id target db p found) ∙ same)))
          | inr above ↦ above
        ] in
      (
        inr (shape_of p, at_p, folder, live, apart, refl, refl),
        child_path-append p.path node.id (path_ends db wf target (shape_of p) at_p),
      )

  pub has_path :
      (db : Db)
      → IsWellFormed platform std db
      → (node : Node) → IsRow db node
      → is_empty node.path ≡ false
  has_path db wf node at_n =
      let (d, deep, long) = wf.measured node.id (shape_of node) at_n in
      filled node.path (38 + 37 * d) long (omega arith)
    where
      filled : (s : Text) (k : ℕ) → length s ≡ k → 1 ≤ k → is_empty s ≡ false
      filled [] k e h = absurd (omega arith)
      filled (x ∷ s) k e h = refl
