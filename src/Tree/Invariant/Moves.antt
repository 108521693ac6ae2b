-- ===== src/Tree/Invariant/Moves.antt =====
-- `MoveNodes` and `UpdateNode` keep the tree invariant.
use nagisa.Prelude.{
  ◌≡◌, sym, ◌∙◌, ap, subst, not, ◌||◌, some, List, [], ◌∷◌, Text, is_empty, length, ◌==◌,
}
use nagisa.Errors.{Error, ok}
use nagisa.Perm.{perm_edit, has}
use nagisa.Access.{Uuid, Caller, Node, is_authenticated}
use nagisa.Store.{Platform, IsStandard, Db, with_tx_keeps, find_node, find_node_by_id}
use nagisa.Store.Rows.{
  guard_keeps, map_option, find_node-id, bind_ok, guard_ok, if_ok, pure_ok, find_node_by_id_ok,
}
use nagisa.Tree.Config.{NodeUsecase}
use nagisa.Tree.Chain.{evaluate}
use nagisa.Tree.Naming.{normalize_name, resolve_name}
use nagisa.Tree.Moves.{
  Outcome, MoveNodesInput, relocate, rename_moved, move_one, move_loop, move_nodes, first_name,
  rest_names,
}
use nagisa.Tree.Shapes.{IsTree}
use nagisa.Tree.Invariant.{shape_of, shapes, IsWellFormed, IsRow}
use nagisa.Tree.Invariant.Writes.{shapes-rename_node}
use nagisa.Tree.Invariant.Reads.{resolve_name-IsRead, normalize_name_ok}
use nagisa.Tree.Invariant.Relocate.{relocate_keeps}

pub find-IsRow : (id : Uuid) (db : Db) (n : Node) → find_node id db ≡ some n → IsRow db n
unfolding shapes
find-IsRow id db n e =
    ap (λ i. map_option shape_of (find_node i db)) (find_node-id id db n e)
    ∙ ap (map_option shape_of) e

module _ (platform : Platform) (std : IsStandard platform) (uc : NodeUsecase) (c : Caller) where
  rename_moved-shapes :
      {u : Unit {0}} {after : Db} (i : MoveNodesInput) (node : Node) (new_name : Text) (db : Db)
      → rename_moved platform uc i node new_name db ≡ (ok u, after)
      → shapes after ≡ shapes db
  unfolding rename_moved
  rename_moved-shapes {after = after} i node new_name db e =
      if_ok (is_empty new_name) _ _ db e (λ same h. pure_ok h λ p q. ap shapes (sym q))
        (λ other h. bind_ok (normalize_name platform uc new_name) db h λ name db₁ normal h₁.
          bind_ok (resolve_name platform i.target_parent_id name i.policy node.id) db₁ h₁
            λ final_name db₂ named h₂.
              shapes-rename_node platform node.id final_name db₂ after h₂
              ∙ ap shapes (
                  sym (ap (λ r. r.1) named)
                  ∙ resolve_name-IsRead platform i.target_parent_id name i.policy node.id db₁
                  ∙ sym (normalize_name_ok platform uc new_name db normal)))

  move_one_keeps :
      {out : Outcome} {after : Db} (i : MoveNodesInput) (id : Uuid) (new_name : Text) (db : Db)
      → IsWellFormed platform std db
      → move_one platform uc c i id new_name db ≡ (ok out, after)
      → IsWellFormed platform std after
  unfolding move_one
  move_one_keeps i id new_name db wf e = bind_ok (find_node_by_id id) db e λ node db₁ found e₁.
      find_node_by_id_ok id db found λ at_id same.
        guard_ok (not (evaluate platform uc c node db₁).locked) Error.node_locked _ db₁ e₁
          λ unlocked e₂.
            guard_ok (has (evaluate platform uc c node db₁).perms perm_edit) Error.permission_denied
              _ db₁ e₂
              λ may e₃.
                bind_ok (relocate platform uc c node i.target_parent_id i.policy) db₁ e₃
                  λ moved db₂ moves e₄.
                    bind_ok (rename_moved platform uc i moved new_name) db₂ e₄ λ u db₃ renames e₅.
                      bind_ok (find_node_by_id id) db₃ e₅ λ again db₄ found_again e₆.
                        find_node_by_id_ok id db₃ found_again λ at_again same_again.
                          pure_ok e₆ λ same_out same_after.
                            let kept =
                              relocate_keeps platform std uc c node i.target_parent_id i.policy db₁
                                (subst (IsWellFormed platform std) same wf)
                                (find-IsRow id db₁ node (ap (find_node id) (sym same) ∙ at_id))
                                moves in
                            subst (IsWellFormed platform std) (same_again ∙ same_after) (
                              subst (IsTree _)
                                (sym (rename_moved-shapes i moved new_name db₂ renames)) kept.0)

  move_loop_keeps :
      {out : List Outcome} {after : Db} (i : MoveNodesInput) (ids : List Uuid) (names : List Text)
      (db : Db)
      → IsWellFormed platform std db
      → move_loop platform uc c i ids names db ≡ (ok out, after)
      → IsWellFormed platform std after
  unfolding move_loop
  move_loop_keeps i [] names db wf e = pure_ok e λ p q. subst (IsWellFormed platform std) q wf
  move_loop_keeps i (id ∷ ids) names db wf e =
      bind_ok (move_one platform uc c i id (first_name platform uc names)) db e λ out db₁ one e₁.
        bind_ok (move_loop platform uc c i ids (rest_names platform uc names)) db₁ e₁
          λ rest db₂ loop e₂. pure_ok e₂ λ p q. subst (IsWellFormed platform std) q (
            move_loop_keeps i ids (rest_names platform uc names) db₁
              (move_one_keeps i id _ db wf one) loop)

  -- Whatever is asked and whether it succeeds or fails, `MoveNodes` leaves a well-formed tree well
  -- formed: no folder ends up below itself, and all paths and depths follow the new parents.
  pub move_nodes_keeps :
      (i : MoveNodesInput) (db : Db)
      → IsWellFormed platform std db
      → IsWellFormed platform std (move_nodes platform uc c i db).1
  unfolding move_nodes
  move_nodes_keeps i db wf =
      let IsKept = IsWellFormed platform std in
      guard_keeps IsKept (is_authenticated c) Error.unauthenticated _ db wf (
        guard_keeps IsKept (not (is_empty i.ids)) Error.invalid_argument _ db wf (
          guard_keeps IsKept (is_empty i.new_names || (length i.new_names == length i.ids))
            Error.invalid_argument _ db wf
            (with_tx_keeps IsKept (move_loop platform uc c i i.ids i.new_names) db wf
              λ out after e. move_loop_keeps i i.ids i.new_names db wf e)))
