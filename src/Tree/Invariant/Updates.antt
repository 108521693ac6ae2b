-- ===== src/Tree/Invariant/Updates.antt =====
-- `UpdateNode` keeps the tree invariant.
use nagisa.Prelude.{
  ◌≡◌, refl, sym, ◌∙◌, ap, subst, not, ◌&&◌, Option, none, some, Text, text_eq, ◌==◌,
}
use nagisa.Errors.{Error, ok}
use nagisa.Perm.{perm_edit, perm_acl_manage, has}
use nagisa.Access.{Uuid, nil_id, Caller, Node, NodeAccess, is_authenticated}
use nagisa.Store.{
  Platform, IsStandard, Db, with_tx_keeps, find_node, find_node_by_id, rename_node, update_node,
}
use nagisa.Store.Rows.{guard_keeps, bind_ok, guard_ok, if_ok, pure_ok, find_node_by_id_ok}
use nagisa.Tree.Config.{NodeUsecase}
use nagisa.Tree.Chain.{evaluate}
use nagisa.Tree.Naming.{normalize_name, resolve_name}
use nagisa.Tree.Moves.{
  UpdateNodeInput, rename_step, move_step, overwrite, changes_acl, changes_content, update_node_tx,
  update_node_fields,
}
use nagisa.Tree.Shapes.{IsTree}
use nagisa.Tree.Invariant.{shape_of, shapes, segments, IsWellFormed, IsRow}
use nagisa.Tree.Invariant.Writes.{shapes-rename_node, shapes-update_node}
use nagisa.Tree.Invariant.Reads.{resolve_name-IsRead, normalize_name_ok}
use nagisa.Tree.Invariant.Relocate.{relocate_keeps}
use nagisa.Tree.Invariant.Moves.{find-IsRow}

module _ (platform : Platform) (std : IsStandard platform) (uc : NodeUsecase) (c : Caller) where
  abbrev IsKept : Db → Type 0
  IsKept = IsWellFormed platform std

  rename_step_keeps :
      {out : Node} {after : Db} (i : UpdateNodeInput) (name : Option Text) (node : Node) (db : Db)
      → rename_step platform uc i name node db ≡ (ok out, after)
      → (shapes after ≡ shapes db) × (shape_of out ≡ shape_of node)
  unfolding rename_step
  rename_step_keeps i none node db e = pure_ok e λ p q. (ap shapes (sym q), ap shape_of (sym p))
  rename_step_keeps i (some raw) node db e =
      bind_ok (normalize_name platform uc raw) db e λ name db₁ normal e₁.
        let same = normalize_name_ok platform uc raw db normal in
        if_ok (text_eq name node.name) _ _ db₁ e₁
          (λ stays h. pure_ok h λ p q. (ap shapes (sym (same ∙ q)), ap shape_of (sym p)))
          (λ changes h.
            bind_ok (resolve_name platform node.parent_id name i.policy node.id) db₁ h
              λ final_name db₂ named h₁.
                bind_ok (rename_node platform node.id final_name) db₂ h₁ λ u db₃ renames h₂.
                  pure_ok h₂ λ p q. (
                    ap shapes (sym q)
                        ∙ shapes-rename_node platform node.id final_name db₂ db₃ renames
                        ∙ ap shapes (
                            sym (ap (λ r. r.1) named)
                            ∙ resolve_name-IsRead platform node.parent_id name i.policy node.id db₁
                            ∙ sym same),
                    ap shape_of (sym p),
                  ))

  move_step_keeps :
      {out : Node} {after : Db} (i : UpdateNodeInput) (target : Option Uuid) (node : Node) (db : Db)
      → IsKept db
      → IsRow db node
      → move_step platform uc c i target node db ≡ (ok out, after)
      → IsKept after × IsRow after out
  unfolding move_step
  move_step_keeps {after = after} i none node db wf at_n e =
      pure_ok e λ p q. (subst IsKept q wf, subst (IsRow after) p (subst (λ d. IsRow d node) q at_n))
  move_step_keeps {after = after} i (some target) node db wf at_n e =
      if_ok (target == node.parent_id) _ _ db e
        (λ stays h.
          pure_ok h
            λ p q. (subst IsKept q wf, subst (IsRow after) p (subst (λ d. IsRow d node) q at_n)))
        (λ moves h. relocate_keeps platform std uc c node target i.policy db wf at_n h)

  overwrite-shape :
      (i : UpdateNodeInput) (n : Node) → shape_of (overwrite platform uc c i n) ≡ shape_of n
  unfolding overwrite
  overwrite-shape i n = refl

  update_node_tx_keeps :
      {out : Node × NodeAccess} {after : Db} (i : UpdateNodeInput) (db : Db)
      → IsKept db
      → update_node_tx platform uc c i db ≡ (ok out, after)
      → IsKept after
  unfolding update_node_tx
  update_node_tx_keeps {after = after} i db wf e =
      bind_ok (find_node_by_id i.id) db e λ node db₁ found e₁.
        find_node_by_id_ok i.id db found λ at_id same.
          let access = evaluate platform uc c node db₁ in
          guard_ok (not access.locked) Error.node_locked _ db₁ e₁ λ unlocked e₂.
            guard_ok (not (changes_acl platform uc i && not (has access.perms perm_acl_manage)))
              Error.permission_denied _ db₁ e₂
              λ may e₃.
                guard_ok (not (changes_content platform uc i && not (has access.perms perm_edit)))
                  Error.permission_denied _ db₁ e₃
                  λ may_too e₄.
                    bind_ok (rename_step platform uc i i.name node) db₁ e₄ λ renamed db₂ renames e₅.
                      bind_ok (move_step platform uc c i i.parent_id renamed) db₂ e₅
                        λ moved db₃ moves e₆.
                          bind_ok (update_node (overwrite platform uc c i moved)) db₃ e₆
                            λ saved db₄ saves e₇. pure_ok e₇ λ p q.
                              let (same_shapes, same_shape) =
                                rename_step_keeps i i.name node db₁ renames in
                              let at_n : IsRow db₁ node =
                                find-IsRow i.id db₁ node (ap (find_node i.id) (sym same) ∙ at_id) in
                              let at_renamed : IsRow db₂ renamed =
                                ap (λ s. s renamed.id) same_shapes
                                ∙ ap (λ q. shapes db₁ q.id) same_shape
                                ∙ at_n
                                ∙ ap some (sym same_shape) in
                              let (wf₃, at_moved) =
                                move_step_keeps i i.parent_id renamed db₂
                                  (subst (IsTree (segments platform std)) (sym same_shapes)
                                    (subst IsKept same wf))
                                  at_renamed moves in
                              let written =
                                shapes-update_node (overwrite platform uc c i moved) saved db₃ db₄
                                  (ap (λ q. shapes db₃ q.id) (overwrite-shape i moved)
                                    ∙ at_moved
                                    ∙ ap some (sym (overwrite-shape i moved)))
                                  saves in
                              subst IsKept q
                                (subst (IsTree (segments platform std)) (sym written) wf₃)

  -- Whatever fields are changed and whether it succeeds or fails, `UpdateNode` leaves a well-formed tree
  -- well formed.
  pub update_node_fields_keeps :
      (i : UpdateNodeInput) (db : Db) → IsKept db → IsKept (update_node_fields platform uc c i db).1
  unfolding update_node_fields
  update_node_fields_keeps i db wf =
      guard_keeps IsKept (is_authenticated c) Error.unauthenticated _ db wf (
        guard_keeps IsKept (not (i.id == nil_id)) Error.invalid_argument _ db wf (
          with_tx_keeps IsKept (update_node_tx platform uc c i) db wf
            λ out after e. update_node_tx_keeps i db wf e))
