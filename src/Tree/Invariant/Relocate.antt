-- ===== src/Tree/Invariant/Relocate.antt =====
-- `relocate` keeps the tree invariant.
use nagisa.Prelude.{
  ◌≡◌, refl, sym, ◌∙◌, ap, subst, false, not, ◌&&◌, some, [], ◌∷◌, ◌++◌, slash, ◌==◌, ==_iff,
  has_prefix,
}
use nagisa.Prelude.Int.{ℤ, pos, ◌+ℤ◌, ◌-ℤ◌, leb_ℤ}
use nagisa.Errors.{Error, ok}
use nagisa.Perm.{ConflictPolicy}
use nagisa.Access.{Uuid, Caller, Node, is_folder}
use nagisa.Store.{Platform, IsStandard, Db, update_node, relocate_subtree}
use nagisa.Store.Rows.{bind_ok, guard_ok, if_ok, pure_ok}
use nagisa.Tree.Config.{NodeUsecase}
use nagisa.Tree.Chain.{load_writable_parent}
use nagisa.Tree.Naming.{child_path, resolve_name}
use nagisa.Tree.Moves.{relocate, relocate_into, rename_to, moved_node}
use nagisa.Tree.Shapes.{Shape, IsTree}
use nagisa.Tree.Shapes.Moving.{moved, map_shape, map_shapes}
use nagisa.Tree.Shapes.Relocation.{moved-IsTree}
use nagisa.Tree.Invariant.{shape_of, shapes, segments, IsWellFormed, IsRow}
use nagisa.Tree.Invariant.Writes.{shapes-update_node, shapes-relocate_subtree}
use nagisa.Tree.Invariant.Reads.{
  IsParent, load_writable_parent_ok, resolve_name-IsRead, false_of_not,
}
-- The difference that the subtree's depths are shifted by.
use nagisa.Tree.Invariant.Places.{shift_eq, rename_to_ok, parent-IsTarget, has_path}

module _ (platform : Platform) (std : IsStandard platform) (uc : NodeUsecase) where
  -- The shape of the moved node, as the move of its row.
  moved_node-shape :
      (c : Caller) (node : Node) (target : Uuid) (p : Node)
      → moved node.id node.path target
          (child_path platform p.path node.id)
          (p.depth +ℤ pos 1 -ℤ node.depth)
          (shape_of node)
        ≡ shape_of (moved_node platform uc c node target p)
  unfolding moved moved_node
  moved_node-shape c node target p =
      rw ((==_iff node.id node.id).1 refl, moved)
        (ap
          (λ (d : ℤ). record (shape_of node) {
            parent = target;
            path = child_path platform p.path node.id;
            depth = d;
          })
          (shift_eq node.depth (p.depth +ℤ pos 1)))

  module _ (c : Caller) (node : Node) (target : Uuid) (policy : ConflictPolicy) (db : Db)
      (wf : IsWellFormed platform std db) (at_n : IsRow db node) where
    relocate_into_keeps :
        {out : Node} {after : Db} (p : Node)
        → (target == node.id) ≡ false
        → IsParent target db p
        → relocate_into platform uc c node target policy p db ≡ (ok out, after)
        → IsWellFormed platform std after × IsRow after out
    unfolding relocate_into segments
    relocate_into_keeps {after = after} p other parent e =
        guard_ok (not (is_folder node && has_prefix p.path node.path)) Error.cycle_detected _ db e
          λ clear e₁.
            guard_ok (not (leb_ℤ uc.max_depth (p.depth +ℤ pos 1))) Error.invalid_argument _ db e₁
              λ shallow e₂.
                bind_ok (resolve_name platform target node.name policy node.id) db e₂
                  λ name db₁ named e₃.
                    bind_ok
                      (relocate_subtree node target (child_path platform p.path node.id)
                        (p.depth +ℤ pos 1 -ℤ node.depth))
                      db₁ e₃
                      λ u db₂ placed e₄.
                        bind_ok
                          (rename_to platform uc (moved_node platform uc c node target p) name) db₂
                          e₄
                          λ renamed db₃ renames e₅.
                            bind_ok (update_node renamed) db₃ e₅ λ saved db₄ saves e₆.
                              pure_ok e₆ λ same_out same_db.
                                let same : db₁ ≡ db =
                                  sym (ap (λ r. r.1) named)
                                  ∙ resolve_name-IsRead platform target node.name policy node.id
                                      db in
                                let (to, path_eq) =
                                  parent-IsTarget platform std uc db wf node target p at_n other
                                    parent (false_of_not clear) in
                                let delta = p.depth +ℤ pos 1 -ℤ node.depth in
                                let move =
                                  moved node.id node.path target
                                    (child_path platform p.path node.id) delta in
                                let placed_all : shapes db₂ ≡ map_shapes move (shapes db) =
                                  shapes-relocate_subtree node target _ delta db₁ db₂
                                    (has_path platform std uc db wf node at_n) placed
                                  ∙ ap (λ d. map_shapes move (shapes d)) same in
                                let (same_shapes, same_shape) =
                                  rename_to_ok platform std uc _ name db₂ renames in
                                let at_renamed : shapes db₃ renamed.id ≡ some (shape_of renamed) =
                                  ap (λ s. s renamed.id) (same_shapes ∙ placed_all)
                                  ∙ ap (λ i. map_shape move (shapes db i))
                                      (ap (λ (q : Shape). q.id) same_shape)
                                  ∙ ap (map_shape move) at_n
                                  ∙ ap some (moved_node-shape c node target p ∙ sym same_shape) in
                                let all : shapes after
                                    ≡ map_shapes
                                        (moved node.id node.path target
                                          (p.path ++ (platform.uuid_text node.id ++ slash ∷ []))
                                          delta)
                                        (shapes db) =
                                  ap shapes (sym same_db)
                                  ∙ shapes-update_node renamed saved db₃ db₄ at_renamed saves
                                  ∙ same_shapes
                                  ∙ placed_all
                                  ∙ ap
                                      (λ q.
                                        map_shapes (moved node.id node.path target q delta)
                                          (shapes db))
                                      path_eq in
                                (
                                  subst (IsTree (segments platform std)) (sym all) (
                                      moved-IsTree _ (shapes db) wf (shape_of node) at_n target
                                        p.path p.depth delta to (shift_eq node.depth _)),
                                  subst (IsRow after) same_out (
                                      ap (λ s. s renamed.id)
                                        (ap shapes (sym same_db)
                                          ∙ shapes-update_node renamed saved db₃ db₄ at_renamed
                                              saves)
                                      ∙ at_renamed),
                                )

    -- If a node of a well-formed tree is relocated with success, whatever the target, the tree is well
    -- formed afterwards, and the node that comes back agrees with its row on parent, path and depth.
    pub relocate_keeps :
        {out : Node} {after : Db}
        → relocate platform uc c node target policy db ≡ (ok out, after)
        → IsWellFormed platform std after × IsRow after out
    unfolding relocate
    relocate_keeps {out = out} {after = after} e =
        if_ok (target == node.id) _ _ db e (λ self h. cc)
          λ other h.
            if_ok (target == node.parent_id) _ _ db h
              (λ stays h₁. pure_ok h₁ λ p q. (
                subst (IsWellFormed platform std) q wf,
                subst (IsRow after) p (subst (λ d. IsRow d node) q at_n),
              ))
              (λ moves h₁.
                bind_ok (load_writable_parent platform uc c target) db h₁ λ p mid loads h₂.
                  let (parent, same) = load_writable_parent_ok platform uc c target db loads in
                  relocate_into_keeps p other parent (
                    subst
                      (λ d. relocate_into platform uc c node target policy p d ≡ (ok out, after))
                      (sym same) h₂))
