-- ===== src/Tree/Invariant/Restoring.antt =====
-- `RestoreNodes` keeps the tree invariant.
use nagisa.Prelude.{
  ◌≡◌, sym, ◌∙◌, ap, subst, inl, inr, Bool, true, false, not, ◌||◌, some, List, [], ◌∷◌, ◌++◌, Text,
  text_eq, is_empty, slash, ◌==◌, ends_with_slash,
}
use nagisa.Prelude.Int.{ℤ, pos, ◌+ℤ◌, ◌-ℤ◌, leb_ℤ}
use nagisa.Errors.{Error, ok}
use nagisa.Perm.{NodeStatus, perm_trash_manage, perm_upload, has, is_trashed_status}
use nagisa.Access.{Uuid, nil_id, Caller, Node, is_authenticated}
use nagisa.Store.{
  Platform, IsStandard, Db, guard, with_tx_keeps, find_node, find_node_by_id, rename_node,
  relocate_subtree, set_subtree_status,
}
use nagisa.Store.Rows.{
  map_option, guard_keeps, bind_ok, guard_ok, if_ok, pure_ok, find_node_by_id_ok,
}
use nagisa.Tree.Config.{NodeUsecase}
use nagisa.Tree.Chain.{evaluate}
use nagisa.Tree.Naming.{child_path, resolve_name, parent_location}
use nagisa.Tree.Moves.{Outcome}
use nagisa.Tree.Trash.{
  RestoreNodesInput, restore_target, check_target, rename_restored, restore_at, restore_one,
  restore_loop, restore_nodes,
}
use nagisa.Tree.Shapes.{Shape, Shapes, IsTree}
use nagisa.Tree.Shapes.Moving.{moved, map_shapes}
use nagisa.Tree.Shapes.Status.{flagged}
use nagisa.Tree.Shapes.Restoring.{IsLive, restored-IsTree}
use nagisa.Tree.Invariant.{shape_of, shapes, segments, IsWellFormed, IsRow}
use nagisa.Tree.Invariant.Writes.{
  shapes-rename_node, shapes-relocate_subtree, shapes-set_subtree_status,
}
use nagisa.Tree.Invariant.Reads.{IsLocation, parent_location_ok, resolve_name-IsRead}
use nagisa.Tree.Invariant.Places.{
  child_path-append, path_ends, root_depth, root_ends, shift_eq, has_path,
}
use nagisa.Tree.Invariant.Moves.{find-IsRow}

module _ (platform : Platform) (std : IsStandard platform) (uc : NodeUsecase) (c : Caller) where
  abbrev IsKept : Db → Type 0
  IsKept = IsWellFormed platform std

  -- Where a restored node is placed, in terms of the shapes, and what its path is there.
  location-IsLive :
      (db : Db) (target : Uuid) (path : Text) (depth : ℤ) (id : Uuid)
      → IsKept db
      → IsLocation target db (path, depth)
      → IsLive (shapes db) target path depth
        × (child_path platform path id ≡ path ++ (platform.uuid_text id ++ slash ∷ []))
  unfolding shapes
  location-IsLive db target path depth id wf (inl (top, at)) = (
    inl (top, ap (λ q. q.0) (sym at), ap (λ q. q.1 +ℤ pos 1) (sym at) ∙ root_depth),
    child_path-append platform std uc path id (ap (λ q. ends_with_slash q.0) (sym at) ∙ root_ends),
  )
  location-IsLive db target path depth id wf (inr (p, (found, folder, live, at))) =
      let at_p : shapes db target ≡ some (shape_of p) = ap (map_option shape_of) found in
      (
        inr (shape_of p, (at_p, folder, live, ap (λ q. q.0) at, ap (λ q. q.1) at)),
        child_path-append platform std uc path id (
            ap (λ q. ends_with_slash q.0) (sym at)
            ∙ path_ends platform std uc db wf target (shape_of p) at_p),
      )

  rename_restored_ok :
      {out : Node} {after : Db} (n : Node) (name : Text) (db : Db)
      → rename_restored platform uc n name db ≡ (ok out, after)
      → (shapes after ≡ shapes db) × (shape_of out ≡ shape_of n)
  unfolding rename_restored
  rename_restored_ok n name db e =
      if_ok (text_eq name n.name) _ _ db e
        (λ same h. pure_ok h λ p q. (ap shapes (sym q), ap shape_of (sym p)))
        (λ other h. bind_ok (rename_node platform n.id name) db h λ u mid r h₁. pure_ok h₁ λ p q.
          (ap shapes (sym q) ∙ shapes-rename_node platform n.id name db mid r, ap shape_of (sym p)))

  check_target_ok :
      {u : Unit {0}} {after : Db} (target : Uuid) (db : Db)
      → check_target platform uc c target db ≡ (ok u, after)
      → db ≡ after
  unfolding check_target
  check_target_ok target db e =
      if_ok (target == nil_id) _ _ db e (λ top h. ap (λ r. r.1) h)
        λ inner h. bind_ok (find_node_by_id target) db h λ p db₁ found h₁.
          find_node_by_id_ok target db found λ at_p same.
            guard_ok (not (evaluate platform uc c p db₁).locked) Error.node_locked _ db₁ h₁ λ _ h₂.
              same
              ∙ guard_last (has (evaluate platform uc c p db₁).perms perm_upload)
                  Error.permission_denied db₁ h₂
    where
      guard_last :
          {u : Unit {0}} {after : Db} (test : Bool) (e : Error) (db : Db)
          → guard test e db ≡ (ok u, after)
          → db ≡ after
      guard_last true e db h = ap (λ r. r.1) h
      guard_last false e db h = cc

  abbrev restored_shapes : Db → Node → Uuid → Text → ℤ → Shapes
  restored_shapes db node target path delta =
      map_shapes (flagged path false)
        (map_shapes (moved node.id node.path target path delta) (shapes db))

  restore_at_keeps :
      {out : Outcome} {after : Db} (i : RestoreNodesInput) (node : Node) (target : Uuid) (db : Db)
      → IsKept db
      → IsRow db node
      → is_trashed_status node.status ≡ true
      → restore_at platform uc c i node target db ≡ (ok out, after)
      → IsKept after
  unfolding restore_at segments
  restore_at_keeps {after = after} i node target db wf at_n trashed e =
      bind_ok (parent_location platform target) db e λ at db₁ locates e₁.
        let (location, same) = parent_location_ok platform target db locates in
        let path = at.0 in
        let depth = at.1 in
        guard_ok (not (leb_ℤ uc.max_depth (depth +ℤ pos 1))) Error.invalid_argument _ db₁ e₁
          λ shallow e₂.
            bind_ok (resolve_name platform target node.name i.policy node.id) db₁ e₂
              λ name db₂ named e₃.
                let new_path = child_path platform path node.id in
                let delta = depth +ℤ pos 1 -ℤ node.depth in
                bind_ok (relocate_subtree node target new_path delta) db₂ e₃ λ u db₃ placed e₄.
                  bind_ok
                    (rename_restored platform uc
                      (record node {
                        parent_id = target;
                        path = new_path;
                        depth = depth +ℤ pos 1;
                        original_parent_id = nil_id;
                        updated_by = c.user_id;
                      })
                      name)
                    db₃ e₄
                    λ renamed db₄ renames e₅.
                      bind_ok (set_subtree_status renamed NodeStatus.active 0) db₄ e₅
                        λ rows db₅ revives e₆.
                          bind_ok (find_node_by_id node.id) db₅ e₆ λ saved db₆ found e₇.
                            find_node_by_id_ok node.id db₅ found λ at_saved same_found.
                              pure_ok e₇ λ same_out same_after.
                                let same₂ : db₂ ≡ db =
                                  sym (ap (λ r. r.1) named)
                                  ∙ resolve_name-IsRead platform target node.name i.policy node.id
                                      db₁
                                  ∙ sym same in
                                let (live, path_eq) =
                                  location-IsLive db target path depth node.id wf location in
                                let placed_all : shapes db₃
                                    ≡ map_shapes (moved node.id node.path target new_path delta)
                                        (shapes db) =
                                  shapes-relocate_subtree node target new_path delta db₂ db₃
                                    (has_path platform std uc db wf node at_n) placed
                                  ∙ ap
                                      (λ d.
                                        map_shapes (moved node.id node.path target new_path delta)
                                          (shapes d))
                                      same₂ in
                                let (same_shapes, same_shape) =
                                  rename_restored_ok _ name db₃ renames in
                                let revived : shapes db₅
                                    ≡ map_shapes (flagged new_path false) (shapes db₄) =
                                  ap shapes (sym (ap (λ r. r.1) revives))
                                  ∙ (shapes-set_subtree_status renamed 0 db₄).1
                                  ∙ ap
                                      (λ (q : Shape).
                                        map_shapes (flagged q.path false) (shapes db₄))
                                      same_shape in
                                let all : shapes after
                                    ≡ restored_shapes db node target
                                        (path ++ (platform.uuid_text node.id ++ slash ∷ [])) delta =
                                  ap shapes (sym (same_found ∙ same_after))
                                  ∙ revived
                                  ∙ ap (map_shapes (flagged new_path false))
                                      (same_shapes ∙ placed_all)
                                  ∙ ap (λ q. restored_shapes db node target q delta) path_eq in
                                subst (IsTree (segments platform std)) (sym all) (
                                  restored-IsTree _ (shapes db) wf (shape_of node) at_n trashed
                                    target path depth delta live (shift_eq node.depth _))

  restore_one_keeps :
      {out : Outcome} {after : Db} (i : RestoreNodesInput) (id : Uuid) (db : Db)
      → IsKept db
      → restore_one platform uc c i id db ≡ (ok out, after)
      → IsKept after
  unfolding restore_one
  restore_one_keeps i id db wf e = bind_ok (find_node_by_id id) db e λ node db₁ found e₁.
      find_node_by_id_ok id db found λ at_id same.
        guard_ok (is_trashed_status node.status) Error.invalid_argument _ db₁ e₁ λ trashed e₂.
          let access = evaluate platform uc c node db₁ in
          guard_ok (access.owned || has access.perms perm_trash_manage) Error.permission_denied _
            db₁ e₂
            λ may e₃.
              let target = restore_target platform uc i.target_parent_id node db₁ in
              bind_ok (check_target platform uc c target) db₁ e₃ λ u db₂ checked e₄.
                let to₂ = same ∙ check_target_ok target db₁ checked in
                restore_at_keeps i node target db₂ (subst IsKept to₂ wf)
                  (find-IsRow id db₂ node (ap (find_node id) (sym to₂) ∙ at_id)) trashed e₄

  restore_loop_keeps :
      {out : List Outcome} {after : Db} (i : RestoreNodesInput) (ids : List Uuid) (db : Db)
      → IsKept db
      → restore_loop platform uc c i ids db ≡ (ok out, after)
      → IsKept after
  unfolding restore_loop
  restore_loop_keeps i [] db wf e = pure_ok e λ p q. subst IsKept q wf
  restore_loop_keeps i (id ∷ ids) db wf e =
      bind_ok (restore_one platform uc c i id) db e λ out db₁ one e₁.
        bind_ok (restore_loop platform uc c i ids) db₁ e₁ λ rest db₂ loop e₂. pure_ok e₂ λ p q.
          subst IsKept q (restore_loop_keeps i ids db₁ (restore_one_keeps i id db wf one) loop)

  -- Whether it succeeds or fails, `RestoreNodes` leaves a well-formed tree well formed: it never places a
  -- folder below itself, although the code does not test for that, since a folder below a trashed one is
  -- trashed and no target.
  pub restore_nodes_keeps :
      (i : RestoreNodesInput) (db : Db) → IsKept db → IsKept (restore_nodes platform uc c i db).1
  unfolding restore_nodes
  restore_nodes_keeps i db wf =
      guard_keeps IsKept (is_authenticated c) Error.unauthenticated _ db wf (
        guard_keeps IsKept (not (is_empty i.ids)) Error.invalid_argument _ db wf (
          with_tx_keeps IsKept (restore_loop platform uc c i i.ids) db wf
            λ out after e. restore_loop_keeps i i.ids db wf e))
