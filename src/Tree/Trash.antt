-- ===== src/Tree/Trash.antt =====
-- internal/biz/node.go: the trash. Deleting moves a subtree to the trash, restoring places it back.
use nagisa.Prelude.{
  ℕ, ◌+◌, not, ◌||◌, none, some, List, [], ◌∷◌, Text, is_empty, text_eq, ◌==◌, if◌then◌else◌,
}
use nagisa.Prelude.Int.{pos, ◌+ℤ◌, ◌-ℤ◌, leb_ℤ}
use nagisa.Errors.{Error}
use nagisa.Perm.{
  NodeStatus, ConflictPolicy, perm_delete, perm_upload, perm_trash_manage, has, is_trashed_status,
}
use nagisa.Access.{Uuid, nil_id, Caller, Node, is_authenticated}
use nagisa.Store.{
  Platform, Db, Tx, pure, guard, get_db, with_tx, ◌>>=◌, ◌>>◌, find_node, find_node_by_id,
  rename_node, relocate_subtree, set_subtree_status,
}
use nagisa.Tree.Config.{NodeUsecase}
use nagisa.Tree.Chain.{evaluate}
use nagisa.Tree.Naming.{child_path, fold_name, resolve_name, parent_location}
use nagisa.Tree.Moves.{Outcome}

pub record RestoreNodesInput : Type 0 where
  pub ids : List Uuid
  pub target_parent_id : Uuid
  pub policy : ConflictPolicy

module _ (platform : Platform) (uc : NodeUsecase) where
  unfoldable pub trash_one : Caller → ℕ → Uuid → Tx ℕ
  trash_one c now id = do
    node ← find_node_by_id id
    db ← get_db
    let access = evaluate platform uc c node db
    guard (not access.locked) Error.node_locked
    guard (has access.perms perm_delete) Error.permission_denied
    set_subtree_status node NodeStatus.trashed now

  unfoldable pub trash_loop : Caller → ℕ → List Uuid → Tx ℕ
  unfolding trash_one
  trash_loop c now [] = pure 0
  trash_loop c now (id ∷ ids) = do
    n ← trash_one c now id
    rest ← trash_loop c now ids
    pure (n + rest)

  -- `DeleteNodes` where `Permanent` is not set; the ids come back with the number of rows.
  unfoldable pub trash_nodes : Caller → ℕ → List Uuid → Tx (List Uuid × ℕ)
  unfolding trash_loop
  trash_nodes c now ids = do
    guard (is_authenticated c) Error.unauthenticated
    guard (not (is_empty ids)) Error.invalid_argument
    affected ← with_tx (trash_loop c now ids)
    pure (ids, affected)

  -- The requested folder or the one the node was deleted from; if it is gone, the root.
  unfoldable pub restore_target : Uuid → Node → Db → Uuid
  restore_target requested node db =
      let target = if requested == nil_id then node.original_parent_id else requested in
      elim (find_node target db) [ some _ ↦ target | none ↦ nil_id ]

  -- Restoring is a write inside the destination folder.
  unfoldable pub check_target : Caller → Uuid → Tx (Unit {0})
  check_target c target = if target == nil_id then pure tt else do
    parent ← find_node_by_id target
    db ← get_db
    let access = evaluate platform uc c parent db
    guard (not access.locked) Error.node_locked
    guard (has access.perms perm_upload) Error.permission_denied

  unfoldable pub rename_restored : Node → Text → Tx Node
  rename_restored node name = if text_eq name node.name then pure node else do
    rename_node platform node.id name
    pure (record node { name = name; name_lower = fold_name platform uc name })

  unfoldable pub restore_at : Caller → RestoreNodesInput → Node → Uuid → Tx Outcome
  unfolding rename_restored
  restore_at c i node target = do
    (parent_path, parent_depth) ← parent_location platform target
    guard (not (leb_ℤ uc.max_depth (parent_depth +ℤ pos 1))) Error.invalid_argument
    final_name ← resolve_name platform target node.name i.policy node.id
    let new_path = child_path platform parent_path node.id
    relocate_subtree node target new_path (parent_depth +ℤ pos 1 -ℤ node.depth)
    renamed ←
        rename_restored
          (record node {
            parent_id = target;
            path = new_path;
            depth = parent_depth +ℤ pos 1;
            original_parent_id = nil_id;
            updated_by = c.user_id;
          })
          final_name
    rows ← set_subtree_status renamed NodeStatus.active 0
    saved ← find_node_by_id node.id
    after ← get_db
    pure (record { node = saved; access = evaluate platform uc c saved after })

  unfoldable pub restore_one : Caller → RestoreNodesInput → Uuid → Tx Outcome
  unfolding restore_target check_target restore_at
  restore_one c i id = do
    node ← find_node_by_id id
    guard (is_trashed_status node.status) Error.invalid_argument
    db ← get_db
    let access = evaluate platform uc c node db
    guard (access.owned || has access.perms perm_trash_manage) Error.permission_denied
    let target = restore_target i.target_parent_id node db
    check_target c target
    restore_at c i node target

  unfoldable pub restore_loop : Caller → RestoreNodesInput → List Uuid → Tx (List Outcome)
  unfolding restore_one
  restore_loop c i [] = pure []
  restore_loop c i (id ∷ ids) = do
    outcome ← restore_one c i id
    rest ← restore_loop c i ids
    pure (outcome ∷ rest)

  unfoldable pub restore_nodes : Caller → RestoreNodesInput → Tx (List Outcome)
  unfolding restore_loop
  restore_nodes c i = do
    guard (is_authenticated c) Error.unauthenticated
    guard (not (is_empty i.ids)) Error.invalid_argument
    with_tx (restore_loop c i i.ids)
