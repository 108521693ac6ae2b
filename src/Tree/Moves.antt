-- ===== src/Tree/Moves.antt =====
-- internal/biz/node.go: moving nodes, and the partial update of a node.
use nagisa.Prelude.{
  Bool, not, ◌&&◌, ◌||◌, Option, none, some, List, [], ◌∷◌, Text, is_empty, is_some, text_eq,
  length, has_prefix, ◌==◌, if◌then◌else◌,
}
use nagisa.Prelude.Int.{pos, ◌+ℤ◌, ◌-ℤ◌, leb_ℤ}
use nagisa.Errors.{Error}
use nagisa.Perm.{Visibility, ConflictPolicy, perm_edit, perm_acl_manage, has}
use nagisa.Access.{Uuid, nil_id, Caller, Node, NodeAccess, is_authenticated, is_folder}
use nagisa.Store.{
  Platform, Tx, pure, raise, guard, get_db, with_tx, ◌>>=◌, ◌>>◌, find_node_by_id, update_node,
  rename_node, relocate_subtree,
}
use nagisa.Tree.Config.{NodeUsecase}
use nagisa.Tree.Chain.{evaluate, load_writable_parent}
use nagisa.Tree.Naming.{child_path, normalize_name, fold_name, resolve_name}

-- A node with the access that the caller holds on it.
pub record Outcome : Type 0 where
  pub node : Node
  pub access : NodeAccess

pub record MoveNodesInput : Type 0 where
  pub ids : List Uuid
  pub target_parent_id : Uuid
  pub policy : ConflictPolicy
  pub new_names : List Text

pub record UpdateNodeInput : Type 0 where
  pub id : Uuid
  pub name : Option Text
  pub description : Option Text
  pub visibility : Option Visibility
  pub metadata : Option (List (Text × Text))
  pub parent_id : Option Uuid
  pub password_hash : Option Text
  pub password_hint : Option Text
  pub clear_password : Bool
  pub policy : ConflictPolicy

abbrev pub or_keep {ℓ} : {A : Type ℓ} → Option A → A → A
or_keep none a = a
or_keep (some b) a = b

module _ (platform : Platform) (uc : NodeUsecase) where
  -- `RenameNode` and the change of the node in memory, where the name changes.
  unfoldable pub rename_to : Node → Text → Tx Node
  rename_to node name = if text_eq name node.name then pure node else do
    rename_node platform node.id name
    pure (record node { name = name; name_lower = fold_name platform uc name })

  -- The node in memory after `RelocateSubtree`.
  unfoldable pub moved_node : Caller → Node → Uuid → Node → Node
  moved_node c node target parent = record node {
    parent_id = target;
    path = child_path platform parent.path node.id;
    depth = parent.depth +ℤ pos 1;
    updated_by = c.user_id;
  }

  unfoldable pub relocate_into : Caller → Node → Uuid → ConflictPolicy → Node → Tx Node
  unfolding rename_to moved_node
  relocate_into c node target policy parent = do
    guard (not (is_folder node && has_prefix parent.path node.path)) Error.cycle_detected
    guard (not (leb_ℤ uc.max_depth (parent.depth +ℤ pos 1))) Error.invalid_argument
    final_name ← resolve_name platform target node.name policy node.id
    relocate_subtree node target (child_path platform parent.path node.id)
        (parent.depth +ℤ pos 1 -ℤ node.depth)
    renamed ← rename_to (moved_node c node target parent) final_name
    saved ← update_node renamed
    pure renamed

  -- The source changes the node through its pointer; here the changed node is the result.
  unfoldable pub relocate : Caller → Node → Uuid → ConflictPolicy → Tx Node
  unfolding relocate_into load_writable_parent resolve_name relocate_subtree rename_node update_node
  relocate c node target policy =
      if target == node.id
      then raise Error.cycle_detected
      else if target == node.parent_id
      then pure node
      else do
        parent ← load_writable_parent platform uc c target
        relocate_into c node target policy parent

  unfoldable pub rename_moved : MoveNodesInput → Node → Text → Tx (Unit {0})
  rename_moved i node new_name = if is_empty new_name then pure tt else do
    name ← normalize_name platform uc new_name
    final_name ← resolve_name platform i.target_parent_id name i.policy node.id
    rename_node platform node.id final_name

  unfoldable pub move_one : Caller → MoveNodesInput → Uuid → Text → Tx Outcome
  unfolding rename_moved
  move_one c i id new_name = do
    node ← find_node_by_id id
    db ← get_db
    let access = evaluate platform uc c node db
    guard (not access.locked) Error.node_locked
    guard (has access.perms perm_edit) Error.permission_denied
    relocated ← relocate c node i.target_parent_id i.policy
    rename_moved i relocated new_name
    moved ← find_node_by_id id
    after ← get_db
    pure (record { node = moved; access = evaluate platform uc c moved after })

  -- The new name of the first node, if names are given, and those of the rest.
  abbrev pub first_name : List Text → Text
  first_name [] = []
  first_name (name ∷ names) = name

  abbrev pub rest_names : List Text → List Text
  rest_names [] = []
  rest_names (name ∷ names) = names

  unfoldable pub move_loop : Caller → MoveNodesInput → List Uuid → List Text → Tx (List Outcome)
  unfolding move_one
  move_loop c i [] names = pure []
  move_loop c i (id ∷ ids) names = do
    outcome ← move_one c i id (first_name names)
    rest ← move_loop c i ids (rest_names names)
    pure (outcome ∷ rest)

  unfoldable pub move_nodes : Caller → MoveNodesInput → Tx (List Outcome)
  unfolding move_loop
  move_nodes c i = do
    guard (is_authenticated c) Error.unauthenticated
    guard (not (is_empty i.ids)) Error.invalid_argument
    guard (is_empty i.new_names || (length i.new_names == length i.ids)) Error.invalid_argument
    with_tx (move_loop c i i.ids i.new_names)

  unfoldable pub rename_step : UpdateNodeInput → Option Text → Node → Tx Node
  rename_step i none node = pure node
  rename_step i (some raw) node = do
    name ← normalize_name platform uc raw
    if text_eq name node.name then pure node else do
      final_name ← resolve_name platform node.parent_id name i.policy node.id
      rename_node platform node.id final_name
      pure (record node { name = final_name; name_lower = fold_name platform uc final_name })

  unfoldable pub move_step : Caller → UpdateNodeInput → Option Uuid → Node → Tx Node
  move_step c i none node = pure node
  move_step c i (some target) node =
      if target == node.parent_id then pure node else relocate c node target i.policy

  -- The plain fields that an update overwrites.
  unfoldable pub overwrite : Caller → UpdateNodeInput → Node → Node
  overwrite c i node = record node {
    description = or_keep i.description node.description;
    metadata = elim i.metadata [ none ↦ node.metadata | some m ↦ some m ];
    visibility = or_keep i.visibility node.visibility;
    password_hash = if i.clear_password then [] else or_keep i.password_hash node.password_hash;
    password_hint = if i.clear_password then [] else or_keep i.password_hint node.password_hint;
    updated_by = c.user_id;
  }

  abbrev pub changes_acl : UpdateNodeInput → Bool
  changes_acl i =
      is_some i.visibility || is_some i.password_hash || i.clear_password || is_some i.password_hint

  abbrev pub changes_content : UpdateNodeInput → Bool
  changes_content i =
      is_some i.name || is_some i.parent_id || is_some i.description || is_some i.metadata

  unfoldable pub update_node_tx : Caller → UpdateNodeInput → Tx (Node × NodeAccess)
  unfolding rename_step move_step overwrite
  update_node_tx c i = do
    node ← find_node_by_id i.id
    db ← get_db
    let access = evaluate platform uc c node db
    guard (not access.locked) Error.node_locked
    guard (not (changes_acl i && not (has access.perms perm_acl_manage))) Error.permission_denied
    guard (not (changes_content i && not (has access.perms perm_edit))) Error.permission_denied
    renamed ← rename_step i i.name node
    moved ← move_step c i i.parent_id renamed
    saved ← update_node (overwrite c i moved)
    after ← get_db
    pure (saved, evaluate platform uc c saved after)

  unfoldable pub update_node_fields : Caller → UpdateNodeInput → Tx (Node × NodeAccess)
  unfolding update_node_tx
  update_node_fields c i = do
    guard (is_authenticated c) Error.unauthenticated
    guard (not (i.id == nil_id)) Error.invalid_argument
    with_tx (update_node_tx c i)
