-- ===== src/Tree/Folders.antt =====
-- internal/biz/node.go: creating a folder, and the partial update of a node.
use nagisa.Prelude.{◌+◌, true, false, not, Option, List, [], ◌∷◌, Text}
use nagisa.Prelude.Int.{pos, ◌+ℤ◌, leb_ℤ}
use nagisa.Errors.{Error, ok}
use nagisa.Perm.{
  NodeKind, NodeStatus, Visibility, ConflictPolicy, perm_node_scope, perm_upload, has, intersect,
}
use nagisa.Access.{Uuid, nil_id, Caller, Node, AclEntry, NodeAccess, is_authenticated, require}
use nagisa.Store.{
  or_error, Platform, Tx, pure, guard, with_tx, ◌>>=◌, ◌>>◌, create_node, replace_acl, add_usage,
}
use nagisa.Tree.Config.{NodeUsecase}
use nagisa.Tree.Chain.{load_writable_parent, root_node}
use nagisa.Tree.Naming.{child_path, normalize_name, fold_name, resolve_name}

pub record CreateFolderInput : Type 0 where
  pub parent_id : Uuid
  pub name : Text
  pub description : Text
  pub visibility : Visibility
  pub password_hash : Text
  pub password_hint : Text
  pub metadata : Option (List (Text × Text))
  pub policy : ConflictPolicy
  pub acl : List AclEntry

abbrev or_default : Visibility → Visibility → Visibility
or_default Visibility.unspecified d = d
or_default v d = v

unfoldable pub prepared : Caller → Uuid → AclEntry → AclEntry
prepared c node_id e = record e {
  id = nil_id;
  node_id = node_id;
  created_by = c.user_id;
  permissions = intersect e.permissions perm_node_scope;
}

unfoldable pub prepare_loop : Caller → Uuid → List AclEntry → Tx (List AclEntry)
unfolding prepared
prepare_loop c node_id [] = pure []
prepare_loop c node_id (e ∷ rest) = do
  guard (has c.perms (prepared c node_id e).permissions) Error.permission_denied
  out ← prepare_loop c node_id rest
  pure (prepared c node_id e ∷ out)

unfoldable pub prepare_acl : Caller → Uuid → List AclEntry → Tx (List AclEntry)
unfolding prepare_loop
prepare_acl c node_id entries = prepare_loop c node_id entries

module _ (platform : Platform) where
  -- `NewID`.
  unfoldable pub new_id : Tx Uuid
  new_id db = (ok (platform.minted db.next), record db { next = db.next + 1 })

  module _ (uc : NodeUsecase) where
    unfoldable pub new_folder : Caller → CreateFolderInput → Uuid → Text → Node → Node
    new_folder c i id name parent = record root_node {
      id = id;
      parent_id = i.parent_id;
      name = name;
      name_lower = fold_name platform uc name;
      kind = NodeKind.folder;
      owner_id = c.user_id;
      status = NodeStatus.active;
      description = i.description;
      visibility = or_default i.visibility uc.def_vis;
      password_hash = i.password_hash;
      password_hint = i.password_hint;
      metadata = i.metadata;
      path = child_path platform parent.path id;
      depth = parent.depth +ℤ pos 1;
      created_by = c.user_id;
      updated_by = c.user_id;
    }

    unfoldable pub set_entries : Caller → Uuid → List AclEntry → Tx (Unit {0})
    set_entries c node_id [] = pure tt
    set_entries c node_id (e ∷ rest) = do
      entries ← prepare_acl c node_id (e ∷ rest)
      replace_acl platform node_id entries

    -- The transaction of `CreateFolder`.
    unfoldable pub create_folder_tx : Caller → CreateFolderInput → Text → Tx Node
    create_folder_tx c i name = do
      parent ← load_writable_parent platform uc c i.parent_id
      guard (not (leb_ℤ uc.max_depth (parent.depth +ℤ pos 1))) Error.invalid_argument
      final_name ← resolve_name platform i.parent_id name i.policy nil_id
      id ← new_id
      saved ← create_node (new_folder c i id final_name parent)
      set_entries c saved.id i.acl
      add_usage c.user_id (pos 0) (pos 0) (pos 1)
      pure saved

    unfoldable pub create_folder : Caller → CreateFolderInput → Tx (Node × NodeAccess)
    unfolding create_folder_tx load_writable_parent resolve_name new_id new_folder set_entries
    create_folder c i = do
      guard (is_authenticated c) Error.unauthenticated
      or_error (require c perm_upload)
      name ← normalize_name platform uc i.name
      created ← with_tx (create_folder_tx c i name)
      pure (
        created,
        record {
          perms = intersect perm_node_scope c.perms;
          locked = false;
          locked_by = nil_id;
          owned = true;
          visibility = created.visibility;
        },
      )
