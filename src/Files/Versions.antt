-- ===== src/Files/Versions.antt =====
-- internal/biz/file.go: the retained revisions of a file.
use nagisa.Prelude.{ℕ, ◌-◌, List, Text, codes, is_empty, ltb, ◌==◌, if◌then◌else◌}
use nagisa.Prelude.Int.{pos, ◌-ℤ◌}
use nagisa.Errors.{Error}
use nagisa.Perm.{perm_view, perm_edit, perm_delete}
use nagisa.Access.{Uuid, Caller, Node, is_file, is_authenticated}
use nagisa.Store.{
  Platform, Tx, NodeVersion, pure, guard, with_tx, ◌>>=◌, ◌>>◌, ListOption, find_node_by_id,
  update_node, add_usage, list_versions, count_versions, find_version_by_id, delete_version,
  enqueue_deletion,
}
use nagisa.Tree.{require_access}
use nagisa.Files.Limits.{FileUsecase}
use nagisa.Files.Commit.{retain}

-- The node with the content of a revision; its count of revisions stays.
unfoldable pub restored : Caller → NodeVersion → Node → Node
restored c v n = record n {
  storage_key = v.storage_key;
  size = v.size;
  mime_type = v.mime_type;
  etag = v.etag;
  updated_by = c.user_id;
}

module _ (platform : Platform) (uc : FileUsecase) where
  unfoldable pub list_revisions :
      Caller → Uuid → List (ListOption NodeVersion) → Tx (List NodeVersion × ℕ)
  list_revisions c node_id opts = do
    _ ← require_access platform uc.nodes c node_id perm_view
    versions ← list_versions node_id opts
    total ← count_versions node_id
    pure (versions, total)

  -- The end of `RestoreVersion`.
  unfoldable pub promote : Caller → Node → NodeVersion → Tx Node
  promote c node v = do
    retain platform uc c node (codes "before restore")
    saved ← update_node (restored c v node)
    add_usage node.owner_id (pos v.size -ℤ pos node.size) (pos 0) (pos 0)
    pure saved

  unfoldable pub restore_version_tx : Caller → Uuid → Uuid → Tx Node
  restore_version_tx c node_id version_id = do
    found ← require_access platform uc.nodes c node_id perm_edit
    guard (is_file found.0) Error.unsupported
    v ← find_version_by_id version_id
    guard (v.node_id == found.0.id) Error.invalid_argument
    promote c found.0 v

  -- `RestoreVersion`.
  unfoldable pub restore_version : Caller → Uuid → Uuid → Tx Node
  restore_version c node_id version_id = do
    guard (is_authenticated c) Error.unauthenticated
    with_tx (restore_version_tx c node_id version_id)

  unfoldable pub uncount_version : Node → Tx (Unit {0})
  uncount_version n =
      if ltb 0 n.version_count
      then (update_node (record n { version_count = n.version_count - 1 }) >>= λ _. pure tt)
      else pure tt

  -- The transaction of `DeleteVersion`, with the key of the revision.
  unfoldable pub delete_version_tx : Caller → Uuid → Uuid → Tx Text
  delete_version_tx c node_id version_id = do
    _ ← require_access platform uc.nodes c node_id perm_delete
    v ← find_version_by_id version_id
    guard (v.node_id == node_id) Error.invalid_argument
    node ← find_node_by_id node_id
    uncount_version node
    delete_version version_id
    pure v.storage_key

  -- `DeleteVersion`.
  unfoldable pub remove_version : Caller → Uuid → Uuid → Tx (Unit {0})
  remove_version c node_id version_id = do
    guard (is_authenticated c) Error.unauthenticated
    key ← with_tx (delete_version_tx c node_id version_id)
    if is_empty key then pure tt else enqueue_deletion key (codes "version_delete")
