-- ===== src/Files/Commit.antt =====
-- internal/biz/file.go: `commitNode`, which makes uploaded content a node or a new revision of one.
use nagisa.Prelude.{
  ℕ, ◌+◌, Bool, true, false, not, ◌&&◌, none, some, List, [], ◌∷◌, Text, codes, length, drop, leb,
  ltb, ◌==◌, if◌then◌else◌,
}
use nagisa.Prelude.Int.{pos, ◌+ℤ◌, ◌-ℤ◌, leb_ℤ}
use nagisa.Errors.{Error}
use nagisa.Perm.{NodeKind, NodeStatus, Visibility, ConflictPolicy, perm_edit, has}
use nagisa.Access.{Uuid, nil_id, Caller, Node, is_file}
use nagisa.Store.{
  Platform, Tx, Upload, NodeVersion, pure, raise, guard, get_db, ◌>>=◌, ◌>>◌, ListOption, any_node,
  list_nodes, next_available_name, create_node, update_node, add_usage, create_version,
  next_version_number, list_versions, delete_version, enqueue_deletion,
}
use nagisa.Tree.{evaluate, load_writable_parent, root_node, new_id, child_path}
use nagisa.Files.Limits.{FileUsecase, extension}
use nagisa.Files.Quota.{check_quota, check_quota_for}

abbrev pub is_overwrite : ConflictPolicy → Bool
is_overwrite ConflictPolicy.overwrite = true
is_overwrite _ = false

abbrev pub is_fail : ConflictPolicy → Bool
is_fail ConflictPolicy.fail = true
is_fail _ = false

-- The content that is committed.
pub record Content : Type 0 where
  pub key : Text
  pub size : ℕ
  pub etag : Text
  pub comment : Text

unfoldable pub drop_versions : List NodeVersion → Tx (Unit {0})
drop_versions [] = pure tt
drop_versions (v ∷ rest) = do
  delete_version v.id
  enqueue_deletion v.storage_key (codes "version_trim")
  drop_versions rest

-- The newest `kept` revisions stay, of the 1000 that are listed; the node is returned with its count.
unfoldable pub trim_versions : Node → ℕ → Tx Node
trim_versions n kept = do
  versions ← list_versions n.id (ListOption.list_limit (pos 1000) ∷ [])
  let trimmed = drop_versions (drop kept versions) >>= λ _. pure (record n { version_count = kept })
  if leb (length versions) kept
      then pure (record n { version_count = length versions })
      else trimmed

module _ (platform : Platform) (uc : FileUsecase) where
  -- The revision that the present content of a node becomes.
  unfoldable pub revision : Caller → Node → Uuid → ℕ → Text → NodeVersion
  revision c n id version comment = record {
    id = id;
    node_id = n.id;
    version = version;
    storage_key = n.storage_key;
    size = n.size;
    mime_type = n.mime_type;
    etag = n.etag;
    comment = comment;
    created_by = c.user_id;
  }

  unfoldable pub retain : Caller → Node → Text → Tx (Unit {0})
  retain c n comment = do
    version ← next_version_number n.id
    id ← new_id platform
    _ ← create_version platform (revision c n id version comment)
    pure tt

  unfoldable pub trim_counted : Node → Tx Node
  trim_counted n =
      if ltb 0 uc.limit.max_versions && ltb uc.limit.max_versions n.version_count
      then trim_versions n uc.limit.max_versions
      else pure n

  -- The revisions of a replaced node, which is returned with its count.
  unfoldable pub keep_version : Caller → Node → Text → Tx Node
  keep_version c n comment =
      if not uc.limit.keep_versions
      then pure n
      else do retain c n comment; trim_counted (record n { version_count = n.version_count + 1 })

  unfoldable pub replaced : Caller → Upload → Content → Node → Node
  replaced c u content n = record n {
    storage_key = content.key;
    size = content.size;
    etag = content.etag;
    mime_type = u.mime_type;
    extension = extension platform u.name;
    current_version_id = none;
    updated_by = c.user_id;
  }

  -- The branch of `commitNode` for an existing node. The source takes the difference of the sizes after
  -- it has set the new one.
  unfoldable pub commit_replace : Caller → Upload → Content → Node → Tx Node
  commit_replace c u content existing = do
    guard (is_file existing) Error.name_conflict
    db ← get_db
    guard (has (evaluate platform uc.nodes c existing db).perms perm_edit) Error.permission_denied
    check_quota_for existing.owner_id (pos content.size -ℤ pos existing.size)
    retained ← keep_version c existing content.comment
    let updated = replaced c u content retained
    saved ← update_node updated
    add_usage updated.owner_id (pos content.size -ℤ pos updated.size) (pos 0) (pos 0)
    pure saved

  unfoldable pub new_file : Caller → Upload → Uuid → Content → Text → Node → Node
  new_file c u id content name parent = record root_node {
    id = id;
    parent_id = u.parent_id;
    name = name;
    name_lower = platform.to_lower name;
    kind = NodeKind.file;
    owner_id = c.user_id;
    size = content.size;
    mime_type = u.mime_type;
    extension = extension platform name;
    etag = content.etag;
    storage_key = content.key;
    status = NodeStatus.active;
    description = u.description;
    visibility = if parent.id == nil_id then Visibility.private else parent.visibility;
    metadata = u.metadata;
    path = child_path platform parent.path id;
    depth = parent.depth +ℤ pos 1;
    created_by = c.user_id;
    updated_by = c.user_id;
  }

  -- The branch of `commitNode` for a new node.
  unfoldable pub commit_new : Caller → Upload → Uuid → Content → Text → Node → Tx Node
  commit_new c u id content name parent = do
    check_quota c (pos content.size)
    saved ← create_node (new_file c u id content name parent)
    add_usage c.user_id (pos content.size) (pos 1) (pos 0)
    pure saved

  -- What becomes of a sibling with the name: it is replaced, or the new node gets another name.
  unfoldable pub commit_at : Caller → Upload → Uuid → Content → Node → List Node → Tx Node
  commit_at c u id content parent [] = commit_new c u id content u.name parent
  commit_at c u id content parent (existing ∷ _) =
      if is_overwrite u.policy
      then commit_replace c u content existing
      else if is_fail u.policy
      then raise Error.name_conflict
      else (next_available_name platform u.parent_id u.name >>= λ name.
          commit_new c u id content name parent)

  -- `commitNode`.
  unfoldable pub commit_node : Caller → Upload → Uuid → Content → Tx Node
  commit_node c u id content = do
    parent ← load_writable_parent platform uc.nodes c u.parent_id
    guard (not (leb_ℤ uc.nodes.max_depth (parent.depth +ℤ pos 1))) Error.invalid_argument
    siblings ←
        list_nodes platform (record any_node { parent_id = some u.parent_id; names = u.name ∷ [] })
          (ListOption.list_limit (pos 1) ∷ [])
    commit_at c u id content parent siblings
