-- ===== src/Tree/Chain.antt =====
-- internal/biz/node.go: the ancestor chain of a node, its evaluation, and the checks on it. The chain
-- only reads, so it is a function of the database.
use nagisa.Prelude.{
  ℕ, zero, suc, false, not, ◌&&◌, Option, none, some, List, [], ◌∷◌, ◌++◌, map, ◌==◌, if◌then◌else◌,
  slash,
}
use nagisa.Prelude.Int.{negsuc, pos_part}
use nagisa.Errors.{Error, ok, err}
use nagisa.Perm.{
  PermMask, NodeKind, NodeStatus, Visibility, perm_view, perm_upload, perm_trash_manage, has,
  is_folder_kind, is_trashed_status, is_zero,
}
use nagisa.Access.{
  Uuid, nil_id, Caller, Node, AclEntry, NodeAccess, no_access, is_authenticated, caller_has,
  evaluate_node_access,
}
use nagisa.Store.{
  Platform, Db, Tx, pure, guard, get_db, ◌>>=◌, ◌>>◌, find_node, find_node_by_id,
  list_acl_for_nodes,
}
use nagisa.Tree.Config.{NodeUsecase}

pub record AccessChain : Type 0 where
  pub ancestors : List Node
  pub acl : Uuid → List AclEntry

-- The virtual root: only its id, path and depth are set in the source.
abbrev pub root_node : Node
root_node = record {
  id = nil_id;
  parent_id = nil_id;
  name = [];
  name_lower = [];
  kind = NodeKind.unspecified;
  owner_id = nil_id;
  size = 0;
  mime_type = [];
  extension = [];
  etag = [];
  storage_key = [];
  status = NodeStatus.unspecified;
  description = [];
  visibility = Visibility.unspecified;
  password_hash = [];
  password_hint = [];
  has_thumbnail = false;
  metadata = none;
  path = slash ∷ [];
  depth = negsuc 0;
  child_count = 0;
  file_count = 0;
  folder_count = 0;
  subtree_size = 0;
  current_version_id = none;
  version_count = 0;
  trashed_at = none;
  original_parent_id = nil_id;
  created_by = nil_id;
  updated_by = nil_id;
  created_at = 0;
  updated_at = 0;
}

-- The loop of `Chain`, with the rounds that are left: it stops at the root or at a missing parent.
-- The ancestors stand from the root down.
unfoldable pub chain_loop : Db → ℕ → Node → List Node → List Node
chain_loop db zero cur above = above
chain_loop db (suc rounds) cur above =
    if cur.parent_id == nil_id then above else elim (find_node cur.parent_id db) [
      | none ↦ above
      | some parent ↦ chain_loop db rounds parent (parent ∷ above)
    ]

-- The entries that `ListAclForNodes` reads.
abbrev pub acl_of : List Uuid → Db → Uuid → List AclEntry
acl_of ids db = elim (list_acl_for_nodes ids db).0 [ ok acl ↦ acl | err _ ↦ λ _. [] ]

module _ (platform : Platform) (uc : NodeUsecase) where
  unfoldable pub chain : Node → Db → AccessChain
  unfolding chain_loop list_acl_for_nodes
  chain node db =
      let above = chain_loop db (pos_part uc.max_depth) node [] in
      record { ancestors = above; acl = acl_of (node.id ∷ map (λ a. a.id) above) db }

  unfoldable pub evaluate : Caller → Node → Db → NodeAccess
  unfolding chain
  evaluate c node db = evaluate_node_access platform.uuid_text (record {
    caller = some c;
    node = some node;
    ancestors = (chain node db).ancestors;
    acl_by_node = (chain node db).acl;
  })

  -- `out[c.ID] = EvaluateNodeAccess(…)` for each child.
  evaluations :
      Caller
      → List Node
      → (Uuid → List AclEntry)
      → List Node
      → (Uuid → NodeAccess)
      → Uuid
      → NodeAccess
  evaluations c above acl [] out = out
  evaluations c above acl (n ∷ rest) out =
      let access =
        evaluate_node_access platform.uuid_text
          (record { caller = some c; node = some n; ancestors = above; acl_by_node = acl }) in
      evaluations c above acl rest (λ id. if id == n.id then access else out id)

  -- The ancestors that a listing evaluates its rows with.
  unfoldable pub shared_ancestors : Option Node → Db → List Node
  unfolding chain
  shared_ancestors none db = []
  shared_ancestors (some p) db = (chain p db).ancestors ++ p ∷ []

  unfoldable pub evaluate_nodes : Caller → Option Node → List Node → Db → Uuid → NodeAccess
  unfolding evaluations shared_ancestors list_acl_for_nodes
  evaluate_nodes c parent children db =
      evaluations c (shared_ancestors parent db) (acl_of (map (λ n. n.id) children) db) children
        (λ _. no_access)

  unfoldable pub require_access : Caller → Uuid → PermMask → Tx (Node × NodeAccess)
  unfolding find_node_by_id evaluate
  require_access c id want = do
    node ← find_node_by_id id
    guard (not (is_trashed_status node.status && not (caller_has c perm_trash_manage)))
        Error.not_found
    db ← get_db
    let access = evaluate c node db
    guard (not access.locked) Error.node_locked
    guard (has access.perms want) Error.permission_denied
    pure (node, access)

  unfoldable pub require_view : Caller → Uuid → Tx (Node × NodeAccess)
  unfolding find_node_by_id evaluate
  require_view c id = do
    node ← find_node_by_id id
    db ← get_db
    let access = evaluate c node db
    guard (not access.locked) Error.node_locked
    guard (has access.perms perm_view) Error.permission_denied
    pure (node, access)

  unfoldable pub get_node : Caller → Uuid → Tx (Node × NodeAccess)
  unfolding find_node_by_id evaluate
  get_node c id = do
    guard (not (id == nil_id)) Error.invalid_argument
    guard (is_authenticated c) Error.unauthenticated
    node ← find_node_by_id id
    db ← get_db
    let access = evaluate c node db
    guard (not (is_zero access.perms)) Error.permission_denied
    pure (node, access)

  -- A folder that the caller may write in; the nil id stands for the virtual root.
  unfoldable pub writable_folder : Caller → Uuid → Tx Node
  writable_folder c parent_id = do
    parent ← find_node_by_id parent_id
    guard (is_folder_kind parent.kind) Error.invalid_argument
    guard (not (is_trashed_status parent.status)) Error.invalid_argument
    db ← get_db
    let access = evaluate c parent db
    guard (not access.locked) Error.node_locked
    guard (has access.perms perm_upload) Error.permission_denied
    pure parent

  unfoldable pub load_writable_parent : Caller → Uuid → Tx Node
  unfolding writable_folder find_node_by_id evaluate
  load_writable_parent c parent_id =
      if parent_id == nil_id then pure root_node else writable_folder c parent_id
