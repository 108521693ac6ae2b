-- ===== src/Tree/Purge.antt =====
-- internal/biz/node.go: permanent deletion, emptying the trash, and the release of stored objects.
use nagisa.Prelude.{
  ℕ, ◌+◌, Bool, true, false, not, Option, none, some, List, [], ◌∷◌, map, keep, codes, is_empty,
  length, ltb, ◌==◌, if◌then◌else◌,
}
use nagisa.Prelude.Int.{pos, ◌-ℤ◌}
use nagisa.Errors.{Error}
use nagisa.Perm.{NodeStatus, perm_trash_manage, has, is_trashed_status}
use nagisa.Access.{Uuid, nil_id, Caller, Node, is_authenticated, is_super_admin, is_file}
use nagisa.Store.{
  Platform, Tx, pure, raise, guard, get_db, with_tx, ◌>>=◌, ◌>>◌, find_node_by_id, list_nodes,
  delete_nodes, delete_acl_for_nodes, add_usage, set_subtree_status, NodeQuery, any_node,
  NodeVersion, ListOption, enqueue_deletion, list_versions, delete_version,
}
use nagisa.Tree.Config.{NodeUsecase}
use nagisa.Tree.Chain.{evaluate}
use nagisa.Tree.Trash.{trash_nodes}

-- The bytes, files and folders of the rows that a purge found.
abbrev pub file_bytes : List Node → ℕ
file_bytes [] = 0
file_bytes (n ∷ rest) = (if is_file n then n.size else 0) + file_bytes rest

abbrev pub file_rows : List Node → ℕ
file_rows rows = length (keep is_file rows)

abbrev pub folder_rows : List Node → ℕ
folder_rows rows = length (keep (λ n. not (is_file n)) rows)

release_versions : List NodeVersion → Tx (Unit {0})
release_versions [] = pure tt
release_versions (v ∷ rest) = do
  enqueue_deletion v.storage_key (codes "node_purge_version")
  delete_version v.id
  release_versions rest

unfoldable pub release_objects : List Node → Tx (Unit {0})
unfolding release_versions enqueue_deletion delete_version list_versions
release_objects [] = pure tt
release_objects (n ∷ rest) = do
  enqueue_deletion n.storage_key (codes "node_purge")
  versions ← list_versions n.id (ListOption.list_limit (pos 1000) ∷ [])
  release_versions versions
  release_objects rest

module _ (platform : Platform) (uc : NodeUsecase) where
  -- What `PurgeNodes` lists: no limit is passed, so the repository's own applies.
  abbrev pub subtree_query : Node → NodeQuery
  subtree_query node = record any_node { path_prefix = node.path; include_trashed = true }

  unfoldable pub purge_rows : Node → List Node → Tx ℕ
  purge_rows node subtree = do
    let all_ids = map (λ n. n.id) subtree
    removed ← delete_nodes all_ids
    delete_acl_for_nodes all_ids
    add_usage node.owner_id (pos 0 -ℤ pos (file_bytes subtree)) (pos 0 -ℤ pos (file_rows subtree))
        (pos 0 -ℤ pos (folder_rows subtree))
    release_objects removed
    pure (file_bytes subtree)

  unfoldable pub purge_one : Caller → Uuid → Tx ℕ
  unfolding purge_rows
  purge_one c id = do
    node ← find_node_by_id id
    db ← get_db
    let access = evaluate platform uc c node db
    guard (has access.perms perm_trash_manage) Error.permission_denied
    guard (is_trashed_status node.status) Error.invalid_argument
    subtree ← list_nodes platform (subtree_query node) []
    purge_rows node subtree

  unfoldable pub purge_loop : Caller → List Uuid → Tx ℕ
  unfolding purge_one
  purge_loop c [] = pure 0
  purge_loop c (id ∷ ids) = do bytes ← purge_one c id; rest ← purge_loop c ids; pure (bytes + rest)

  unfoldable pub purge_nodes : Caller → List Uuid → Tx (List Uuid × ℕ)
  unfolding purge_loop
  purge_nodes c ids = do
    guard (is_authenticated c) Error.unauthenticated
    guard (not (is_empty ids)) Error.invalid_argument
    reclaimed ← with_tx (purge_loop c ids)
    pure (ids, reclaimed)

  -- `DeleteNodes`: a permanent delete is a purge, any other moves to the trash.
  unfoldable pub delete_or_purge : Caller → ℕ → Bool → List Uuid → Tx (List Uuid × ℕ)
  unfolding trash_nodes purge_nodes
  delete_or_purge c now permanent ids = do
    guard (is_authenticated c) Error.unauthenticated
    guard (not (is_empty ids)) Error.invalid_argument
    if permanent then purge_nodes c ids else trash_nodes platform uc c now ids

  abbrev trash_tops : Caller → NodeQuery
  trash_tops c = record any_node {
    status = some NodeStatus.trashed;
    include_trashed = true;
    trash_roots = true;
    owner_id = if is_super_admin c then none else some c.user_id;
  }

  -- `before` spares what was trashed after it, or has no date.
  abbrev is_due : Option ℕ → Node → Bool
  is_due none n = true
  is_due (some before) n = elim n.trashed_at [ none ↦ false | some at ↦ not (ltb before at) ]

  purge_due : Caller → List Uuid → Tx (List Uuid × ℕ)
  purge_due c [] = pure ([], 0)
  purge_due c (id ∷ ids) = purge_nodes c (id ∷ ids)

  unfoldable pub empty_trash : Caller → Option ℕ → Tx (List Uuid × ℕ)
  unfolding purge_due purge_nodes
  empty_trash c before = do
    guard (is_authenticated c) Error.unauthenticated
    nodes ← list_nodes platform (trash_tops c) []
    purge_due c (map (λ n. n.id) (keep (is_due before) nodes))

  status_loop : ℕ → List Node → Tx ℕ
  status_loop now [] = pure 0
  status_loop now (n ∷ rest) = do
    rows ← set_subtree_status n NodeStatus.trashed now
    more ← status_loop now rest
    pure (rows + more)

  trash_all_tx : Uuid → ℕ → Tx ℕ
  unfolding status_loop
  trash_all_tx owner_id now = do
    roots ←
        list_nodes platform
          (record any_node {
            roots = true;
            owner_id = some owner_id;
            status = some NodeStatus.active;
          })
          (ListOption.list_limit (pos 10000) ∷ [])
    status_loop now roots

  unfoldable pub trash_all_for_owner : Uuid → ℕ → Tx ℕ
  unfolding trash_all_tx
  trash_all_for_owner owner_id now =
      if owner_id == nil_id
      then raise Error.invalid_argument
      else with_tx (trash_all_tx owner_id now)
