-- ===== src/Tree/Naming.antt =====
-- internal/biz/node.go: node names, the conflict policy, and the materialised path.
use nagisa.Prelude.{
  ℕ, Bool, true, false, not, ◌&&◌, ◌||◌, some, List, [], ◌∷◌, ◌++◌, Text, codes, text_eq, any,
  is_empty, ends_with_slash, trim_space, byte_len, ◌==◌, if◌then◌else◌, slash,
}
use nagisa.Prelude.Int.{ℤ, pos, negsuc, ltb_ℤ}
use nagisa.Errors.{Error}
use nagisa.Perm.{ConflictPolicy, is_folder_kind, is_trashed_status}
use nagisa.Access.{Uuid, nil_id, Node}
use nagisa.Store.{
  Platform, Tx, pure, raise, guard, ◌>>=◌, ◌>>◌, NodeQuery, any_node, ListOption, list_nodes,
  next_available_name, find_node_by_id,
}
use nagisa.Tree.Config.{NodeUsecase}

-- `strings.ContainsAny(name, "/\\\x00")`.
abbrev pub is_forbidden : ℕ → Bool
is_forbidden c = (c == b'/') || (c == 0x5c) || (c == 0)

abbrev pub is_rename : ConflictPolicy → Bool
is_rename ConflictPolicy.rename = true
is_rename _ = false

module _ (platform : Platform) where
  open platform use {uuid_text, to_lower}

  unfoldable pub child_path : Text → Uuid → Text
  unfolding ends_with_slash
  child_path parent_path id =
      let start = if is_empty parent_path then slash ∷ [] else parent_path in
      let parent = if ends_with_slash start then start else start ++ slash ∷ [] in
      parent ++ (uuid_text id ++ slash ∷ [])

  module _ (uc : NodeUsecase) where
    unfoldable pub normalize_name : Text → Tx Text
    unfolding trim_space byte_len
    normalize_name raw = do
      let name = trim_space raw
      guard (not (is_empty name || text_eq name (codes ".") || text_eq name (codes "..")))
          Error.invalid_argument
      guard (not (any is_forbidden name)) Error.invalid_argument
      guard (not (ltb_ℤ uc.max_name (pos (byte_len name)))) Error.invalid_argument
      pure name

    unfoldable pub fold_name : Text → Text
    fold_name name = if uc.case_fold then to_lower name else name

  -- The siblings that a name would collide with; the source asks for one.
  abbrev pub siblings_query : Uuid → Text → Uuid → NodeQuery
  siblings_query parent_id name exclude = record any_node {
    parent_id = some parent_id;
    names = name ∷ [];
    exclude_ids = if exclude == nil_id then [] else exclude ∷ [];
  }

  unfoldable pub pick_name : Uuid → Text → ConflictPolicy → List Node → Tx Text
  pick_name parent_id name policy existing =
      if is_empty existing
      then pure name
      else if is_rename policy
      then next_available_name platform parent_id name
      else raise Error.name_conflict

  unfoldable pub resolve_name : Uuid → Text → ConflictPolicy → Uuid → Tx Text
  unfolding list_nodes next_available_name pick_name
  resolve_name parent_id name policy exclude = do
    existing ←
        list_nodes platform (siblings_query parent_id name exclude)
          (ListOption.list_limit (pos 1) ∷ [])
    pick_name parent_id name policy existing

  -- The path and depth of a parent folder.
  unfoldable pub parent_location : Uuid → Tx (Text × ℤ)
  unfolding find_node_by_id
  parent_location parent_id = if parent_id == nil_id then pure (slash ∷ [], negsuc 0) else do
    parent ← find_node_by_id parent_id
    guard (is_folder_kind parent.kind && not (is_trashed_status parent.status))
        Error.invalid_argument
    pure (parent.path, parent.depth)
