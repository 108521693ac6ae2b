-- ===== src/Tree/Listing.antt =====
-- internal/biz/node.go: listing a folder, the trash listing, search, and the recursive tree.
use nagisa.Prelude.{
  ℕ, Bool, true, not, ◌&&◌, ◌||◌, Option, none, some, List, [], ◌∷◌, map, keep, take, drop, Text,
  is_empty, length, ltb, ◌==◌, if◌then◌else◌, trim_space, contains_text, has_prefix,
}
use nagisa.Prelude.Int.{ℤ, pos, ◌+ℤ◌, ◌-ℤ◌, leb_ℤ, ltb_ℤ, pos_part}
use nagisa.Errors.{Error}
use nagisa.Perm.{NodeKind, NodeStatus, perm_view, perm_trash_manage, has}
use nagisa.Access.{
  Uuid, nil_id, Caller, Node, NodeAccess, is_authenticated, is_super_admin, caller_has,
}
use nagisa.Store.{
  Platform, Db, Tx, pure, guard, get_db, ◌>>=◌, ◌>>◌, list_nodes, count_nodes, NodeQuery, any_node,
  ListOption, resolve_list_options,
}
use nagisa.Tree.Config.{NodeUsecase}
use nagisa.Tree.Chain.{evaluate, evaluate_nodes, require_view}
use nagisa.Tree.Moves.{Outcome}

pub record ListNodesInput : Type 0 where
  pub parent_id : Uuid
  pub recursive : Bool
  pub max_depth : ℤ
  pub include_trashed : Bool

-- A row that the caller may view and that is not locked.
abbrev is_open_to : Outcome → Bool
is_open_to o = has o.access.perms perm_view && not o.access.locked

module _ (platform : Platform) (uc : NodeUsecase) where
  -- The folder that is listed, if any.
  listed_folder : Caller → Uuid → Tx (Option Node)
  listed_folder c parent_id =
      if parent_id == nil_id
      then pure none
      else do (parent, access) ← require_view platform uc c parent_id; pure (some parent)

  abbrev depth_limit : ListNodesInput → Node → ℤ
  depth_limit i parent =
      (if leb_ℤ i.max_depth (pos 0) then uc.max_depth -ℤ parent.depth else i.max_depth)
      +ℤ parent.depth

  children_query : Caller → ListNodesInput → NodeQuery
  children_query c i = record any_node {
    parent_id = some i.parent_id;
    include_trashed = i.include_trashed && caller_has c perm_trash_manage;
  }

  unfoldable pub listing_query : Caller → ListNodesInput → Option Node → NodeQuery
  unfolding children_query
  listing_query c i none = children_query c i
  listing_query c i (some parent) =
      if i.recursive
      then record (children_query c i) {
        parent_id = none;
        path_prefix = parent.path;
        max_depth = depth_limit i parent;
      }
      else children_query c i

  -- A row with no access at all is dropped; a locked one is kept.
  abbrev is_listed : NodeAccess → Bool
  is_listed a = a.locked || has a.perms perm_view

  outcomes : (Uuid → NodeAccess) → List Node → List Outcome
  outcomes access [] = []
  outcomes access (n ∷ rest) =
      let later = outcomes access rest in
      if is_listed (access n.id) then record { node = n; access = access n.id } ∷ later else later

  unfoldable pub list_folder : Caller → ListNodesInput → List (ListOption Node) → Tx (List Outcome)
  unfolding listed_folder listing_query outcomes
  list_folder c i opts = do
    guard (is_authenticated c) Error.unauthenticated
    parent ← listed_folder c i.parent_id
    nodes ← list_nodes platform (listing_query c i parent) opts
    db ← get_db
    pure (outcomes (evaluate_nodes platform uc c parent nodes db) nodes)

  unfoldable pub count_folder : Caller → ListNodesInput → Tx ℕ
  unfolding listed_folder children_query
  count_folder c i = do
    guard (is_authenticated c) Error.unauthenticated
    parent ← listed_folder c i.parent_id
    count_nodes platform (children_query c i) []

  abbrev with_access : Caller → Db → List Node → List Outcome
  with_access c db rows = map (λ n. record { node = n; access = evaluate platform uc c n db }) rows

  unfoldable pub trash_query : Caller → Uuid → NodeQuery
  trash_query c parent = record any_node {
    status = some NodeStatus.trashed;
    include_trashed = true;
    parent_id = if parent == nil_id then none else some parent;
    trash_roots = parent == nil_id;
    owner_id = if is_super_admin c then none else some c.user_id;
  }

  unfoldable pub list_trash : Caller → Uuid → List (ListOption Node) → Tx (List Outcome × ℕ)
  unfolding trash_query
  list_trash c parent opts = do
    guard (is_authenticated c) Error.unauthenticated
    nodes ← list_nodes platform (trash_query c parent) opts
    total ← count_nodes platform (trash_query c parent) []
    db ← get_db
    pure (with_access c db nodes, total)

  unfoldable pub tree_query : Caller → ℤ → Option Node → NodeQuery
  tree_query c depth none = record any_node { owner_id = some c.user_id }
  tree_query c depth (some root) = record any_node {
    path_prefix = root.path;
    exclude_ids = root.id ∷ [];
    max_depth = root.depth +ℤ depth;
  }

  unfoldable pub tree : Caller → Uuid → ℤ → Tx (List Outcome)
  unfolding listed_folder tree_query
  tree c root_id wanted = do
    guard (is_authenticated c) Error.unauthenticated
    let at_least = if leb_ℤ wanted (pos 0) then pos 1 else wanted
    let depth = if ltb_ℤ uc.max_depth at_least then uc.max_depth else at_least
    root ← listed_folder c root_id
    nodes ← list_nodes platform (tree_query c depth root) (ListOption.list_limit (pos 5000) ∷ [])
    db ← get_db
    pure (keep is_open_to (with_access c db nodes))

pub record SearchNodesInput : Type 0 where
  pub query : Text
  pub scope_node_id : Uuid
  pub kind : NodeKind
  pub mime_type : Text
  pub owner_id : Uuid
  pub min_size : ℤ
  pub max_size : ℤ
  pub updated_after : Option ℕ
  pub updated_before : Option ℕ
  pub match_description : Bool

module _ (platform : Platform) (uc : NodeUsecase) where
  open platform use {to_lower}

  abbrev some_kind : NodeKind → Option NodeKind
  some_kind NodeKind.unspecified = none
  some_kind k = some k

  abbrev is_after : Option ℕ → ℕ → Bool
  is_after none at = true
  is_after (some from) at = not (ltb at from)

  abbrev is_before : Option ℕ → ℕ → Bool
  is_before none at = true
  is_before (some until) at = not (ltb until at)

  -- The tests of the loop, the needle trimmed and in lower case.
  unfoldable pub is_match : SearchNodesInput → Node → Bool
  is_match i n =
      let needle = to_lower (trim_space i.query) in
      (is_empty needle
        || contains_text (if i.match_description then to_lower n.description else to_lower n.name)
            needle)
      && (is_empty i.mime_type || has_prefix n.mime_type i.mime_type)
      && not (ltb_ℤ (pos 0) i.min_size && ltb_ℤ (pos n.size) i.min_size)
      && not (ltb_ℤ (pos 0) i.max_size && ltb_ℤ i.max_size (pos n.size))
      && is_after i.updated_after n.updated_at
      && is_before i.updated_before n.updated_at

  search_query : SearchNodesInput → Option Node → NodeQuery
  search_query i scope = record any_node {
    path_prefix = elim scope [ none ↦ [] | some s ↦ s.path ];
    kind = some_kind i.kind;
    owner_id = if i.owner_id == nil_id then none else some i.owner_id;
  }

  unfoldable pub search_nodes :
      Caller → SearchNodesInput → List (ListOption Node) → Tx (List Outcome × ℕ)
  unfolding listed_folder search_query is_match
  search_nodes c i opts = do
    guard (is_authenticated c) Error.unauthenticated
    let page_options = resolve_list_options (pos 50) opts
    scope ← listed_folder platform uc c i.scope_node_id
    nodes ← list_nodes platform (search_query i scope) (ListOption.list_limit (pos 5000) ∷ [])
    db ← get_db
    let matched = keep is_open_to (with_access platform uc c db (keep (is_match i) nodes))
    pure (
      take (pos_part page_options.limit) (drop (pos_part page_options.offset) matched),
      length matched,
    )
