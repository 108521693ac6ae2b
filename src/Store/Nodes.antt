-- ===== src/Store/Nodes.antt =====
-- internal/data/node.go: the node repository. `Node().ByID()` is the order of the table, and the
-- SQL prefix test on paths is a prefix test, since ent escapes the wildcards.
use nagisa.Prelude.{
  ℕ, zero, suc, ◌+◌, Bool, true, false, not, ◌&&◌, ◌||◌, Option, none, some, List, [], ◌∷◌, ◌++◌,
  map, Text, text_eq, has_prefix, contains_text, contains, any, keep, drop, length, is_empty, codes,
  decimal, ◌==◌, ltb, if◌then◌else◌, byte_len, slash, reverse,
}
use nagisa.Prelude.Int.{ℤ, pos, ◌+ℤ◌, ltb_ℤ, leb_ℤ}
use nagisa.Errors.{Error, ok, err}
use nagisa.Perm.{NodeKind, NodeStatus, is_active_status}
use nagisa.Access.{Uuid, nil_id, Node}
use nagisa.Store.Model.{Platform, Db}
use nagisa.Store.Options.{ListOption, resolve_list_options, page}
use nagisa.Store.Transaction.{Tx, pure, raise, or_raise}

-- internal/biz/node.go, `NodeQuery`.
pub record NodeQuery : Type 0 where
  pub parent_id : Option Uuid
  pub path_prefix : Text
  pub roots : Bool
  pub owner_id : Option Uuid
  pub status : Option NodeStatus
  pub kind : Option NodeKind
  pub names : List Text
  pub exclude_ids : List Uuid
  pub include_trashed : Bool
  pub trash_roots : Bool
  pub max_depth : ℤ

abbrev pub any_node : NodeQuery
any_node = record {
  parent_id = none;
  path_prefix = [];
  roots = false;
  owner_id = none;
  status = none;
  kind = none;
  names = [];
  exclude_ids = [];
  include_trashed = false;
  trash_roots = false;
  max_depth = pos 0;
}

abbrev pub same_status : NodeStatus → NodeStatus → Bool
same_status NodeStatus.unspecified NodeStatus.unspecified = true
same_status NodeStatus.active NodeStatus.active = true
same_status NodeStatus.trashed NodeStatus.trashed = true
same_status _ _ = false

abbrev pub same_kind : NodeKind → NodeKind → Bool
same_kind NodeKind.unspecified NodeKind.unspecified = true
same_kind NodeKind.folder NodeKind.folder = true
same_kind NodeKind.file NodeKind.file = true
same_kind _ _ = false

abbrev pub if_set {ℓ} : {A : Type ℓ} → Option A → (A → Bool) → Bool
if_set none f = true
if_set (some a) f = f a

-- The rows of a subtree, the root of it included.
abbrev pub is_below : Text → Node → Bool
is_below path n = has_prefix n.path path

unfoldable pub find_row : Uuid → List Node → Option Node
find_row id [] = none
find_row id (n ∷ rest) = let later = find_row id rest in if n.id == id then some n else later

unfoldable pub find_node : Uuid → Db → Option Node
unfolding find_row
find_node id db = find_row id db.nodes

unfoldable pub find_node_by_id : Uuid → Tx Node
unfolding find_node
find_node_by_id id db = or_raise (find_node id db) Error.not_found db

-- A row of the table takes its place by the primary key.
unfoldable pub insert_row : Node → List Node → List Node
insert_row n [] = n ∷ []
insert_row n (m ∷ rest) =
    let later = insert_row n rest in if ltb n.id m.id then n ∷ m ∷ rest else m ∷ later

-- `Update().Where(…)`: the rows that pass the test are rewritten.
abbrev pub update_rows : (Node → Bool) → (Node → Node) → Db → Db
update_rows test f db = record db { nodes = map (λ n. if test n then f n else n) db.nodes }

unfoldable pub create_node : Node → Tx Node
unfolding insert_row
create_node n db = (ok n, record db { nodes = insert_row n db.nodes })

-- The columns that an update writes: the owner and who created the row, and when, stay.
abbrev pub written : Node → Node → Node
written n row = record n {
  owner_id = row.owner_id;
  created_by = row.created_by;
  created_at = row.created_at;
}

unfoldable pub update_node : Node → Tx Node
unfolding find_node
update_node n db = elim (find_node n.id db) [
  | none ↦ (err Error.not_found, db)
  | some row ↦ (ok (written n row), update_rows (λ r. r.id == n.id) (written n) db)
]

-- Drops a prefix of the given length.
abbrev pub trim_prefix : Text → Text → Text
trim_prefix s p = if has_prefix s p then drop (length p) s else s

unfoldable pub relocate_row : Uuid → Text → Uuid → Text → ℤ → Node → Node
relocate_row id old_path new_parent_id new_path delta row =
    if row.id == id
    then record row { parent_id = new_parent_id; path = new_path; depth = row.depth +ℤ delta }
    else if is_below old_path row
    then record row { path = new_path ++ trim_prefix row.path old_path; depth = row.depth +ℤ delta }
    else row

abbrev pub or_root : Text → Text
or_root p = if is_empty p then slash ∷ [] else p

unfoldable pub relocate_subtree : Node → Uuid → Text → ℤ → Tx (Unit {0})
unfolding find_node relocate_row
relocate_subtree n new_parent_id new_path delta db = elim (find_node n.id db) [
  | none ↦ (err Error.not_found, db)
  | some _ ↦ (
    ok tt,
    record db {
      nodes = map (relocate_row n.id (or_root n.path) new_parent_id new_path delta) db.nodes;
    },
  )
]

unfoldable pub status_row : Node → NodeStatus → ℕ → Node → Node
status_row n NodeStatus.trashed at row = record row {
  status = NodeStatus.trashed;
  trashed_at = some at;
  original_parent_id = n.parent_id;
}
status_row n NodeStatus.active at row = record row {
  status = NodeStatus.active;
  trashed_at = none;
  original_parent_id = nil_id;
}
status_row n NodeStatus.unspecified at row = record row { status = NodeStatus.unspecified }

-- `at` is the given instant, or the clock where the source reads it. The result counts the rows.
unfoldable pub set_subtree_status : Node → NodeStatus → ℕ → Tx ℕ
unfolding status_row
set_subtree_status n status at db = (
  ok (length (keep (is_below n.path) db.nodes)),
  update_rows (is_below n.path) (status_row n status at) db,
)

unfoldable pub delete_nodes : List Uuid → Tx (List Node)
delete_nodes ids db = (
  ok (keep (λ n. contains n.id ids) db.nodes),
  record db { nodes = keep (λ n. not (contains n.id ids)) db.nodes },
)

abbrev at_most : ℤ → Node → Bool
at_most max_depth n = if ltb_ℤ (pos 0) max_depth then leb_ℤ n.depth max_depth else true

module _ (platform : Platform) where
  open platform use {to_lower}

  unfoldable pub rename_node : Uuid → Text → Tx (Unit {0})
  unfolding find_node
  rename_node id name db = elim (find_node id db) [
    | none ↦ (err Error.not_found, db)
    | some _ ↦ (
      ok tt,
      update_rows (λ r. r.id == id) (λ r. record r { name = name; name_lower = to_lower name }) db,
    )
  ]

  -- `nodePredicates`: the conjunction of the predicates that a query sets.
  unfoldable pub node_predicates : NodeQuery → Node → Bool
  node_predicates q n =
      (if q.roots then n.parent_id == nil_id else true)
      && if_set q.parent_id (λ p. n.parent_id == p)
      && (if q.trash_roots then n.parent_id == n.original_parent_id else true)
      && (if is_empty q.path_prefix then true else is_below q.path_prefix n)
      && if_set q.owner_id (λ o. n.owner_id == o)
      && elim q.status [
        | some s ↦ same_status n.status s
        | none ↦ if q.include_trashed then true else is_active_status n.status
      ]
      && if_set q.kind (same_kind n.kind)
      && (if is_empty q.names
          then true
          else any (λ name. text_eq n.name_lower (to_lower name)) q.names)
      && not (contains n.id q.exclude_ids)
      && at_most q.max_depth n

  unfoldable pub list_nodes : NodeQuery → List (ListOption Node) → Tx (List Node)
  unfolding node_predicates
  list_nodes q opts db =
      let o = resolve_list_options (pos 50) opts in
      (ok (page o (o.order_by (keep o.filter (keep (node_predicates q) db.nodes)))), db)

  unfoldable pub count_nodes : NodeQuery → List (ListOption Node) → Tx ℕ
  unfolding node_predicates
  count_nodes q opts db =
      let o = resolve_list_options (pos 50) opts in
      (ok (length (keep o.filter (keep (node_predicates q) db.nodes))), db)

  -- `path.Ext`: the suffix from the last dot of the last path element; the arguments are the name
  -- reversed and what has been read of it.
  unfoldable pub ext_loop : Text → Text → Text
  ext_loop [] read = []
  ext_loop (c ∷ rest) read =
      let later = ext_loop rest (c ∷ read) in
      if c == b'/' then [] else if c == b'.' then c ∷ read else later

  unfoldable pub split_name : Text → Text × Text
  unfolding ext_loop
  split_name name =
      let ext = ext_loop (reverse name) [] in
      if is_empty ext || ltb 16 (byte_len ext) || text_eq ext name
      then (name, [])
      else (reverse (drop (length ext) (reverse name)), ext)

  abbrev pub candidate : Text → Text → ℕ → Text
  candidate base ext i = base ++ (codes " (" ++ (decimal i ++ (codes ")" ++ ext)))

  -- The loop over `i` with the rounds that are left; the bound of the source is 100000.
  unfoldable pub name_loop : ℕ → ℕ → Text → Text → List Text → Tx Text
  name_loop zero i base ext taken = raise Error.name_conflict
  name_loop (suc rounds) i base ext taken =
      let later = name_loop rounds (i + 1) base ext taken in
      if any (text_eq (to_lower (candidate base ext i))) taken
      then later
      else pure (candidate base ext i)

  abbrev pub name_rounds : ℕ
  name_rounds = 99999

  unfoldable pub next_name : ℕ → Uuid → Text → Tx Text
  unfolding name_loop split_name
  next_name rounds parent_id name db =
      let (base, ext) = split_name name in
      let siblings =
        keep
          (λ n.
            (n.parent_id == parent_id)
            && is_active_status n.status
            && contains_text n.name_lower (to_lower base))
          db.nodes in
      name_loop rounds 1 base ext (map (λ n. n.name_lower) siblings) db

  unfoldable pub next_available_name : Uuid → Text → Tx Text
  unfolding next_name
  next_available_name parent_id name = next_name name_rounds parent_id name
