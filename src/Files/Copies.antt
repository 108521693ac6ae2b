-- ===== src/Files/Copies.antt =====
-- internal/biz/file.go: copies of nodes with their subtrees and objects.
use nagisa.Prelude.{
  ℕ, zero, suc, ◌+◌, not, ◌||◌, some, List, [], ◌∷◌, Text, length, is_empty, ◌==◌, if◌then◌else◌,
}
use nagisa.Prelude.Int.{pos, pos_part, ◌+ℤ◌, leb_ℤ}
use nagisa.Errors.{Error, Result, ok, err}
use nagisa.Perm.{NodeStatus, ConflictPolicy, perm_view, perm_download, has, is_folder_kind}
use nagisa.Access.{Uuid, nil_id, Caller, Node, is_file, is_authenticated}
use nagisa.Store.{Platform, any_node, list_nodes, create_node, add_usage, get_db}
use nagisa.Tree.{
  Outcome, evaluate, require_access, load_writable_parent, root_node, resolve_name, new_id,
  child_path, first_name, rest_names,
}
use nagisa.Files.World.{
  ObjectStore, World, Io, done, fail, in_db, on_objects, peek, check, ◌>>=◌, ◌>>◌,
}
use nagisa.Files.Limits.{FileUsecase, object_key}
use nagisa.Files.Quota.{check_quota}

pub record CopyNodesInput : Type 0 where
  pub ids : List Uuid
  pub target_parent_id : Uuid
  pub policy : ConflictPolicy
  pub new_names : List Text

module _ {S : Type 0} where
  -- What a failed step did to the tables is undone, and what it did to the objects stays.
  abbrev pub restore_db {ℓ} : {A : Type ℓ} → World S → Result A × World S → Result A × World S
  restore_db before (ok a, w) = (ok a, w)
  restore_db before (err e, w) = (err e, record w { db = before.db })

  -- `WithTx` around steps on tables and objects.
  unfoldable pub with_tx_io {ℓ} : {A : Type ℓ} → Io S A → Io S A
  with_tx_io m w = restore_db w (m w)

  unfoldable pub each : List Node → (Node → Io S (Unit {0})) → Io S (Unit {0})
  each [] f = done tt
  each (n ∷ rest) f = f n >> each rest f

module _ {S : Type 0} (platform : Platform) (store : ObjectStore S) (uc : FileUsecase)
    (c : Caller) where
  unfoldable pub copy_object : Text → Text → Io S (Unit {0})
  copy_object src dst = do
    check (not (is_empty src)) Error.unsupported
    found ← peek (store.get_object src)
    _ ← on_objects (store.put_object dst found.0 found.1.size found.1.content_type)
    done tt

  unfoldable pub copy_of : Node → Node → Uuid → Text → Node
  copy_of src parent id name = record root_node {
    id = id;
    parent_id = parent.id;
    name = name;
    name_lower = platform.to_lower name;
    kind = src.kind;
    owner_id = c.user_id;
    size = src.size;
    mime_type = src.mime_type;
    extension = src.extension;
    etag = src.etag;
    status = NodeStatus.active;
    description = src.description;
    visibility = src.visibility;
    password_hash = src.password_hash;
    password_hint = src.password_hint;
    metadata = src.metadata;
    path = child_path platform parent.path id;
    depth = parent.depth +ℤ pos 1;
    created_by = c.user_id;
    updated_by = c.user_id;
  }

  -- The object of a copied file, and its key.
  unfoldable pub copy_content : Node → Uuid → Io S Text
  copy_content src id = do
    in_db (check_quota c (pos src.size))
    copy_object src.storage_key (object_key platform c.user_id id)
    done (object_key platform c.user_id id)

  -- `copyTree`, with the levels that are left.
  unfoldable pub copy_tree : ℕ → Node → Node → Text → ConflictPolicy → Io S Node
  copy_tree zero src parent name policy = fail Error.invalid_argument
  copy_tree (suc rounds) src parent name policy = do
    resolved ← in_db (resolve_name platform parent.id name policy nil_id)
    id ← in_db (new_id platform)
    check (not (leb_ℤ uc.nodes.max_depth (parent.depth +ℤ pos 1))) Error.invalid_argument
    key ← if is_file src then copy_content src id else done []
    saved ← in_db (create_node (record (copy_of src parent id resolved) { storage_key = key }))
    let below : Io S (Unit {0}) = do
      children ← in_db (list_nodes platform (record any_node { parent_id = some src.id }) [])
      each children (λ child. copy_tree rounds child saved child.name policy >>= λ _. done tt)
      in_db (add_usage c.user_id (pos 0) (pos 0) (pos 1))
    let single : Io S (Unit {0}) = in_db (add_usage c.user_id (pos src.size) (pos 1) (pos 0))
    if is_folder_kind src.kind then below else single
    done saved

  unfoldable pub copy_one : Node → ConflictPolicy → Uuid → Text → Io S Outcome
  copy_one target policy id new_name = do
    found ← in_db (require_access platform uc.nodes c id perm_view)
    check (has found.1.perms perm_download) Error.permission_denied
    let name = if is_empty new_name then found.0.name else new_name
    copied ← copy_tree (pos_part uc.nodes.max_depth + 1) found.0 target name policy
    db ← in_db get_db
    done (record { node = copied; access = evaluate platform uc.nodes c copied db })

  unfoldable pub copy_loop : Node → ConflictPolicy → List Uuid → List Text → Io S (List Outcome)
  copy_loop target policy [] names = done []
  copy_loop target policy (id ∷ ids) names = do
    out ← copy_one target policy id (first_name platform uc.nodes names)
    outs ← copy_loop target policy ids (rest_names platform uc.nodes names)
    done (out ∷ outs)

  -- `CopyNodes`.
  unfoldable pub copy_nodes : CopyNodesInput → Io S (List Outcome)
  copy_nodes i = do
    check (is_authenticated c) Error.unauthenticated
    check (not (is_empty i.ids)) Error.invalid_argument
    check (is_empty i.new_names || (length i.new_names == length i.ids)) Error.invalid_argument
    target ← in_db (load_writable_parent platform uc.nodes c i.target_parent_id)
    with_tx_io (copy_loop target i.policy i.ids i.new_names)
