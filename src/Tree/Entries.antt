-- ===== src/Tree/Entries.antt =====
-- internal/biz/node.go: reading and replacing the entries of a node, and unlocking one by its password.
use nagisa.Prelude.{
  Bool, true, false, not, ◌&&◌, Option, none, some, List, [], ◌∷◌, ◌++◌, Text, keep, is_empty,
  trim_space, ◌==◌, if◌then◌else◌,
}
use nagisa.Errors.{Error}
use nagisa.Perm.{
  SubjectType, Effect, perm_node_scope, perm_acl_manage, has, remove, is_zero, is_folder_kind,
}
use nagisa.Access.{Uuid, nil_id, Caller, Node, AclEntry, NodeAccess, is_authenticated}
use nagisa.Store.{
  Platform, Tx, pure, raise, guard, or_error, get_db, with_tx, ◌>>=◌, ◌>>◌, find_node_by_id,
  list_nodes, any_node, list_acl, replace_acl,
}
use nagisa.Tree.Config.{NodeUsecase}
use nagisa.Tree.Chain.{chain, evaluate}
use nagisa.Tree.Folders.{prepare_acl}

pub record SetNodeAclInput : Type 0 where
  pub node_id : Uuid
  pub entries : List AclEntry
  pub recursive : Bool

abbrev names_subject : AclEntry → Bool
names_subject e = elim e.subject_type [
  | SubjectType.everyone ↦ true
  | SubjectType.user ↦ not (is_empty (trim_space e.subject_id))
  | SubjectType.role ↦ not (is_empty (trim_space e.subject_id))
  | SubjectType.unspecified ↦ false
]

abbrev decides : Effect → Bool
decides Effect.allow = true
decides Effect.deny = true
decides Effect.unspecified = false

-- The test of one entry in `SetNodeAcl`.
unfoldable pub entry_error : Caller → AclEntry → Option Error
entry_error c e =
    if not (is_zero (remove e.permissions perm_node_scope))
    then some Error.invalid_argument
    else if not (has c.perms e.permissions)
    then some Error.permission_denied
    else if not (names_subject e)
    then some Error.invalid_argument
    else if not (decides e.effect)
    then some Error.invalid_argument
    else none

unfoldable pub entries_error : Caller → List AclEntry → Option Error
entries_error c [] = none
entries_error c (e ∷ rest) =
    let later = entries_error c rest in elim (entry_error c e) [ some x ↦ some x | none ↦ later ]

abbrev is_inherited : AclEntry → Bool
is_inherited e = elim e.effect [ Effect.deny ↦ true | _ ↦ e.inherit ]

unfoldable pub inherited_entries : List Node → (Uuid → List AclEntry) → List AclEntry
inherited_entries [] acl = []
inherited_entries (a ∷ rest) acl = keep is_inherited (acl a.id) ++ inherited_entries rest acl

-- The outermost folder with a password, or the node.
unfoldable pub lock_owner : Node → List Node → Node
lock_owner node [] = node
lock_owner node (a ∷ rest) = if not (is_empty a.password_hash) then a else lock_owner node rest

-- The end of `Unlock`; the verifier of passwords may be nil.
unfoldable pub open_lock : Option (Text → Text → Bool) → Node → Text → Tx Node
open_lock verify target password =
    if is_empty target.password_hash
    then pure target
    else if is_empty password
    then raise Error.node_locked
    else elim verify [
      | none ↦ raise Error.permission_denied
      | some fits ↦
          if fits target.password_hash password then pure target else raise Error.permission_denied
    ]

module _ (platform : Platform) where
  -- The same entries on every row below.
  unfoldable pub clone_entries : Caller → List AclEntry → List Node → Tx (Unit {0})
  clone_entries c entries [] = pure tt
  clone_entries c entries (child ∷ rest) = do
    cloned ← prepare_acl c child.id entries
    replace_acl platform child.id cloned
    clone_entries c entries rest

  unfoldable pub spread_entries : Caller → SetNodeAclInput → Node → Tx (Unit {0})
  spread_entries c i node = if not (i.recursive && is_folder_kind node.kind) then pure tt else do
    below ←
        list_nodes platform
          (record any_node { path_prefix = node.path; exclude_ids = node.id ∷ [] }) []
    clone_entries c i.entries below

  module _ (uc : NodeUsecase) where
    -- The transaction of `SetNodeAcl`.
    unfoldable pub set_node_acl_tx : Caller → SetNodeAclInput → Tx (List AclEntry × NodeAccess)
    set_node_acl_tx c i = do
      node ← find_node_by_id i.node_id
      db ← get_db
      guard (has (evaluate platform uc c node db).perms perm_acl_manage) Error.permission_denied
      entries ← prepare_acl c i.node_id i.entries
      replace_acl platform i.node_id entries
      spread_entries c i node
      stored ← list_acl i.node_id
      after ← get_db
      pure (stored, evaluate platform uc c node after)

    -- `SetNodeAcl`.
    unfoldable pub set_node_acl : Caller → SetNodeAclInput → Tx (List AclEntry × NodeAccess)
    set_node_acl c i = do
      guard (is_authenticated c) Error.unauthenticated
      guard (not (i.node_id == nil_id)) Error.invalid_argument
      or_error (entries_error c i.entries)
      with_tx (set_node_acl_tx c i)

    -- `Acl`: the entries of the node, and those that it inherits.
    unfoldable pub node_acl : Caller → Uuid → Tx (List AclEntry × List AclEntry × NodeAccess)
    node_acl c id = do
      node ← find_node_by_id id
      db ← get_db
      let access = evaluate platform uc c node db
      guard (not (is_zero access.perms)) Error.permission_denied
      let above = chain platform uc node db
      pure (above.acl node.id, inherited_entries above.ancestors above.acl, access)

    -- `Unlock`.
    unfoldable pub unlock : Option (Text → Text → Bool) → Uuid → Text → Tx Node
    unlock verify id password = do
      guard (not (id == nil_id)) Error.invalid_argument
      node ← find_node_by_id id
      db ← get_db
      open_lock verify (lock_owner node (chain platform uc node db).ancestors) password
