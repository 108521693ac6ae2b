-- ===== src/Access/Model.antt =====
-- The types that access rules read: internal/biz/access.go (Caller, NodeAccess) and
-- internal/biz/node.go (Node, AclEntry).
use nagisa.Prelude.{
  ℕ, Bool, true, false, not, ◌&&◌, Option, none, some, List, [], Text, contains, ◌==◌, is_empty,
  if◌then◌else◌,
}
use nagisa.Prelude.Int.{ℤ, pos}
use nagisa.Errors.{Error}
use nagisa.Perm.{
  PermMask, Role, UserStatus, NodeKind, NodeStatus, Visibility, SubjectType, Effect, perm_none, has,
  has_any, is_admin, is_folder_kind, is_file_kind,
}

abbrev pub Uuid : Type 0
Uuid = ℕ

abbrev pub nil_id : Uuid
nil_id = 0

-- The instants and the transport fields of the source are numbers and texts that only pass through.
pub record Caller : Type 0 where
  pub user_id : Uuid
  pub username : Text
  pub nickname : Text
  pub role : Role
  pub rank : ℤ
  pub perms : PermMask
  pub status : UserStatus
  pub anonymous : Bool
  pub share_token : Text
  pub share_id : Uuid
  pub unlocked : List Uuid
  pub ip : Text
  pub user_agent : Text
  pub request_id : Text

abbrev pub anonymous_caller : Caller
anonymous_caller = record {
  user_id = nil_id;
  username = [];
  nickname = [];
  role = Role.guest;
  rank = pos 0;
  perms = perm_none;
  status = UserStatus.unspecified;
  anonymous = true;
  share_token = [];
  share_id = nil_id;
  unlocked = [];
  ip = [];
  user_agent = [];
  request_id = [];
}

pub record Node : Type 0 where
  pub id : Uuid
  pub parent_id : Uuid
  pub name : Text
  pub name_lower : Text
  pub kind : NodeKind
  pub owner_id : Uuid
  pub size : ℕ
  pub mime_type : Text
  pub extension : Text
  pub etag : Text
  pub storage_key : Text
  pub status : NodeStatus
  pub description : Text
  pub visibility : Visibility
  pub password_hash : Text
  pub password_hint : Text
  pub has_thumbnail : Bool
  pub metadata : Option (List (Text × Text))
  pub path : Text
  pub depth : ℤ
  pub child_count : ℕ
  pub file_count : ℕ
  pub folder_count : ℕ
  pub subtree_size : ℕ
  pub current_version_id : Option Uuid
  pub version_count : ℕ
  pub trashed_at : Option ℕ
  pub original_parent_id : Uuid
  pub created_by : Uuid
  pub updated_by : Uuid
  pub created_at : ℕ
  pub updated_at : ℕ

abbrev pub is_folder : Node → Bool
is_folder n = is_folder_kind n.kind

abbrev pub is_file : Node → Bool
is_file n = is_file_kind n.kind

pub record AclEntry : Type 0 where
  pub id : Uuid
  pub node_id : Uuid
  pub subject_type : SubjectType
  pub subject_id : Text
  pub effect : Effect
  pub permissions : PermMask
  pub inherit : Bool
  pub created_by : Uuid
  pub created_at : ℕ

unfoldable pub is_authenticated : Caller → Bool
is_authenticated c = not c.anonymous && not (c.user_id == nil_id)

unfoldable pub caller_has : Caller → PermMask → Bool
unfolding has
caller_has c want = not c.anonymous && has c.perms want

unfoldable pub is_super_admin : Caller → Bool
unfolding is_authenticated
is_super_admin c = is_authenticated c && is_admin c.role

unfoldable pub caller_has_any : Caller → PermMask → Bool
unfolding has_any
caller_has_any c want = not c.anonymous && has_any c.perms want

-- `none` is the nil error.
unfoldable pub require : Caller → PermMask → Option Error
unfolding is_authenticated has
require c want =
    if not (is_authenticated c)
    then some Error.unauthenticated
    else if not (has c.perms want)
    then some Error.permission_denied
    else none

unfoldable pub is_unlocked : Caller → Uuid → Bool
is_unlocked c node_id = contains node_id c.unlocked

-- A non-empty password hash.
abbrev pub is_protected : Node → Bool
is_protected n = not (is_empty n.password_hash)

pub record NodeAccess : Type 0 where
  pub perms : PermMask
  pub locked : Bool
  pub locked_by : Uuid
  pub owned : Bool
  pub visibility : Visibility

abbrev pub no_access : NodeAccess
no_access = record {
  perms = perm_none;
  locked = false;
  locked_by = nil_id;
  owned = false;
  visibility = Visibility.unspecified;
}

-- Pointers of the source that may be nil are options; `acl_by_node` is the source's map.
pub record NodeAccessInput : Type 0 where
  pub caller : Option Caller
  pub node : Option Node
  pub ancestors : List Node
  pub acl_by_node : Uuid → List AclEntry
