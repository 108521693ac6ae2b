-- ===== src/Access.antt =====
-- internal/biz/access.go: `EvaluateNodeAccess`, `effectiveVisibility`, `aclMatches`, `RoleName` and
-- `ShareGrant`, over the types of Access/Model.antt. A uuid is a number with `uuid.Nil` as 0; how a
-- uuid is written as text is a parameter (`uuid_text`).
mod Model
pub mod Digits
pub mod Bounds
pub mod Lock
pub mod Visible
pub mod Unlocking
pub mod Sample
mod Tests
unfoldable pub use Model.*
use nagisa.Prelude.{
  ℕ, ◌+◌, Bool, true, false, not, ◌&&◌, ◌||◌, Option, none, some, List, [], ◌∷◌, Text, codes,
  text_eq, map, is_some, ltb, leb, ◌==◌, if◌then◌else◌,
}
use nagisa.Prelude.Bits.{and_not}
use nagisa.Perm.{
  PermMask, Role, Visibility, SubjectType, Effect, perm_none, perm_view, perm_read, perm_node_scope,
  perm_share_scope, intersect, add, is_zero, default_perms_for, visibility_value,
}

unfoldable pub role_name : Role → Text
role_name Role.admin = codes "admin"
role_name Role.manager = codes "manager"
role_name Role.user = codes "user"
role_name Role.guest = codes "guest"
role_name Role.unspecified = []

-- `strings.EqualFold` against an ASCII text: besides the capitals, the long s (U+017F) and the Kelvin
-- sign (U+212A) fold to ASCII letters, and no other code point does.
fold_code : ℕ → ℕ
fold_code c =
    if leb b'A' c && leb c b'Z'
    then c + 32
    else if c == 0x17f
    then b's'
    else if c == 0x212a
    then b'k'
    else c

equal_fold_ascii : Text → Text → Bool
unfolding fold_code
equal_fold_ascii s t = text_eq (map fold_code s) (map fold_code t)

-- The zero value of a visibility counts as private.
unfoldable pub or_private : Visibility → Visibility
or_private Visibility.unspecified = Visibility.private
or_private v = v

visibility_loop : Visibility → List Node → Visibility
unfolding or_private
visibility_loop vis [] = vis
visibility_loop vis (a ∷ rest) =
    let v = or_private a.visibility in
    visibility_loop (if ltb (visibility_value v) (visibility_value vis) then v else vis) rest

unfoldable pub effective_visibility : Node → List Node → Visibility
unfolding visibility_loop or_private
effective_visibility node ancestors = visibility_loop (or_private node.visibility) ancestors

-- The first ancestor, from the root, whose password the caller has not supplied.
lock_loop : Caller → List Node → Option Uuid
lock_loop c [] = none
lock_loop c (n ∷ rest) =
    let later = lock_loop c rest in
    if is_protected n && not (is_unlocked c n.id) then some n.id else later

-- The lock after the loop over the ancestors and the test of the node itself.
unfoldable pub find_lock : Caller → Node → List Node → Option Uuid
unfolding lock_loop is_unlocked
find_lock c node ancestors = elim (lock_loop c ancestors) [
  | some id ↦ some id
  | none ↦ if is_protected node && not (is_unlocked c node.id) then some node.id else none
]

pub record Masks : Type 0 where
  pub allowed : PermMask
  pub denied : PermMask

abbrev pub is_deny : Effect → Bool
is_deny Effect.deny = true
is_deny _ = false

unfoldable pub visibility_grant : Caller → Visibility → PermMask
unfolding is_authenticated
visibility_grant c Visibility.public = perm_read
visibility_grant c Visibility.internal = if is_authenticated c then perm_read else perm_none
visibility_grant c _ = perm_none

-- An anonymous caller has the ceiling of a guest.
unfoldable pub ceiling : Caller → PermMask
unfolding is_authenticated default_perms_for
ceiling c = if is_authenticated c then c.perms else default_perms_for Role.guest

-- `(granted | allowed) &^ denied`, then the scope, the ceiling and the lock.
settle : PermMask → Masks → PermMask → Bool → PermMask
settle granted m most locked =
    let perms =
      intersect (intersect (and_not (add granted m.allowed) m.denied) perm_node_scope) most in
    if locked then intersect perms perm_view else perms

unfoldable pub or_anonymous : Option Caller → Caller
or_anonymous none = anonymous_caller
or_anonymous (some c) = c

module _ (uuid_text : Uuid → Text) where
  unfoldable pub acl_matches : AclEntry → Caller → Bool
  unfolding is_authenticated role_name equal_fold_ascii
  acl_matches e c = if is_zero e.permissions then false else elim e.subject_type [
    | SubjectType.everyone ↦ true
    | SubjectType.user ↦ is_authenticated c && text_eq e.subject_id (uuid_text c.user_id)
    | SubjectType.role ↦ is_authenticated c && equal_fold_ascii e.subject_id (role_name c.role)
    | SubjectType.unspecified ↦ false
  ]

  -- An entry on the node itself always applies.
  own_step : Caller → AclEntry → Masks → Masks
  own_step c e m =
      if not (acl_matches e c)
      then m
      else if is_deny e.effect
      then record m { denied = add m.denied e.permissions }
      else record m { allowed = add m.allowed e.permissions }

  own_loop : Caller → List AclEntry → Masks → Masks
  unfolding own_step
  own_loop c [] m = m
  own_loop c (e ∷ rest) m = own_loop c rest (own_step c e m)

  -- An entry on an ancestor: a deny reaches down, an allow only if it is inheritable.
  inherited_step : Caller → AclEntry → Masks → Masks
  inherited_step c e m =
      if not (acl_matches e c)
      then m
      else if is_deny e.effect
      then record m { denied = add m.denied e.permissions }
      else if e.inherit
      then record m { allowed = add m.allowed e.permissions }
      else m

  inherited_loop : Caller → List AclEntry → Masks → Masks
  unfolding inherited_step
  inherited_loop c [] m = m
  inherited_loop c (e ∷ rest) m = inherited_loop c rest (inherited_step c e m)

  ancestor_loop : Caller → (Uuid → List AclEntry) → List Node → Masks → Masks
  ancestor_loop c acl [] m = m
  ancestor_loop c acl (a ∷ rest) m = ancestor_loop c acl rest (inherited_loop c (acl a.id) m)

  collect_masks : Caller → Node → List Node → (Uuid → List AclEntry) → Masks
  unfolding own_loop inherited_loop ancestor_loop
  collect_masks c node ancestors acl =
      ancestor_loop c acl ancestors
        (own_loop c (acl node.id) (record { allowed = perm_none; denied = perm_none }))

  -- The access of a caller who neither administers the instance nor owns the node.
  pub stranger_access : Caller → Node → List Node → (Uuid → List AclEntry) → NodeAccess
  unfolding effective_visibility find_lock visibility_grant ceiling collect_masks settle
  stranger_access c node ancestors acl =
      let vis = effective_visibility node ancestors in
      let lock = find_lock c node ancestors in
      record {
        perms =
            settle (visibility_grant c vis) (collect_masks c node ancestors acl) (ceiling c)
              (is_some lock);
        locked = is_some lock;
        locked_by = elim lock [ some id ↦ id | none ↦ 0 ];
        owned = false;
        visibility = vis;
      }

  evaluate_for : Caller → Node → List Node → (Uuid → List AclEntry) → NodeAccess
  unfolding is_super_admin is_authenticated effective_visibility find_lock stranger_access
  evaluate_for c node ancestors acl =
      if is_super_admin c
      then record {
        perms = intersect perm_node_scope c.perms;
        locked = false;
        locked_by = 0;
        owned = node.owner_id == c.user_id;
        visibility = effective_visibility node ancestors;
      }
      else if is_authenticated c && node.owner_id == c.user_id
      then record {
        perms = intersect perm_node_scope c.perms;
        locked = false;
        locked_by = elim (find_lock c node ancestors) [ some id ↦ id | none ↦ 0 ];
        owned = true;
        visibility = effective_visibility node ancestors;
      }
      else stranger_access c node ancestors acl

  unfoldable pub evaluate_node_access : NodeAccessInput → NodeAccess
  unfolding evaluate_for or_anonymous
  evaluate_node_access i = elim i.node [
    | none ↦ no_access
    | some node ↦ evaluate_for (or_anonymous i.caller) node i.ancestors i.acl_by_node
  ]

-- The access that a share link conveys.
unfoldable pub share_grant : PermMask → Bool → Node → NodeAccess
share_grant perms unlocked node =
    let locked = is_protected node && not unlocked in
    let shared = intersect perms perm_share_scope in
    record {
      perms = if locked then intersect shared perm_view else shared;
      locked = locked;
      locked_by = if locked then node.id else 0;
      owned = false;
      visibility = node.visibility;
    }
