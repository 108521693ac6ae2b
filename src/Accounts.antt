-- ===== src/Accounts.antt =====
-- internal/biz/user.go: the authority rules between accounts, and creating, updating and deleting one.
pub mod Steps
pub mod Authority
mod Tests
use nagisa.Prelude.{
  ℕ, Bool, true, false, not, ◌&&◌, ◌||◌, Option, none, some, List, [], ◌∷◌, Text, codes, text_eq,
  is_empty, is_some, any, all, keep, length, leb, ltb, trim_space, ◌==◌, if◌then◌else◌,
}
use nagisa.Prelude.Int.{ℤ, pos, leb_ℤ, ltb_ℤ}
use nagisa.Errors.{Error, Result, ok, err}
use nagisa.Perm.{
  PermMask, Role, UserStatus, perm_user_manage, has, is_admin, is_active_user, role_preset_for,
  default_rank_for, default_perms_for,
}
use nagisa.Access.{Uuid, nil_id, Caller, is_authenticated, require}
use nagisa.Store.{
  Platform, Db, Tx, pure, raise, guard, or_error, with_tx, ◌>>=◌, ◌>>◌, User, find_user_by_id,
  find_user_by_username, create_user, update_user, delete_user, revoke_user_sessions, is_deleted,
}

pub record UserUsecase : Type 0 where
  pub default_quota : ℤ
  pub default_preset : Text
  pub builtin : List Text

pub record CreateUserInput : Type 0 where
  pub username : Text
  pub nickname : Text
  pub email : Text
  pub avatar_url : Text
  pub role : Role
  pub rank : ℤ
  pub permissions : PermMask
  pub permissions_set : Bool
  pub quota_bytes : ℤ
  pub remark : Text
  pub password_hash : Text
  pub enabled : Bool
  pub must_change_password : Bool

pub record UpdateUserInput : Type 0 where
  pub id : Uuid
  pub nickname : Option Text
  pub email : Option Text
  pub avatar_url : Option Text
  pub remark : Option Text
  pub role : Option Role
  pub rank : Option ℤ
  pub permissions : Option PermMask
  pub status : Option UserStatus
  pub quota_bytes : Option ℤ
  pub password_hash : Option Text
  pub must_change_password : Option Bool

abbrev set_or {ℓ} : {A : Type ℓ} → Option A → A → A
set_or none a = a
set_or (some b) a = b

-- `none` is the nil error; the caller and the target are never nil here.
unfoldable pub can_manage_user : Caller → User → Option Error
can_manage_user actor target =
    if not (is_authenticated actor)
    then some Error.unauthenticated
    else if target.id == actor.user_id
    then some Error.permission_denied
    else if not (ltb_ℤ target.rank actor.rank)
    then some Error.permission_denied
    else none

-- `^[A-Za-z0-9][A-Za-z0-9_.-]{1,31}$`.
abbrev is_alphanumeric : ℕ → Bool
is_alphanumeric c =
    (leb b'A' c && leb c b'Z') || (leb b'a' c && leb c b'z') || (leb b'0' c && leb c b'9')

abbrev is_username : Text → Bool
is_username [] = false
is_username (c ∷ rest) =
    is_alphanumeric c
    && (leb 1 (length rest) && leb (length rest) 31)
    && all (λ d. is_alphanumeric d || (d == b'_') || (d == b'.') || (d == b'-')) rest

module _ (platform : Platform) where
  open platform use {to_lower}

  unfoldable pub parse_role : Text → Option Role
  parse_role name =
      let key = to_lower (trim_space name) in
      if text_eq key (codes "admin")
      then some Role.admin
      else if text_eq key (codes "manager") || text_eq key (codes "admin_promoted")
      then some Role.manager
      else if text_eq key (codes "user") || text_eq key (codes "member")
      then some Role.user
      else if text_eq key (codes "guest")
      then some Role.guest
      else none

  unfoldable pub account_key : Text → Text
  account_key username = to_lower (trim_space username)

  unfoldable pub new_user_usecase : ℤ → Text → Text → Text → UserUsecase
  new_user_usecase quota preset admin_username guest_username = record {
    default_quota = quota;
    default_preset = preset;
    builtin =
        keep (λ key. not (is_empty key))
          (account_key admin_username ∷ account_key guest_username ∷ []);
  }

  module _ (uc : UserUsecase) where
    unfoldable pub is_builtin : User → Bool
    is_builtin u = any (text_eq (account_key u.username)) uc.builtin

    unfoldable pub pick_role : Role → Role
    pick_role Role.unspecified = set_or (parse_role uc.default_preset) Role.guest
    pick_role r = r

    abbrev wanted_rank : CreateUserInput → ℤ
    wanted_rank i = if leb_ℤ i.rank (pos 0) then default_rank_for (pick_role i.role) else i.rank

    abbrev wanted_perms : CreateUserInput → PermMask
    wanted_perms i =
        if i.permissions_set then i.permissions else default_perms_for (pick_role i.role)

    new_account : Caller → CreateUserInput → User
    new_account actor i = record {
      id = nil_id;
      username = trim_space i.username;
      nickname = if is_empty i.nickname then trim_space i.username else i.nickname;
      email = i.email;
      avatar_url = i.avatar_url;
      password_hash = i.password_hash;
      role = pick_role i.role;
      rank = wanted_rank i;
      permissions = wanted_perms i;
      status = if i.enabled then UserStatus.active else UserStatus.disabled;
      quota_bytes =
          if leb_ℤ i.quota_bytes (pos 0) && leb_ℤ (pos 0) i.quota_bytes
          then uc.default_quota
          else i.quota_bytes;
      used_bytes = 0;
      file_count = 0;
      folder_count = 0;
      remark = i.remark;
      must_change_password = i.must_change_password;
      last_login_at = none;
      created_by = actor.user_id;
      created_at = 0;
      updated_at = 0;
      locked = false;
    }

    -- The only failure of the lookup here is that there is no such account.
    pub register_new : User → Result User → Tx User
    register_new u (ok existing) = raise Error.already_exists
    register_new u (err missing) = create_user platform u

    register : User → Tx User
    unfolding register_new
    register u db = register_new u (find_user_by_username u.username db).0 db

    unfoldable pub create_account : Caller → CreateUserInput → Tx User
    unfolding register new_account
    create_account actor i = do
      or_error (require actor perm_user_manage)
      guard (is_username (trim_space i.username)) Error.invalid_argument
      guard (is_some (role_preset_for (pick_role i.role))) Error.invalid_argument
      guard (ltb_ℤ (wanted_rank i) actor.rank) Error.permission_denied
      guard (has actor.perms (wanted_perms i)) Error.permission_denied
      guard (not (is_admin (pick_role i.role) && not (is_admin actor.role))) Error.permission_denied
      with_tx (register (new_account actor i))

    pub set_role : Caller → Option Role → User → Tx User
    set_role actor none u = pure u
    set_role actor (some r) u = do
      guard (is_some (role_preset_for r)) Error.invalid_argument
      guard (not (is_admin r && not (is_admin actor.role))) Error.permission_denied
      pure (record u { role = r })

    pub set_rank : Caller → Option ℤ → User → Tx User
    set_rank actor none u = pure u
    set_rank actor (some r) u = do
      guard (not (leb_ℤ r (pos 0) || leb_ℤ actor.rank r)) Error.permission_denied
      pure (record u { rank = r })

    pub set_perms : Caller → Option PermMask → User → Tx User
    set_perms actor none u = pure u
    set_perms actor (some m) u = do
      guard (has actor.perms m) Error.permission_denied
      pure (record u { permissions = m })

    pub set_status : Option UserStatus → User → Tx User
    set_status none u = pure u
    set_status (some s) u = do
      guard (not (is_deleted s)) Error.invalid_argument
      pure (record u { status = s })

    set_texts : UpdateUserInput → User → User
    set_texts i u = record u {
      nickname = set_or i.nickname u.nickname;
      email = set_or i.email u.email;
      avatar_url = set_or i.avatar_url u.avatar_url;
      remark = set_or i.remark u.remark;
      quota_bytes = set_or i.quota_bytes u.quota_bytes;
      password_hash = set_or i.password_hash u.password_hash;
      must_change_password = set_or i.must_change_password u.must_change_password;
    }

    abbrev revokes : UpdateUserInput → Bool
    revokes i =
        is_some i.password_hash || elim i.status [ none ↦ false | some s ↦ not (is_active_user s) ]

    update_account_tx : Caller → UpdateUserInput → ℕ → Tx User
    update_account_tx actor i now = do
      target ← find_user_by_id i.id
      guard (not (is_builtin target)) Error.permission_denied
      or_error (can_manage_user actor target)
      with_role ← set_role actor i.role target
      with_rank ← set_rank actor i.rank with_role
      with_perms ← set_perms actor i.permissions with_rank
      with_status ← set_status i.status with_perms
      updated ← update_user (set_texts i with_status)
      if revokes i then revoke_user_sessions target.id now else pure tt
      pure updated

    unfoldable pub update_account : Caller → UpdateUserInput → ℕ → Tx User
    unfolding update_account_tx set_role set_rank set_perms set_status set_texts
    update_account actor i now = do
      guard (not (i.id == nil_id)) Error.invalid_argument
      or_error (require actor perm_user_manage)
      with_tx (update_account_tx actor i now)

    delete_account_tx : Caller → Uuid → ℕ → Tx (Unit {0})
    delete_account_tx actor id now = do
      target ← find_user_by_id id
      guard (not (is_builtin target)) Error.permission_denied
      or_error (can_manage_user actor target)
      revoke_user_sessions id now
      delete_user id

    unfoldable pub delete_account : Caller → Uuid → ℕ → Tx (Unit {0})
    unfolding delete_account_tx
    delete_account actor id now = do
      guard (not (id == nil_id)) Error.invalid_argument
      or_error (require actor perm_user_manage)
      guard (not (id == actor.user_id)) Error.permission_denied
      with_tx (delete_account_tx actor id now)
