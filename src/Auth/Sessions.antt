-- ===== src/Auth/Sessions.antt =====
-- internal/biz/auth.go: login, and the life of a refresh session. The raw token that `randomToken` draws
-- and the instant are arguments.
use nagisa.Prelude.{
  ℕ, ◌+◌, ◌-◌, ◌*◌, ◌/◌, Bool, true, false, not, ◌&&◌, ◌||◌, none, some, List, [], Text, codes,
  is_empty, trim_space, ◌==◌, if◌then◌else◌,
}
use nagisa.Prelude.Int.{pos_part}
use nagisa.Errors.{Error, Result, ok, err}
use nagisa.Perm.{is_active_user}
use nagisa.Access.{Uuid, nil_id, Caller, is_authenticated}
use nagisa.Store.{
  Platform, Db, Tx, User, Session, pure, guard, or_raise, with_tx, ◌>>=◌, ◌>>◌, ListOption,
  find_user_by_id, find_user_by_username, update_user, revoke_user_sessions, find_session_by_hash,
  find_session_by_id, create_session, revoke_session, is_active_session, list_sessions,
}
use nagisa.Crypt.{Crypto, Claims, second, token_type_access, issue}
use nagisa.Auth.Options.{AuthUsecase, decode_password, validate_password}

pub record TokenPair : Type 0 where
  pub access_token : Text
  pub refresh_token : Text
  pub token_type : Text
  pub expires_in : ℕ
  pub refresh_expires_in : ℕ

pub record LoginInput : Type 0 where
  pub username : Text
  pub password : Text
  pub ip : Text
  pub user_agent : Text
  pub remember : Bool

-- A failure of a lookup is reported as another error.
module _ {ℓ} {A : Type ℓ} where
  abbrev pub renamed : Error → Result A × Db → Result A × Db
  renamed e (ok a, db) = (ok a, db)
  renamed e (err _, db) = (err e, db)

  abbrev pub or_else_raise : Error → Tx A → Tx A
  or_else_raise e m db = renamed e (m db)

abbrev pub access_claims : User → Claims
access_claims u = record {
  kind = token_type_access;
  username = u.username;
  role = u.role;
  rank = u.rank;
  perms = u.permissions;
  nodes = [];
  share_id = [];
  issuer = [];
  subject = [];
  not_before = 0;
  expires_at = 0;
}

module _ (platform : Platform) (crypto : Crypto) (uc : AuthUsecase) where
  unfoldable pub issue_access : User → ℕ → Text
  unfolding issue
  issue_access u now =
      issue crypto uc.issuer (access_claims u) (platform.uuid_text u.id) (pos_part uc.access_ttl)
        now

  unfoldable pub new_session : User → Text → Text → ℕ → Text → ℕ → Session
  new_session u ip ua refresh_ttl raw now = record {
    id = nil_id;
    user_id = u.id;
    token_hash = crypto.hash_token raw;
    ip = ip;
    user_agent = ua;
    expires_at = now + refresh_ttl;
    revoked_at = none;
    last_used_at = none;
  }

  unfoldable pub open_session : User → Text → Text → ℕ → Text → ℕ → Tx TokenPair
  open_session u ip ua refresh_ttl raw now = do
    _ ← create_session platform (new_session u ip ua refresh_ttl raw now)
    pure (record {
      access_token = issue_access u now;
      refresh_token = raw;
      token_type = codes "Bearer";
      expires_in = pos_part uc.access_ttl / second;
      refresh_expires_in = refresh_ttl / second;
    })

  unfoldable pub login : LoginInput → Text → ℕ → Tx (TokenPair × User)
  login i raw now = do
    let username = trim_space i.username
    guard (not (is_empty username || is_empty i.password)) Error.invalid_argument
    plain ← decode_password crypto uc i.password
    user ← or_else_raise Error.unauthenticated (find_user_by_username username)
    guard (crypto.verify user.password_hash plain) Error.unauthenticated
    guard (is_active_user user.status) Error.account_disabled
    let ttl = if i.remember then pos_part uc.refresh_ttl * 2 else pos_part uc.refresh_ttl
    pair ← open_session user i.ip i.user_agent ttl raw now
    let seen = record user { last_login_at = some now }
    with_tx (update_user seen >>= λ _. pure tt)
    pure (pair, seen)

  unfoldable pub guest_login : ℕ → Tx (TokenPair × User)
  guest_login now = do
    guard uc.guest_auto Error.unsupported
    user ← or_else_raise Error.unauthenticated (find_user_by_username uc.guest_name)
    guard (is_active_user user.status) Error.account_disabled
    pure (
      record {
        access_token = issue_access user now;
        refresh_token = [];
        token_type = codes "Bearer";
        expires_in = pos_part uc.access_ttl / second;
        refresh_expires_in = 0;
      },
      record user { locked = true },
    )

  -- The end of `Refresh`: the presented token stops working when it is used.
  unfoldable pub rotate : Session → User → Text → Text → Text → ℕ → Tx (TokenPair × User)
  rotate session target ip ua raw now = do
    revoke_session session.id now
    pair ← open_session target ip ua (session.expires_at - now) raw now
    pure (pair, target)

  -- The transaction of `Refresh`.
  unfoldable pub refresh_tx : Text → Text → Text → Text → ℕ → Tx (TokenPair × User)
  refresh_tx token ip ua raw now = do
    session ← or_else_raise Error.unauthenticated (find_session_by_hash (crypto.hash_token token))
    guard (is_active_session session now) Error.unauthenticated
    target ← or_else_raise Error.unauthenticated (find_user_by_id session.user_id)
    guard (is_active_user target.status) Error.account_disabled
    rotate session target ip ua raw now

  unfoldable pub refresh : Text → Text → Text → Text → ℕ → Tx (TokenPair × User)
  refresh token ip ua raw now = do
    guard (not (is_empty (trim_space token))) Error.invalid_argument
    with_tx (refresh_tx token ip ua raw now)

  unfoldable pub logout_one : Caller → Text → ℕ → Tx (Unit {0})
  logout_one c token now = do
    session ← or_else_raise Error.unauthenticated (find_session_by_hash (crypto.hash_token token))
    guard (not (is_authenticated c && not (session.user_id == c.user_id))) Error.permission_denied
    with_tx (revoke_session session.id now)

  unfoldable pub logout_all : Caller → ℕ → Tx (Unit {0})
  logout_all c now = do
    guard (is_authenticated c) Error.unauthenticated
    with_tx (revoke_user_sessions c.user_id now)

  unfoldable pub logout : Caller → Text → Bool → ℕ → Tx (Unit {0})
  logout c token all now =
      if all || is_empty (trim_space token) then logout_all c now else logout_one c token now

  unfoldable pub change_password_tx : Caller → Text → Text → ℕ → Tx (Unit {0})
  change_password_tx c current hash now = do
    user ← find_user_by_id c.user_id
    guard (crypto.verify user.password_hash current) Error.unauthenticated
    _ ← update_user (record user { password_hash = hash; must_change_password = false })
    revoke_user_sessions user.id now

  unfoldable pub change_password : Caller → Text → Text → ℕ → Tx (Unit {0})
  change_password c current_field new_field now = do
    guard (is_authenticated c) Error.unauthenticated
    current ← decode_password crypto uc current_field
    wanted ← decode_password crypto uc new_field
    validate_password crypto uc wanted
    hash ← or_raise (crypto.hash wanted) Error.internal
    with_tx (change_password_tx c current hash now)

unfoldable pub own_sessions : Caller → Bool → ℕ → List (ListOption Session) → Tx (List Session)
own_sessions c include_inactive now opts = do
  guard (is_authenticated c) Error.unauthenticated
  list_sessions c.user_id include_inactive now opts

unfoldable pub revoke_own_session : Caller → Uuid → ℕ → Tx (Unit {0})
revoke_own_session c id now = do
  guard (is_authenticated c) Error.unauthenticated
  session ← find_session_by_id id
  guard (session.user_id == c.user_id) Error.permission_denied
  with_tx (revoke_session id now)
