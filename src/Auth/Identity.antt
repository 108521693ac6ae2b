-- ===== src/Auth/Identity.antt =====
-- internal/biz/auth.go: the identity behind an access token, and the tokens for folders and shares.
use nagisa.Prelude.{ℕ, ◌+◌, false, not, none, some, List, [], ◌∷◌, map, Text, text_eq, keep, ◌==◌}
use nagisa.Prelude.Int.{pos, pos_part}
use nagisa.Errors.{Error}
use nagisa.Perm.{Role, is_active_user, perm_none}
use nagisa.Access.{Uuid, nil_id, Caller, anonymous_caller}
use nagisa.Store.{Platform, Tx, User, pure, guard, or_raise, ◌>>=◌, ◌>>◌, find_user_by_id}
use nagisa.Crypt.{
  Crypto, Claims, token_type_access, token_type_node, token_type_share, issue, verify_token,
}
use nagisa.Auth.Options.{AuthUsecase}
use nagisa.Auth.Sessions.{or_else_raise}

-- The caller of an account; nothing is unlocked yet.
unfoldable pub caller_of : User → Caller
caller_of u = record anonymous_caller {
  user_id = u.id;
  username = u.username;
  nickname = u.nickname;
  role = u.role;
  rank = u.rank;
  perms = u.permissions;
  status = u.status;
  anonymous = false;
}

abbrev pub plain_claims : Text → List Text → Text → Claims
plain_claims kind nodes share_id = record {
  kind = kind;
  username = [];
  role = Role.guest;
  rank = pos 0;
  perms = perm_none;
  nodes = nodes;
  share_id = share_id;
  issuer = [];
  subject = [];
  not_before = 0;
  expires_at = 0;
}

module _ (platform : Platform) (crypto : Crypto) (uc : AuthUsecase) where
  -- The claims of a token of one kind.
  unfoldable pub verified : Text → Text → ℕ → Tx Claims
  unfolding verify_token
  verified kind token now = do
    claims ← or_raise (verify_token crypto uc.issuer token now) Error.unauthenticated
    guard (text_eq claims.kind kind) Error.unauthenticated
    pure claims

  unfoldable pub authenticate : Text → ℕ → Tx Caller
  unfolding verified find_user_by_id caller_of
  authenticate token now = do
    claims ← verified token_type_access token now
    id ← or_raise (crypto.parse_uuid claims.subject) Error.unauthenticated
    user ← or_else_raise Error.unauthenticated (find_user_by_id id)
    guard (is_active_user user.status) Error.account_disabled
    pure (caller_of user)

  -- `IssueNodeToken`: the token and its expiry.
  unfoldable pub issue_node_token : List Uuid → ℕ → Text × ℕ
  unfolding issue
  issue_node_token nodes now =
      let ids = map platform.uuid_text (keep (λ id. not (id == nil_id)) nodes) in
      (
        issue crypto uc.issuer (plain_claims token_type_node ids []) [] (pos_part uc.node_ttl) now,
        now + pos_part uc.node_ttl,
      )

  unfoldable pub parse_ids : List Text → List Uuid
  parse_ids [] = []
  parse_ids (raw ∷ rest) =
      let later = parse_ids rest in
      elim (crypto.parse_uuid raw) [ none ↦ later | some id ↦ id ∷ later ]

  unfoldable pub parse_node_token : Text → ℕ → Tx (List Uuid)
  unfolding verified parse_ids
  parse_node_token token now = verified token_type_node token now >>= λ c. pure (parse_ids c.nodes)

  unfoldable pub issue_share_token : Uuid → ℕ → ℕ → Text
  unfolding issue
  issue_share_token share_id ttl now =
      let text = platform.uuid_text share_id in
      issue crypto uc.issuer (plain_claims token_type_share [] text) text ttl now

  -- A parse error of the identifier is handed on untyped, which a caller sees as internal.
  unfoldable pub parse_share_token : Text → ℕ → Tx Uuid
  unfolding verified
  parse_share_token token now = verified token_type_share token now >>= λ c.
      or_raise (crypto.parse_uuid c.subject) Error.internal
