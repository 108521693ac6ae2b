-- ===== src/Auth/Tests.antt =====
-- One account with one session, and what the theorems say of it.
use nagisa.Prelude.{
  ℕ, ◌*◌, ◌≡◌, refl, true, false, not, none, some, List, [], ◌∷◌, Text, codes, keep, length, ◌==◌,
  arith,
}
use nagisa.Prelude.Int.{pos, ltb_ℤ}
use nagisa.Errors.{Error, ok, err}
use nagisa.Access.{nil_id, Caller, Uuid}
use nagisa.Access.Sample.{member}
use nagisa.Store.{Db, User, Session}
use nagisa.Tree.Sample.{sample_platform, sample_user, no_nodes}
use nagisa.Crypt.{second, decode_field}
use nagisa.Auth.Options.{AuthUsecase, new_auth_usecase}
use nagisa.Auth.Sessions.{TokenPair, issue_access, refresh, change_password, login, logout}
use nagisa.Auth.Identity.{
  authenticate, caller_of, issue_node_token, issue_share_token, parse_node_token,
}
use nagisa.Auth.Revoked.{AuthRun}
use nagisa.Auth.Rotation.{IsRotation, refresh_once}
use nagisa.Auth.Passwords.{IsChanged, change_password_ends_sessions}
use nagisa.Auth.Roundtrip.{
  authenticate-issue_access, parse_node_token-issue_node_token, token_kinds_apart,
}
use nagisa.Auth.Sample.{sample_crypto, sample-IsFaithful}

abbrev auth : AuthUsecase
auth = record {
  issuer = record { secret = codes "k"; issuer = codes "nagisa" };
  access_ttl = pos (2 * second);
  refresh_ttl = pos (10 * second);
  node_ttl = pos second;
  plain_allowed = false;
  min_password = pos 2;
  guest_name = codes "guest";
  guest_auto = false;
}

abbrev holder : User
holder = record sample_user { password_hash = 0 ∷ codes "old" }

abbrev session : Session
session = record {
  id = 4;
  user_id = 7;
  token_hash = codes "t1";
  ip = [];
  user_agent = [];
  expires_at = 9 * second;
  revoked_at = none;
  last_used_at = none;
}

abbrev signed_in : Db
signed_in = record no_nodes { users = holder ∷ []; sessions = session ∷ [] }

abbrev rotated : Db
rotated = record signed_in {
  sessions =
      record session { revoked_at = some second }
      ∷ record session { id = 100; token_hash = codes "t2" }
      ∷ [];
  next = 1;
}

abbrev pair : TokenPair
pair = record {
  access_token = issue_access sample_platform sample_crypto auth holder second;
  refresh_token = codes "t2";
  token_type = codes "Bearer";
  expires_in = 2;
  refresh_expires_in = 8;
}

turns :
    refresh sample_platform sample_crypto auth (codes "t1") [] [] (codes "t2") second signed_in
    ≡ (ok (pair, holder), rotated)
unfolding refresh nagisa.Auth.Sessions.refresh_tx nagisa.Auth.Sessions.rotate nagisa.Store.with_tx
    nagisa.Prelude.trim_space nagisa.Store.find_session_by_hash nagisa.Store.is_active_session
    nagisa.Store.find_user_by_id nagisa.Store.revoke_session nagisa.Auth.Sessions.open_session
    nagisa.Store.create_session nagisa.Auth.Sessions.new_session nagisa.Prelude.text_eq
    nagisa.Store.find_session
turns = refl

refresh_once_example :
    IsRotation sample_platform sample_crypto auth
      (codes "t1")
      (codes "t2")
      second
      signed_in
      holder
      rotated
    × ((later : Db) (ip₂ ua₂ raw₂ : Text) (at : ℕ)
        → AuthRun sample_platform sample_crypto auth rotated later
        → refresh sample_platform sample_crypto auth (codes "t1") ip₂ ua₂ raw₂ at later
          ≡ (err Error.unauthenticated, later))
refresh_once_example =
    refresh_once sample_platform sample_crypto auth (codes "t1") [] [] (codes "t2") second signed_in
      rotated pair holder turns

abbrev changed : Db
changed = record signed_in {
  users = record holder { password_hash = 0 ∷ codes "new" } ∷ [];
  sessions = record session { revoked_at = some 5 } ∷ [];
}

changes :
    change_password sample_platform sample_crypto auth member
      (codes "old")
      (codes "new")
      5
      signed_in
    ≡ (ok tt, changed)
unfolding change_password nagisa.Auth.Sessions.change_password_tx nagisa.Store.with_tx
    nagisa.Access.is_authenticated nagisa.Auth.Options.decode_password
    nagisa.Auth.Options.validate_password nagisa.Store.find_user_by_id nagisa.Store.update_user
    nagisa.Store.revoke_user_sessions nagisa.Prelude.text_eq nagisa.Store.find_user
changes = refl

change_password_ends_sessions_example :
    (current : Text) × ((wanted : Text) × ((digest : Text) × ((decode_field sample_crypto
              (codes "old")
              false
            ≡ some current)
          × (decode_field sample_crypto (codes "new") false ≡ some wanted)
          × (ltb_ℤ (pos (length wanted)) (pos 2) ≡ false)
          × (sample_crypto.hash wanted ≡ some digest)
          × IsChanged sample_platform sample_crypto auth member current digest signed_in changed)))
change_password_ends_sessions_example =
    change_password_ends_sessions sample_platform sample_crypto auth member (codes "old")
      (codes "new") 5 signed_in changed tt changes

holder_is_found : nagisa.Store.find_user 7 signed_in ≡ some holder
unfolding nagisa.Store.find_user
holder_is_found = refl

authenticate-issue_access_example :
    authenticate sample_platform sample_crypto auth
      (issue_access sample_platform sample_crypto auth holder second)
      (2 * second)
      signed_in
    ≡ (ok (caller_of holder), signed_in)
authenticate-issue_access_example =
    authenticate-issue_access sample_platform sample_crypto sample-IsFaithful auth holder holder
      second (2 * second) signed_in (omega arith, omega arith) holder_is_found refl

parse_node_token-issue_node_token_example :
    parse_node_token sample_platform sample_crypto auth
      (issue_node_token sample_platform sample_crypto auth (3 ∷ 0 ∷ 5 ∷ []) second).0
      second
      signed_in
    ≡ (ok (keep (λ id. not (id == nil_id)) (3 ∷ 0 ∷ 5 ∷ [])), signed_in)
parse_node_token-issue_node_token_example =
    parse_node_token-issue_node_token sample_platform sample_crypto sample-IsFaithful auth
      (3 ∷ 0 ∷ 5 ∷ []) second second signed_in (omega arith, omega arith)

token_kinds_apart_example :
    (authenticate sample_platform sample_crypto auth
        (issue_node_token sample_platform sample_crypto auth (3 ∷ []) second).0
        second
        signed_in
      ≡ (err Error.unauthenticated, signed_in))
    × (authenticate sample_platform sample_crypto auth
          (issue_share_token sample_platform sample_crypto auth 6 second second)
          second
          signed_in
        ≡ (err Error.unauthenticated, signed_in))
    × (parse_node_token sample_platform sample_crypto auth
          (issue_access sample_platform sample_crypto auth holder second)
          second
          signed_in
        ≡ (err Error.unauthenticated, signed_in))
    × (parse_node_token sample_platform sample_crypto auth
          (issue_share_token sample_platform sample_crypto auth 6 second second)
          second
          signed_in
        ≡ (err Error.unauthenticated, signed_in))
token_kinds_apart_example =
    token_kinds_apart sample_platform sample_crypto sample-IsFaithful auth holder (3 ∷ []) 6 second
      second second signed_in (omega arith, omega arith) (omega arith, omega arith)
      (omega arith, omega arith)
