-- ===== src/Store/Sessions.antt =====
-- internal/data/user.go: the refresh sessions.
use nagisa.Prelude.{
  ℕ, ◌+◌, Bool, not, ◌&&◌, Option, none, some, List, [], ◌∷◌, ◌++◌, map, Text, text_eq, keep,
  is_some, length, ◌==◌, ltb, if◌then◌else◌,
}
use nagisa.Prelude.Int.{pos}
use nagisa.Errors.{Error, ok, err}
use nagisa.Access.{Uuid, nil_id}
use nagisa.Store.Model.{Platform, Db, Session}
use nagisa.Store.Options.{ListOption, resolve_list_options, page}
use nagisa.Store.Transaction.{Tx, or_raise}

unfoldable pub find_session_row : (Session → Bool) → List Session → Option Session
find_session_row test [] = none
find_session_row test (s ∷ rest) =
    let later = find_session_row test rest in if test s then some s else later

unfoldable pub find_hash : Text → Db → Option Session
unfolding find_session_row
find_hash hash db = find_session_row (λ s. text_eq s.token_hash hash) db.sessions

unfoldable pub find_session : Uuid → Db → Option Session
unfolding find_session_row
find_session id db = find_session_row (λ s. s.id == id) db.sessions

unfoldable pub find_session_by_hash : Text → Tx Session
unfolding find_hash
find_session_by_hash hash db = or_raise (find_hash hash db) Error.not_found db

unfoldable pub find_session_by_id : Uuid → Tx Session
unfolding find_session
find_session_by_id id db = or_raise (find_session id db) Error.not_found db

unfoldable pub create_session : Platform → Session → Tx Session
create_session platform s db =
    let row = record s { id = if s.id == nil_id then platform.minted db.next else s.id } in
    (
      ok row,
      record db {
        sessions = db.sessions ++ row ∷ [];
        next = if s.id == nil_id then db.next + 1 else db.next;
      },
    )

-- `SetRevokedAt(time.Now())` on one row, whether or not it was revoked.
unfoldable pub revoke_session : Uuid → ℕ → Tx (Unit {0})
unfolding find_session
revoke_session id now db =
    if is_some (find_session id db)
    then (
      ok tt,
      record db {
        sessions =
            map (λ s. if s.id == id then record s { revoked_at = some now } else s) db.sessions;
      },
    )
    else (err Error.not_found, db)

-- `Session.Active`.
unfoldable pub is_active_session : Session → ℕ → Bool
is_active_session s now = not (is_some s.revoked_at) && ltb now s.expires_at

unfoldable pub list_sessions : Uuid → Bool → ℕ → List (ListOption Session) → Tx (List Session)
unfolding is_active_session
list_sessions id include_inactive now opts db =
    let o = resolve_list_options (pos 50) opts in
    let own = keep o.filter (keep (λ s. s.user_id == id) db.sessions) in
    let listed = if include_inactive then own else keep (λ s. is_active_session s now) own in
    (ok (page o (o.order_by listed)), db)

unfoldable pub purge_expired_sessions : ℕ → Tx ℕ
purge_expired_sessions before db = (
  ok (length (keep (λ s. ltb s.expires_at before) db.sessions)),
  record db { sessions = keep (λ s. not (ltb s.expires_at before)) db.sessions },
)
