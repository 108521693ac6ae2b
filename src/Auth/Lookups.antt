-- ===== src/Auth/Lookups.antt =====
-- Lookups in the session table after the writes of internal/data/user.go.
use nagisa.Prelude.{
  ℕ, ◌≡◌, refl, ◌∙◌, ap, Bool, true, false, Option, none, some, List, [], ◌∷◌, ◌++◌, map, Text,
  text_eq, is_some, ◌==◌, Bool-cases, if◌then◌else◌, inl, inr, arith,
}
use nagisa.Access.{Uuid}
use nagisa.Store.{
  Platform, Db, Session, find_session, find_session_row, find_hash, create_session, revoke_session,
  revoke_user_sessions, revoke,
}
use nagisa.Store.Rows.{map_option}

find_session_row-map :
    (test : Session → Bool) (f : Session → Session)
    → ((s : Session) → test (f s) ≡ test s)
    → (rows : List Session)
    → find_session_row test (map f rows) ≡ map_option f (find_session_row test rows)
unfolding find_session_row
find_session_row-map test f same [] = refl
find_session_row-map test f same (s ∷ rest) =
    ground (arith, same s, find_session_row-map test f same rest)

find_session_row-append :
    (test : Session → Bool) (rows more : List Session) (s : Session)
    → find_session_row test rows ≡ some s
    → find_session_row test (rows ++ more) ≡ some s
unfolding find_session_row
find_session_row-append test [] more s e = cc
find_session_row-append test (r ∷ rest) more s e =
    ground (arith, find_session_row-append test rest more s)

pub find_session_row-test :
    (test : Session → Bool) (rows : List Session) (s : Session)
    → find_session_row test rows ≡ some s
    → test s ≡ true
unfolding find_session_row
find_session_row-test test [] s e = cc
find_session_row-test test (r ∷ rest) s e = ground (arith, find_session_row-test test rest s)

-- What a write makes of a row: the token is the same, and a revoked row stays revoked.
pub record IsRevoking (f : Session → Session) : Type 0 where
  pub same_hash : (s : Session) → (f s).token_hash ≡ s.token_hash
  pub stays : (s : Session) → is_some s.revoked_at ≡ true → is_some (f s).revoked_at ≡ true

abbrev pub revoke_row : Uuid → ℕ → Session → Session
revoke_row id now s = if s.id == id then record s { revoked_at = some now } else s

pub revoke_row-IsRevoking : (id : Uuid) (now : ℕ) → IsRevoking (revoke_row id now)
revoke_row-IsRevoking id now = record {
  same_hash = λ s. hash s (s.id == id);
  stays = λ s old. keeps s (s.id == id) old;
}
  where
    hash :
        (s : Session) (b : Bool)
        → (if b then record s { revoked_at = some now } else s).token_hash ≡ s.token_hash
    hash s true = refl
    hash s false = refl

    keeps :
        (s : Session) (b : Bool)
        → is_some s.revoked_at ≡ true
        → is_some (if b then record s { revoked_at = some now } else s).revoked_at ≡ true
    keeps s true old = refl
    keeps s false old = old

-- The row of a token, and that it is revoked.
abbrev pub is_dead : Option Session → Bool
is_dead none = false
is_dead (some s) = is_some s.revoked_at

abbrev pub IsDead : Text → Db → Type 0
IsDead hash db = is_dead (find_hash hash db) ≡ true

pub find_hash-map :
    (hash : Text) (f : Session → Session) (db : Db)
    → IsRevoking f
    → find_hash hash (record db { sessions = map f db.sessions }) ≡ map_option f (find_hash hash db)
unfolding find_hash
find_hash-map hash f db r =
    find_session_row-map (λ s. text_eq s.token_hash hash) f
      (λ s. ap (λ h. text_eq h hash) (r.same_hash s)) db.sessions

pub find_hash-append :
    (hash : Text) (more : List Session) (db : Db) (s : Session)
    → find_hash hash db ≡ some s
    → find_hash hash (record db { sessions = db.sessions ++ more }) ≡ some s
unfolding find_hash
find_hash-append hash more db s e =
    find_session_row-append (λ s. text_eq s.token_hash hash) db.sessions more s e

map-IsDead :
    (hash : Text) (f : Session → Session) (db : Db)
    → IsRevoking f
    → IsDead hash db
    → IsDead hash (record db { sessions = map f db.sessions })
map-IsDead hash f db r dead =
    ap is_dead (find_hash-map hash f db r) ∙ mapped (find_hash hash db) dead
  where
    mapped : (o : Option Session) → is_dead o ≡ true → is_dead (map_option f o) ≡ true
    mapped none h = cc
    mapped (some s) h = r.stays s h

append-IsDead :
    (hash : Text) (more : List Session) (db : Db)
    → IsDead hash db
    → IsDead hash (record db { sessions = db.sessions ++ more })
append-IsDead hash more db dead = found (find_hash hash db) refl dead
  where
    found :
        (o : Option Session)
        → find_hash hash db ≡ o
        → is_dead o ≡ true
        → is_dead (find_hash hash (record db { sessions = db.sessions ++ more })) ≡ true
    found none e h = cc
    found (some s) e h = ap is_dead (find_hash-append hash more db s e) ∙ h

pub create_session-IsDead :
    (hash : Text) (platform : Platform) (s : Session) (db : Db)
    → IsDead hash db
    → IsDead hash (create_session platform s db).1
unfolding create_session find_hash
create_session-IsDead hash platform s db dead = append-IsDead hash _ db dead

pub revoke_session-IsDead :
    (hash : Text) (id : Uuid) (now : ℕ) (db : Db)
    → IsDead hash db
    → IsDead hash (revoke_session id now db).1
unfolding revoke_session
revoke_session-IsDead hash id now db dead = elim (Bool-cases (is_some (find_session id db))) [
  | inl found ↦
      rw found (map-IsDead hash (revoke_row id now) db (revoke_row-IsRevoking id now) dead)
  | inr gone ↦ rw gone dead
]

abbrev revoke_own : Uuid → ℕ → Session → Session
revoke_own id now s = if s.user_id == id then revoke now s else s

revoke_own-IsRevoking : (id : Uuid) (now : ℕ) → IsRevoking (revoke_own id now)
revoke_own-IsRevoking id now = record {
  same_hash = λ s. ground arith;
  stays = λ s old. ground arith;
}

pub revoke_user_sessions-IsDead :
    (hash : Text) (id : Uuid) (now : ℕ) (db : Db)
    → IsDead hash db
    → IsDead hash (revoke_user_sessions id now db).1
unfolding revoke_user_sessions
revoke_user_sessions-IsDead hash id now db dead =
    map-IsDead hash (revoke_own id now) db (revoke_own-IsRevoking id now) dead
