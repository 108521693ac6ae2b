-- ===== src/Store/Accounts.antt =====
-- internal/data/user.go: the account repository. A soft deleted row is reported as missing.
use nagisa.Prelude.{
  ℕ, ◌+◌, Bool, true, false, not, Option, none, some, List, [], ◌∷◌, ◌++◌, map, Text, text_eq, keep,
  is_empty, ◌==◌, if◌then◌else◌,
}
use nagisa.Prelude.Int.{ℤ, pos, ◌+ℤ◌, pos_part}
use nagisa.Errors.{Error, ok, err}
use nagisa.Perm.{UserStatus}
use nagisa.Access.{Uuid, nil_id}
use nagisa.Store.Model.{Platform, Db, User, Session}
use nagisa.Store.Transaction.{Tx, or_raise}

unfoldable pub find_user_row : (User → Bool) → List User → Option User
find_user_row test [] = none
find_user_row test (u ∷ rest) =
    let later = find_user_row test rest in if test u then some u else later

abbrev pub is_deleted : UserStatus → Bool
is_deleted UserStatus.deleted = true
is_deleted _ = false

unfoldable pub find_user : Uuid → Db → Option User
unfolding find_user_row
find_user id db = elim (find_user_row (λ u. u.id == id) db.users) [
  | none ↦ none
  | some u ↦ if is_deleted u.status then none else some u
]

unfoldable pub find_user_by_id : Uuid → Tx User
unfolding find_user
find_user_by_id id db = or_raise (find_user id db) Error.not_found db

abbrev pub update_users : Uuid → (User → User) → Db → Db
update_users id f db = record db { users = map (λ u. if u.id == id then f u else u) db.users }

abbrev pub has_row : Uuid → Db → Bool
has_row id db = not (is_empty (keep (λ u. u.id == id) db.users))

-- A counter after a signed delta, which no write leaves below zero.
abbrev pub counted : ℕ → ℤ → ℕ
counted n delta = pos_part (pos n +ℤ delta)

unfoldable pub add_usage : Uuid → ℤ → ℤ → ℤ → Tx (Unit {0})
add_usage id bytes files folders db =
    if has_row id db
    then (
      ok tt,
      update_users id
          (λ u. record u {
            used_bytes = counted u.used_bytes bytes;
            file_count = counted u.file_count files;
            folder_count = counted u.folder_count folders;
          })
          db,
    )
    else (err Error.not_found, db)

unfoldable pub find_user_by_username : Text → Tx User
unfolding find_user_row
find_user_by_username username db =
    or_raise (find_user_row (λ u. text_eq u.username username) db.users) Error.not_found db

-- The identifier is minted on insertion.
unfoldable pub create_user : Platform → User → Tx User
create_user platform u db =
    let row = record u { id = if u.id == nil_id then platform.minted db.next else u.id } in
    (
      ok row,
      record db {
        users = db.users ++ row ∷ [];
        next = if u.id == nil_id then db.next + 1 else db.next;
      },
    )

-- The columns that an update leaves: the name, and who created the account when.
abbrev pub written_user : User → User → User
written_user u row = record u {
  username = row.username;
  created_by = row.created_by;
  created_at = row.created_at;
}

unfoldable pub update_user : User → Tx User
unfolding find_user_row
update_user u db =
    if u.id == nil_id
    then (err Error.invalid_argument, db)
    else elim (find_user_row (λ r. r.id == u.id) db.users) [
      | none ↦ (err Error.not_found, db)
      | some row ↦ (ok (written_user u row), update_users u.id (written_user u) db)
    ]

unfoldable pub delete_user : Uuid → Tx (Unit {0})
delete_user id db =
    if has_row id db
    then (ok tt, update_users id (λ u. record u { status = UserStatus.deleted }) db)
    else (err Error.not_found, db)

abbrev pub revoke : ℕ → Session → Session
revoke now s = elim s.revoked_at [ some _ ↦ s | none ↦ record s { revoked_at = some now } ]

unfoldable pub revoke_user_sessions : Uuid → ℕ → Tx (Unit {0})
revoke_user_sessions id now db = (
  ok tt,
  record db { sessions = map (λ s. if s.user_id == id then revoke now s else s) db.sessions },
)
