-- ===== src/Auth/Revoked.antt =====
-- A refresh token that was revoked stays dead: no operation of internal/biz/auth.go brings it back.
use nagisa.Prelude.{
  ℕ, ◌-◌, ◌*◌, ◌≡◌, refl, ◌∙◌, ap, subst, Bool, false, not, ◌&&◌, ◌||◌, some, Text, length,
  is_empty, trim_space, ◌==◌, Bool-cases, Option-cases, if◌then◌else◌, inl, inr,
}
use nagisa.Prelude.Int.{pos, pos_part, ltb_ℤ}
use nagisa.Errors.{Error, Result, ok, err}
use nagisa.Perm.{is_active_user}
use nagisa.Access.{Uuid, nil_id, Caller, is_authenticated}
use nagisa.Store.{
  Platform, Db, Tx, User, or_raise, with_tx, pure, ◌>>=◌, find_user, find_user_row, find_user_by_id,
  find_user_by_username, update_user, revoke_user_sessions, find_hash, find_session,
  find_session_by_hash, find_session_by_id, create_session, revoke_session, is_active_session,
}
use nagisa.Store.Rows.{guard_keeps, bind_keeps, read_keeps, or_raise_reads, with_tx_keeps_of}
use nagisa.Crypt.{Crypto, decode_field}
use nagisa.Auth.Options.{AuthUsecase, decode_password, validate_password}
use nagisa.Auth.Sessions.{
  LoginInput, renamed, or_else_raise, new_session, open_session, login, rotate, refresh, refresh_tx,
  logout, logout_one, logout_all, change_password, change_password_tx, revoke_own_session,
}
use nagisa.Auth.Lookups.{
  IsDead, create_session-IsDead, revoke_session-IsDead, revoke_user_sessions-IsDead,
}

renamed_reads {ℓ} : {A : Type ℓ} (e : Error) (r : Result A × Db) → (renamed e r).1 ≡ r.1
renamed_reads e (ok a, db) = refl
renamed_reads e (err x, db) = refl

find_user_by_id-reads : (id : Uuid) (db : Db) → (find_user_by_id id db).1 ≡ db
unfolding find_user_by_id
find_user_by_id-reads id db = or_raise_reads (find_user id db) Error.not_found db

find_user_by_username-reads : (name : Text) (db : Db) → (find_user_by_username name db).1 ≡ db
unfolding find_user_by_username
find_user_by_username-reads name db = or_raise_reads _ Error.not_found db

find_session_by_hash-reads : (hash : Text) (db : Db) → (find_session_by_hash hash db).1 ≡ db
unfolding find_session_by_hash
find_session_by_hash-reads hash db = or_raise_reads (find_hash hash db) Error.not_found db

find_session_by_id-reads : (id : Uuid) (db : Db) → (find_session_by_id id db).1 ≡ db
unfolding find_session_by_id
find_session_by_id-reads id db = or_raise_reads (find_session id db) Error.not_found db

module _ (hash : Text) where
  update_user-IsDead : (u : User) (db : Db) → IsDead hash db → IsDead hash (update_user u db).1
  unfolding update_user find_hash
  update_user-IsDead u db dead = elim (Bool-cases (u.id == nil_id)) [
    | inl nil ↦ rw nil dead
    | inr other ↦ elim (Option-cases (find_user_row (λ r. r.id == u.id) db.users)) [
      | inl gone ↦ rw (other, gone) dead
      | inr (row, found) ↦ rw (other, found) dead
    ]
  ]

  module _ (platform : Platform) (crypto : Crypto) (uc : AuthUsecase) where
    decode_password-reads : (field : Text) (db : Db) → (decode_password crypto uc field db).1 ≡ db
    unfolding decode_password
    decode_password-reads field db =
        guard_keeps (λ d. d ≡ db) (not (is_empty field)) Error.invalid_argument _ db refl
          (or_raise_reads (decode_field crypto field uc.plain_allowed) Error.invalid_argument db)

    open_session-IsDead :
        (u : User) (ip ua : Text) (ttl : ℕ) (raw : Text) (now : ℕ) (db : Db)
        → IsDead hash db
        → IsDead hash (open_session platform crypto uc u ip ua ttl raw now db).1
    unfolding open_session
    open_session-IsDead u ip ua ttl raw now db dead =
        let s = new_session platform crypto uc u ip ua ttl raw now in
        let made = create_session-IsDead hash platform s db dead in
        bind_keeps (IsDead hash) (create_session platform s) _ db made
          (λ row mid e. subst (IsDead hash) (ap (λ r. r.1) e) made)

    login-IsDead :
        (i : LoginInput) (raw : Text) (now : ℕ) (db : Db)
        → IsDead hash db
        → IsDead hash (login platform crypto uc i raw now db).1
    unfolding login
    login-IsDead i raw now db dead =
        let ttl : ℕ = if i.remember then pos_part uc.refresh_ttl * 2 else pos_part uc.refresh_ttl in
        guard_keeps (IsDead hash) (not (is_empty (trim_space i.username) || is_empty i.password))
          Error.invalid_argument _ db dead
          (read_keeps (IsDead hash) (decode_password crypto uc i.password) _ db
            (decode_password-reads i.password db) dead
            λ plain.
              read_keeps (IsDead hash)
                (or_else_raise Error.unauthenticated
                  (find_user_by_username (trim_space i.username)))
                _ db
                (renamed_reads Error.unauthenticated _
                  ∙ find_user_by_username-reads (trim_space i.username) db)
                dead
                λ u.
                  guard_keeps (IsDead hash) (crypto.verify u.password_hash plain)
                    Error.unauthenticated _ db dead
                    (guard_keeps (IsDead hash) (is_active_user u.status) Error.account_disabled _ db
                      dead
                      (let opened = open_session-IsDead u i.ip i.user_agent ttl raw now db dead in
                        bind_keeps (IsDead hash)
                          (open_session platform crypto uc u i.ip i.user_agent ttl raw now) _ db
                          opened
                          λ pair mid e.
                            let dead₁ = subst (IsDead hash) (ap (λ r. r.1) e) opened in
                            let seen = record u { last_login_at = some now } in
                            let wrote = update_user-IsDead seen mid dead₁ in
                            let step : Tx (Unit {0}) = update_user seen >>= λ _. pure tt in
                            let stored : IsDead hash (step mid).1 =
                              bind_keeps (IsDead hash) (update_user seen) (λ _. pure tt) mid wrote
                                (λ row after e₁. subst (IsDead hash) (ap (λ r. r.1) e₁) wrote) in
                            let kept = with_tx_keeps_of (IsDead hash) step mid dead₁ stored in
                            bind_keeps (IsDead hash) (with_tx step) _ mid kept
                              (λ u₁ after e₁. subst (IsDead hash) (ap (λ r. r.1) e₁) kept))))

    refresh-IsDead :
        (token ip ua raw : Text) (now : ℕ) (db : Db)
        → IsDead hash db
        → IsDead hash (refresh platform crypto uc token ip ua raw now db).1
    unfolding refresh refresh_tx rotate
    refresh-IsDead token ip ua raw now db dead =
        guard_keeps (IsDead hash) (not (is_empty (trim_space token))) Error.invalid_argument _ db
          dead
          (with_tx_keeps_of (IsDead hash) (refresh_tx platform crypto uc token ip ua raw now) db
            dead
            (read_keeps (IsDead hash)
              (or_else_raise Error.unauthenticated (find_session_by_hash (crypto.hash_token token)))
              _ db
              (renamed_reads Error.unauthenticated _
                ∙ find_session_by_hash-reads (crypto.hash_token token) db)
              dead
              λ s.
                guard_keeps (IsDead hash) (is_active_session s now) Error.unauthenticated _ db dead
                  (read_keeps (IsDead hash)
                    (or_else_raise Error.unauthenticated (find_user_by_id s.user_id)) _ db
                    (renamed_reads Error.unauthenticated _ ∙ find_user_by_id-reads s.user_id db)
                    dead
                    λ u.
                      guard_keeps (IsDead hash) (is_active_user u.status) Error.account_disabled _
                        db dead
                        (let revoked = revoke_session-IsDead hash s.id now db dead in
                          bind_keeps (IsDead hash) (revoke_session s.id now) _ db revoked λ v mid e.
                            let dead₁ = subst (IsDead hash) (ap (λ r. r.1) e) revoked in
                            let ttl = s.expires_at - now in
                            let opened = open_session-IsDead u ip ua ttl raw now mid dead₁ in
                            bind_keeps (IsDead hash)
                              (open_session platform crypto uc u ip ua ttl raw now) _ mid opened
                              (λ pair after e₁. subst (IsDead hash) (ap (λ r. r.1) e₁) opened)))))

    logout-IsDead :
        (c : Caller) (token : Text) (all : Bool) (now : ℕ) (db : Db)
        → IsDead hash db
        → IsDead hash (logout platform crypto uc c token all now db).1
    unfolding logout logout_one logout_all
    logout-IsDead c token all now db dead = elim (Bool-cases (all || is_empty (trim_space token))) [
      | inl every ↦ rw every (
          guard_keeps (IsDead hash) (is_authenticated c) Error.unauthenticated _ db dead (
            with_tx_keeps_of (IsDead hash) (revoke_user_sessions c.user_id now) db dead
              (revoke_user_sessions-IsDead hash c.user_id now db dead)))
      | inr one ↦ rw one (
          read_keeps (IsDead hash)
            (or_else_raise Error.unauthenticated (find_session_by_hash (crypto.hash_token token))) _
            db
            (renamed_reads Error.unauthenticated _
              ∙ find_session_by_hash-reads (crypto.hash_token token) db)
            dead
            λ s.
              guard_keeps (IsDead hash) (not (is_authenticated c && not (s.user_id == c.user_id)))
                Error.permission_denied _ db dead
                (with_tx_keeps_of (IsDead hash) (revoke_session s.id now) db dead
                  (revoke_session-IsDead hash s.id now db dead)))
    ]

    validate_password-reads :
        (plain : Text) (db : Db) → (validate_password crypto uc plain db).1 ≡ db
    unfolding validate_password
    validate_password-reads plain db =
        elim (Bool-cases (ltb_ℤ (pos (length plain)) uc.min_password)) [
          | inl short ↦ rw short
          | inr long ↦ rw long
        ]

    change_password-IsDead :
        (c : Caller) (current_field new_field : Text) (now : ℕ) (db : Db)
        → IsDead hash db
        → IsDead hash (change_password platform crypto uc c current_field new_field now db).1
    unfolding change_password change_password_tx
    change_password-IsDead c current_field new_field now db dead =
        guard_keeps (IsDead hash) (is_authenticated c) Error.unauthenticated _ db dead (
          read_keeps (IsDead hash) (decode_password crypto uc current_field) _ db
            (decode_password-reads current_field db) dead
            λ current.
              read_keeps (IsDead hash) (decode_password crypto uc new_field) _ db
                (decode_password-reads new_field db) dead
                λ wanted.
                  read_keeps (IsDead hash) (validate_password crypto uc wanted) _ db
                    (validate_password-reads wanted db) dead
                    λ v.
                      read_keeps (IsDead hash) (or_raise (crypto.hash wanted) Error.internal) _ db
                        (or_raise_reads (crypto.hash wanted) Error.internal db) dead
                        λ digest.
                          with_tx_keeps_of (IsDead hash)
                            (change_password_tx platform crypto uc c current digest now) db dead
                            (read_keeps (IsDead hash) (find_user_by_id c.user_id) _ db
                              (find_user_by_id-reads c.user_id db) dead
                              λ u.
                                guard_keeps (IsDead hash) (crypto.verify u.password_hash current)
                                  Error.unauthenticated _ db dead
                                  (let row = record u {
                                    password_hash = digest;
                                    must_change_password = false;
                                  } in
                                    let wrote = update_user-IsDead row db dead in
                                    bind_keeps (IsDead hash) (update_user row) _ db wrote
                                      (λ out mid e.
                                        revoke_user_sessions-IsDead hash u.id now mid
                                          (subst (IsDead hash) (ap (λ r. r.1) e) wrote)))))

  revoke_own_session-IsDead :
      (c : Caller) (id : Uuid) (now : ℕ) (db : Db)
      → IsDead hash db
      → IsDead hash (revoke_own_session c id now db).1
  unfolding revoke_own_session
  revoke_own_session-IsDead c id now db dead =
      guard_keeps (IsDead hash) (is_authenticated c) Error.unauthenticated _ db dead (
        read_keeps (IsDead hash) (find_session_by_id id) _ db (find_session_by_id-reads id db) dead
          λ s.
            guard_keeps (IsDead hash) (s.user_id == c.user_id) Error.permission_denied _ db dead (
              with_tx_keeps_of (IsDead hash) (revoke_session id now) db dead
                (revoke_session-IsDead hash id now db dead)))

module _ (platform : Platform) (crypto : Crypto) (uc : AuthUsecase) where
  -- The operations of the usecase that write, whoever calls them and whatever comes back.
  pub data AuthStep : Db → Db → Type 0 where
    logged_in :
        (i : LoginInput) (raw : Text) (now : ℕ) (db : Db)
        → AuthStep db (login platform crypto uc i raw now db).1
    refreshed :
        (token ip ua raw : Text) (now : ℕ) (db : Db)
        → AuthStep db (refresh platform crypto uc token ip ua raw now db).1
    logged_out :
        (c : Caller) (token : Text) (all : Bool) (now : ℕ) (db : Db)
        → AuthStep db (logout platform crypto uc c token all now db).1
    password_changed :
        (c : Caller) (current_field new_field : Text) (now : ℕ) (db : Db)
        → AuthStep db (change_password platform crypto uc c current_field new_field now db).1
    session_revoked :
        (c : Caller) (id : Uuid) (now : ℕ) (db : Db)
        → AuthStep db (revoke_own_session c id now db).1

  pub data AuthRun (db : Db) : Db → Type 0 where
    at_start : AuthRun db db
    and_then : {mid after : Db} → AuthRun db mid → AuthStep mid after → AuthRun db after

  step-IsDead :
      (hash : Text) {db after : Db} → AuthStep db after → IsDead hash db → IsDead hash after
  step-IsDead hash (logged_in i raw now db) dead =
      login-IsDead hash platform crypto uc i raw now db dead
  step-IsDead hash (refreshed token ip ua raw now db) dead =
      refresh-IsDead hash platform crypto uc token ip ua raw now db dead
  step-IsDead hash (logged_out c token all now db) dead =
      logout-IsDead hash platform crypto uc c token all now db dead
  step-IsDead hash (password_changed c old wanted now db) dead =
      change_password-IsDead hash platform crypto uc c old wanted now db dead
  step-IsDead hash (session_revoked c id now db) dead =
      revoke_own_session-IsDead hash c id now db dead

  pub run-IsDead :
      (hash : Text) {db after : Db} → IsDead hash db → AuthRun db after → IsDead hash after
  run-IsDead hash dead at_start = dead
  run-IsDead hash dead (and_then run step) = step-IsDead hash step (run-IsDead hash dead run)
