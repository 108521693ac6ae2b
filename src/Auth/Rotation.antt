-- ===== src/Auth/Rotation.antt =====
-- `Refresh` of internal/biz/auth.go: a refresh token is used once.
use nagisa.Prelude.{
  ℕ, ◌+◌, ◌-◌, ◌≡◌, refl, sym, ◌∙◌, ap, subst, true, false, not, some, [], ◌∷◌, ◌++◌, map, Text,
  is_empty, is_some, trim_space, ltb, ==_iff, Bool-cases, Option-cases, inl, inr, arith,
}
use nagisa.Errors.{Error, Result, ok, err}
use nagisa.Perm.{is_active_user}
use nagisa.Access.{Uuid}
use nagisa.Store.{
  Platform, Db, Tx, User, Session, with_tx, with_tx_ok, find_user, find_user_by_id, find_hash,
  find_session, find_session_by_hash, create_session, revoke_session, is_active_session,
}
use nagisa.Store.Members.{find_user-id}
use nagisa.Store.Rows.{map_option, bind_ok, guard_ok, pure_ok, or_raise_ok}
use nagisa.Tree.Invariant.Reads.{false_of_not}
use nagisa.Crypt.{Crypto}
use nagisa.Auth.Options.{AuthUsecase}
use nagisa.Auth.Sessions.{
  TokenPair, renamed, or_else_raise, new_session, open_session, rotate, refresh, refresh_tx,
}
use nagisa.Auth.Lookups.{
  IsDead, is_dead, revoke_row, revoke_row-IsRevoking, find_hash-map, create_session-IsDead,
}
use nagisa.Auth.Revoked.{AuthRun, run-IsDead}

or_else_raise_ok {ℓ} :
    {C : Type 0} {A : Type ℓ} (e : Error) (m : Tx A) (db : Db) {a : A} {after : Db}
    → or_else_raise e m db ≡ (ok a, after)
    → (m db ≡ (ok a, after) → C)
    → C
or_else_raise_ok {A} e m db {a} {after} h next = next (same (m db) h)
  where
    same : (r : Result A × Db) → renamed e r ≡ (ok a, after) → r ≡ (ok a, after)
    same (ok b, mid) k = k
    same (err x, mid) k = cc

-- A dead token is active for nobody.
dead_inactive :
    (s : Session) (now : ℕ) → is_some s.revoked_at ≡ true → is_active_session s now ≡ false
unfolding is_active_session
dead_inactive s now h = rw h

revoke_session_ok :
    {C : Type 0} (id : Uuid) (now : ℕ) (db : Db) {u : Unit {0}} {after : Db}
    → revoke_session id now db ≡ (ok u, after)
    → (record db { sessions = map (revoke_row id now) db.sessions } ≡ after → C)
    → C
unfolding revoke_session
revoke_session_ok id now db e next = elim (Bool-cases (is_some (find_session id db))) [
  | inl found ↦ let won = rw (found, revoke_session) at e in next (ap (λ r. r.1) won)
  | inr gone ↦ let lost = rw (gone, revoke_session) at e in cc
]

revoked_row-IsDead :
    (hash : Text) (s : Session) (now : ℕ) (db : Db)
    → find_hash hash db ≡ some s
    → IsDead hash (record db { sessions = map (revoke_row s.id now) db.sessions })
revoked_row-IsDead hash s now db found =
    ap is_dead (
      find_hash-map hash (revoke_row s.id now) db (revoke_row-IsRevoking s.id now)
      ∙ ap (map_option (revoke_row s.id now)) found)
    ∙ rw ((==_iff s.id s.id).1 refl) refl

whole_life : (now expires : ℕ) → ltb now expires ≡ true → now + (expires - now) ≡ expires
whole_life now expires h = ground arith

active_expiry :
    (s : Session) (now : ℕ) → is_active_session s now ≡ true → ltb now s.expires_at ≡ true
unfolding is_active_session
active_expiry s now h = ground arith

module _ (platform : Platform) (crypto : Crypto) (uc : AuthUsecase) where
  refresh_of_dead :
      (token ip ua raw : Text) (now : ℕ) (db : Db)
      → is_empty (trim_space token) ≡ false
      → IsDead (crypto.hash_token token) db
      → refresh platform crypto uc token ip ua raw now db ≡ (err Error.unauthenticated, db)
  unfolding refresh refresh_tx find_session_by_hash with_tx
  refresh_of_dead token ip ua raw now db given dead =
      elim (Option-cases (find_hash (crypto.hash_token token) db)) [
        | inl gone ↦ let clash = sym (ap is_dead gone) ∙ dead in cc
        | inr (s, found) ↦
            let revoked = sym (ap is_dead found) ∙ dead in
            rw (given, found, dead_inactive s now revoked)
      ]

  open_session_ok :
      {C : Type 0} (u : User) (ip ua : Text) (ttl : ℕ) (raw : Text) (now : ℕ) (db : Db)
      {pair : TokenPair} {after : Db}
      → open_session platform crypto uc u ip ua ttl raw now db ≡ (ok pair, after)
      → ((create_session platform (new_session platform crypto uc u ip ua ttl raw now) db).1 ≡ after
          → C)
      → C
  unfolding open_session create_session
  open_session_ok u ip ua ttl raw now db e next = next (ap (λ r. r.1) e)

  -- What a successful refresh finds and leaves: the token named a session that was active and belongs to
  -- an active account; that session is revoked, and the one new session is the same account's and expires
  -- when the old one would have.
  abbrev pub IsRotation : Text → Text → ℕ → Db → User → Db → Type 0
  IsRotation token raw now db u after =
      (old : Session) × ((find_hash (crypto.hash_token token) db ≡ some old)
        × (is_active_session old now ≡ true)
        × (find_user old.user_id db ≡ some u)
        × (is_active_user u.status ≡ true)
        × ((new : Session) × ((after.sessions ≡ map (revoke_row old.id now) db.sessions ++ new ∷ [])
              × (new.user_id ≡ old.user_id)
              × (new.token_hash ≡ crypto.hash_token raw)
              × (new.expires_at ≡ old.expires_at))))

  rotate_ok :
      (s : Session) (v u : User) (token ip ua raw : Text) (now : ℕ) (db after : Db)
      (pair : TokenPair)
      → find_hash (crypto.hash_token token) db ≡ some s
      → is_active_session s now ≡ true
      → find_user s.user_id db ≡ some v
      → is_active_user v.status ≡ true
      → rotate platform crypto uc s v ip ua raw now db ≡ (ok (pair, u), after)
      → IsRotation token raw now db u after × IsDead (crypto.hash_token token) after
  unfolding rotate create_session new_session
  rotate_ok s v u token ip ua raw now db after pair at_s active at_v enabled e =
      let hash = crypto.hash_token token in
      bind_ok (revoke_session s.id now) db e λ w mid revokes e₁.
        revoke_session_ok s.id now db revokes λ same_mid.
          bind_ok (open_session platform crypto uc v ip ua (s.expires_at - now) raw now) mid e₁
            λ p mid₂ opens e₂.
              open_session_ok v ip ua (s.expires_at - now) raw now mid opens λ same_mid₂.
                pure_ok e₂ λ same_out same_after.
                  let revoked = record db { sessions = map (revoke_row s.id now) db.sessions } in
                  let fresh = new_session platform crypto uc v ip ua (s.expires_at - now) raw now in
                  let last : (create_session platform fresh revoked).1 ≡ after =
                    ap (λ d. (create_session platform fresh d).1) same_mid
                    ∙ same_mid₂
                    ∙ same_after in
                  let same_user : v ≡ u = ap (λ r. r.1) same_out in
                  (
                    (
                      s,
                      (
                        at_s,
                        active,
                        at_v ∙ ap some same_user,
                        ap (λ r. is_active_user r.status) (sym same_user) ∙ enabled,
                        (
                          record fresh { id = platform.minted revoked.next },
                          (
                            ap (λ d. d.sessions) (sym last),
                            find_user-id s.user_id db v at_v,
                            refl,
                            whole_life now s.expires_at (active_expiry s now active),
                          ),
                        ),
                      ),
                    ),
                    subst (IsDead hash) last (
                        create_session-IsDead hash platform fresh revoked
                          (revoked_row-IsDead hash s now db at_s)),
                  )

  refresh_ok :
      (token ip ua raw : Text) (now : ℕ) (db after : Db) (pair : TokenPair) (u : User)
      → refresh platform crypto uc token ip ua raw now db ≡ (ok (pair, u), after)
      → (is_empty (trim_space token) ≡ false)
        × IsRotation token raw now db u after
        × IsDead (crypto.hash_token token) after
  unfolding refresh refresh_tx find_session_by_hash find_user_by_id
  refresh_ok token ip ua raw now db after pair u e =
      let hash = crypto.hash_token token in
      guard_ok (not (is_empty (trim_space token))) Error.invalid_argument _ db e λ given e₁.
        bind_ok (or_else_raise Error.unauthenticated (find_session_by_hash hash)) db
          (with_tx_ok (refresh_tx platform crypto uc token ip ua raw now) db after (pair, u) e₁)
          λ s db₁ finds e₂.
            or_else_raise_ok Error.unauthenticated (find_session_by_hash hash) db finds λ by_hash.
              or_raise_ok (find_hash hash db) Error.not_found db by_hash λ at_s same.
                guard_ok (is_active_session s now) Error.unauthenticated _ db₁ e₂ λ active e₃.
                  bind_ok (or_else_raise Error.unauthenticated (find_user_by_id s.user_id)) db₁ e₃
                    λ v db₂ finds_user e₄.
                      or_else_raise_ok Error.unauthenticated (find_user_by_id s.user_id) db₁
                        finds_user
                        λ by_id.
                          or_raise_ok (find_user s.user_id db₁) Error.not_found db₁ by_id
                            λ at_v same₂.
                              guard_ok (is_active_user v.status) Error.account_disabled _ db₂ e₄
                                λ enabled e₅.
                                  let (turned, dead) =
                                    rotate_ok s v u token ip ua raw now db after pair at_s active
                                      (ap (find_user s.user_id) same ∙ at_v) enabled
                                      (ap (rotate platform crypto uc s v ip ua raw now)
                                          (same ∙ same₂)
                                        ∙ e₅) in
                                  (false_of_not given, turned, dead)

  -- A refresh token is used once: a successful refresh finds an active session of an active account by
  -- the token, revokes it and opens one session of the same account that expires when the old one would
  -- have; and whatever is done afterwards through the usecase, presenting the token again is refused
  -- without an effect.
  pub refresh_once :
      (token ip ua raw : Text) (now : ℕ) (db after : Db) (pair : TokenPair) (u : User)
      → refresh platform crypto uc token ip ua raw now db ≡ (ok (pair, u), after)
      → IsRotation token raw now db u after
        × ((later : Db) (ip₂ ua₂ raw₂ : Text) (at : ℕ)
            → AuthRun platform crypto uc after later
            → refresh platform crypto uc token ip₂ ua₂ raw₂ at later
              ≡ (err Error.unauthenticated, later))
  refresh_once token ip ua raw now db after pair u e =
      let (given, turned, dead) = refresh_ok token ip ua raw now db after pair u e in
      (
        turned,
        λ later ip₂ ua₂ raw₂ at run.
            refresh_of_dead token ip₂ ua₂ raw₂ at later given
              (run-IsDead platform crypto uc (crypto.hash_token token) dead run),
      )
