-- ===== src/Auth/Passwords.antt =====
-- `ChangePassword` of internal/biz/auth.go: what a changed password ends.
use nagisa.Prelude.{
  ℕ, ◌≡◌, refl, sym, ◌∙◌, ap, subst, Bool, true, false, not, ◌&&◌, some, List, [], ◌∷◌, map, Text,
  length, any, is_empty, ◌==◌, Bool-cases, if◌then◌else◌, inl, inr, arith,
}
use nagisa.Prelude.Int.{pos, ltb_ℤ}
use nagisa.Errors.{Error, ok}
use nagisa.Access.{Uuid, Caller, nil_id, is_authenticated}
use nagisa.Store.{
  Platform, Db, User, Session, with_tx_ok, or_raise, find_user, find_user_row, find_user_by_id,
  update_user, written_user, is_deleted, revoke, revoke_user_sessions, is_active_session,
}
use nagisa.Store.Members.{find_user-id, found_row, find_user-write}
use nagisa.Store.Rows.{bind_ok, guard_ok, or_raise_ok}
use nagisa.Tree.Invariant.Reads.{false_of_not}
use nagisa.Crypt.{Crypto, decode_field}
use nagisa.Auth.Options.{AuthUsecase, decode_password, validate_password}
use nagisa.Auth.Sessions.{change_password, change_password_tx}

-- An account that is updated by a row with its own identifier and status is found afterwards.
find_user-update :
    (u row : User) (db : Db)
    → find_user u.id db ≡ some row
    → u.status ≡ row.status
    → find_user u.id
        (record db { users = map (λ r. if r.id == u.id then written_user u r else r) db.users })
      ≡ some (written_user u row)
find_user-update u row db e same =
    find_user-write u.id (written_user u) row db (λ r here. sym here) (ap is_deleted same) e

abbrev pub has_active : Uuid → ℕ → List Session → Bool
has_active id at rows = any (λ s. (s.user_id == id) && is_active_session s at) rows

revoked_own :
    (id : Uuid) (now at : ℕ) (s : Session)
    → (((if s.user_id == id then revoke now s else s).user_id == id)
        && is_active_session (if s.user_id == id then revoke now s else s) at)
      ≡ false
unfolding is_active_session
revoked_own id now at s = ground arith

has_active-revoke :
    (id : Uuid) (now at : ℕ) (rows : List Session)
    → has_active id at (map (λ s. if s.user_id == id then revoke now s else s) rows) ≡ false
has_active-revoke id now at [] = refl
has_active-revoke id now at (s ∷ rest) =
    rw (revoked_own id now at s) (has_active-revoke id now at rest)

update_user_ok :
    {C : Type 0} (u row : User) (db : Db) {out : User} {after : Db}
    → find_user_row (λ r. r.id == u.id) db.users ≡ some row
    → update_user u db ≡ (ok out, after)
    → (record db { users = map (λ r. if r.id == u.id then written_user u r else r) db.users }
          ≡ after
        → C)
    → C
unfolding update_user
update_user_ok u row db at_row e next = elim (Bool-cases (u.id == nil_id)) [
  | inl nil ↦ let lost = rw (nil, update_user) at e in cc
  | inr other ↦ let won = rw (other, at_row, update_user) at e in next (ap (λ r. r.1) won)
]

module _ (platform : Platform) (crypto : Crypto) (uc : AuthUsecase) (c : Caller) where
  decode_password_ok :
      {C : Type 0} (field : Text) (db : Db) {plain : Text} {after : Db}
      → decode_password crypto uc field db ≡ (ok plain, after)
      → (decode_field crypto field uc.plain_allowed ≡ some plain → db ≡ after → C)
      → C
  unfolding decode_password
  decode_password_ok field db e next =
      guard_ok (not (is_empty field)) Error.invalid_argument _ db e λ given e₁.
        or_raise_ok (decode_field crypto field uc.plain_allowed) Error.invalid_argument db e₁ next

  -- What the transaction leaves.
  abbrev pub IsChanged : Text → Text → Db → Db → Type 0
  IsChanged current digest db after =
      (old : User) × ((find_user c.user_id db ≡ some old)
        × (crypto.verify old.password_hash current ≡ true)
        × ((u : User) × ((find_user c.user_id after ≡ some u)
              × (u.password_hash ≡ digest)
              × (u.must_change_password ≡ false)))
        × ((at : ℕ) → has_active c.user_id at after.sessions ≡ false))

  change_password_tx_ok :
      (current digest : Text) (now : ℕ) (db after : Db) (w : Unit {0})
      → change_password_tx platform crypto uc c current digest now db ≡ (ok w, after)
      → IsChanged current digest db after
  unfolding change_password_tx find_user_by_id revoke_user_sessions find_user
  change_password_tx_ok current digest now db after w e =
      bind_ok (find_user_by_id c.user_id) db e λ old db₁ finds e₁.
        or_raise_ok (find_user c.user_id db) Error.not_found db finds λ at_old same.
          guard_ok (crypto.verify old.password_hash current) Error.unauthenticated _ db₁ e₁
            λ known e₂.
              let key = find_user-id c.user_id db old at_old in
              let row = record old { password_hash = digest; must_change_password = false } in
              let at_row : find_user old.id db₁ ≡ some old =
                ap (λ i. find_user i db₁) key ∙ ap (find_user c.user_id) (sym same) ∙ at_old in
              bind_ok (update_user row) db₁ e₂ λ out db₂ writes e₃.
                update_user_ok row old db₁ (found_row old.id db₁ old at_row).0 writes λ wrote.
                  let ended = ap (λ r. r.1) e₃ in
                  (
                    old,
                    (
                      at_old,
                      known,
                      (
                        written_user row old,
                        (
                          ap (λ i. find_user i after) (sym key)
                              ∙ ap (find_user old.id) (sym ended)
                              ∙ ap (find_user old.id) (sym wrote)
                              ∙ find_user-update row old db₁ at_row refl,
                          refl,
                          refl,
                        ),
                      ),
                      λ at.
                          ap (λ d. has_active c.user_id at d.sessions) (sym ended)
                          ∙ ap
                              (λ i. has_active c.user_id at (
                                map (λ s. if s.user_id == i then revoke now s else s) db₂.sessions))
                              key
                          ∙ has_active-revoke c.user_id now at db₂.sessions,
                    ),
                  )

  -- A password that was changed was the account's: the caller gave the current one and a new one that is
  -- long enough; the account has the hash of the new one, and none of its sessions is active at any time.
  pub change_password_ends_sessions :
      (current_field new_field : Text) (now : ℕ) (db after : Db) (w : Unit {0})
      → change_password platform crypto uc c current_field new_field now db ≡ (ok w, after)
      → (current : Text) × ((wanted : Text) × ((digest : Text) × ((decode_field crypto current_field
                  uc.plain_allowed
                ≡ some current)
              × (decode_field crypto new_field uc.plain_allowed ≡ some wanted)
              × (ltb_ℤ (pos (length wanted)) uc.min_password ≡ false)
              × (crypto.hash wanted ≡ some digest)
              × IsChanged current digest db after)))
  unfolding change_password validate_password
  change_password_ends_sessions current_field new_field now db after w e =
      guard_ok (is_authenticated c) Error.unauthenticated _ db e λ known e₁.
        bind_ok (decode_password crypto uc current_field) db e₁ λ current db₁ decodes e₂.
          decode_password_ok current_field db decodes λ is_current same₁.
            bind_ok (decode_password crypto uc new_field) db₁ e₂ λ wanted db₂ decodes₂ e₃.
              decode_password_ok new_field db₁ decodes₂ λ is_wanted same₂.
                guard_ok (not (ltb_ℤ (pos (length wanted)) uc.min_password)) Error.invalid_argument
                  _ db₂ e₃
                  λ long e₄.
                    bind_ok (or_raise (crypto.hash wanted) Error.internal) db₂ e₄
                      λ digest db₃ hashes e₅.
                        or_raise_ok (crypto.hash wanted) Error.internal db₂ hashes
                          λ is_digest same₃.
                            let run =
                              with_tx_ok
                                (change_password_tx platform crypto uc c current digest now) db₃
                                after w e₅ in
                            let changed =
                              change_password_tx_ok current digest now db₃ after w run in
                            (
                              current,
                              (
                                wanted,
                                (
                                  digest,
                                  (
                                    is_current,
                                    is_wanted,
                                    false_of_not long,
                                    is_digest,
                                    subst (λ d. IsChanged current digest d after)
                                        (sym (same₁ ∙ same₂ ∙ same₃)) changed,
                                  ),
                                ),
                              ),
                            )
