-- ===== src/Accounts/Steps.antt =====
-- What the steps of the account operations leave of an account's authority.
use nagisa.Prelude.{
  ◌≡◌, refl, sym, ◌∙◌, ap, Bool, true, false, not, ◌&&◌, ◌||◌, Option, none, some, arith, ◌==◌,
  Bool-cases, Option-cases, is_some, inl, inr,
}
use nagisa.Prelude.Bits.{test_bit-bit_or}
use nagisa.Prelude.Int.{ℤ, pos, leb_ℤ, ltb_ℤ}
use nagisa.Errors.{Error, Result, ok, err}
use nagisa.Perm.{PermMask, Role, UserStatus, has, add, is_admin, role_preset_for}
use nagisa.Perm.Laws.{has_iff, has_trans}
use nagisa.Access.{nil_id, Caller, require}
use nagisa.Store.{Platform, Db, or_error, User, find_user_row, create_user, update_user, is_deleted}
use nagisa.Store.Rows.{guard_ok, pure_ok}
use nagisa.Accounts.{
  UserUsecase, can_manage_user, register_new, set_role, set_rank, set_perms, set_status,
}

pub or_error_ok :
    {u : Unit {0}} {after : Db} (o : Option Error) (db : Db)
    → or_error o db ≡ (ok u, after)
    → (o ≡ none) × (db ≡ after)
or_error_ok none db e = (refl, ap (λ r. r.1) e)
or_error_ok (some x) db e = cc

pub require_ok : (c : Caller) (want : PermMask) → require c want ≡ none → has c.perms want ≡ true
unfolding require
require_ok c want e = ground arith

own : (a d : Bool) → (a && not (a || d)) ≡ false
own a d = ground arith

-- What the actor may not have handed out: more than itself and the account have.
abbrev pub IsGranted : Caller → User → User → Type 0
IsGranted actor old new =
    (has (add actor.perms old.permissions) new.permissions ≡ true)
    × (ltb_ℤ new.rank actor.rank ≡ true)
    × ((is_admin new.role && not (is_admin old.role || is_admin actor.role)) ≡ false)

add_left : (a b : PermMask) → has (add a b) a ≡ true
add_left a b = (has_iff _ _).1 (λ i h. ground (arith, test_bit-bit_or i a b))

add_right : (a b : PermMask) → has (add a b) b ≡ true
add_right a b = (has_iff _ _).1 (λ i h. ground (arith, test_bit-bit_or i a b))

pub false_of : {b : Bool} → not b ≡ true → b ≡ false
false_of {b = true} h = cc
false_of {b = false} h = refl

module _ (platform : Platform) (uc : UserUsecase) (actor : Caller) where
  pub register_new_ok :
      (r : Result User) (u out : User) (db after : Db)
      → register_new platform uc u r db ≡ (ok out, after)
      → (out.rank ≡ u.rank) × (out.permissions ≡ u.permissions) × (out.role ≡ u.role)
  unfolding register_new create_user
  register_new_ok (ok existing) u out db after e = cc
  register_new_ok (err missing) u out db after e = pure_ok e λ same _.
      (ap (λ r. r.rank) (sym same), ap (λ r. r.permissions) (sym same), ap (λ r. r.role) (sym same))

  pub set_role_ok :
      (r : Option Role) (u out : User) (db after : Db)
      → set_role platform uc actor r u db ≡ (ok out, after)
      → (db ≡ after)
        × (out.permissions ≡ u.permissions)
        × (out.rank ≡ u.rank)
        × ((is_admin out.role && not (is_admin u.role || is_admin actor.role)) ≡ false)
  unfolding set_role
  set_role_ok none u out db after e = pure_ok e λ same m. (
    m,
    ap (λ r. r.permissions) (sym same),
    ap (λ r. r.rank) (sym same),
    ap (λ r. is_admin r.role && not (is_admin u.role || is_admin actor.role)) (sym same)
        ∙ own (is_admin u.role) (is_admin actor.role),
  )
  set_role_ok (some r) u out db after e =
      guard_ok (is_some (role_preset_for r)) Error.invalid_argument _ db e λ known e₁.
        guard_ok (not (is_admin r && not (is_admin actor.role))) Error.permission_denied _ db e₁
          λ no_admin e₂. pure_ok e₂ λ same m. (
            m,
            ap (λ r. r.permissions) (sym same),
            ap (λ r. r.rank) (sym same),
            ap (λ q. is_admin q.role && not (is_admin u.role || is_admin actor.role)) (sym same)
                ∙ weaker (is_admin r) (is_admin u.role) (is_admin actor.role) (false_of no_admin),
          )
    where
      weaker : (a b d : Bool) → (a && not d) ≡ false → (a && not (b || d)) ≡ false
      weaker a b d h = ground arith

  pub set_rank_ok :
      (r : Option ℤ) (u out : User) (db after : Db)
      → set_rank platform uc actor r u db ≡ (ok out, after)
      → ltb_ℤ u.rank actor.rank ≡ true
      → (db ≡ after)
        × (out.permissions ≡ u.permissions)
        × (ltb_ℤ out.rank actor.rank ≡ true)
        × (out.role ≡ u.role)
  unfolding set_rank
  set_rank_ok none u out db after e below = pure_ok e λ same m. (
    m,
    ap (λ r. r.permissions) (sym same),
    ap (λ r. ltb_ℤ r.rank actor.rank) (sym same) ∙ below,
    ap (λ r. r.role) (sym same),
  )
  set_rank_ok (some r) u out db after e below =
      guard_ok (not (leb_ℤ r (pos 0) || leb_ℤ actor.rank r)) Error.permission_denied _ db e
        λ fits e₁. pure_ok e₁ λ same m. (
          m,
          ap (λ r. r.permissions) (sym same),
          ap (λ r. ltb_ℤ r.rank actor.rank) (sym same) ∙ less r (false_of fits),
          ap (λ r. r.role) (sym same),
        )
    where
      less : (r : ℤ) → (leb_ℤ r (pos 0) || leb_ℤ actor.rank r) ≡ false → ltb_ℤ r actor.rank ≡ true
      less r h = ground arith

  pub set_perms_ok :
      (m : Option PermMask) (u out : User) (db after : Db)
      → set_perms platform uc actor m u db ≡ (ok out, after)
      → (db ≡ after)
        × (has (add actor.perms u.permissions) out.permissions ≡ true)
        × (out.rank ≡ u.rank)
        × (out.role ≡ u.role)
  unfolding set_perms
  set_perms_ok none u out db after e = pure_ok e λ same m. (
    m,
    ap (λ r. has (add actor.perms u.permissions) r.permissions) (sym same) ∙ add_right _ _,
    ap (λ r. r.rank) (sym same),
    ap (λ r. r.role) (sym same),
  )
  set_perms_ok (some p) u out db after e =
      guard_ok (has actor.perms p) Error.permission_denied _ db e λ within e₁. pure_ok e₁ λ same m.
        (
          m,
          ap (λ r. has (add actor.perms u.permissions) r.permissions) (sym same)
              ∙ has_trans _ _ _ (add_left _ _) within,
          ap (λ r. r.rank) (sym same),
          ap (λ r. r.role) (sym same),
        )

  pub set_status_ok :
      (st : Option UserStatus) (u out : User) (db after : Db)
      → set_status platform uc st u db ≡ (ok out, after)
      → (db ≡ after) × (out.permissions ≡ u.permissions) × (out.rank ≡ u.rank) × (out.role ≡ u.role)
  unfolding set_status
  set_status_ok none u out db after e = pure_ok e λ same m. (
    m,
    ap (λ r. r.permissions) (sym same),
    ap (λ r. r.rank) (sym same),
    ap (λ r. r.role) (sym same),
  )
  set_status_ok (some st) u out db after e =
      guard_ok (not (is_deleted st)) Error.invalid_argument _ db e λ live e₁. pure_ok e₁ λ same m. (
        m,
        ap (λ r. r.permissions) (sym same),
        ap (λ r. r.rank) (sym same),
        ap (λ r. r.role) (sym same),
      )

  pub update_user_ok :
      (u out : User) (db after : Db)
      → update_user u db ≡ (ok out, after)
      → (out.permissions ≡ u.permissions) × (out.rank ≡ u.rank) × (out.role ≡ u.role)
  unfolding update_user
  update_user_ok u out db after e = elim (Bool-cases (u.id == nil_id)) [
    | inl nil ↦ let lost = rw (nil, update_user) at e in cc
    | inr some_id ↦
        let tried = rw (some_id, update_user) at e in
        elim (Option-cases (find_user_row (λ r. r.id == u.id) db.users)) [
          | inl absent ↦ let lost = rw absent at tried in cc
          | inr (row, found) ↦
              let won = rw found at tried in
              pure_ok won λ same _. (
                ap (λ r. r.permissions) (sym same),
                ap (λ r. r.rank) (sym same),
                ap (λ r. r.role) (sym same),
              )
        ]
  ]

  pub can_manage_ok :
      (target : User)
      → can_manage_user actor target ≡ none
      → ((target.id == actor.user_id) ≡ false) × (ltb_ℤ target.rank actor.rank ≡ true)
  unfolding can_manage_user
  can_manage_ok target e = ground arith
