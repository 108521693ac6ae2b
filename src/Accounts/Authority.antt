-- ===== src/Accounts/Authority.antt =====
-- Who may create, change and delete an account: no operation hands out more than the actor has.
use nagisa.Prelude.{
  ℕ, ◌≡◌, sym, ◌∙◌, ap, subst, true, false, not, ◌&&◌, ◌||◌, some, ◌==◌, if◌then◌else◌, is_some,
  trim_space,
}
use nagisa.Prelude.Int.{ltb_ℤ}
use nagisa.Errors.{Error, ok}
use nagisa.Perm.{perm_user_manage, has, add, is_admin, role_preset_for}
use nagisa.Access.{nil_id, Caller, require}
use nagisa.Store.{
  Platform, Db, or_error, with_tx_ok, User, find_user, find_user_by_id, revoke_user_sessions, pure,
  update_user,
}
use nagisa.Store.Rows.{bind_ok, guard_ok, pure_ok, or_raise_ok}
use nagisa.Accounts.{
  UserUsecase, CreateUserInput, UpdateUserInput, can_manage_user, is_builtin, is_username,
  pick_role, wanted_rank, wanted_perms, new_account, register, create_account, set_role, set_rank,
  set_perms, set_status, set_texts, update_account_tx, update_account, revokes,
}
use nagisa.Accounts.Steps.{
  or_error_ok, require_ok, false_of, IsGranted, register_new_ok, set_role_ok, set_rank_ok,
  set_perms_ok, set_status_ok, update_user_ok, can_manage_ok,
}

module _ (platform : Platform) (uc : UserUsecase) (actor : Caller) where
  -- An account that was created ranks below the actor, who may manage accounts, has none but the actor's
  -- own permissions, and is an administrator only if the actor is one.
  pub create_account_within :
      (i : CreateUserInput) (db after : Db) (created : User)
      → create_account platform uc actor i db ≡ (ok created, after)
      → (has actor.perms perm_user_manage ≡ true)
        × (ltb_ℤ created.rank actor.rank ≡ true)
        × (has actor.perms created.permissions ≡ true)
        × ((is_admin created.role && not (is_admin actor.role)) ≡ false)
  unfolding create_account register new_account
  create_account_within i db after created e =
      bind_ok (or_error (require actor perm_user_manage)) db e λ u db₁ checked e₁.
        guard_ok (is_username (trim_space i.username)) Error.invalid_argument _ db₁ e₁ λ named e₂.
          guard_ok (is_some (role_preset_for (pick_role platform uc i.role))) Error.invalid_argument
            _ db₁ e₂
            λ known e₃.
              guard_ok (ltb_ℤ (wanted_rank platform uc i) actor.rank) Error.permission_denied _ db₁
                e₃
                λ below e₄.
                  guard_ok (has actor.perms (wanted_perms platform uc i)) Error.permission_denied _
                    db₁ e₄
                    λ within e₅.
                      guard_ok
                        (not (is_admin (pick_role platform uc i.role) && not (is_admin actor.role)))
                        Error.permission_denied _ db₁ e₅
                        λ no_admin e₆.
                          let (rank, perms, role) =
                            register_new_ok platform uc actor _ (new_account platform uc actor i)
                              created db₁ after
                              (with_tx_ok (register platform uc (new_account platform uc actor i))
                                db₁ after created e₆) in
                          (
                            require_ok actor perm_user_manage (or_error_ok _ db checked).0,
                            ap (λ r. ltb_ℤ r actor.rank) rank ∙ below,
                            ap (has actor.perms) perms ∙ within,
                            ap (λ r. is_admin r && not (is_admin actor.role)) role
                                ∙ false_of no_admin,
                          )

  -- An account that was updated is neither the actor's own nor a built-in one and ranked below the actor,
  -- who may manage accounts; afterwards it still does, its permissions are within those it had and those
  -- of the actor, and it is an administrator only if it was one or the actor is one.
  pub update_account_within :
      (i : UpdateUserInput) (now : ℕ) (db after : Db) (updated : User)
      → update_account platform uc actor i now db ≡ (ok updated, after)
      → (has actor.perms perm_user_manage ≡ true)
        × ((old : User) × ((find_user i.id db ≡ some old)
              × (is_builtin platform uc old ≡ false)
              × ((old.id == actor.user_id) ≡ false)
              × (ltb_ℤ old.rank actor.rank ≡ true)
              × IsGranted actor old updated))
  unfolding update_account update_account_tx find_user_by_id set_texts
  update_account_within i now db after updated e =
      guard_ok (not (i.id == nil_id)) Error.invalid_argument _ db e λ not_nil e₀.
        bind_ok (or_error (require actor perm_user_manage)) db e₀ λ u db₁ checked e₁.
          let (may, same₁) = or_error_ok _ db checked in
          let run = with_tx_ok (update_account_tx platform uc actor i now) db₁ after updated e₁ in
          bind_ok (find_user_by_id i.id) db₁ run λ old db₂ found e₂.
            or_raise_ok (find_user i.id db₁) Error.not_found db₁ found λ at_old same₂.
              guard_ok (not (is_builtin platform uc old)) Error.permission_denied _ db₂ e₂
                λ ours e₃. bind_ok (or_error (can_manage_user actor old)) db₂ e₃ λ v db₃ manages e₄.
                  let (other, below) =
                    can_manage_ok platform uc actor old (or_error_ok _ db₂ manages).0 in
                  bind_ok (set_role platform uc actor i.role old) db₃ e₄ λ u₁ db₄ roles e₅.
                    bind_ok (set_rank platform uc actor i.rank u₁) db₄ e₅ λ u₂ db₅ ranks e₆.
                      bind_ok (set_perms platform uc actor i.permissions u₂) db₅ e₆
                        λ u₃ db₆ perms e₇.
                          bind_ok (set_status platform uc i.status u₃) db₆ e₇ λ u₄ db₇ states e₈.
                            bind_ok (update_user (set_texts platform uc i u₄)) db₇ e₈
                              λ out db₈ saves e₉.
                                bind_ok
                                  (if revokes platform uc i
                                    then revoke_user_sessions old.id now
                                    else pure tt)
                                  db₈ e₉
                                  λ w db₉ revoked e₁₀. pure_ok e₁₀ λ same_out _.
                                    let (_, perms₁, rank₁, role₁) =
                                      set_role_ok platform uc actor i.role old u₁ db₃ db₄ roles in
                                    let (_, perms₂, rank₂, role₂) =
                                      set_rank_ok platform uc actor i.rank u₁ u₂ db₄ db₅ ranks
                                        (ap (λ r. ltb_ℤ r actor.rank) rank₁ ∙ below) in
                                    let (_, perms₃, rank₃, role₃) =
                                      set_perms_ok platform uc actor i.permissions u₂ u₃ db₅ db₆
                                        perms in
                                    let (_, perms₄, rank₄, role₄) =
                                      set_status_ok platform uc actor i.status u₃ u₄ db₆ db₇
                                        states in
                                    let (perms₅, rank₅, role₅) =
                                      update_user_ok platform uc actor (set_texts platform uc i u₄)
                                        out db₇ db₈ saves in
                                    (
                                      require_ok actor perm_user_manage may,
                                      (
                                        old,
                                        (
                                          ap (find_user i.id) same₁ ∙ at_old,
                                          false_of ours,
                                          other,
                                          below,
                                          (
                                            ap
                                                  (λ r.
                                                    has (add actor.perms old.permissions)
                                                      r.permissions)
                                                  (sym same_out)
                                                ∙ ap (has (add actor.perms old.permissions))
                                                    (perms₅ ∙ perms₄)
                                                ∙ subst
                                                    (λ p.
                                                      has (add actor.perms p) u₃.permissions ≡ true)
                                                    (perms₂ ∙ perms₁) perms₃,
                                            ap (λ r. ltb_ℤ r.rank actor.rank) (sym same_out)
                                                ∙ ap (λ r. ltb_ℤ r actor.rank)
                                                    (rank₅ ∙ rank₄ ∙ rank₃)
                                                ∙ rank₂,
                                            ap
                                                  (λ r.
                                                    is_admin r.role
                                                    && not
                                                        (is_admin old.role || is_admin actor.role))
                                                  (sym same_out)
                                                ∙ ap
                                                    (λ r.
                                                      is_admin r
                                                      && not (
                                                          is_admin old.role || is_admin actor.role))
                                                    (role₅ ∙ role₄ ∙ role₃ ∙ role₂)
                                                ∙ role₁,
                                          ),
                                        ),
                                      ),
                                    )
