-- ===== src/Files/Quota.antt =====
-- internal/biz/file.go: the quota of the account that content is billed to.
use nagisa.Prelude.{not, ◌||◌, ◌==◌, if◌then◌else◌}
use nagisa.Prelude.Int.{ℤ, pos, ◌+ℤ◌, leb_ℤ, ltb_ℤ}
use nagisa.Errors.{Error}
use nagisa.Access.{Uuid, nil_id, Caller, is_authenticated}
use nagisa.Store.{Tx, User, pure, guard, ◌>>=◌, find_user_by_id}

unfoldable pub fits_quota : User → ℤ → Tx (Unit {0})
fits_quota u extra =
    if leb_ℤ u.quota_bytes (pos 0)
    then pure tt
    else guard (not (ltb_ℤ u.quota_bytes (pos u.used_bytes +ℤ extra))) Error.quota_exceeded

unfoldable pub check_quota_for : Uuid → ℤ → Tx (Unit {0})
check_quota_for owner_id extra =
    if leb_ℤ extra (pos 0) || (owner_id == nil_id)
    then pure tt
    else find_user_by_id owner_id >>= λ u. fits_quota u extra

unfoldable pub check_quota : Caller → ℤ → Tx (Unit {0})
check_quota c extra = if not (is_authenticated c) then pure tt else check_quota_for c.user_id extra
