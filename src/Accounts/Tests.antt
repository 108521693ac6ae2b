-- ===== src/Accounts/Tests.antt =====
-- The authority rules on two accounts.
use nagisa.Prelude.{
  ℕ, ◌≡◌, refl, Bool, true, false, not, ◌&&◌, Option, none, some, List, [], ◌∷◌, Text, codes, ◌==◌,
}
use nagisa.Prelude.Int.{pos, ltb_ℤ}
use nagisa.Errors.{ok}
use nagisa.Perm.{Role, has, is_admin, perm_user_manage}
use nagisa.Access.{Caller}
use nagisa.Access.Sample.{member}
use nagisa.Store.{Db, User, find_user}
use nagisa.Tree.Sample.{sample_platform, sample_user, no_nodes}
use nagisa.Accounts.{
  UserUsecase, CreateUserInput, UpdateUserInput, is_builtin, create_account, update_account,
}
use nagisa.Accounts.Steps.{IsGranted}
use nagisa.Accounts.Authority.{create_account_within, update_account_within}

abbrev users : UserUsecase
users = record { default_quota = pos 0; default_preset = codes "user"; builtin = codes "root" ∷ [] }

abbrev manager : Caller
manager = record member { user_id = 5; role = Role.manager; rank = pos 500; perms = 0x7ff }

abbrev guest_input : CreateUserInput
guest_input = record {
  username = codes "bob";
  nickname = [];
  email = [];
  avatar_url = [];
  role = Role.guest;
  rank = pos 0;
  permissions = 0;
  permissions_set = false;
  quota_bytes = pos 0;
  remark = [];
  password_hash = [];
  enabled = true;
  must_change_password = false;
}

abbrev bob : User
bob = record sample_user {
  id = 100;
  username = codes "bob";
  nickname = codes "bob";
  role = Role.guest;
  rank = pos 10;
  permissions = 3;
  created_by = 5;
}

abbrev with_bob : Db
with_bob = record no_nodes { users = sample_user ∷ bob ∷ []; next = 1 }

bob_is_new : create_account sample_platform users manager guest_input no_nodes ≡ (ok bob, with_bob)
unfolding create_account nagisa.Access.require nagisa.Prelude.trim_space nagisa.Perm.role_preset_for
    nagisa.Accounts.pick_role nagisa.Perm.default_rank_for nagisa.Perm.default_perms_for
    nagisa.Store.with_tx nagisa.Store.find_user_by_username nagisa.Prelude.text_eq
    nagisa.Store.create_user
bob_is_new = refl

create_account_within_example :
    (has manager.perms perm_user_manage ≡ true)
    × (ltb_ℤ bob.rank manager.rank ≡ true)
    × (has manager.perms bob.permissions ≡ true)
    × ((is_admin bob.role && not (is_admin manager.role)) ≡ false)
create_account_within_example =
    create_account_within sample_platform users manager guest_input no_nodes with_bob bob bob_is_new

abbrev promote_input : UpdateUserInput
promote_input = record {
  id = 100;
  nickname = none;
  email = none;
  avatar_url = none;
  remark = none;
  role = some Role.user;
  rank = some (pos 100);
  permissions = some 0xff;
  status = none;
  quota_bytes = none;
  password_hash = none;
  must_change_password = none;
}

abbrev promoted : User
promoted = record bob { role = Role.user; rank = pos 100; permissions = 0xff }

abbrev with_promoted : Db
with_promoted = record with_bob { users = sample_user ∷ promoted ∷ [] }

bob_is_promoted :
    update_account sample_platform users manager promote_input 9 with_bob
    ≡ (ok promoted, with_promoted)
unfolding update_account nagisa.Access.require nagisa.Store.with_tx nagisa.Store.find_user_by_id
    is_builtin nagisa.Prelude.text_eq nagisa.Accounts.account_key nagisa.Prelude.trim_space
    nagisa.Accounts.can_manage_user nagisa.Perm.role_preset_for nagisa.Store.update_user
bob_is_promoted = refl

update_account_within_example :
    (has manager.perms perm_user_manage ≡ true)
    × ((old : User) × ((find_user 100 with_bob ≡ some old)
          × (is_builtin sample_platform users old ≡ false)
          × ((old.id == manager.user_id) ≡ false)
          × (ltb_ℤ old.rank manager.rank ≡ true)
          × IsGranted manager old promoted))
update_account_within_example =
    update_account_within sample_platform users manager promote_input 9 with_bob with_promoted
      promoted bob_is_promoted
