-- ===== src/Perm/Tests.antt =====
-- The permission masks on examples.
use nagisa.Prelude.{ℕ, ◌≡◌, refl, ◌↔◌, true, some, bit_and, arith}
use nagisa.Prelude.Bits.{test_bit}
use nagisa.Prelude.Int.{◌≤ℤ◌}
use nagisa.Perm.{
  Role, has, perm_all, perm_read, perm_mask_from, permission_values, manager_preset,
  default_perms_for, default_rank_for, role_preset_for,
}
use nagisa.Perm.Laws.{has_iff}
use nagisa.Perm.Catalog.{perm_mask_from-permission_values}
use nagisa.Perm.Authority.{default_perms_for_mono}

read_values : perm_mask_from (permission_values 0x1003) ≡ 3
unfolding perm_mask_from permission_values has nagisa.Perm.perm_bit
read_values = refl

has_iff_example : (has 7 5 ≡ true) ↔ ((i : ℕ) → test_bit 5 i ≡ true → test_bit 7 i ≡ true)
has_iff_example = has_iff 7 5

perm_mask_from-permission_values_example :
    perm_mask_from (permission_values 0x1003) ≡ bit_and 0x1003 perm_all
perm_mask_from-permission_values_example = perm_mask_from-permission_values 0x1003

is_manager : role_preset_for Role.manager ≡ some manager_preset
unfolding role_preset_for
is_manager = refl

user_below_manager : default_rank_for Role.user ≤ℤ default_rank_for Role.manager
unfolding default_rank_for
user_below_manager = ground arith

default_perms_for_mono_example :
    has (default_perms_for Role.manager) (default_perms_for Role.user) ≡ true
default_perms_for_mono_example =
    default_perms_for_mono Role.manager Role.user manager_preset is_manager user_below_manager
