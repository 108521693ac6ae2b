-- ===== src/Perm/Authority.antt =====
-- The role presets form a chain: rank and permission set agree on who outranks whom.
use nagisa.Prelude.{◌≡◌, refl, true, some, arith}
use nagisa.Prelude.Int.{◌≤ℤ◌}
use nagisa.Perm.{Role, RolePreset, has, role_preset_for, default_perms_for, default_rank_for}

-- A role with a preset whose default rank is at least that of another role has every default
-- permission of the other.
pub default_perms_for_mono :
    (r s : Role) (p : RolePreset)
    → role_preset_for r ≡ some p
    → default_rank_for s ≤ℤ default_rank_for r
    → has (default_perms_for r) (default_perms_for s) ≡ true
unfolding has default_perms_for default_rank_for
default_perms_for_mono Role.unspecified Role.unspecified p e h = refl
default_perms_for_mono r s p e h = ground arith
