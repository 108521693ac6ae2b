-- ===== src/Shares/Grants.antt =====
-- What a share conveys: `ShareGrant` of internal/biz/access.go and `Grant` of internal/biz/share.go.
use nagisa.Prelude.{ℕ, Bool, not, ◌&&◌, ◌||◌, ◌==◌}
use nagisa.Prelude.Bits.{test_bit}
use nagisa.Perm.{PermMask, perm_share_scope}

-- Permission `i` of a set that a share carries, where the password is missing or not.
abbrev pub carries : PermMask → Bool → ℕ → Bool
carries perms missing i =
    (test_bit perms i && test_bit perm_share_scope i) && (not missing || (0 == i))
