-- ===== src/Perm/Roles.antt =====
-- The constants, enumerations and role presets of internal/biz/model.go.
use nagisa.Prelude.{ℕ, Bool, true, false, Option, none, some, List, [], ◌∷◌, if◌then◌else◌}
use nagisa.Prelude.Int.{ℤ, pos}

abbrev pub PermMask : Type 0
PermMask = ℕ

abbrev pub perm_none : PermMask
perm_none = 0

abbrev pub perm_view : PermMask
perm_view = 0x1

abbrev pub perm_download : PermMask
perm_download = 0x2

abbrev pub perm_upload : PermMask
perm_upload = 0x4

abbrev pub perm_edit : PermMask
perm_edit = 0x8

abbrev pub perm_delete : PermMask
perm_delete = 0x10

abbrev pub perm_trash_manage : PermMask
perm_trash_manage = 0x20

abbrev pub perm_share : PermMask
perm_share = 0x40

abbrev pub perm_acl_manage : PermMask
perm_acl_manage = 0x80

abbrev pub perm_user_manage : PermMask
perm_user_manage = 0x100

abbrev pub perm_audit_read : PermMask
perm_audit_read = 0x200

abbrev pub perm_storage_manage : PermMask
perm_storage_manage = 0x400

abbrev pub perm_system_manage : PermMask
perm_system_manage = 0x800

-- The unions that the source writes with `|`.
abbrev pub perm_all : PermMask
perm_all = 0xfff

abbrev pub perm_node_scope : PermMask
perm_node_scope = 0xff

abbrev pub perm_share_scope : PermMask
perm_share_scope = 0x7

abbrev pub perm_read : PermMask
perm_read = 0x3

pub data Role : Type 0 where
  unspecified admin manager user guest : Role

pub data UserStatus : Type 0 where
  unspecified active disabled deleted : UserStatus

pub data NodeKind : Type 0 where
  unspecified folder file : NodeKind

pub data NodeStatus : Type 0 where
  unspecified active trashed : NodeStatus

pub data Visibility : Type 0 where
  unspecified private internal public : Visibility

pub data SubjectType : Type 0 where
  unspecified user role everyone : SubjectType

pub data Effect : Type 0 where
  unspecified allow deny : Effect

pub data ConflictPolicy : Type 0 where
  unspecified fail rename overwrite : ConflictPolicy

-- `a == b` on the enumerations that the code compares.
abbrev pub is_admin : Role → Bool
is_admin Role.admin = true
is_admin _ = false

abbrev pub is_active_user : UserStatus → Bool
is_active_user UserStatus.active = true
is_active_user _ = false

abbrev pub is_folder_kind : NodeKind → Bool
is_folder_kind NodeKind.folder = true
is_folder_kind _ = false

abbrev pub is_file_kind : NodeKind → Bool
is_file_kind NodeKind.file = true
is_file_kind _ = false

abbrev pub is_trashed_status : NodeStatus → Bool
is_trashed_status NodeStatus.trashed = true
is_trashed_status _ = false

abbrev pub is_active_status : NodeStatus → Bool
is_active_status NodeStatus.active = true
is_active_status _ = false

-- The enum value, by which visibilities are ordered.
abbrev pub visibility_value : Visibility → ℕ
visibility_value Visibility.unspecified = 0
visibility_value Visibility.private = 1
visibility_value Visibility.internal = 2
visibility_value Visibility.public = 3

pub record RolePreset : Type 0 where
  pub role : Role
  pub rank : ℤ
  pub perms : PermMask

abbrev pub admin_preset : RolePreset
admin_preset = record { role = Role.admin; rank = pos 1000; perms = perm_all }

abbrev pub manager_preset : RolePreset
manager_preset = record { role = Role.manager; rank = pos 500; perms = 0x7ff }

abbrev pub user_preset : RolePreset
user_preset = record { role = Role.user; rank = pos 100; perms = 0xff }

abbrev pub guest_preset : RolePreset
guest_preset = record { role = Role.guest; rank = pos 10; perms = perm_read }

abbrev pub role_presets : List RolePreset
role_presets = admin_preset ∷ manager_preset ∷ user_preset ∷ guest_preset ∷ []

abbrev pub same_role : Role → Role → Bool
same_role Role.unspecified Role.unspecified = true
same_role Role.admin Role.admin = true
same_role Role.manager Role.manager = true
same_role Role.user Role.user = true
same_role Role.guest Role.guest = true
same_role _ _ = false

preset_loop : Role → List RolePreset → Option RolePreset
preset_loop r [] = none
preset_loop r (p ∷ ps) = let rest = preset_loop r ps in if same_role p.role r then some p else rest

unfoldable pub role_preset_for : Role → Option RolePreset
unfolding preset_loop
role_preset_for r = preset_loop r role_presets

unfoldable pub default_perms_for : Role → PermMask
unfolding role_preset_for
default_perms_for r = elim (role_preset_for r) [ some p ↦ p.perms | none ↦ perm_none ]

unfoldable pub default_rank_for : Role → ℤ
unfolding role_preset_for
default_rank_for r = elim (role_preset_for r) [ some p ↦ p.rank | none ↦ guest_preset.rank ]
