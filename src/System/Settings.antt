-- ===== src/System/Settings.antt =====
-- internal/biz/system.go and internal/data/setting.go: the settings, a table of texts by key of its own.
-- `strconv.ParseInt` and `strconv.ParseBool` are given as tests.
use nagisa.Prelude.{
  Bool, true, false, not, Option, none, some, List, [], ◌∷◌, Text, codes, text_eq, is_empty,
  if◌then◌else◌,
}
use nagisa.Errors.{Error, Result, ok, err}
use nagisa.Perm.{perm_storage_manage, perm_system_manage}
use nagisa.Access.{Caller, require}

pub record Setting : Type 0 where
  pub key : Text
  pub value : Text
  pub kind : Text
  pub writable : Bool

pub record Parsers : Type 0 where
  pub is_int : Text → Bool
  pub is_bool : Text → Bool

abbrev pub Values : Type 0
Values = List (Text × Text)

abbrev tunable : Text → Text → Bool → Setting
tunable key kind writable = record { key = key; value = []; kind = kind; writable = writable }

-- The catalog without its descriptions.
unfoldable pub setting_catalog : List Setting
setting_catalog =
    tunable (codes "guest.default_permissions") (codes "int") true
    ∷ tunable (codes "storage.default_quota_bytes") (codes "int") true
    ∷ tunable (codes "upload.max_inline_size") (codes "int") true
    ∷ tunable (codes "upload.default_chunk_size") (codes "int") true
    ∷ tunable (codes "upload.keep_versions") (codes "bool") true
    ∷ tunable (codes "upload.max_versions") (codes "int") true
    ∷ tunable (codes "share.allow_public") (codes "bool") true
    ∷ tunable (codes "trash.retention_days") (codes "int") true
    ∷ tunable (codes "system.maintenance_interval") (codes "string") true
    ∷ tunable (codes "system.version") (codes "string") false
    ∷ []

unfoldable pub stored_value : Text → Values → Option Text
stored_value key [] = none
stored_value key ((k, v) ∷ rest) = if text_eq k key then some v else stored_value key rest

unfoldable pub find_setting : Text → List Setting → Option Setting
find_setting key [] = none
find_setting key (s ∷ rest) = if text_eq s.key key then some s else find_setting key rest

abbrev or_value : Option Text → Setting → Setting
or_value none s = s
or_value (some v) s = record s { value = v }

-- The version is that of the build, whatever is stored.
unfoldable pub with_values : Text → Values → List Setting → List Setting
with_values version stored [] = []
with_values version stored (s ∷ rest) =
    or_value (stored_value s.key ((codes "system.version", version) ∷ []))
      (or_value (stored_value s.key stored) s)
    ∷ with_values version stored rest

-- `Settings`.
unfoldable pub settings : Caller → Text → Values → Result (List Setting)
settings c version stored = elim (require c perm_storage_manage) [
  | some e ↦ err e
  | none ↦ ok (with_values version stored setting_catalog)
]

-- An update where a row has the key, an insertion otherwise.
unfoldable pub put_setting : Text → Text → Values → Values
put_setting key value [] = (key, value) ∷ []
put_setting key value ((k, v) ∷ rest) =
    let later = put_setting key value rest in
    if text_eq k key then (k, value) ∷ rest else (k, v) ∷ later

unfoldable pub put_settings : Values → Values → Values
put_settings [] stored = stored
put_settings ((key, value) ∷ rest) stored = put_settings rest (put_setting key value stored)

module _ (parse : Parsers) where
  unfoldable pub validate_setting : Text → Text → Bool
  validate_setting kind value =
      if text_eq kind (codes "int")
      then parse.is_int value
      else if text_eq kind (codes "bool")
      then parse.is_bool value
      else if text_eq kind (codes "json")
      then not (is_empty value)
      else true

  unfoldable pub checked_setting : Setting → Option Error
  checked_setting s = elim (find_setting s.key setting_catalog) [
    | none ↦ some Error.invalid_argument
    | some def ↦
        if not def.writable
        then some Error.permission_denied
        else if validate_setting def.kind s.value
        then none
        else some Error.invalid_argument
  ]

  -- The values to write, of which a later one for a key counts.
  unfoldable pub checked_values : List Setting → Values → Result Values
  checked_values [] values = ok values
  checked_values (s ∷ rest) values =
      let later = checked_values rest (put_setting s.key s.value values) in
      elim (checked_setting s) [ some e ↦ err e | none ↦ later ]

  -- What is stored, and what comes back.
  abbrev pub written_settings :
      Caller → Text → Values → Result Values → Result (List Setting) × Values
  written_settings c version stored (err e) = (err e, stored)
  written_settings c version stored (ok values) =
      (settings c version (put_settings values stored), put_settings values stored)

  -- `UpdateSettings`.
  unfoldable pub update_settings :
      Caller → Text → List Setting → Values → Result (List Setting) × Values
  update_settings c version changes stored = elim (require c perm_system_manage) [
    | some e ↦ (err e, stored)
    | none ↦ written_settings c version stored (checked_values changes [])
  ]
