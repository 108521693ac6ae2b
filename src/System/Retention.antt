-- ===== src/System/Retention.antt =====
-- internal/biz/system.go: which settings an update can change.
use nagisa.Prelude.{
  text_eq→eq, ◌≡◌, refl, sym, ◌∙◌, ap, Bool, true, false, not, Option, none, some, List, [], ◌∷◌,
  Text, text_eq, if◌then◌else◌, inl, inr, Bool-cases, Option-cases,
}
use nagisa.Errors.{Error, Result, ok, err}
use nagisa.Perm.{perm_system_manage}
use nagisa.Access.{Caller, require}
use nagisa.System.Settings.{
  Setting, Parsers, Values, setting_catalog, stored_value, find_setting, put_setting, put_settings,
  checked_setting, checked_values, update_settings, written_settings, validate_setting,
}

-- A key of the catalog that may be written.
abbrev pub is_writable : Text → Bool
is_writable key = elim (find_setting key setting_catalog) [ none ↦ false | some def ↦ def.writable ]

put_elsewhere :
    (key k v : Text) (stored : Values)
    → text_eq k key ≡ false
    → stored_value key (put_setting k v stored) ≡ stored_value key stored
unfolding put_setting stored_value
put_elsewhere key k v [] other = rw other refl
put_elsewhere key k v ((a, b) ∷ rest) other = elim (Bool-cases (text_eq a k)) [
  | inl same ↦
      let apart : text_eq a key ≡ false = ap (λ t. text_eq t key) (text_eq→eq a k same) ∙ other in
      rw (same, apart) refl
  | inr differs ↦ rw (differs, put_elsewhere key k v rest other) refl
]

if_none :
    {A C : Type 0} (test : Bool) (a : A) (o : Option A)
    → (if test then some a else o) ≡ none
    → (test ≡ false → o ≡ none → C)
    → C
if_none true a o h next = cc
if_none false a o h next = next refl h

-- Values for other keys leave what is stored for the key.
put_settings_elsewhere :
    (key : Text) (values stored : Values)
    → stored_value key values ≡ none
    → stored_value key (put_settings values stored) ≡ stored_value key stored
unfolding put_settings stored_value
put_settings_elsewhere key [] stored lacks = refl
put_settings_elsewhere key ((k, v) ∷ rest) stored lacks =
    if_none (text_eq k key) v (stored_value key rest) lacks λ other later.
      put_settings_elsewhere key rest (put_setting k v stored) later
      ∙ put_elsewhere key k v stored other

nothing_stored : (key : Text) → stored_value key [] ≡ none
unfolding stored_value
nothing_stored key = refl

module _ (parse : Parsers) where
  checked-is_writable : (s : Setting) → checked_setting parse s ≡ none → is_writable s.key ≡ true
  unfolding checked_setting
  checked-is_writable s h = of (find_setting s.key setting_catalog) h
    where
      of :
          (o : Option Setting)
          → (elim o as (λ _. Option Error) [
            | none ↦ some Error.invalid_argument
            | some def ↦
                if not def.writable
                then some Error.permission_denied
                else if validate_setting parse def.kind s.value
                then none
                else some Error.invalid_argument
          ])
            ≡ none
          → (elim o as (λ _. Bool) [ none ↦ false | some def ↦ def.writable ]) ≡ true
      of none h = cc
      of (some def) h = elim (Bool-cases def.writable) [
        | inl open_key ↦ open_key
        | inr fixed ↦ let lost = rw fixed at h in cc
      ]

  checked_values_lack :
      (key : Text) (changes : List Setting) (acc values : Values)
      → is_writable key ≡ false
      → stored_value key acc ≡ none
      → checked_values parse changes acc ≡ ok values
      → stored_value key values ≡ none
  unfolding checked_values
  checked_values_lack key [] acc values fixed lacks h =
      ap (λ r. stored_value key (value_of r)) (sym h) ∙ lacks
    where
      value_of : Result Values → Values
      value_of (ok v) = v
      value_of (err e) = acc
  checked_values_lack key (s ∷ rest) acc values fixed lacks h =
      elim (Option-cases (checked_setting parse s)) [
        | inl fine ↦
            let open_key = checked-is_writable s fine in
            let other : text_eq s.key key ≡ false = elim (Bool-cases (text_eq s.key key)) [
              | inl same ↦
                  let never = sym open_key ∙ ap is_writable (text_eq→eq s.key key same) ∙ fixed in
                  cc
              | inr differs ↦ differs
            ] in
            checked_values_lack key rest (put_setting s.key s.value acc) values fixed
              (put_elsewhere key s.key s.value acc other ∙ lacks) (rw (fine, checked_values) at h)
        | inr (e, bad) ↦ let lost = rw (bad, checked_values) at h in cc
      ]

  -- Whatever is asked for and whether it succeeds or fails, `UpdateSettings` leaves what is stored for a
  -- key that is not in the catalog or is read only there.
  pub update_settings_protects :
      (c : Caller) (version : Text) (changes : List Setting) (stored : Values) (key : Text)
      → is_writable key ≡ false
      → stored_value key (update_settings parse c version changes stored).1
        ≡ stored_value key stored
  unfolding update_settings
  update_settings_protects c version changes stored key fixed =
      answered (require c perm_system_manage)
    where
      of :
          (r : Result Values)
          → checked_values parse changes [] ≡ r
          → stored_value key (written_settings parse c version stored r).1 ≡ stored_value key stored
      of (err e) h = refl
      of (ok values) h =
          put_settings_elsewhere key values stored
            (checked_values_lack key changes [] values fixed (nothing_stored key) h)

      answered :
          (o : Option Error)
          → stored_value key
              (elim o as (λ _. Result (List Setting) × Values) [
                | some e ↦ (err e, stored)
                | none ↦ written_settings parse c version stored (checked_values parse changes [])
              ]).1
            ≡ stored_value key stored
      answered none = of (checked_values parse changes []) refl
      answered (some e) = refl
