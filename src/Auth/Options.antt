-- ===== src/Auth/Options.antt =====
-- internal/biz/auth.go: the options of the usecase, and the password policy.
use nagisa.Prelude.{ℕ, ◌*◌, Bool, not, Text, codes, length, is_empty, if◌then◌else◌}
use nagisa.Prelude.Int.{ℤ, pos, leb_ℤ, ltb_ℤ}
use nagisa.Errors.{Error}
use nagisa.Store.{Tx, guard, or_raise, ◌>>◌}
use nagisa.Crypt.{Crypto, Issuer, second, decode_field}

-- Durations are in nanoseconds.
pub record AuthUsecase : Type 0 where
  pub issuer : Issuer
  pub access_ttl : ℤ
  pub refresh_ttl : ℤ
  pub node_ttl : ℤ
  pub plain_allowed : Bool
  pub min_password : ℤ
  pub guest_name : Text
  pub guest_auto : Bool

abbrev positive_or : ℕ → ℤ → ℤ
positive_or d n = if leb_ℤ n (pos 0) then pos d else n

-- The options are read into a record of the same fields.
unfoldable pub new_auth_usecase : AuthUsecase → AuthUsecase
new_auth_usecase opts = record opts {
  access_ttl = positive_or (7200 * second) opts.access_ttl;
  refresh_ttl = positive_or (2_592_000 * second) opts.refresh_ttl;
  node_ttl = positive_or (1800 * second) opts.node_ttl;
  min_password = positive_or 8 opts.min_password;
  guest_name = if is_empty opts.guest_name then codes "guest" else opts.guest_name;
}

module _ (crypto : Crypto) (uc : AuthUsecase) where
  unfoldable pub decode_password : Text → Tx Text
  unfolding decode_field
  decode_password field = do
    guard (not (is_empty field)) Error.invalid_argument
    or_raise (decode_field crypto field uc.plain_allowed) Error.invalid_argument

  -- A text is the list of its runes.
  unfoldable pub validate_password : Text → Tx (Unit {0})
  validate_password plain =
      guard (not (ltb_ℤ (pos (length plain)) uc.min_password)) Error.invalid_argument

  unfoldable pub hash_password : Text → Tx Text
  unfolding validate_password
  hash_password plain = do validate_password plain; or_raise (crypto.hash plain) Error.internal
