-- ===== src/Crypt.antt =====
-- internal/pkg/crypt/token.go and rsa.go: the tokens of the API and the decoding of password fields.
-- Instants and durations are in nanoseconds; a token carries whole seconds. What `jwt`, `sha256`,
-- `rsa` and `uuid` do is a record of functions.
use nagisa.Prelude.{
  ℕ, ◌+◌, ◌-◌, ◌*◌, ◌/◌, ◌^◌, Bool, ◌&&◌, Option, none, some, List, [], Text, codes, text_eq,
  is_empty, ltb, leb, if◌then◌else◌,
}
use nagisa.Prelude.Int.{ℤ}
use nagisa.Perm.{PermMask, Role}
use nagisa.Access.{Uuid}

-- The claims of a token, with the registered ones; its own identifier is left out. The role is the
-- number of the enumeration.
pub record Claims : Type 0 where
  pub kind : Text
  pub username : Text
  pub role : Role
  pub rank : ℤ
  pub perms : PermMask
  pub nodes : List Text
  pub share_id : Text
  pub issuer : Text
  pub subject : Text
  pub not_before : ℕ
  pub expires_at : ℕ

-- `sign secret` is the signed text of claims, and `parse secret` gives the claims of a text whose
-- signature is right. `decrypt` undoes base64 and RSA-OAEP. `verify hash password` and `hash` are those
-- of the password hasher.
pub record Crypto : Type 0 where
  pub sign : Text → Claims → Text
  pub parse : Text → Text → Option Claims
  pub hash_token : Text → Text
  pub parse_uuid : Text → Option Uuid
  pub decrypt : Text → Option Text
  pub verify : Text → Text → Bool
  pub hash : Text → Option Text

pub record Issuer : Type 0 where
  pub secret : Text
  pub issuer : Text

abbrev pub token_type_access : Text
token_type_access = codes "access"

abbrev pub token_type_node : Text
token_type_node = codes "node"

abbrev pub token_type_share : Text
token_type_share = codes "share"

-- `jwt.NewNumericDate`, and the seconds of a duration.
abbrev pub numeric_date : ℕ → ℕ
numeric_date t = t / 10 ^ 9

abbrev pub second : ℕ
second = 10 ^ 9

unfoldable pub registered : Issuer → Claims → Text → ℕ → ℕ → Claims
registered i c subject ttl now = record c {
  issuer = i.issuer;
  subject = subject;
  not_before = numeric_date (now - second);
  expires_at = numeric_date (now + ttl);
}

-- The checks of `jwt` on the registered claims, with the options of `Verify`.
unfoldable pub is_current : Issuer → Claims → ℕ → Bool
is_current i c now =
    ltb now (c.expires_at * second) && leb (c.not_before * second) now && text_eq c.issuer i.issuer

module _ (crypto : Crypto) where
  unfoldable pub issue : Issuer → Claims → Text → ℕ → ℕ → Text
  unfolding registered
  issue i c subject ttl now = crypto.sign i.secret (registered i c subject ttl now)

  unfoldable pub verify_token : Issuer → Text → ℕ → Option Claims
  unfolding is_current
  verify_token i token now = elim (crypto.parse i.secret token) [
    | none ↦ none
    | some c ↦ if is_current i c now then some c else none
  ]

  -- `KeyBox.Decode`.
  unfoldable pub decode_field : Text → Bool → Option Text
  decode_field value allow_plain = if is_empty value then some [] else elim (crypto.decrypt value) [
    | none ↦ if allow_plain then some value else none
    | some plain ↦ some plain
  ]
