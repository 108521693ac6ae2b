-- ===== src/Auth/Roundtrip.antt =====
-- The tokens of internal/biz/auth.go, read back: identities, unlocked folders and shares.
use nagisa.Prelude.{
  ℕ, ◌+◌, ◌-◌, ◌*◌, ◌/◌, ◌^◌, ◌≤◌, ◌<◌, ◌≡◌, refl, ap, Bool, true, false, not, ◌&&◌, some, List, [],
  ◌∷◌, map, Text, text_eq, text_eq_refl, keep, ltb, leb, ◌==◌, arith,
}
use nagisa.Prelude.Int.{pos_part}
use nagisa.Errors.{Error, ok, err}
use nagisa.Perm.{is_active_user}
use nagisa.Access.{Uuid, nil_id}
use nagisa.Store.{Platform, Db, User, find_user, find_user_by_id}
use nagisa.Crypt.{
  Claims, Crypto, registered, is_current, issue, verify_token, token_type_access, token_type_node,
  token_type_share,
}
use nagisa.Auth.Options.{AuthUsecase}
use nagisa.Auth.Sessions.{access_claims, issue_access}
use nagisa.Auth.Identity.{
  caller_of, plain_claims, verified, authenticate, issue_node_token, parse_ids, parse_node_token,
  issue_share_token,
}

-- What `jwt` and `uuid` document: a text that was signed reads back under the same secret, and a uuid
-- that was written reads back.
pub record IsFaithful (platform : Platform) (crypto : Crypto) : Type 0 where
  pub parse-sign :
      (secret : Text) (c : Claims) → crypto.parse secret (crypto.sign secret c) ≡ some c
  pub parse-text : (id : Uuid) → crypto.parse_uuid (platform.uuid_text id) ≡ some id

-- The instants at which a token issued at `now` for `ttl` is current; it carries whole seconds.
abbrev pub IsDuring : ℕ → ℕ → ℕ → Type 0
IsDuring now ttl at = (now ≤ at) × (at < (now + ttl) / 10 ^ 9 * 10 ^ 9)

module _ (platform : Platform) (crypto : Crypto) (faithful : IsFaithful platform crypto)
    (uc : AuthUsecase) where
  registered-is_current :
      (c : Claims) (subject : Text) (now ttl at : ℕ)
      → IsDuring now ttl at
      → is_current uc.issuer (registered uc.issuer c subject ttl now) at ≡ true
  unfolding is_current registered
  registered-is_current c subject now ttl at (after, before) =
      all_three _ _ _ (ltb_of at _ before) (leb_of _ at (early now at after))
        (text_eq_refl uc.issuer.issuer)
    where
      early : (now at : ℕ) → now ≤ at → (now - 10 ^ 9) / 10 ^ 9 * 10 ^ 9 ≤ at
      early now at le = omega arith

      ltb_of : (a b : ℕ) → a < b → ltb a b ≡ true
      ltb_of a b h = ground arith

      leb_of : (a b : ℕ) → a ≤ b → leb a b ≡ true
      leb_of a b h = ground arith

      all_three : (a b d : Bool) → a ≡ true → b ≡ true → d ≡ true → (a && b && d) ≡ true
      all_three a b d p q r = ground arith

  verify_token-issue :
      (c : Claims) (subject : Text) (now ttl at : ℕ)
      → IsDuring now ttl at
      → verify_token crypto uc.issuer (issue crypto uc.issuer c subject ttl now) at
        ≡ some (registered uc.issuer c subject ttl now)
  unfolding verify_token issue
  verify_token-issue c subject now ttl at during =
      rw
        (
          faithful.parse-sign uc.issuer.secret (registered uc.issuer c subject ttl now),
          verify_token,
          issue,
        )
        (rw (registered-is_current c subject now ttl at during))

  -- A token of one kind is read as that kind, and as no other.
  verified_same :
      (kind : Text) (c : Claims) (subject : Text) (now ttl at : ℕ) (db : Db)
      → IsDuring now ttl at
      → text_eq c.kind kind ≡ true
      → verified platform crypto uc kind (issue crypto uc.issuer c subject ttl now) at db
        ≡ (ok (registered uc.issuer c subject ttl now), db)
  unfolding verified registered
  verified_same kind c subject now ttl at db during same =
      rw (verify_token-issue c subject now ttl at during, verified) (rw same)

  verified_other :
      (kind : Text) (c : Claims) (subject : Text) (now ttl at : ℕ) (db : Db)
      → IsDuring now ttl at
      → text_eq c.kind kind ≡ false
      → verified platform crypto uc kind (issue crypto uc.issuer c subject ttl now) at db
        ≡ (err Error.unauthenticated, db)
  unfolding verified registered
  verified_other kind c subject now ttl at db during other =
      rw (verify_token-issue c subject now ttl at during, verified) (rw other)

  -- An access token, while it is current, gives the identity of the account as it is when the token is
  -- used, with its present role, rank and permissions, if the account is there and active.
  pub authenticate-issue_access :
      (u row : User) (now at : ℕ) (db : Db)
      → IsDuring now (pos_part uc.access_ttl) at
      → find_user u.id db ≡ some row
      → is_active_user row.status ≡ true
      → authenticate platform crypto uc (issue_access platform crypto uc u now) at db
        ≡ (ok (caller_of row), db)
  unfolding authenticate issue_access find_user_by_id registered
  authenticate-issue_access u row now at db during found active = rw (
    verified_same token_type_access (access_claims u) (platform.uuid_text u.id) now
        (pos_part uc.access_ttl) at db during (text_eq_refl token_type_access),
    faithful.parse-text u.id,
    found,
    active,
  )

  parse_ids-map :
      (ids : List Uuid) → parse_ids platform crypto uc (map platform.uuid_text ids) ≡ ids
  unfolding parse_ids
  parse_ids-map [] = refl
  parse_ids-map (id ∷ rest) = rw (faithful.parse-text id) (ap (λ t. id ∷ t) (parse_ids-map rest))

  -- A token that was issued for unlocked folders reads back, while it is current, as those folders.
  pub parse_node_token-issue_node_token :
      (nodes : List Uuid) (now at : ℕ) (db : Db)
      → IsDuring now (pos_part uc.node_ttl) at
      → parse_node_token platform crypto uc (issue_node_token platform crypto uc nodes now).0 at db
        ≡ (ok (keep (λ id. not (id == nil_id)) nodes), db)
  unfolding parse_node_token issue_node_token registered
  parse_node_token-issue_node_token nodes now at db during =
      let ids = keep (λ id. not (id == nil_id)) nodes in
      let read =
        verified_same token_type_node (plain_claims token_type_node (map platform.uuid_text ids) [])
          [] now (pos_part uc.node_ttl) at db during (text_eq_refl token_type_node) in
      rw read (ap (λ l. (ok l, db)) (parse_ids-map ids))

  -- A token serves only what it was issued for: while they are current, a token for folders or for a share
  -- is no identity, and an access token or one for a share unlocks no folder.
  pub token_kinds_apart :
      (u : User) (nodes : List Uuid) (id : Uuid) (ttl now at : ℕ) (db : Db)
      → IsDuring now (pos_part uc.access_ttl) at
      → IsDuring now (pos_part uc.node_ttl) at
      → IsDuring now ttl at
      → (authenticate platform crypto uc (issue_node_token platform crypto uc nodes now).0 at db
          ≡ (err Error.unauthenticated, db))
        × (authenticate platform crypto uc (issue_share_token platform crypto uc id ttl now) at db
            ≡ (err Error.unauthenticated, db))
        × (parse_node_token platform crypto uc (issue_access platform crypto uc u now) at db
            ≡ (err Error.unauthenticated, db))
        × (parse_node_token platform crypto uc
              (issue_share_token platform crypto uc id ttl now)
              at
              db
            ≡ (err Error.unauthenticated, db))
  unfolding authenticate parse_node_token issue_node_token issue_share_token issue_access text_eq
      registered
  token_kinds_apart u nodes id ttl now at db access node share =
      let ids = map platform.uuid_text (keep (λ i. not (i == nil_id)) nodes) in
      let text = platform.uuid_text id in
      let shared = plain_claims token_type_share [] text in
      (
        rw (
            verified_other token_type_access (plain_claims token_type_node ids []) [] now
              (pos_part uc.node_ttl) at db node refl),
        rw (verified_other token_type_access shared text now ttl at db share refl),
        rw (
            verified_other token_type_node (access_claims u) (platform.uuid_text u.id) now
              (pos_part uc.access_ttl) at db access refl),
        rw (verified_other token_type_node shared text now ttl at db share refl),
      )
