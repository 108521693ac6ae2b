-- ===== src/Auth/Sample.antt =====
-- A `Crypto` for the tests: a token lists the numbers and the texts of its claims.
use nagisa.Prelude.{
  ℕ, suc, zero, ◌≡◌, refl, ap, Option, none, some, List, [], ◌∷◌, ◌++◌, Text, length, take, drop,
  text_eq, ◌==◌, if◌then◌else◌,
}
use nagisa.Prelude.Int.{ℤ, pos, negsuc}
use nagisa.Perm.{Role}
use nagisa.Tree.Sample.{sample_platform}
use nagisa.Crypt.{Claims, Crypto}
use nagisa.Auth.Roundtrip.{IsFaithful}

abbrev role_code : Role → ℕ
role_code Role.unspecified = 0
role_code Role.guest = 1
role_code Role.user = 2
role_code Role.manager = 3
role_code Role.admin = 4

abbrev role_of : ℕ → Role
role_of n =
    if n == 0
    then Role.unspecified
    else if n == 1
    then Role.guest
    else if n == 2
    then Role.user
    else if n == 3
    then Role.manager
    else Role.admin

abbrev sign_code : ℤ → ℕ
sign_code (pos n) = 0
sign_code (negsuc n) = 1

abbrev size_code : ℤ → ℕ
size_code (pos n) = n
size_code (negsuc n) = n

abbrev rank_of : ℕ → ℕ → ℤ
rank_of s n = if s == 0 then pos n else negsuc n

abbrev put_text : Text → Text → Text
put_text t rest = length t ∷ (t ++ rest)

abbrev put_texts : List Text → Text
put_texts [] = []
put_texts (t ∷ ts) = put_text t (put_texts ts)

abbrev head_text : Text → Text
head_text [] = []
head_text (n ∷ s) = take n s

abbrev tail_text : Text → Text
tail_text [] = []
tail_text (n ∷ s) = drop n s

-- One text for each round.
abbrev get_texts : ℕ → Text → List Text
get_texts zero s = []
get_texts (suc n) s = head_text s ∷ get_texts n (tail_text s)

take_own : (t rest : Text) → take (length t) (t ++ rest) ≡ t
take_own [] rest = refl
take_own (c ∷ t) rest = ap (λ s. c ∷ s) (take_own t rest)

drop_own : (t rest : Text) → drop (length t) (t ++ rest) ≡ rest
drop_own [] rest = refl
drop_own (c ∷ t) rest = drop_own t rest

texts_back : (ts : List Text) → get_texts (length ts) (put_texts ts) ≡ ts
texts_back [] = refl
texts_back (t ∷ ts) =
    rw (take_own t (put_texts ts), drop_own t (put_texts ts)) (ap (λ l. t ∷ l) (texts_back ts))

role_back : (r : Role) → role_of (role_code r) ≡ r
role_back Role.unspecified = refl
role_back Role.guest = refl
role_back Role.user = refl
role_back Role.manager = refl
role_back Role.admin = refl

rank_back : (r : ℤ) → rank_of (sign_code r) (size_code r) ≡ r
rank_back (pos n) = refl
rank_back (negsuc n) = refl

abbrev sign : Text → Claims → Text
sign secret c =
    role_code c.role
    ∷ sign_code c.rank
    ∷ size_code c.rank
    ∷ c.perms
    ∷ c.not_before
    ∷ c.expires_at
    ∷ length c.nodes
    ∷ put_text c.kind (
        put_text c.username
          (put_text c.share_id (put_text c.issuer (put_text c.subject (put_texts c.nodes)))))

abbrev parse : Text → Text → Option Claims
parse secret (role ∷ sgn ∷ size ∷ perms ∷ since ∷ until ∷ count ∷ s) = some (record {
  kind = head_text s;
  username = head_text (tail_text s);
  role = role_of role;
  rank = rank_of sgn size;
  perms = perms;
  nodes = get_texts count (tail_text (tail_text (tail_text (tail_text (tail_text s)))));
  share_id = head_text (tail_text (tail_text s));
  issuer = head_text (tail_text (tail_text (tail_text s)));
  subject = head_text (tail_text (tail_text (tail_text (tail_text s))));
  not_before = since;
  expires_at = until;
})
parse secret s = none

abbrev read_id : Text → Option ℕ
read_id [] = none
read_id (a ∷ _) = some a

-- A hash is the password with a mark before it.
abbrev pub sample_crypto : Crypto
sample_crypto = record {
  sign = sign;
  parse = parse;
  hash_token = λ t. t;
  parse_uuid = read_id;
  decrypt = λ t. some t;
  verify = λ hash password. text_eq hash (0 ∷ password);
  hash = λ password. some (0 ∷ password);
}

pub sample-IsFaithful : IsFaithful sample_platform sample_crypto
sample-IsFaithful = record { parse-sign = λ secret c. back secret c; parse-text = λ id. refl }
  where
    back : (secret : Text) (c : Claims) → parse secret (sign secret c) ≡ some c
    back secret c = rw (
      take_own c.kind,
      drop_own c.kind,
      take_own c.username,
      drop_own c.username,
      take_own c.share_id,
      drop_own c.share_id,
      take_own c.issuer,
      drop_own c.issuer,
      take_own c.subject,
      drop_own c.subject,
      texts_back c.nodes,
      role_back c.role,
      rank_back c.rank,
    )
