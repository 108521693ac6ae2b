-- ===== src/Files/World.antt =====
-- internal/biz/file.go: the object store behind the netdisk, and the world that the usecase acts on: the
-- tables and the objects. A rolled back transaction does not undo what was done to the objects.
use nagisa.Prelude.{ℕ, Bool, true, false, Option, none, some, List, Text}
use nagisa.Errors.{Error, Result, ok, err}
use nagisa.Store.{Db, Tx}

pub record ObjectInfo : Type 0 where
  pub key : Text
  pub size : ℕ
  pub etag : Text
  pub content_type : Text

pub record PresignedRequest : Type 0 where
  pub url : Text
  pub method : Text
  pub headers : List (Text × Text)
  pub expires_at : ℕ

-- The part of `ObjectStore` that the usecase calls, on the state `S` of a backend. A body that is read is
-- the text of its bytes.
pub record ObjectStore (S : Type 0) : Type 0 where
  pub put_object : Text → Text → ℕ → Text → S → Result Text × S
  pub get_object : Text → S → Result (Text × ObjectInfo)
  pub stat_object : Text → S → Result ObjectInfo
  pub remove_object : Text → S → Result (Unit {0}) × S
  pub remove_prefix : Text → S → Result (Unit {0}) × S
  pub compose_object : Text → List Text → Text → S → Result Text × S
  pub presign_put_object : Text → ℕ → Result PresignedRequest
  pub presign_get_object : Text → Text → Text → Text → ℕ → Result PresignedRequest
  pub public_host : Text

pub record World (S : Type 0) : Type 0 where
  pub db : Db
  pub objects : S

abbrev pub Io {ℓ} : Type 0 → Type ℓ → Type ℓ
Io S A = World S → Result A × World S

module _ {S : Type 0} where
  module _ {ℓ} {A : Type ℓ} where
    abbrev pub done : A → Io S A
    done a w = (ok a, w)

    abbrev pub fail : Error → Io S A
    fail e w = (err e, w)

    -- A step on the tables.
    abbrev pub in_db : Tx A → Io S A
    in_db m w = ((m w.db).0, record w { db = (m w.db).1 })

    -- A step on the objects.
    abbrev pub on_objects : (S → Result A × S) → Io S A
    on_objects m w = ((m w.objects).0, record w { objects = (m w.objects).1 })

    abbrev pub peek : (S → Result A) → Io S A
    peek m w = (m w.objects, w)

    abbrev pub or_fail : Option A → Error → Io S A
    or_fail none e = fail e
    or_fail (some a) e = done a

  module _ {ℓ κ} {A : Type ℓ} {B : Type κ} where
    abbrev pub proceed : (A → Io S B) → Result A × World S → Result B × World S
    proceed f (ok a, w) = f a w
    proceed f (err e, w) = (err e, w)

    -- The result, or the error as a value.
    abbrev pub handle : (Error → Io S B) → (A → Io S B) → Result A × World S → Result B × World S
    handle on_error f (ok a, w) = f a w
    handle on_error f (err e, w) = on_error e w

    abbrev pub try_io : Io S A → (Error → Io S B) → (A → Io S B) → Io S B
    try_io m on_error f w = handle on_error f (m w)

  abbrev pub check : Bool → Error → Io S (Unit {0})
  check true e = done tt
  check false e = fail e

infixl 5 ◌>>=◌ ◌>>◌
abbrev pub ◌>>=◌ {ℓ κ} : {S : Type 0} {A : Type ℓ} {B : Type κ} → Io S A → (A → Io S B) → Io S B
◌>>=◌ m f w = proceed f (m w)

abbrev pub ◌>>◌ {ℓ} : {S : Type 0} {B : Type ℓ} → Io S (Unit {0}) → Io S B → Io S B
m >> k = m >>= λ _. k
