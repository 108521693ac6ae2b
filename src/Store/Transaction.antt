-- ===== src/Store/Transaction.antt =====
-- A computation on the database that may fail, and `WithTx` of internal/data/data.go: a nested call
-- joins the outer transaction, so a repository's call is a plain step and only the outermost `with_tx`
-- rolls back.
use nagisa.Prelude.{◌≡◌, refl, Bool, true, false, Option, none, some}
use nagisa.Errors.{Error, Result, ok, err}
use nagisa.Store.Model.{Db}

abbrev pub Tx {ℓ} : Type ℓ → Type ℓ
Tx A = Db → Result A × Db

module _ {ℓ} {A : Type ℓ} where
  abbrev pub pure : A → Tx A
  pure a db = (ok a, db)

  abbrev pub raise : Error → Tx A
  raise e db = (err e, db)

  abbrev pub or_raise : Option A → Error → Tx A
  or_raise none e = raise e
  or_raise (some a) e = pure a

  -- Commits what succeeds and rolls back what fails.
  roll_back : Db → Result A × Db → Result A × Db
  roll_back db (ok a, after) = (ok a, after)
  roll_back db (err e, after) = (err e, db)

  unfoldable pub with_tx : Tx A → Tx A
  unfolding roll_back
  with_tx m db = roll_back db (m db)

  roll_back_keeps :
      (P : Db → Type 0) (db : Db) (r : Result A × Db)
      → P db
      → ((a : A) (after : Db) → r ≡ (ok a, after) → P after)
      → P (roll_back db r).1
  unfolding roll_back
  roll_back_keeps P db (ok a, after) here there = there a after refl
  roll_back_keeps P db (err e, after) here there = here

  -- A transaction keeps what its body keeps whenever the body succeeds.
  pub with_tx_keeps :
      (P : Db → Type 0) (m : Tx A) (db : Db)
      → P db
      → ((a : A) (after : Db) → m db ≡ (ok a, after) → P after)
      → P (with_tx m db).1
  unfolding with_tx
  with_tx_keeps P m db here there = roll_back_keeps P db (m db) here there

  -- The tables that a step may leave: those from before it, if it fails.
  abbrev pub settled : Result A × Db → Db → Db
  settled (ok a, after) db = after
  settled (err e, after) db = db

  roll_back_ok :
      (db after : Db) (a : A) (r : Result A × Db)
      → roll_back db r ≡ (ok a, after)
      → r ≡ (ok a, after)
  unfolding roll_back
  roll_back_ok db after a (ok b, mid) h = h
  roll_back_ok db after a (err x, mid) h = cc

  pub with_tx_ok :
      (m : Tx A) (db after : Db) (a : A) → with_tx m db ≡ (ok a, after) → m db ≡ (ok a, after)
  unfolding with_tx
  with_tx_ok m db after a h = roll_back_ok db after a (m db) h

  roll_back_err :
      (db : Db) {e : Error} (r : Result A × Db)
      → (roll_back db r).0 ≡ err e
      → (roll_back db r).1 ≡ db
  unfolding roll_back
  roll_back_err db (ok b, mid) h = cc
  roll_back_err db (err x, mid) h = refl

  pub with_tx_err :
      (m : Tx A) (db : Db) {e : Error} → (with_tx m db).0 ≡ err e → (with_tx m db).1 ≡ db
  unfolding with_tx
  with_tx_err m db h = roll_back_err db (m db) h

  roll_back-settled :
      (db : Db) (r : Result A × Db) → settled (roll_back db r) db ≡ (roll_back db r).1
  unfolding roll_back
  roll_back-settled db (ok a, after) = refl
  roll_back-settled db (err e, after) = refl

  pub with_tx-settled : (m : Tx A) (db : Db) → settled (with_tx m db) db ≡ (with_tx m db).1
  unfolding with_tx
  with_tx-settled m db = roll_back-settled db (m db)

module _ {ℓ κ} {A : Type ℓ} {B : Type κ} where
  abbrev pub continue : (A → Tx B) → Result A × Db → Result B × Db
  continue f (ok a, db) = f a db
  continue f (err e, db) = (err e, db)

infixl 5 ◌>>=◌ ◌>>◌
abbrev pub ◌>>=◌ {ℓ κ} : {A : Type ℓ} {B : Type κ} → Tx A → (A → Tx B) → Tx B
◌>>=◌ m f db = continue f (m db)

abbrev pub ◌>>◌ {ℓ} : {B : Type ℓ} → Tx (Unit {0}) → Tx B → Tx B
m >> k = m >>= λ _. k

-- `if err := …; err != nil { return err }` for a test.
abbrev pub guard : Bool → Error → Tx (Unit {0})
guard true e = pure tt
guard false e = raise e

-- The error that a check gives, if it gives one.
abbrev pub or_error : Option Error → Tx (Unit {0})
or_error none = pure tt
or_error (some e) = raise e

abbrev pub get_db : Tx Db
get_db db = (ok db, db)

abbrev pub modify : (Db → Db) → Tx (Unit {0})
modify f db = (ok tt, f db)

-- A guard, and handing a result on, keep that a failure changes nothing.
pub guard-settled {ℓ} :
    {A : Type ℓ} (test : Bool) (e : Error) (f : Unit {0} → Tx A) (db : Db)
    → settled (f tt db) db ≡ (f tt db).1
    → settled (continue f (guard test e db)) db ≡ (continue f (guard test e db)).1
guard-settled true e f db rest = rest
guard-settled false e f db rest = refl

pub hand_on-settled {ℓ κ} :
    {A : Type ℓ} {B : Type κ} (f : A → B) (r : Result A × Db) (db : Db)
    → settled r db ≡ r.1
    → settled (continue (λ a after. pure (f a) after) r) db
      ≡ (continue (λ a after. pure (f a) after) r).1
hand_on-settled f (ok a, after) db rest = refl
hand_on-settled f (err e, after) db rest = rest
