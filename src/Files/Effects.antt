-- ===== src/Files/Effects.antt =====
-- Steps on the tables and the objects: what they leave of the tables, and the inversion of a step that
-- succeeds.
use nagisa.Prelude.{◌≡◌, refl, sym, ◌∙◌, ap, subst, Bool, true, false, Option, none, some}
use nagisa.Errors.{Error, Result, ok, err}
use nagisa.Store.{Db, or_error}
use nagisa.Files.World.{World, Io, proceed, handle, check}

pub or_error_reads : (o : Option Error) (db : Db) → (or_error o db).1 ≡ db
or_error_reads none db = refl
or_error_reads (some e) db = refl

module _ {S : Type 0} (P : Db → Type 0) where
  pub check_keeps {ℓ} :
      {B : Type ℓ} (test : Bool) (e : Error) (f : Unit {0} → Io S B) (w : World S)
      → P w.db
      → P (f tt w).1.db
      → P (proceed f (check test e w)).1.db
  check_keeps true e f w here there = there
  check_keeps false e f w here there = here

  module _ {ℓ κ} {A : Type ℓ} {B : Type κ} where
    proceed_keeps :
        (f : A → Io S B) (r : Result A × World S)
        → P r.1.db
        → ((a : A) (mid : World S) → r ≡ (ok a, mid) → P (f a mid).1.db)
        → P (proceed f r).1.db
    proceed_keeps f (ok a, mid) here next = next a mid refl
    proceed_keeps f (err e, mid) here next = here

    pub then_keeps :
        (m : Io S A) (f : A → Io S B) (w : World S)
        → P (m w).1.db
        → ((a : A) (mid : World S) → m w ≡ (ok a, mid) → P (f a mid).1.db)
        → P (proceed f (m w)).1.db
    then_keeps m f w here next = proceed_keeps f (m w) here next

    -- A step that keeps the tables, and then one that keeps the property.
    pub after_keeps :
        (m : Io S A) (f : A → Io S B) (w : World S)
        → (m w).1.db ≡ w.db
        → P w.db
        → ((a : A) (mid : World S) → mid.db ≡ w.db → P (f a mid).1.db)
        → P (proceed f (m w)).1.db
    after_keeps m f w same here next =
        then_keeps m f w (subst P (sym same) here)
          (λ a mid e. next a mid (sym (ap (λ r. r.1.db) e) ∙ same))

  -- Neither way out of a step touches the tables.
  pub handle_keeps {ℓ κ} :
      {A : Type ℓ} {B : Type κ} (on_error : Error → Io S B) (f : A → Io S B)
      (r : Result A × World S)
      → ((e : Error) (w : World S) → (on_error e w).1.db ≡ w.db)
      → ((a : A) (w : World S) → (f a w).1.db ≡ w.db)
      → P r.1.db
      → P (handle on_error f r).1.db
  handle_keeps on_error f (ok a, w) errors oks here = subst P (sym (oks a w)) here
  handle_keeps on_error f (err e, w) errors oks here = subst P (sym (errors e w)) here
