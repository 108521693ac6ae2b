-- ===== src/Store/Rows.antt =====
-- Lookups in the node table after the repository's writes, and the inversion of a successful step.
use nagisa.Prelude.{
  ◌≡◌, refl, sym, ◌∙◌, subst, ap, if◌then◌else◌, Bool, true, false, Option, none, some, List, [],
  ◌∷◌, map, arith,
}
use nagisa.Errors.{Error, Result, ok, err}
use nagisa.Access.{Uuid, Node}
use nagisa.Store.Nodes.{find_row, find_node, find_node_by_id}
use nagisa.Store.Model.{Db}
use nagisa.Store.Transaction.{Tx, guard, continue, or_raise, with_tx, with_tx_keeps}

abbrev pub map_option {ℓ κ} : {A : Type ℓ} {B : Type κ} → (A → B) → Option A → Option B
map_option f none = none
map_option f (some a) = some (f a)

find_row-map :
    (f : Node → Node)
    → ((n : Node) → (f n).id ≡ n.id)
    → (i : Uuid) (rows : List Node) → find_row i (map f rows) ≡ map_option f (find_row i rows)
unfolding find_row
find_row-map f same i [] = refl
find_row-map f same i (n ∷ rows) = ground (arith, same n, find_row-map f same i rows)

pub find_node-map :
    (f : Node → Node)
    → ((n : Node) → (f n).id ≡ n.id)
    → (i : Uuid) (db : Db)
    → find_node i (record db { nodes = map f db.nodes }) ≡ map_option f (find_node i db)
unfolding find_node
find_node-map f same i db = find_row-map f same i db.nodes

find_row-id : (i : Uuid) (rows : List Node) (n : Node) → find_row i rows ≡ some n → n.id ≡ i
unfolding find_row
find_row-id i [] n e = cc
find_row-id i (m ∷ rows) n e = ground (arith, find_row-id i rows n)

pub find_node-id : (i : Uuid) (db : Db) (n : Node) → find_node i db ≡ some n → n.id ≡ i
unfolding find_node
find_node-id i db n e = find_row-id i db.nodes n e

-- A step that came back with a value, taken apart: what follows gets the parts as variables of its own.
module _ {ℓ κ} {A : Type ℓ} {B : Type κ} where
  continue_ok :
      {C : Type 0} (r : Result A × Db) (f : A → Tx B) (b : B) (after : Db)
      → continue f r ≡ (ok b, after)
      → ((a : A) (mid : Db) → r ≡ (ok a, mid) → f a mid ≡ (ok b, after) → C)
      → C
  continue_ok (ok a, mid) f b after h next = next a mid refl h
  continue_ok (err e, mid) f b after h next = cc

  pub bind_ok :
      {C : Type 0} {f : A → Tx B} {b : B} {after : Db} (m : Tx A) (db : Db)
      → continue f (m db) ≡ (ok b, after)
      → ((a : A) (mid : Db) → m db ≡ (ok a, mid) → f a mid ≡ (ok b, after) → C)
      → C
  bind_ok m db h next = continue_ok (m db) _ _ _ h next

module _ {ℓ} {A : Type ℓ} where
  pub guard_ok :
      {C : Type 0} {a : A} {after : Db} (test : Bool) (e : Error) (f : Unit {0} → Tx A) (db : Db)
      → continue f (guard test e db) ≡ (ok a, after)
      → (test ≡ true → f tt db ≡ (ok a, after) → C)
      → C
  guard_ok true e f db h next = next refl h
  guard_ok false e f db h next = cc

  pub if_ok :
      {C : Type 0} {out : Result A × Db} (test : Bool) (m k : Tx A) (db : Db)
      → (if test then m else k) db ≡ out
      → (test ≡ true → m db ≡ out → C)
      → (test ≡ false → k db ≡ out → C)
      → C
  if_ok true m k db h on_true on_false = on_true refl h
  if_ok false m k db h on_true on_false = on_false refl h

  pub pure_ok :
      {C : Type 0} {a b : A} {db after : Db}
      → ◌≡◌ {A = Result A × Db} (ok a, db) (ok b, after)
      → (a ≡ b → db ≡ after → C)
      → C
  pure_ok {a = a} h next = next (ap (λ r. value r.0) h) (ap (λ r. r.1) h)
    where
      value : Result A → A
      value (ok b) = b
      value (err e) = a

  pub or_raise_ok :
      {C : Type 0} (o : Option A) (e : Error) (db : Db) {a : A} {after : Db}
      → or_raise o e db ≡ (ok a, after)
      → (o ≡ some a → db ≡ after → C)
      → C
  or_raise_ok none e db h next = cc
  or_raise_ok (some a) e db h next = pure_ok h λ p q. next (ap some p) q

pub find_node_by_id_ok :
    {C : Type 0} {n : Node} {after : Db} (id : Uuid) (db : Db)
    → find_node_by_id id db ≡ (ok n, after)
    → (find_node id db ≡ some n → db ≡ after → C)
    → C
unfolding find_node_by_id
find_node_by_id_ok id db h next = or_raise_ok (find_node id db) Error.not_found db h next

-- What a guarded step leaves: the tables as they were, or what the step leaves.
pub guard_keeps {ℓ} :
    {A : Type ℓ} (P : Db → Type 0) (test : Bool) (e : Error) (f : Unit {0} → Tx A) (db : Db)
    → P db
    → P (f tt db).1
    → P (continue f (guard test e db)).1
guard_keeps P true e f db here there = there
guard_keeps P false e f db here there = here

-- What a bound step leaves, if its first part leaves it, and its second part too where the first succeeds.
module _ {ℓ κ} {A : Type ℓ} {B : Type κ} where
  continue_keeps :
      (P : Db → Type 0) (f : A → Tx B) (r : Result A × Db)
      → P r.1
      → ((a : A) (mid : Db) → r ≡ (ok a, mid) → P (f a mid).1)
      → P (continue f r).1
  continue_keeps P f (ok a, mid) here next = next a mid refl
  continue_keeps P f (err e, mid) here next = here

  pub bind_keeps :
      (P : Db → Type 0) (m : Tx A) (f : A → Tx B) (db : Db)
      → P (m db).1
      → ((a : A) (mid : Db) → m db ≡ (ok a, mid) → P (f a mid).1)
      → P (continue f (m db)).1
  bind_keeps P m f db here next = continue_keeps P f (m db) here next

  -- A step that only reads, and then one that keeps the property.
  pub read_keeps :
      (P : Db → Type 0) (m : Tx A) (f : A → Tx B) (db : Db)
      → (m db).1 ≡ db
      → P db
      → ((a : A) → P (f a db).1)
      → P (continue f (m db)).1
  read_keeps P m f db reads here rest =
      bind_keeps P m f db (subst P (sym reads) here)
        (λ a mid e. subst (λ d. P (f a d).1) (sym reads ∙ ap (λ r. r.1) e) (rest a))

pub or_raise_reads {ℓ} :
    {A : Type ℓ} (o : Option A) (e : Error) (db : Db) → (or_raise o e db).1 ≡ db
or_raise_reads none e db = refl
or_raise_reads (some a) e db = refl

pub with_tx_keeps_of {ℓ} :
    {A : Type ℓ} (P : Db → Type 0) (m : Tx A) (db : Db) → P db → P (m db).1 → P (with_tx m db).1
with_tx_keeps_of P m db here run =
    with_tx_keeps P m db here (λ a after e. subst P (ap (λ r. r.1) e) run)

pub if_keeps {ℓ} :
    {A : Type ℓ} (P : Db → Type 0) (test : Bool) (m k : Tx A) (db : Db)
    → P (m db).1
    → P (k db).1
    → P ((if test then m else k) db).1
if_keeps P true m k db on_true on_false = on_true
if_keeps P false m k db on_true on_false = on_false
