-- ===== src/Tree/Invariant/Aside.antt =====
-- The steps of `CreateFolder` that insert a row, and those that leave the node table alone.
use nagisa.Prelude.{
  ℕ, ◌+◌, ◌≤◌, ◌≡◌, refl, sym, ◌∙◌, ap, subst, fun_ext, inl, inr, Bool, true, false, not, Option,
  none, some, List, [], ◌∷◌, arith, keep, Bool-cases, ◌==◌, ==_iff, if◌then◌else◌,
}
use nagisa.Prelude.Int.{ℤ}
use nagisa.Errors.{Error, ok}
use nagisa.Perm.{has}
use nagisa.Access.{Uuid, nil_id, Caller, Node, AclEntry}
use nagisa.Store.{
  Platform, Db, find_row, find_node, insert_row, create_node, replace_acl, collapse, create_entries,
  add_entry, has_row, add_usage,
}
use nagisa.Store.Rows.{map_option, bind_ok, guard_ok}
use nagisa.Tree.Config.{NodeUsecase}
use nagisa.Tree.Folders.{prepared, prepare_loop, prepare_acl, set_entries}
use nagisa.Tree.Shapes.{Shape, Shapes}
use nagisa.Tree.Shapes.Growth.{grown}
use nagisa.Tree.Invariant.{shape_of, shapes}

-- The shapes are those of the node table.
pub shapes_of_nodes : (db after : Db) → after.nodes ≡ db.nodes → shapes after ≡ shapes db
unfolding shapes find_node
shapes_of_nodes db after e = fun_ext λ i. ap (λ rows. map_option shape_of (find_row i rows)) e

find_row-insert_row :
    (n : Node) (rows : List Node) (i : Uuid)
    → find_row n.id rows ≡ none
    → find_row i (insert_row n rows) ≡ (if i == n.id then some n else find_row i rows)
unfolding find_row insert_row
find_row-insert_row n [] i fresh = ground arith
find_row-insert_row n (m ∷ rest) i fresh = ground (arith, find_row-insert_row n rest i)

pub shapes-create_node :
    (n : Node) (db : Db)
    → shapes db n.id ≡ none
    → shapes (create_node n db).1 ≡ grown (shape_of n) (shapes db)
unfolding shapes find_node create_node
shapes-create_node n db fresh = fun_ext λ i.
    ap (map_option shape_of)
      (find_row-insert_row n db.nodes i (absent (find_row n.id db.nodes) fresh))
    ∙ split (i == n.id) (find_row i db.nodes)
  where
    absent : (o : Option Node) → map_option shape_of o ≡ none → o ≡ none
    absent none e = refl
    absent (some m) e = cc

    split :
        (b : Bool) (o : Option Node)
        → map_option shape_of (if b then some n else o)
          ≡ (if b then some (shape_of n) else map_option shape_of o)
    split true o = refl
    split false o = refl

-- A row of the grown table is the new one or an old one.
pub row_of :
    {C : Type 0} (n : Shape) (s : Shapes) (j : Uuid) (r : Shape)
    → grown n s j ≡ some r
    → (j ≡ n.id → C)
    → (s j ≡ some r → C)
    → C
row_of n s j r e on_new on_old = elim (Bool-cases (j == n.id)) [
  | inl here ↦ on_new ((==_iff j n.id).0 here)
  | inr there ↦ on_old (sym (rw there) ∙ e)
]

-- What a step leaves of the node table, and of the count of minted identifiers.
abbrev pub IsAside : Db → Db → Type 0
IsAside db after = (after.nodes ≡ db.nodes) × (db.next ≤ after.next)

module _ (platform : Platform) where
  create_entries_rest :
      (node_id : Uuid) (es : List AclEntry) (db : Db)
      → ((create_entries platform node_id es db).nodes ≡ db.nodes)
        × (db.next ≤ (create_entries platform node_id es db).next)
  unfolding create_entries
  create_entries_rest node_id [] db = (refl, omega arith)
  create_entries_rest node_id (e ∷ es) db =
      let rest = create_entries_rest node_id es (add_entry platform node_id e db) in
      (rest.0, omega (arith, rest.1, grows (e.id == nil_id)))
    where
      grows : {k : ℕ} (b : Bool) → k ≤ (if b then k + 1 else k)
      grows true = omega arith
      grows false = omega arith

  replace_acl_rest :
      {u : Unit {0}} {after : Db} (node_id : Uuid) (es : List AclEntry) (db : Db)
      → replace_acl platform node_id es db ≡ (ok u, after)
      → IsAside db after
  unfolding replace_acl
  replace_acl_rest node_id es db e = subst (IsAside db) (ap (λ r. r.1) e) (
      create_entries_rest node_id (collapse es [])
        (record db { acls = keep (λ x. not (x.node_id == node_id)) db.acls }))

  prepare_loop_ok :
      {out : List AclEntry} {after : Db} (c : Caller) (node_id : Uuid) (es : List AclEntry)
      (db : Db)
      → prepare_loop c node_id es db ≡ (ok out, after)
      → db ≡ after
  unfolding prepare_loop
  prepare_loop_ok c node_id [] db e = ap (λ r. r.1) e
  prepare_loop_ok c node_id (x ∷ es) db e =
      guard_ok (has c.perms (prepared c node_id x).permissions) Error.permission_denied _ db e
        λ may e₁.
          bind_ok (prepare_loop c node_id es) db e₁
            λ out db₁ loop e₂. prepare_loop_ok c node_id es db loop ∙ ap (λ r. r.1) e₂

  pub add_usage_rest :
      {u : Unit {0}} {after : Db} (id : Uuid) (bytes files folders : ℤ) (db : Db)
      → add_usage id bytes files folders db ≡ (ok u, after)
      → IsAside db after
  unfolding add_usage
  add_usage_rest id bytes files folders db e = elim (Bool-cases (has_row id db)) [
    | inl here ↦
        let won = rw (here, add_usage) at e in
        subst (IsAside db) (ap (λ r. r.1) won) (refl, omega arith)
    | inr gone ↦ let lost = rw (gone, add_usage) at e in cc
  ]

  pub set_entries_rest :
      {u : Unit {0}} {after : Db} (uc : NodeUsecase) (c : Caller) (node_id : Uuid)
      (es : List AclEntry) (db : Db)
      → set_entries platform uc c node_id es db ≡ (ok u, after)
      → IsAside db after
  unfolding set_entries prepare_acl
  set_entries_rest uc c node_id [] db e = subst (IsAside db) (ap (λ r. r.1) e) (refl, omega arith)
  set_entries_rest {after = after} uc c node_id (x ∷ es) db e =
      bind_ok (prepare_acl c node_id (x ∷ es)) db e λ entries db₁ ready e₁.
        subst (λ d. IsAside d after) (sym (prepare_loop_ok c node_id (x ∷ es) db ready))
          (replace_acl_rest node_id entries db₁ e₁)
