-- ===== src/Store/Acls.antt =====
-- internal/data/node.go: the access control entries. Identifiers are minted in growing order, so the
-- order of the primary key is the order of creation.
use nagisa.Prelude.{
  ℕ, ◌+◌, Bool, true, false, not, ◌&&◌, List, [], ◌∷◌, ◌++◌, Text, text_eq, contains, keep, ◌==◌,
  ltb, if◌then◌else◌,
}
use nagisa.Errors.{ok}
use nagisa.Perm.{SubjectType}
use nagisa.Access.{Uuid, nil_id, AclEntry}
use nagisa.Store.Model.{Platform, Db}
use nagisa.Store.Transaction.{Tx}

unfoldable pub list_acl : Uuid → Tx (List AclEntry)
list_acl node_id db = (ok (keep (λ e. e.node_id == node_id) db.acls), db)

-- The map of the entries, as a function.
unfoldable pub list_acl_for_nodes : List Uuid → Tx (Uuid → List AclEntry)
list_acl_for_nodes ids db =
    (ok (λ id. keep (λ e. (e.node_id == id) && contains e.node_id ids) db.acls), db)

unfoldable pub delete_acl_for_nodes : List Uuid → Tx (Unit {0})
delete_acl_for_nodes ids db =
    (ok tt, record db { acls = keep (λ e. not (contains e.node_id ids)) db.acls })

abbrev subject_value : SubjectType → ℕ
subject_value SubjectType.unspecified = 0
subject_value SubjectType.user = 1
subject_value SubjectType.role = 2
subject_value SubjectType.everyone = 3

-- The key `%d:%s` of a subject, and the byte order of such keys: the first characters are the digits
-- of the subject types.
same_subject : AclEntry → AclEntry → Bool
same_subject a b =
    (subject_value a.subject_type == subject_value b.subject_type)
    && text_eq a.subject_id b.subject_id

text_before : Text → Text → Bool
text_before s [] = false
text_before [] (b ∷ t) = true
text_before (a ∷ s) (b ∷ t) =
    let rest = text_before s t in if ltb a b then true else if a == b then rest else false

key_before : AclEntry → AclEntry → Bool
unfolding text_before
key_before a b =
    let first = subject_value a.subject_type in
    let second = subject_value b.subject_type in
    if ltb first second
    then true
    else if first == second
    then text_before a.subject_id b.subject_id
    else false

-- The entry of a subject takes the place of an earlier one, and the subjects stand in order.
put_entry : AclEntry → List AclEntry → List AclEntry
unfolding same_subject key_before
put_entry e [] = e ∷ []
put_entry e (f ∷ rest) =
    let later = put_entry e rest in
    if same_subject e f then e ∷ rest else if key_before e f then e ∷ f ∷ rest else f ∷ later

unfoldable pub collapse : List AclEntry → List AclEntry → List AclEntry
unfolding put_entry
collapse [] out = out
collapse (e ∷ rest) out = collapse rest (put_entry e out)

module _ (platform : Platform) where
  -- One entry is created, with an identifier of its own where it has none.
  abbrev pub add_entry : Uuid → AclEntry → Db → Db
  add_entry node_id e db = record db {
    acls =
        db.acls
        ++ record e {
          id = if e.id == nil_id then platform.minted db.next else e.id;
          node_id = node_id;
        }
          ∷ [];
    next = if e.id == nil_id then db.next + 1 else db.next;
  }

  unfoldable pub create_entries : Uuid → List AclEntry → Db → Db
  create_entries node_id [] db = db
  create_entries node_id (e ∷ rest) db = create_entries node_id rest (add_entry node_id e db)

  unfoldable pub replace_acl : Uuid → List AclEntry → Tx (Unit {0})
  unfolding collapse create_entries
  replace_acl node_id entries db = (
    ok tt,
    create_entries node_id (collapse entries [])
        (record db { acls = keep (λ e. not (e.node_id == node_id)) db.acls }),
  )
