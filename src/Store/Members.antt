-- ===== src/Store/Members.antt =====
-- Lookups in the account table of internal/data/user.go, before and after a write.
use nagisa.Prelude.{
  ◌≡◌, refl, sym, ◌∙◌, ap, Bool, true, false, Option, none, some, List, [], ◌∷◌, map, ◌==◌, ==_iff,
  Bool-cases, Option-cases, if◌then◌else◌, ◌⊎◌, inl, inr, arith,
}
use nagisa.Access.{Uuid}
use nagisa.Store.Model.{Db, User}
use nagisa.Store.Accounts.{find_user, find_user_row, is_deleted, update_users}
use nagisa.Store.Rows.{map_option}
use nagisa.Tree.Shapes.Below.{some_injective}

find_user_row-test :
    (test : User → Bool) (rows : List User) (u : User)
    → find_user_row test rows ≡ some u
    → test u ≡ true
unfolding find_user_row
find_user_row-test test [] u e = cc
find_user_row-test test (r ∷ rest) u e = ground (arith, find_user_row-test test rest u)

pub found_row :
    (id : Uuid) (db : Db) (u : User)
    → find_user id db ≡ some u
    → (find_user_row (λ r. r.id == id) db.users ≡ some u) × (is_deleted u.status ≡ false)
unfolding find_user
found_row id db u e = elim (Option-cases (find_user_row (λ r. r.id == id) db.users)) [
  | inl gone ↦ let lost = rw (gone, find_user) at e in cc
  | inr (row, found) ↦
      let (same, live) =
        kept row (Bool-cases (is_deleted row.status)) (rw (found, find_user) at e) in
      (found ∙ ap some same, ap (λ r. is_deleted r.status) (sym same) ∙ live)
]
  where
    kept :
        (row : User)
        → (is_deleted row.status ≡ true) ⊎ (is_deleted row.status ≡ false)
        → ◌≡◌ {A = Option User} (if is_deleted row.status then none else some row) (some u)
        → (row ≡ u) × (is_deleted row.status ≡ false)
    kept row (inl gone) h = let lost = rw gone at h in cc
    kept row (inr live) h = (some_injective (rw live at h), live)

pub find_user-id : (id : Uuid) (db : Db) (u : User) → find_user id db ≡ some u → u.id ≡ id
find_user-id id db u e =
    (==_iff u.id id).0 (find_user_row-test (λ r. r.id == id) db.users u (found_row id db u e).0)

find_user_row-map :
    (test : User → Bool) (f : User → User)
    → ((u : User) → test (f u) ≡ test u)
    → (rows : List User) → find_user_row test (map f rows) ≡ map_option f (find_user_row test rows)
unfolding find_user_row
find_user_row-map test f same [] = refl
find_user_row-map test f same (u ∷ rest) =
    ground (arith, same u, find_user_row-map test f same rest)

find_user_of_row :
    (id : Uuid) (db : Db) (u : User)
    → find_user_row (λ r. r.id == id) db.users ≡ some u
    → is_deleted u.status ≡ false
    → find_user id db ≡ some u
unfolding find_user
find_user_of_row id db u found live = rw (found, find_user) (rw live)

-- An account is found as a write leaves it, if the write keeps its identifier and whether it is deleted.
pub find_user-write :
    (id : Uuid) (f : User → User) (row : User) (db : Db)
    → ((r : User) → r.id ≡ id → (f r).id ≡ r.id)
    → is_deleted (f row).status ≡ is_deleted row.status
    → find_user id db ≡ some row
    → find_user id (update_users id f db) ≡ some (f row)
find_user-write id f row db same_id same_status e =
    let g : User → User = λ r. if r.id == id then f r else r in
    let (found, live) = found_row id db row e in
    let key : (row.id == id) ≡ true = (==_iff row.id id).1 (find_user-id id db row e) in
    let mapped : find_user_row (λ r. r.id == id) (map g db.users) ≡ some (f row) =
      find_user_row-map (λ r. r.id == id) g (λ r. keyed r (Bool-cases (r.id == id))) db.users
      ∙ ap (map_option g) found
      ∙ ap some (rw key) in
    find_user_of_row id (update_users id f db) (f row) mapped (same_status ∙ live)
  where
    keyed :
        (r : User)
        → ((r.id == id) ≡ true) ⊎ ((r.id == id) ≡ false)
        → ((if r.id == id then f r else r).id == id) ≡ (r.id == id)
    keyed r (inl here) =
        rw here
          ((==_iff (f r).id id).1 (same_id r ((==_iff r.id id).0 here) ∙ (==_iff r.id id).0 here))
    keyed r (inr there) = rw there there
