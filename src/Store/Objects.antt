-- ===== src/Store/Objects.antt =====
-- internal/data/file.go: retained revisions and the queue of objects to delete.
use nagisa.Prelude.{
  ℕ, ◌+◌, not, ◌≡◌, refl, Option, none, some, List, [], ◌∷◌, ◌++◌, Text, keep, is_empty, length,
  ◌==◌, leb, ltb, if◌then◌else◌, ◌≤◌, ◌||◌, ◌&&◌, Bool, true, all, arith, Bool-cases, inl, inr,
}
use nagisa.Prelude.Int.{pos}
use nagisa.Errors.{Error, Result, ok}
use nagisa.Access.{Uuid, nil_id}
use nagisa.Store.Model.{Platform, Db, NodeVersion}
use nagisa.Store.Options.{ListOption, resolve_list_options, page}
use nagisa.Store.Transaction.{Tx, or_raise}

unfoldable pub enqueue_deletion : Text → Text → Tx (Unit {0})
enqueue_deletion key reason db = if is_empty key then (ok tt, db) else (
  ok tt,
  record db { pending = db.pending ++ record { storage_key = key; reason = reason } ∷ [] },
)

-- `Order(ByVersion(desc))`.
newest_first : NodeVersion → List NodeVersion → List NodeVersion
newest_first v [] = v ∷ []
newest_first v (w ∷ rest) =
    let later = newest_first v rest in if leb w.version v.version then v ∷ w ∷ rest else w ∷ later

sort_versions : List NodeVersion → List NodeVersion
unfolding newest_first
sort_versions [] = []
sort_versions (v ∷ rest) = newest_first v (sort_versions rest)

unfoldable pub list_versions : Uuid → List (ListOption NodeVersion) → Tx (List NodeVersion)
unfolding sort_versions
list_versions node_id opts db =
    let o = resolve_list_options (pos 50) opts in
    (ok (page o (sort_versions (keep o.filter (keep (λ v. v.node_id == node_id) db.versions)))), db)

unfoldable pub delete_version : Uuid → Tx (Unit {0})
delete_version id db = (ok tt, record db { versions = keep (λ v. not (v.id == id)) db.versions })

unfoldable pub find_version_row : Uuid → List NodeVersion → Option NodeVersion
find_version_row id [] = none
find_version_row id (v ∷ rest) =
    let later = find_version_row id rest in if v.id == id then some v else later

unfoldable pub find_version : Uuid → Db → Option NodeVersion
unfolding find_version_row
find_version id db = find_version_row id db.versions

unfoldable pub find_version_by_id : Uuid → Tx NodeVersion
unfolding find_version
find_version_by_id id db = or_raise (find_version id db) Error.not_found db

unfoldable pub create_version : Platform → NodeVersion → Tx NodeVersion
create_version platform v db =
    let row = record v { id = if v.id == nil_id then platform.minted db.next else v.id } in
    (
      ok row,
      record db {
        versions = db.versions ++ row ∷ [];
        next = if v.id == nil_id then db.next + 1 else db.next;
      },
    )

unfoldable pub count_versions : Uuid → Tx ℕ
count_versions node_id db = (ok (length (keep (λ v. v.node_id == node_id) db.versions)), db)

-- One more than the greatest revision number of the node.
unfoldable pub next_version_number : Uuid → Tx ℕ
unfolding sort_versions
next_version_number node_id db =
    elim (sort_versions (keep (λ v. v.node_id == node_id) db.versions)) [
      | [] ↦ (ok 1, db)
      | v ∷ _ ↦ (ok (v.version + 1), db)
    ]

pub next_version_number-keeps : (node_id : Uuid) (db : Db) → (next_version_number node_id db).1 ≡ db
unfolding next_version_number
next_version_number-keeps node_id db =
    read (sort_versions (keep (λ v. v.node_id == node_id) db.versions))
  where
    read :
        (vs : List NodeVersion)
        → ◌≡◌ {A = Db}
            (elim vs as (λ _. Result ℕ × Db) [
              | [] ↦ (ok 1, db)
              | v ∷ _ ↦ (ok (v.version + 1), db)
            ]).1
            db
    read [] = refl
    read (v ∷ vs) = refl

abbrev top : List NodeVersion → ℕ
top [] = 0
top (v ∷ _) = v.version

top-newest_first :
    (v : NodeVersion) (ws : List NodeVersion)
    → (v.version ≤ top (newest_first v ws)) × (top ws ≤ top (newest_first v ws))
unfolding newest_first
top-newest_first v [] = ground arith
top-newest_first v (w ∷ rest) = ground arith

all_below :
    (a b : ℕ) (ws : List NodeVersion)
    → a ≤ b
    → all (λ w. leb w.version a) ws ≡ true
    → all (λ w. leb w.version b) ws ≡ true
all_below a b [] less h = refl
all_below a b (w ∷ ws) less h = ground (arith, all_below a b ws less (ground arith))

top-sort_versions :
    (ws : List NodeVersion) → all (λ w. leb w.version (top (sort_versions ws))) ws ≡ true
unfolding sort_versions
top-sort_versions [] = refl
top-sort_versions (v ∷ ws) =
    let sorted = sort_versions ws in
    let highest = top-newest_first v sorted in
    let rest =
      all_below (top sorted) (top (newest_first v sorted)) ws highest.1 (top-sort_versions ws) in
    ground (arith, highest.0, rest)

-- The number is above the numbers of all revisions of the node.
abbrev pub is_above : Uuid → ℕ → NodeVersion → Bool
is_above node_id number v = not (v.node_id == node_id) || ltb v.version number

above_kept :
    (node_id : Uuid) (k : ℕ) (vs : List NodeVersion)
    → all (λ v. leb v.version k) (keep (λ v. v.node_id == node_id) vs) ≡ true
    → all (is_above node_id (k + 1)) vs ≡ true
above_kept node_id k [] h = refl
above_kept node_id k (v ∷ vs) h = elim (Bool-cases (v.node_id == node_id)) [
  | inl own ↦
      let h₁ : (leb v.version k && all (λ w. leb w.version k) (keep (λ w. w.node_id == node_id) vs))
          ≡ true =
        rw own at h in
      ground (arith, above_kept node_id k vs (ground arith))
  | inr other ↦
      let h₁ : all (λ w. leb w.version k) (keep (λ w. w.node_id == node_id) vs) ≡ true =
        rw other at h in
      ground (arith, above_kept node_id k vs h₁)
]

pub next_version_number_lem :
    (node_id : Uuid) (db : Db)
    → (number : ℕ) × ((next_version_number node_id db ≡ (ok number, db))
        × (all (is_above node_id number) db.versions ≡ true))
unfolding next_version_number
next_version_number_lem node_id db =
    let own = keep (λ v. v.node_id == node_id) db.versions in
    (
      top (sort_versions own) + 1,
      (
        read (sort_versions own),
        above_kept node_id (top (sort_versions own)) db.versions (top-sort_versions own),
      ),
    )
  where
    read :
        (vs : List NodeVersion)
        → ◌≡◌ {A = Result ℕ × Db}
            (elim vs as (λ _. Result ℕ × Db) [ [] ↦ (ok 1, db) | v ∷ _ ↦ (ok (v.version + 1), db) ])
            (ok (top vs + 1), db)
    read [] = refl
    read (v ∷ rest) = refl
