-- ===== src/Store/Uploads.antt =====
-- internal/data/file.go: upload sessions and their parts. The order of the table is that of creation.
use nagisa.Prelude.{
  ℕ, ◌+◌, Bool, true, not, ◌&&◌, Option, none, some, List, [], ◌∷◌, ◌++◌, map, Text, text_eq, keep,
  length, ◌==◌, ltb, leb, if◌then◌else◌,
}
use nagisa.Prelude.Int.{pos}
use nagisa.Errors.{Error, ok, err}
use nagisa.Perm.{UploadStatus, is_open_upload}
use nagisa.Access.{Uuid, nil_id}
use nagisa.Store.Model.{Platform, Db, Upload, UploadPart}
use nagisa.Store.Nodes.{if_set}
use nagisa.Store.Options.{ListOption, resolve_list_options, page}
use nagisa.Store.Transaction.{Tx, or_raise}

unfoldable pub find_upload_row : (Upload → Bool) → List Upload → Option Upload
find_upload_row test [] = none
find_upload_row test (u ∷ rest) =
    let later = find_upload_row test rest in if test u then some u else later

unfoldable pub find_upload : Uuid → Db → Option Upload
unfolding find_upload_row
find_upload id db = find_upload_row (λ u. u.id == id) db.uploads

unfoldable pub find_upload_by_id : Uuid → Tx Upload
unfolding find_upload
find_upload_by_id id db = or_raise (find_upload id db) Error.not_found db

abbrev pub upload_status_value : UploadStatus → ℕ
upload_status_value UploadStatus.unspecified = 0
upload_status_value UploadStatus.pending = 1
upload_status_value UploadStatus.in_progress = 2
upload_status_value UploadStatus.completed = 3
upload_status_value UploadStatus.aborted = 4
upload_status_value UploadStatus.expired = 5

abbrev same_upload_status : UploadStatus → UploadStatus → Bool
same_upload_status a b = upload_status_value a == upload_status_value b

abbrev listed_upload : Option Uuid → Option UploadStatus → Upload → Bool
listed_upload owner_id status u =
    if_set owner_id (λ o. u.owner_id == o) && if_set status (same_upload_status u.status)

unfoldable pub list_uploads :
    Option Uuid → Option UploadStatus → List (ListOption Upload) → Tx (List Upload)
list_uploads owner_id status opts db =
    let o = resolve_list_options (pos 20) opts in
    (ok (page o (o.order_by (keep o.filter (keep (listed_upload owner_id status) db.uploads)))), db)

unfoldable pub count_uploads : Option Uuid → Option UploadStatus → Tx ℕ
count_uploads owner_id status db =
    (ok (length (keep (listed_upload owner_id status) db.uploads)), db)

-- The columns that an update leaves: the parent, the owner and the staging path; the metadata only where
-- it is nil.
abbrev pub written_upload : Upload → Upload → Upload
written_upload u row = record u {
  parent_id = row.parent_id;
  owner_id = row.owner_id;
  path = row.path;
  metadata = elim u.metadata [ none ↦ row.metadata | some m ↦ some m ];
}

abbrev pub update_uploads : Uuid → (Upload → Upload) → Db → Db
update_uploads id f db = record db { uploads = map (λ u. if u.id == id then f u else u) db.uploads }

unfoldable pub update_upload : Upload → Tx Upload
unfolding find_upload
update_upload u db = elim (find_upload u.id db) [
  | none ↦ (err Error.not_found, db)
  | some row ↦ (ok (written_upload u row), update_uploads u.id (written_upload u) db)
]

-- A missing row is no error.
unfoldable pub delete_upload : Uuid → Tx (Unit {0})
delete_upload id db = (ok tt, record db { uploads = keep (λ u. not (u.id == id)) db.uploads })

abbrev is_part : Uuid → ℕ → UploadPart → Bool
is_part upload_id number p = (p.upload_id == upload_id) && (p.part_number == number)

module _ (platform : Platform) where
  open platform use {to_lower, minted}

  -- The last error is not written: a new row has none.
  unfoldable pub create_upload : Upload → Tx Upload
  create_upload u db =
      let row = record u {
        id = if u.id == nil_id then minted db.next else u.id;
        last_error = [];
      } in
      (
        ok row,
        record db {
          uploads = db.uploads ++ row ∷ [];
          next = if u.id == nil_id then db.next + 1 else db.next;
        },
      )

  -- `First` of the open sessions for a destination, by the time of creation.
  unfoldable pub find_reusable_upload : Uuid → Uuid → Text → ℕ → Db → Option Upload
  unfolding find_upload_row
  find_reusable_upload owner_id parent_id name now db =
      find_upload_row
        (λ u.
          (u.owner_id == owner_id)
          && (u.parent_id == parent_id)
          && text_eq (to_lower u.name) (to_lower name)
          && is_open_upload u.status
          && ltb now u.expires_at)
        db.uploads

  -- An earlier attempt with the same number is replaced.
  unfoldable pub put_upload_part : UploadPart → Tx UploadPart
  put_upload_part p db =
      let row = record p { id = if p.id == nil_id then minted db.next else p.id } in
      (
        ok row,
        record db {
          parts = keep (λ q. not (is_part p.upload_id p.part_number q)) db.parts ++ row ∷ [];
          next = if p.id == nil_id then db.next + 1 else db.next;
        },
      )

-- `Order(ByPartNumber())`.
lowest_first : UploadPart → List UploadPart → List UploadPart
lowest_first p [] = p ∷ []
lowest_first p (q ∷ rest) =
    let later = lowest_first p rest in
    if leb p.part_number q.part_number then p ∷ q ∷ rest else q ∷ later

sort_parts : List UploadPart → List UploadPart
unfolding lowest_first
sort_parts [] = []
sort_parts (p ∷ rest) = lowest_first p (sort_parts rest)

-- A bound `from` of 0 is none.
unfoldable pub list_upload_parts : Uuid → ℕ → Tx (List UploadPart)
unfolding sort_parts
list_upload_parts upload_id from db = (
  ok (
      sort_parts (
        keep
          (λ p. (p.upload_id == upload_id) && (if ltb 0 from then ltb from p.part_number else true))
          db.parts)),
  db,
)

unfoldable pub delete_upload_parts : Uuid → Tx (Unit {0})
delete_upload_parts upload_id db =
    (ok tt, record db { parts = keep (λ p. not (p.upload_id == upload_id)) db.parts })
