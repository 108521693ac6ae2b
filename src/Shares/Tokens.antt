-- ===== src/Shares/Tokens.antt =====
-- The tokens of the share table stay unique: each operation of internal/biz/share.go on it is a step.
use nagisa.Prelude.{
  ◌+◌, ◌≡◌, refl, sym, ◌∙◌, ap, Bool, true, false, not, ◌&&◌, ◌||◌, Option, none, some, List, [],
  ◌∷◌, ◌++◌, map, Text, text_eq, text_eq→eq, text_eq_refl, keep, any, is_some, is_empty, trim_space,
  ◌==◌, Bool-cases, Option-cases, if◌then◌else◌, inl, inr, arith,
}
use nagisa.Errors.{Error}
use nagisa.Perm.{PermMask, intersect, perm_share_scope, perm_share, perm_download, perm_upload, has}
use nagisa.Access.{Uuid, Caller, is_folder, is_authenticated, nil_id}
use nagisa.Store.{
  Platform, Db, Share, find_share, find_share_row, find_token, create_share, find_share_by_id,
  update_share, delete_share, written_share, add_share_view, add_share_download,
}
use nagisa.Store.Rows.{guard_keeps, read_keeps, with_tx_keeps_of, or_raise_reads}
use nagisa.Tree.{NodeUsecase, require_access, new_id}
use nagisa.Tree.Gate.{require_access-IsRead}
use nagisa.Shares.Links.{
  ShareUsecase, CreateShareInput, UpdateShareInput, valid_share_token, wanted_share_perms,
  new_share, publish, create_granted, create_link, set_share_perms, updated_share, update_link,
  update_link_tx, delete_link, delete_link_tx, manages_share,
}
use nagisa.Shares.Visitors.{mark_viewed, mark_downloaded}

abbrev has_token : Text → List Share → Bool
has_token t rows = any (λ s. text_eq s.token t) rows

-- No two rows have the same token.
abbrev pub HasUniqueTokens : List Share → Type 0
HasUniqueTokens [] = Unit {0}
HasUniqueTokens (s ∷ rest) = (has_token s.token rest ≡ false) × HasUniqueTokens rest

text_eq_sym_false : (s t : Text) → text_eq s t ≡ false → text_eq t s ≡ false
text_eq_sym_false s t h = elim (Bool-cases (text_eq t s)) [
  | inl same ↦
      let e = ap (λ r. text_eq r t) (text_eq→eq t s same) in
      let clash = sym (text_eq_refl t) ∙ e ∙ h in cc
  | inr other ↦ other
]

has_token-map :
    (f : Share → Share)
    → ((s : Share) → (f s).token ≡ s.token)
    → (t : Text) (rows : List Share) → has_token t (map f rows) ≡ has_token t rows
has_token-map f same t [] = refl
has_token-map f same t (s ∷ rest) = rw (same s, has_token-map f same t rest)

map-HasUniqueTokens :
    (f : Share → Share)
    → ((s : Share) → (f s).token ≡ s.token)
    → (rows : List Share) → HasUniqueTokens rows
    → HasUniqueTokens (map f rows)
map-HasUniqueTokens f same [] u = tt
map-HasUniqueTokens f same (s ∷ rest) u = (
  ap (λ t. has_token t (map f rest)) (same s) ∙ has_token-map f same s.token rest ∙ u.0,
  map-HasUniqueTokens f same rest u.1,
)

has_token-keep :
    (p : Share → Bool) (t : Text) (rows : List Share)
    → has_token t rows ≡ false
    → has_token t (keep p rows) ≡ false
has_token-keep p t [] h = refl
has_token-keep p t (s ∷ rest) h = ground (arith, has_token-keep p t rest)

keep-HasUniqueTokens :
    (p : Share → Bool) (rows : List Share) → HasUniqueTokens rows → HasUniqueTokens (keep p rows)
keep-HasUniqueTokens p [] u = tt
keep-HasUniqueTokens p (s ∷ rest) u = elim (Bool-cases (p s)) [
  | inl kept ↦ rw kept (has_token-keep p s.token rest u.0, keep-HasUniqueTokens p rest u.1)
  | inr dropped ↦ rw dropped (keep-HasUniqueTokens p rest u.1)
]

append-HasUniqueTokens :
    (s : Share) (rows : List Share)
    → has_token s.token rows ≡ false
    → HasUniqueTokens rows
    → HasUniqueTokens (rows ++ s ∷ [])
append-HasUniqueTokens s [] fresh u = (refl, tt)
append-HasUniqueTokens s (r ∷ rest) fresh u = (
  absent r.token rest u.0 (text_eq_sym_false r.token s.token (first _ _ fresh)),
  append-HasUniqueTokens s rest (others _ _ fresh) u.1,
)
  where
    absent :
        (t : Text) (rows : List Share)
        → has_token t rows ≡ false
        → text_eq s.token t ≡ false
        → has_token t (rows ++ s ∷ []) ≡ false
    absent t [] h k = ground arith
    absent t (q ∷ rows) h k = ground (arith, absent t rows)

    first : (a b : Bool) → (a || b) ≡ false → a ≡ false
    first true b h = cc
    first false b h = refl

    others : (a b : Bool) → (a || b) ≡ false → b ≡ false
    others true b h = cc
    others false b h = h

absent_of_none :
    (t : Text) (rows : List Share)
    → find_share_row (λ s. text_eq s.token t) rows ≡ none
    → has_token t rows ≡ false
unfolding find_share_row
absent_of_none t [] h = refl
absent_of_none t (s ∷ rest) h = ground (arith, absent_of_none t rest)

abbrev IsUnique : Db → Type 0
IsUnique db = HasUniqueTokens db.shares

update_rows-IsUnique :
    (id : Uuid) (f : Share → Share)
    → ((s : Share) → (f s).token ≡ s.token)
    → (db : Db) → IsUnique db
    → HasUniqueTokens (map (λ s. if s.id == id then f s else s) db.shares)
update_rows-IsUnique id f same db u =
    map-HasUniqueTokens (λ s. if s.id == id then f s else s) (λ s. pick s (s.id == id)) db.shares u
  where
    pick : (s : Share) (b : Bool) → (if b then f s else s).token ≡ s.token
    pick s true = same s
    pick s false = refl

-- What the writes of the repository keep.
create_share-IsUnique :
    (platform : Platform) (s : Share) (db : Db)
    → find_token s.token db ≡ none
    → IsUnique db
    → IsUnique (create_share platform s db).1
unfolding create_share find_token
create_share-IsUnique platform s db fresh u =
    append-HasUniqueTokens _ db.shares (absent_of_none s.token db.shares fresh) u

update_share-IsUnique : (s : Share) (db : Db) → IsUnique db → IsUnique (update_share s db).1
unfolding update_share
update_share-IsUnique s db u = elim (Bool-cases (s.id == nil_id)) [
  | inl nil ↦ rw nil u
  | inr other ↦ elim (Option-cases (find_share s.id db)) [
    | inl gone ↦ rw (other, gone) u
    | inr (row, found) ↦
        rw (other, found) (update_rows-IsUnique s.id (written_share s) (λ r. refl) db u)
  ]
]

delete_share-IsUnique : (id : Uuid) (db : Db) → IsUnique db → IsUnique (delete_share id db).1
unfolding delete_share
delete_share-IsUnique id db u = elim (Bool-cases (is_some (find_share id db))) [
  | inl found ↦ rw found (keep-HasUniqueTokens (λ s. not (s.id == id)) db.shares u)
  | inr gone ↦ rw gone u
]

add_share_view-IsUnique : (id : Uuid) (db : Db) → IsUnique db → IsUnique (add_share_view id db).1
unfolding add_share_view
add_share_view-IsUnique id db u = elim (Bool-cases (is_some (find_share id db))) [
  | inl found ↦
      rw found
        (update_rows-IsUnique id (λ s. record s { view_count = s.view_count + 1 }) (λ r. refl) db u)
  | inr gone ↦ rw gone u
]

add_share_download-IsUnique :
    (id : Uuid) (db : Db) → IsUnique db → IsUnique (add_share_download id db).1
unfolding add_share_download
add_share_download-IsUnique id db u = elim (Bool-cases (is_some (find_share id db))) [
  | inl found ↦ rw found (
      update_rows-IsUnique id (λ s. record s { download_count = s.download_count + 1 }) (λ r. refl)
        db u)
  | inr gone ↦ rw gone u
]

find_share_by_id-reads : (id : Uuid) (db : Db) → (find_share_by_id id db).1 ≡ db
unfolding find_share_by_id
find_share_by_id-reads id db = or_raise_reads (find_share id db) Error.not_found db

set_share_perms-reads :
    (c : Caller) (asked : Option PermMask) (s : Share) (db : Db)
    → (set_share_perms c asked s db).1 ≡ db
unfolding set_share_perms
set_share_perms-reads c none s db = refl
set_share_perms-reads c (some m) s db =
    elim (Bool-cases (has c.perms (intersect m perm_share_scope))) [
      | inl may ↦ rw may
      | inr never ↦ rw never
    ]

module _ (platform : Platform) where
  publish-IsUnique : (s : Share) (db : Db) → IsUnique db → IsUnique (publish platform s db).1
  unfolding publish
  publish-IsUnique s db u = elim (Option-cases (find_token s.token db)) [
    | inl fresh ↦ rw fresh (create_share-IsUnique platform s db fresh u)
    | inr (other, taken) ↦ rw taken u
  ]

  create_link-IsUnique :
      (nodes : NodeUsecase) (uc : ShareUsecase) (c : Caller) (i : CreateShareInput) (drawn : Text)
      (db : Db)
      → IsUnique db
      → IsUnique (create_link platform nodes uc c i drawn db).1
  unfolding create_link create_granted new_id
  create_link-IsUnique nodes uc c i drawn db u =
      guard_keeps IsUnique (is_authenticated c) Error.unauthenticated _ db u (
        guard_keeps IsUnique uc.allow_public Error.unsupported _ db u (
          guard_keeps IsUnique (not (i.node_id == nil_id)) Error.invalid_argument _ db u (
            read_keeps IsUnique (require_access platform nodes c i.node_id perm_share) _ db
              (require_access-IsRead platform nodes c i.node_id perm_share db) u
              λ found.
                let perms = wanted_share_perms i.permissions in
                guard_keeps IsUnique
                  (not (has perms perm_download && not (has found.1.perms perm_download)))
                  Error.permission_denied _ db u
                  (guard_keeps IsUnique
                    (not (
                      has perms perm_upload
                      && (not (is_folder found.0) || not (has found.1.perms perm_upload))))
                    Error.permission_denied _ db u
                    (guard_keeps IsUnique (has c.perms perms) Error.permission_denied _ db u (
                      guard_keeps IsUnique
                        (is_empty (trim_space i.token) || valid_share_token (trim_space i.token))
                        Error.invalid_argument _ db u
                        (let next = record db { next = db.next + 1 } in
                          let row =
                            new_share c i (platform.minted db.next)
                              (if is_empty (trim_space i.token) then drawn else trim_space i.token)
                              found.0 in
                          with_tx_keeps_of IsUnique (publish platform row) next u
                            (publish-IsUnique row next u))))))))

update_link-IsUnique :
    (c : Caller) (i : UpdateShareInput) (db : Db) → IsUnique db → IsUnique (update_link c i db).1
unfolding update_link update_link_tx
update_link-IsUnique c i db u =
    guard_keeps IsUnique (is_authenticated c) Error.unauthenticated _ db u (
      with_tx_keeps_of IsUnique (update_link_tx c i) db u (
        read_keeps IsUnique (find_share_by_id i.id) _ db (find_share_by_id-reads i.id db) u λ s.
          guard_keeps IsUnique (manages_share c s) Error.permission_denied _ db u (
            read_keeps IsUnique (set_share_perms c i.permissions s) _ db
              (set_share_perms-reads c i.permissions s db) u
              λ granted. update_share-IsUnique (updated_share i granted) db u)))

delete_link-IsUnique :
    (c : Caller) (id : Uuid) (db : Db) → IsUnique db → IsUnique (delete_link c id db).1
unfolding delete_link delete_link_tx
delete_link-IsUnique c id db u =
    guard_keeps IsUnique (is_authenticated c) Error.unauthenticated _ db u (
      with_tx_keeps_of IsUnique (delete_link_tx c id) db u (
        read_keeps IsUnique (find_share_by_id id) _ db (find_share_by_id-reads id db) u λ s.
          guard_keeps IsUnique (manages_share c s) Error.permission_denied _ db u
            (delete_share-IsUnique id db u)))

-- The writes of the usecase on the share table, whoever calls them and whatever comes back.
pub data ShareStep (platform : Platform) (nodes : NodeUsecase) (uc : ShareUsecase)
    : Db → Db → Type 0 where
  created :
      (c : Caller) (i : CreateShareInput) (drawn : Text) (db : Db)
      → ShareStep platform nodes uc db (create_link platform nodes uc c i drawn db).1
  updated :
      (c : Caller) (i : UpdateShareInput) (db : Db)
      → ShareStep platform nodes uc db (update_link c i db).1
  deleted :
      (c : Caller) (id : Uuid) (db : Db) → ShareStep platform nodes uc db (delete_link c id db).1
  viewed : (id : Uuid) (db : Db) → ShareStep platform nodes uc db (mark_viewed id db).1
  downloaded : (id : Uuid) (db : Db) → ShareStep platform nodes uc db (mark_downloaded id db).1

pub data ShareRun (platform : Platform) (nodes : NodeUsecase) (uc : ShareUsecase) (db : Db)
    : Db → Type 0 where
  start : ShareRun platform nodes uc db db
  followed :
      {mid after : Db}
      → ShareRun platform nodes uc db mid
      → ShareStep platform nodes uc mid after
      → ShareRun platform nodes uc db after

module _ (platform : Platform) (nodes : NodeUsecase) (uc : ShareUsecase) where
  step-IsUnique :
      {db after : Db} → ShareStep platform nodes uc db after → IsUnique db → IsUnique after
  unfolding mark_viewed mark_downloaded
  step-IsUnique (created c i drawn db) u = create_link-IsUnique platform nodes uc c i drawn db u
  step-IsUnique (updated c i db) u = update_link-IsUnique c i db u
  step-IsUnique (deleted c id db) u = delete_link-IsUnique c id db u
  step-IsUnique (viewed id db) u =
      with_tx_keeps_of IsUnique (add_share_view id) db u (add_share_view-IsUnique id db u)
  step-IsUnique (downloaded id db) u =
      with_tx_keeps_of IsUnique (add_share_download id) db u (add_share_download-IsUnique id db u)

  -- Whatever links are created, updated, deleted, viewed and downloaded, in whatever order, by whom and
  -- with what tokens drawn: no two links come to have the same token.
  pub run-HasUniqueTokens :
      {db after : Db}
      → HasUniqueTokens db.shares
      → ShareRun platform nodes uc db after
      → HasUniqueTokens after.shares
  run-HasUniqueTokens u start = u
  run-HasUniqueTokens u (followed run step) = step-IsUnique step (run-HasUniqueTokens u run)
