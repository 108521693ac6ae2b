-- ===== src/Store/Shares.antt =====
-- internal/data/share.go: the share repository. The order of the table is that of the primary key, since
-- identifiers are minted in growing order.
use nagisa.Prelude.{
  ℕ, ◌+◌, Bool, not, ◌&&◌, Option, none, some, List, [], ◌∷◌, ◌++◌, map, Text, text_eq, contains,
  keep, is_some, length, ◌==◌, if◌then◌else◌,
}
use nagisa.Prelude.Int.{pos}
use nagisa.Errors.{Error, ok, err}
use nagisa.Perm.{is_active_share}
use nagisa.Access.{Uuid, nil_id}
use nagisa.Store.Model.{Platform, Db, Share}
use nagisa.Store.Options.{ListOption, resolve_list_options, page}
use nagisa.Store.Transaction.{Tx, or_raise}

unfoldable pub find_share_row : (Share → Bool) → List Share → Option Share
find_share_row test [] = none
find_share_row test (s ∷ rest) =
    let later = find_share_row test rest in if test s then some s else later

unfoldable pub find_share : Uuid → Db → Option Share
unfolding find_share_row
find_share id db = find_share_row (λ s. s.id == id) db.shares

unfoldable pub find_token : Text → Db → Option Share
unfolding find_share_row
find_token token db = find_share_row (λ s. text_eq s.token token) db.shares

unfoldable pub find_share_by_id : Uuid → Tx Share
unfolding find_share
find_share_by_id id db = or_raise (find_share id db) Error.not_found db

unfoldable pub find_share_by_token : Text → Tx Share
unfolding find_token
find_share_by_token token db = or_raise (find_token token db) Error.not_found db

unfoldable pub create_share : Platform → Share → Tx Share
create_share platform s db =
    let row = record s { id = if s.id == nil_id then platform.minted db.next else s.id } in
    (
      ok row,
      record db {
        shares = db.shares ++ row ∷ [];
        next = if s.id == nil_id then db.next + 1 else db.next;
      },
    )

abbrev pub update_shares : Uuid → (Share → Share) → Db → Db
update_shares id f db = record db { shares = map (λ s. if s.id == id then f s else s) db.shares }

-- The columns that an update leaves: the token, the node, the owner and the counters.
abbrev pub written_share : Share → Share → Share
written_share s row = record row {
  name = s.name;
  description = s.description;
  permissions = s.permissions;
  password_hash = s.password_hash;
  password_hint = s.password_hint;
  expires_at = s.expires_at;
  max_downloads = s.max_downloads;
  status = s.status;
}

unfoldable pub update_share : Share → Tx Share
unfolding find_share
update_share s db =
    if s.id == nil_id then (err Error.invalid_argument, db) else elim (find_share s.id db) [
      | none ↦ (err Error.not_found, db)
      | some row ↦ (ok (written_share s row), update_shares s.id (written_share s) db)
    ]

unfoldable pub delete_share : Uuid → Tx (Unit {0})
unfolding find_share
delete_share id db =
    if is_some (find_share id db)
    then (ok tt, record db { shares = keep (λ s. not (s.id == id)) db.shares })
    else (err Error.not_found, db)

unfoldable pub add_share_view : Uuid → Tx (Unit {0})
unfolding find_share
add_share_view id db =
    if is_some (find_share id db)
    then (ok tt, update_shares id (λ s. record s { view_count = s.view_count + 1 }) db)
    else (err Error.not_found, db)

unfoldable pub add_share_download : Uuid → Tx (Unit {0})
unfolding find_share
add_share_download id db =
    if is_some (find_share id db)
    then (ok tt, update_shares id (λ s. record s { download_count = s.download_count + 1 }) db)
    else (err Error.not_found, db)

unfoldable pub list_shares : List (ListOption Share) → Tx (List Share)
list_shares opts db =
    let o = resolve_list_options (pos 50) opts in
    (ok (page o (o.order_by (keep o.filter db.shares))), db)

unfoldable pub count_shares : List (ListOption Share) → Tx ℕ
count_shares opts db =
    let o = resolve_list_options (pos 50) opts in (ok (length (keep o.filter db.shares)), db)

unfoldable pub list_shares_by_node : Uuid → List (ListOption Share) → Tx (List Share)
list_shares_by_node node_id opts db =
    let o = resolve_list_options (pos 50) opts in
    (ok (page o (o.order_by (keep o.filter (keep (λ s. s.node_id == node_id) db.shares)))), db)

-- The map of the counts, as a function; a node with no active link is not in it.
unfoldable pub count_shares_by_nodes : List Uuid → Tx (Uuid → ℕ)
count_shares_by_nodes ids db = (
  ok (λ id. length (
      keep (λ s. (s.node_id == id) && contains s.node_id ids && is_active_share s.status)
        db.shares)),
  db,
)
