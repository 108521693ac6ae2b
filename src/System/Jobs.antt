-- ===== src/System/Jobs.antt =====
-- internal/biz/system.go: the jobs of `Maintenance` that act on the tables. The instant is an argument.
use nagisa.Prelude.{
  ordered_by, ℕ, ◌+◌, Bool, true, false, ◌&&◌, ◌||◌, Option, none, some, List, [], ◌∷◌, ◌++◌, Text,
  codes, keep, map, take, length, any, has_prefix, leb, ltb, ◌==◌, if◌then◌else◌,
}
use nagisa.Prelude.Int.{pos}
use nagisa.Errors.{ok}
use nagisa.Perm.{UploadStatus, ShareStatus, NodeStatus, is_open_upload, is_active_share}
use nagisa.Access.{Uuid, Caller, Node}
use nagisa.Store.{
  Platform, Tx, Upload, Share, pure, with_tx, ◌>>=◌, ◌>>◌, ListOption, any_node, list_nodes,
  list_uploads, update_upload, delete_upload_parts, enqueue_deletion, update_share,
}
use nagisa.Tree.{NodeUsecase, purge_nodes}

unfoldable pub list_expired_uploads : ℕ → ℕ → Tx (List Upload)
list_expired_uploads now limit db = (
  ok (
      take limit (
        ordered_by (λ u. u.expires_at)
          (keep (λ u. ltb u.expires_at now && is_open_upload u.status) db.uploads))),
  db,
)

abbrev or_zero : Option ℕ → ℕ
or_zero none = 0
or_zero (some at) = at

abbrev is_over : ℕ → Option ℕ → Bool
is_over now none = false
is_over now (some at) = ltb at now

unfoldable pub list_expired_shares : ℕ → ℕ → Tx (List Share)
list_expired_shares now limit db = (
  ok (
      take limit (
        ordered_by (λ s. or_zero s.expires_at)
          (keep (λ s. is_active_share s.status && is_over now s.expires_at) db.shares))),
  db,
)

unfoldable pub expire_upload : Upload → Tx (Unit {0})
expire_upload u = do
  _ ←
      update_upload
        (record u { status = UploadStatus.expired; last_error = codes "expired by maintenance" })
  delete_upload_parts u.id
  enqueue_deletion u.path (codes "upload_expired")

unfoldable pub expire_uploads_loop : List Upload → Tx ℕ
expire_uploads_loop [] = pure 0
expire_uploads_loop (u ∷ rest) = do
  expire_upload u
  count ← expire_uploads_loop rest
  pure (count + 1)

-- `expireUploads`; no transaction is around the rows.
unfoldable pub expire_uploads : Bool → ℕ → Tx ℕ
expire_uploads dry_run now = do
  found ← list_expired_uploads now 500
  if dry_run then pure (length found) else expire_uploads_loop found

unfoldable pub expire_shares_loop : List Share → Tx ℕ
expire_shares_loop [] = pure 0
expire_shares_loop (s ∷ rest) = do
  _ ← update_share (record s { status = ShareStatus.expired })
  count ← expire_shares_loop rest
  pure (count + 1)

-- `expireShares`.
unfoldable pub expire_shares : Bool → ℕ → Tx ℕ
expire_shares dry_run now = do
  found ← list_expired_shares now 500
  if dry_run then pure (length found) else expire_shares_loop found

abbrev live_paths : ℕ → List Upload → List Text
live_paths now found = map (λ u. u.path ++ codes "/") (keep (λ u. leb now u.expires_at) found)

-- `liveUploadPrefixes`.
unfoldable pub live_upload_prefixes : ℕ → Tx (List Text)
live_upload_prefixes now = do
  pending ← list_uploads none (some UploadStatus.pending) (ListOption.list_limit (pos 10000) ∷ [])
  started ←
      list_uploads none (some UploadStatus.in_progress) (ListOption.list_limit (pos 10000) ∷ [])
  pure (live_paths now pending ++ live_paths now started)

-- `liveUpload`.
unfoldable pub live_upload : List Text → Text → Bool
live_upload live key = any (has_prefix key) live

module _ (platform : Platform) (nodes : NodeUsecase) where
  abbrev is_past : ℕ → Node → Bool
  is_past before n = elim n.trashed_at [ none ↦ false | some at ↦ ltb at before ]

  unfoldable pub purge_trash_loop : Caller → List Uuid → Tx ℕ
  purge_trash_loop c [] = pure 0
  purge_trash_loop c (id ∷ ids) = do
    purged ← purge_nodes platform nodes c (id ∷ [])
    count ← purge_trash_loop c ids
    pure (length purged.0 + count)

  -- `purgeTrash`, with the instant before which a row must have been trashed.
  unfoldable pub purge_trash : Caller → Bool → ℕ → Tx ℕ
  purge_trash c dry_run before = do
    found ←
        list_nodes platform
          (record any_node { status = some NodeStatus.trashed; include_trashed = true })
          (ListOption.list_limit (pos 10000) ∷ [])
    let ids = map (λ n. n.id) (keep (is_past before) found)
    if (length ids == 0) || dry_run then pure (length ids) else with_tx (purge_trash_loop c ids)
