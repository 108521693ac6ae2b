-- ===== src/Shares/Visitors.antt =====
-- internal/biz/share.go: what a visitor does with a link.
use nagisa.Prelude.{
  ℕ, Bool, true, false, not, ◌&&◌, ◌||◌, Option, none, some, List, [], Text, has_prefix, is_empty,
  trim_space, ◌==◌, ltb, if◌then◌else◌,
}
use nagisa.Prelude.Int.{ℤ, pos, pos_part, ltb_ℤ, leb_ℤ}
use nagisa.Errors.{Error}
use nagisa.Perm.{
  ShareStatus, Visibility, perm_view, perm_share_scope, intersect, is_active_share,
  is_active_status,
}
use nagisa.Access.{Uuid, nil_id, Node, NodeAccess, is_folder}
use nagisa.Store.{
  Platform, Tx, Share, pure, guard, with_tx, ◌>>=◌, ◌>>◌, ListOption, any_node, find_share_by_token,
  find_node_by_id, list_nodes, count_nodes, add_share_view, add_share_download,
}
use nagisa.Shares.Links.{ShareUsecase, seconds}

-- `Share.Expired`, `Share.Exhausted`, `Share.Visible`.
unfoldable pub is_expired : Share → ℕ → Bool
is_expired s now = elim s.expires_at [ none ↦ false | some at ↦ ltb at now ]

unfoldable pub is_exhausted : Share → Bool
is_exhausted s = ltb_ℤ (pos 0) s.max_downloads && leb_ℤ s.max_downloads (pos s.download_count)

unfoldable pub is_visible : Share → ℕ → Bool
unfolding is_expired is_exhausted
is_visible s now = is_active_share s.status && not (is_expired s now) && not (is_exhausted s)

abbrev pub is_revoked : ShareStatus → Bool
is_revoked ShareStatus.revoked = true
is_revoked _ = false

abbrev pub is_marked_expired : ShareStatus → Bool
is_marked_expired ShareStatus.expired = true
is_marked_expired _ = false

-- The switch of `Resolve`.
unfoldable pub redeemable : Share → ℕ → Tx Share
unfolding is_expired is_exhausted
redeemable s now = do
  guard (not (is_revoked s.status)) Error.not_found
  guard (not (is_expired s now || is_marked_expired s.status)) Error.not_found
  guard (not (is_exhausted s)) Error.resource_exhausted
  pure s

-- `Resolve`.
unfoldable pub resolve_link : ShareUsecase → Text → ℕ → Tx Share
unfolding find_share_by_token redeemable trim_space
resolve_link uc raw now = do
  guard uc.allow_public Error.unsupported
  let token = trim_space raw
  guard (not (is_empty token)) Error.invalid_argument
  share ← find_share_by_token token
  redeemable share now

-- `VerifyPassword`: `none` is the nil error.
unfoldable pub verify_link_password : ShareUsecase → Share → Text → Option Error
verify_link_password uc s password =
    if is_empty s.password_hash
    then none
    else if is_empty password
    then some Error.node_locked
    else elim uc.verify [
      | none ↦ some Error.permission_denied
      | some verify ↦ if verify s.password_hash password then none else some Error.permission_denied
    ]

-- `Node`.
unfoldable pub link_node : Share → Tx Node
unfolding find_node_by_id
link_node s = do
  node ← find_node_by_id s.node_id
  guard (is_active_status node.status) Error.not_found
  pure node

unfoldable pub link_descendant : Node → Uuid → Tx Node
unfolding find_node_by_id
link_descendant root node_id = do
  node ← find_node_by_id node_id
  guard (is_active_status node.status) Error.not_found
  guard (has_prefix node.path root.path) Error.permission_denied
  pure node

-- `ResolveNode`.
unfoldable pub resolve_link_node : Share → Uuid → Tx Node
unfolding link_node link_descendant
resolve_link_node s node_id = do
  root ← link_node s
  if (node_id == nil_id) || (node_id == root.id) then pure root else link_descendant root node_id

-- `Children`.
unfoldable pub link_children : Platform → Node → List (ListOption Node) → Tx (List Node × ℕ)
unfolding list_nodes count_nodes
link_children platform folder opts = if not (is_folder folder) then pure ([], 0) else do
  nodes ← list_nodes platform (record any_node { parent_id = some folder.id }) opts
  total ← count_nodes platform (record any_node { parent_id = some folder.id }) []
  pure (nodes, total)

unfoldable pub mark_viewed : Uuid → Tx (Unit {0})
unfolding add_share_view
mark_viewed id = with_tx (add_share_view id)

unfoldable pub mark_downloaded : Uuid → Tx (Unit {0})
unfolding add_share_download
mark_downloaded id = with_tx (add_share_download id)

-- `Grant`.
unfoldable pub link_grant : Share → Bool → NodeAccess
link_grant s unlocked =
    let locked = not (is_empty s.password_hash) && not unlocked in
    let perms = intersect s.permissions perm_share_scope in
    record {
      perms = if locked then intersect perms perm_view else perms;
      locked = locked;
      locked_by = nil_id;
      owned = false;
      visibility = Visibility.public;
    }

-- `presignTTL`, for an int32 of seconds.
unfoldable pub link_presign_ttl : ℤ → ℕ
link_presign_ttl requested =
    let ttl = if ltb_ℤ (pos 0) requested then seconds (pos_part requested) else seconds 1800 in
    if ltb (seconds 14400) ttl then seconds 14400 else ttl
