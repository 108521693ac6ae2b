-- ===== src/Shares/Links.antt =====
-- internal/biz/share.go: the options of the usecase, and the management of links by their owners.
use nagisa.Prelude.{
  ℕ, ◌*◌, ◌^◌, Bool, not, ◌&&◌, ◌||◌, Option, none, some, List, [], ◌∷◌, ◌++◌, Text, codes, keep,
  all, is_empty, is_some, reverse, trim_space, byte_len, slash, ◌==◌, ltb, leb, if◌then◌else◌,
}
use nagisa.Prelude.Int.{ℤ, pos, leb_ℤ}
use nagisa.Errors.{Error}
use nagisa.Perm.{
  PermMask, ShareStatus, perm_view, perm_download, perm_upload, perm_share, perm_user_manage,
  perm_share_scope, has, intersect, add, is_zero,
}
use nagisa.Access.{Uuid, nil_id, Caller, Node, NodeAccess, is_folder, is_authenticated, caller_has}
use nagisa.Store.{
  Platform, Tx, Share, pure, guard, get_db, with_tx, ◌>>=◌, ◌>>◌, ListOption, find_token,
  find_share_by_id, create_share, update_share, delete_share, list_shares, count_shares,
  list_shares_by_node, count_shares_by_nodes,
}
use nagisa.Tree.{NodeUsecase, or_keep, require_access, new_id}

-- `time.Duration`, in nanoseconds.
abbrev pub seconds : ℕ → ℕ
seconds n = n * 10 ^ 9

-- `verify hash password` is the password verifier, which may be nil.
pub record ShareUsecase : Type 0 where
  pub allow_public : Bool
  pub base_url : Text
  pub share_prefix : Text
  pub access_ttl : ℤ
  pub verify : Option (Text → Text → Bool)

trim_slashes : Text → Text
trim_slashes [] = []
trim_slashes (c ∷ s) = let rest = trim_slashes s in if c == slash then rest else c ∷ s

-- The options are read into a record of the same fields.
unfoldable pub new_share_usecase : ShareUsecase → ShareUsecase
unfolding trim_slashes
new_share_usecase opts = record opts {
  base_url = reverse (trim_slashes (reverse opts.base_url));
  share_prefix = if is_empty opts.share_prefix then codes "/s" else opts.share_prefix;
  access_ttl = if leb_ℤ opts.access_ttl (pos 0) then pos (seconds 7200) else opts.access_ttl;
}

unfoldable pub share_url : ShareUsecase → Text → Text
share_url uc token = uc.base_url ++ (uc.share_prefix ++ (slash ∷ token))

abbrev pub is_token_char : ℕ → Bool
is_token_char r =
    (leb b'a' r && leb r b'z')
    || (leb b'A' r && leb r b'Z')
    || (leb b'0' r && leb r b'9')
    || (r == b'-')
    || (r == b'_')

unfoldable pub valid_share_token : Text → Bool
unfolding byte_len
valid_share_token token =
    not (ltb (byte_len token) 8 || ltb 64 (byte_len token)) && all is_token_char token

pub record CreateShareInput : Type 0 where
  pub node_id : Uuid
  pub name : Text
  pub description : Text
  pub permissions : PermMask
  pub password_hash : Text
  pub password_hint : Text
  pub expires_at : Option ℕ
  pub max_downloads : ℤ
  pub token : Text

-- What a link may carry of what is asked for, and what it carries if nothing is.
unfoldable pub wanted_share_perms : PermMask → PermMask
wanted_share_perms asked =
    let perms = intersect asked perm_share_scope in
    if is_zero perms then add perm_view perm_download else perms

unfoldable pub new_share : Caller → CreateShareInput → Uuid → Text → Node → Share
unfolding wanted_share_perms trim_space
new_share c i id token node = record {
  id = id;
  token = token;
  node_id = node.id;
  owner_id = c.user_id;
  name = if is_empty (trim_space i.name) then node.name else trim_space i.name;
  description = i.description;
  permissions = wanted_share_perms i.permissions;
  password_hash = i.password_hash;
  password_hint = i.password_hint;
  expires_at = i.expires_at;
  max_downloads = i.max_downloads;
  download_count = 0;
  view_count = 0;
  status = ShareStatus.active;
  created_by = c.user_id;
}

pub record UpdateShareInput : Type 0 where
  pub id : Uuid
  pub name : Option Text
  pub description : Option Text
  pub permissions : Option PermMask
  pub password_hash : Option Text
  pub password_hint : Option Text
  pub clear_password : Bool
  pub expires_at : Option ℕ
  pub clear_expiry : Bool
  pub max_downloads : Option ℤ
  pub status : Option ShareStatus

-- The owner of a link, or an account manager.
abbrev pub manages_share : Caller → Share → Bool
manages_share c s = (s.owner_id == c.user_id) || caller_has c perm_user_manage

unfoldable pub set_share_perms : Caller → Option PermMask → Share → Tx Share
set_share_perms c none s = pure s
set_share_perms c (some asked) s = do
  guard (has c.perms (intersect asked perm_share_scope)) Error.permission_denied
  pure (record s { permissions = intersect asked perm_share_scope })

unfoldable pub updated_share : UpdateShareInput → Share → Share
updated_share i s = record s {
  name = or_keep i.name s.name;
  description = or_keep i.description s.description;
  password_hash = if i.clear_password then [] else or_keep i.password_hash s.password_hash;
  password_hint = if i.clear_password then [] else or_keep i.password_hint s.password_hint;
  expires_at =
      if i.clear_expiry
      then none
      else elim i.expires_at [ none ↦ s.expires_at | some at ↦ some at ];
  max_downloads = or_keep i.max_downloads s.max_downloads;
  status = or_keep i.status s.status;
}

module _ (platform : Platform) where
  -- The transaction of `Create`: no other link has the token.
  unfoldable pub publish : Share → Tx Share
  unfolding find_token create_share
  publish s = do
    db ← get_db
    guard (not (is_some (find_token s.token db))) Error.already_exists
    create_share platform s

  module _ (nodes : NodeUsecase) (uc : ShareUsecase) where
    -- The part of `Create` behind the access check.
    unfoldable pub create_granted : Caller → CreateShareInput → Text → Node × NodeAccess → Tx Share
    unfolding publish new_share wanted_share_perms valid_share_token trim_space new_id
    create_granted c i drawn (node, access) = do
      let perms = wanted_share_perms i.permissions
      guard (not (has perms perm_download && not (has access.perms perm_download)))
          Error.permission_denied
      guard
          (not
            (has perms perm_upload && (not (is_folder node) || not (has access.perms perm_upload))))
          Error.permission_denied
      guard (has c.perms perms) Error.permission_denied
      let token = trim_space i.token
      guard (is_empty token || valid_share_token token) Error.invalid_argument
      id ← new_id platform
      with_tx (publish (new_share c i id (if is_empty token then drawn else token) node))

    -- `Create`; `drawn` is what `randomToken` draws.
    unfoldable pub create_link : Caller → CreateShareInput → Text → Tx Share
    unfolding require_access create_granted
    create_link c i drawn = do
      guard (is_authenticated c) Error.unauthenticated
      guard uc.allow_public Error.unsupported
      guard (not (i.node_id == nil_id)) Error.invalid_argument
      found ← require_access platform nodes c i.node_id perm_share
      create_granted c i drawn found

    unfoldable pub list_links_by_node : Caller → Uuid → List (ListOption Share) → Tx (List Share)
    unfolding require_access list_shares_by_node
    list_links_by_node c node_id opts =
        require_access platform nodes c node_id perm_share >>= λ _. list_shares_by_node node_id opts

-- `Get`.
unfoldable pub get_link : Caller → Uuid → Tx Share
unfolding find_share_by_id
get_link c id = do
  guard (is_authenticated c) Error.unauthenticated
  share ← find_share_by_id id
  guard (manages_share c share) Error.permission_denied
  pure share

-- `List`: the page is filtered after it was read, the total counts all links.
unfoldable pub list_links : Caller → List (ListOption Share) → Tx (List Share × ℕ)
unfolding list_shares count_shares
list_links c opts = do
  guard (is_authenticated c) Error.unauthenticated
  shares ← list_shares opts
  total ← count_shares opts
  let owned = keep (λ s. s.owner_id == c.user_id) shares
  pure (if caller_has c perm_user_manage then shares else owned, total)

unfoldable pub update_link_tx : Caller → UpdateShareInput → Tx Share
unfolding find_share_by_id set_share_perms updated_share update_share
update_link_tx c i = do
  share ← find_share_by_id i.id
  guard (manages_share c share) Error.permission_denied
  granted ← set_share_perms c i.permissions share
  update_share (updated_share i granted)

-- `Update`.
unfoldable pub update_link : Caller → UpdateShareInput → Tx Share
unfolding update_link_tx
update_link c i = do guard (is_authenticated c) Error.unauthenticated; with_tx (update_link_tx c i)

unfoldable pub delete_link_tx : Caller → Uuid → Tx (Unit {0})
unfolding find_share_by_id delete_share
delete_link_tx c id = do
  share ← find_share_by_id id
  guard (manages_share c share) Error.permission_denied
  delete_share id

-- `Delete`.
unfoldable pub delete_link : Caller → Uuid → Tx (Unit {0})
unfolding delete_link_tx
delete_link c id = do
  guard (is_authenticated c) Error.unauthenticated
  with_tx (delete_link_tx c id)

unfoldable pub counts_by_nodes : List Uuid → Tx (Uuid → ℕ)
unfolding count_shares_by_nodes
counts_by_nodes ids = count_shares_by_nodes ids
