-- ===== src/Files/Addresses.antt =====
-- internal/biz/file.go: the addresses that a file can be fetched from, and the reads of the streaming
-- routes. An address of the server's own carries a signature.
use nagisa.Prelude.{
  ℕ, ◌+◌, Bool, true, not, Option, none, some, List, [], ◌∷◌, ◌++◌, Text, codes, is_empty,
  if◌then◌else◌,
}
use nagisa.Prelude.Int.{ℤ, pos}
use nagisa.Errors.{Error, Result, ok, err}
use nagisa.Perm.{perm_download, is_trashed_status}
use nagisa.Access.{Uuid, Caller, Node, is_file}
use nagisa.Store.{
  Platform, Tx, ListOption, pure, raise, guard, ◌>>=◌, ◌>>◌, any_node, list_nodes, find_node_by_id,
}
use nagisa.Tree.{require_access}
use nagisa.Files.World.{ObjectStore}
use nagisa.Files.Limits.{FileUsecase, presign_ttl, is_previewable}

-- `URLSigner`, as far as the usecase calls it: the scope, method, path, subject, node, extra and expiry.
pub record UrlSigner : Type 0 where
  pub sign : Text → Text → Text → Text → Text → Text → ℕ → Result Text

pub record SignedUrl : Type 0 where
  pub url : Text
  pub method : Text
  pub headers : List (Text × Text)
  pub expires_at : ℕ
  pub node_id : Uuid
  pub size : ℕ
  pub file_name : Text
  pub mime_type : Text

-- A result of an outside call as a step that leaves the tables.
abbrev pub lifted {ℓ} : {A : Type ℓ} → Result A → Tx A
lifted (ok a) = pure a
lifted (err e) = raise e

abbrev pub or_name : Text → Text → Text
or_name asked own = if is_empty asked then own else asked

abbrev pub disposition : Bool → Text
disposition inline = if inline then codes "inline" else codes "attachment"

module _ (platform : Platform) (signer : Option UrlSigner) where
  abbrev node_route : Node → Text → Text
  node_route n tail = codes "/v1/files/" ++ (platform.uuid_text n.id ++ tail)

  unfoldable pub streamed_content_url : Node → Text → ℕ → Bool → Text → ℕ → Tx SignedUrl
  streamed_content_url n subject ttl inline file_name now = elim signer [
    | none ↦ raise Error.unsupported
    | some s ↦
        lifted (
          s.sign (codes "content") (codes "GET") (node_route n (codes "/content")) subject
            (platform.uuid_text n.id) (disposition inline) (now + ttl))
        >>= λ signed. pure (record {
          url = signed;
          method = codes "GET";
          headers = [];
          expires_at = now + ttl;
          node_id = n.id;
          size = n.size;
          file_name = file_name;
          mime_type = n.mime_type;
        })
  ]

  -- The end of `ArchiveURL`.
  unfoldable pub archive_of : UrlSigner → Node → Text → Text → ℕ → Tx SignedUrl
  archive_of s n subject name expires = do
    signed ← lifted (
        s.sign (codes "archive") (codes "GET") (node_route n (codes "/archive")) subject
          (platform.uuid_text n.id) name expires)
    pure (record {
      url = signed;
      method = codes "GET";
      headers = [];
      expires_at = expires;
      node_id = n.id;
      size = 0;
      file_name = name ++ codes ".zip";
      mime_type = codes "application/zip";
    })

  module _ (uc : FileUsecase) where
    -- `ArchiveURL`.
    unfoldable pub archive_url : Caller → Uuid → ℤ → Text → ℕ → Tx SignedUrl
    archive_url c id expires_in archive_name now = do
      found ← require_access platform uc.nodes c id perm_download
      let expires = now + presign_ttl uc.limit expires_in
      elim signer [
        | none ↦ raise Error.unsupported
        | some s ↦
            archive_of s found.0 (platform.uuid_text c.user_id) (or_name archive_name found.0.name)
              expires
      ]

    -- `ContentURL`.
    unfoldable pub content_url : Caller → Uuid → ℤ → Bool → Text → ℕ → Tx SignedUrl
    content_url c id expires_in inline file_name now = do
      found ← require_access platform uc.nodes c id perm_download
      guard (is_file found.0) Error.unsupported
      guard (not (is_empty found.0.storage_key)) Error.unsupported
      streamed_content_url found.0 (platform.uuid_text c.user_id) (presign_ttl uc.limit expires_in)
          inline (or_name file_name found.0.name) now

    module _ {S : Type 0} (store : ObjectStore S) where
      -- The address that the object store signs.
      unfoldable pub stored_url : Node → Text → Text → ℕ → Tx SignedUrl
      stored_url n file_name how ttl = do
        request ← lifted (store.presign_get_object n.storage_key file_name n.mime_type how ttl)
        pure (record {
          url = request.url;
          method = request.method;
          headers = request.headers;
          expires_at = request.expires_at;
          node_id = n.id;
          size = n.size;
          file_name = file_name;
          mime_type = n.mime_type;
        })

      -- From the server where a browser cannot reach the storage, from the storage otherwise.
      unfoldable pub node_url : Caller → Node → ℤ → Bool → Text → ℕ → Tx SignedUrl
      node_url c n expires_in inline file_name now =
          if is_empty store.public_host
          then streamed_content_url n (platform.uuid_text c.user_id)
              (presign_ttl uc.limit expires_in) inline file_name now
          else stored_url n file_name (disposition inline) (presign_ttl uc.limit expires_in)

      -- `DownloadURL`.
      unfoldable pub download_url : Caller → Uuid → ℤ → Bool → Text → ℕ → Tx SignedUrl
      download_url c id expires_in inline file_name now = do
        found ← require_access platform uc.nodes c id perm_download
        guard (is_file found.0) Error.unsupported
        guard (not (is_empty found.0.storage_key)) Error.unsupported
        node_url c found.0 expires_in inline (or_name file_name found.0.name) now

      -- `PreviewURL`.
      unfoldable pub preview_url : Caller → Uuid → ℤ → ℕ → Tx SignedUrl
      preview_url c id expires_in now = do
        found ← require_access platform uc.nodes c id perm_download
        guard (is_file found.0) Error.unsupported
        guard (is_previewable found.0.mime_type) Error.unsupported
        node_url c found.0 expires_in true found.0.name now

-- `NodeByID`.
unfoldable pub node_by_id : Uuid → Tx Node
node_by_id id = do
  n ← find_node_by_id id
  guard (not (is_trashed_status n.status)) Error.not_found
  pure n

-- `ListSubtree`.
unfoldable pub list_subtree : Platform → Uuid → Tx (List Node)
list_subtree platform id = do
  root ← find_node_by_id id
  list_nodes platform (record any_node { path_prefix = root.path; exclude_ids = root.id ∷ [] })
      (ListOption.list_limit (pos 200000) ∷ [])
