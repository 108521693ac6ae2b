-- ===== src/Files/Transfer.antt =====
-- internal/biz/file.go: the operations that touch the object store as well as the tables.
use nagisa.Prelude.{
  ℕ, zero, suc, ◌+◌, Bool, not, ◌&&◌, ◌||◌, Option, none, some, List, [], ◌∷◌, Text, codes, any,
  keep, length, is_empty, trim_space, byte_len, ltb, ◌==◌, if◌then◌else◌,
}
use nagisa.Prelude.Int.{ℤ, pos, pos_part, ltb_ℤ, leb_ℤ}
use nagisa.Errors.{Error}
use nagisa.Perm.{UploadStatus, UploadMode, ConflictPolicy, perm_upload}
use nagisa.Access.{Uuid, nil_id, Caller, Node, is_authenticated, require}
use nagisa.Store.{
  Platform, Upload, UploadPart, with_tx, or_error, list_upload_parts, delete_upload,
  delete_upload_parts, enqueue_deletion,
}
use nagisa.Tree.{new_id}
use nagisa.Files.World.{
  ObjectStore, PresignedRequest, Io, done, fail, in_db, on_objects, peek, or_fail, try_io, check,
  ◌>>=◌, ◌>>◌,
}
use nagisa.Files.Limits.{
  FilePlatform, FileUsecase, part_key, max_part_size, object_key, detect_mime_type, to_int32,
}
use nagisa.Files.Sessions.{
  InitiateUploadInput, SignedPart, is_completed, is_presigned, is_separator, or_rename,
  etag_differs, session_open, load_owned_upload, record_part, start_upload, abort_tx,
}
use nagisa.Files.Collecting.{assembled, checksum_differs}
use nagisa.Files.Commit.{Content, commit_node}

pub record UploadChunkInput : Type 0 where
  pub upload_id : Uuid
  pub part_number : ℤ
  pub size : ℕ
  pub body : Text
  pub etag : Text

pub record UploadSmallFileInput : Type 0 where
  pub parent_id : Uuid
  pub name : Text
  pub content : Text
  pub mime_type : Text
  pub policy : ConflictPolicy
  pub description : Text
  pub metadata : Option (List (Text × Text))

abbrev pub eq_ℤ : ℤ → ℤ → Bool
eq_ℤ a b = leb_ℤ a b && leb_ℤ b a

-- The last recorded part of a number.
abbrev find_part : ℕ → List UploadPart → Option UploadPart
find_part number [] = none
find_part number (p ∷ rest) =
    let later = find_part number rest in
    elim later [ some q ↦ some q | none ↦ if p.part_number == number then some p else none ]

module _ {S : Type 0} (platform : Platform) (files : FilePlatform) (store : ObjectStore S)
    (uc : FileUsecase) where
  -- The loop of `signParts`, with the rounds that are left.
  unfoldable pub sign_loop : ℕ → ℕ → Upload → List UploadPart → Io S (List SignedPart)
  sign_loop zero n u existing = done []
  sign_loop (suc rounds) n u existing = do
    let blank : UploadPart = record {
      id = nil_id;
      upload_id = u.id;
      part_number = n;
      size = 0;
      etag = [];
      storage_key = part_key u n;
    }
    let part : UploadPart = elim (find_part n existing) [
      | none ↦ blank
      | some q ↦ record q { upload_id = u.id; part_number = n; storage_key = part_key u n }
    ]
    let address : Io S (Option PresignedRequest) =
        peek (λ _. store.presign_put_object part.storage_key uc.limit.presign_ttl) >>= λ url.
        done (some url)
    url ← if is_empty part.etag then address else done none
    rest ← sign_loop rounds (n + 1) u existing
    done (record { part = part; presign = url } ∷ rest)

  unfoldable pub sign_parts : Upload → List UploadPart → Io S (List SignedPart)
  sign_parts u existing = sign_loop (pos_part u.total_parts) 1 u existing

  abbrev unsigned : List UploadPart → List SignedPart
  unsigned [] = []
  unsigned (p ∷ rest) = record { part = p; presign = none } ∷ unsigned rest

  -- `InitiateUpload`.
  unfoldable pub initiate_upload :
      Caller → InitiateUploadInput → ℕ → Io S (Upload × List SignedPart)
  initiate_upload c i now = do
    started ← in_db (start_upload platform files uc c i now)
    signed ←
        if is_presigned started.0.mode
        then sign_parts started.0 started.1
        else done (unsigned started.1)
    done (started.0, signed)

  -- An open session of the caller.
  unfoldable pub open_session_of : Caller → Uuid → ℕ → Io S Upload
  open_session_of c id now = do
    check (is_authenticated c) Error.unauthenticated
    u ← in_db (load_owned_upload c id)
    in_db (or_error (session_open u now))
    done u

  abbrev in_plan : Upload → ℤ → Bool
  in_plan u number = not (ltb_ℤ number (pos 1) || ltb_ℤ u.total_parts number)

  abbrev new_part : Upload → ℕ → ℕ → Text → Uuid → UploadPart
  new_part u number size etag id = record {
    id = id;
    upload_id = u.id;
    part_number = number;
    size = size;
    etag = etag;
    storage_key = part_key u number;
  }

  abbrev octet_stream : Text
  octet_stream = codes "application/octet-stream"

  -- `UploadChunk`.
  unfoldable pub upload_chunk : Caller → UploadChunkInput → ℕ → Io S (UploadPart × Upload)
  upload_chunk c i now = do
    u ← open_session_of c i.upload_id now
    check (in_plan u i.part_number) Error.invalid_argument
    let number = pos_part i.part_number
    check (not (ltb_ℤ (max_part_size u number) (pos i.size))) Error.too_large
    etag ← on_objects (store.put_object (part_key u number) i.body i.size octet_stream)
    let rejected : Io S (UploadPart × Upload) =
        try_io (on_objects (store.remove_object (part_key u number)))
          (λ _. fail Error.precondition_failed) (λ _. fail Error.precondition_failed)
    let accepted : Io S (UploadPart × Upload) = in_db (new_id platform) >>= λ id.
        in_db (with_tx (record_part platform u (new_part u number i.size etag id)))
    if etag_differs files i.etag etag then rejected else accepted

  -- An empty part is expected of an empty file only.
  unfoldable pub is_expected_empty : Upload → ℕ → Bool
  is_expected_empty u number = (u.size == 0) && eq_ℤ u.total_parts (pos 1) && (number == 1)

  -- `ConfirmUploadPart`: the object is inspected.
  unfoldable pub confirm_upload_part : Caller → Uuid → ℤ → Text → ℕ → Io S (UploadPart × Upload)
  confirm_upload_part c upload_id part_number etag now = do
    u ← open_session_of c upload_id now
    check (in_plan u part_number) Error.invalid_argument
    let number = pos_part part_number
    info ←
        try_io (peek (store.stat_object (part_key u number))) (λ _. fail Error.upload_incomplete)
          done
    check (not ((info.size == 0) && not (is_expected_empty u number))) Error.upload_incomplete
    check (not (etag_differs files etag info.etag)) Error.precondition_failed
    id ← in_db (new_id platform)
    in_db (with_tx (record_part platform u (new_part u number info.size info.etag id)))

  -- The object is removed where the commit fails.
  unfoldable pub commit_or_remove : Caller → Upload → Uuid → Content → Io S Node
  commit_or_remove c u id content =
      try_io (in_db (with_tx (commit_node platform uc c u id content)))
        (λ e. try_io (on_objects (store.remove_object content.key)) (λ _. fail e) (λ _. fail e))
        done

  -- The staged parts of a completed session, and the session.
  unfoldable pub release_staged : Upload → Io S (Unit {0})
  release_staged u = do
    in_db (delete_upload_parts u.id)
    try_io (on_objects (store.remove_prefix u.path))
        (λ _. in_db (enqueue_deletion u.path (codes "upload_parts"))) done
    in_db (delete_upload u.id)

  abbrev or_checksum : Text → Text → Text
  or_checksum checksum own = if is_empty checksum then own else checksum

  -- `CompleteUpload` from the checked parts on.
  unfoldable pub compose_upload : Caller → Upload → ℕ → List Text → Text → Text → Io S Node
  compose_upload c u total keys checksum comment = do
    id ← in_db (new_id platform)
    let key = object_key platform c.user_id id
    etag ← on_objects (store.compose_object key keys u.mime_type)
    let rejected : Io S Node =
        try_io (on_objects (store.remove_object key)) (λ _. fail Error.precondition_failed)
          (λ _. fail Error.precondition_failed)
    let content : Content = record { key = key; size = total; etag = etag; comment = comment }
    let committed : Io S Node = do
      node ← commit_or_remove c u id content
      release_staged u
      done node
    if checksum_differs files uc.limit.verify_checksum (or_checksum checksum u.etag) etag
        then rejected
        else committed

  -- `CompleteUpload`.
  unfoldable pub complete_upload : Caller → Uuid → Text → Text → ℕ → Io S Node
  complete_upload c upload_id checksum comment now = do
    u ← open_session_of c upload_id now
    parts ← in_db (list_upload_parts u.id 0)
    check (eq_ℤ (to_int32 (length parts)) u.total_parts) Error.upload_incomplete
    whole ← or_fail (assembled uc.limit.min_chunk_size u.total_parts parts) Error.upload_incomplete
    check (not (ltb 0 u.size && not (whole.0 == u.size))) Error.upload_incomplete
    compose_upload c u whole.0 whole.1 checksum comment

  -- `AbortUpload`.
  unfoldable pub abort_upload : Caller → Uuid → Io S (Unit {0})
  abort_upload c upload_id = do
    check (is_authenticated c) Error.unauthenticated
    u ← in_db (load_owned_upload c upload_id)
    check (not (is_completed u.status)) Error.invalid_argument
    in_db (with_tx (abort_tx u))
    try_io (on_objects (store.remove_prefix u.path))
        (λ _. in_db (enqueue_deletion u.path (codes "upload_abort"))) done

  -- The session that carries an inline upload; it is not stored.
  unfoldable pub inline_upload : Caller → UploadSmallFileInput → Text → Text → Uuid → Upload
  inline_upload c i name mime_type id = record {
    id = id;
    parent_id = i.parent_id;
    name = name;
    owner_id = c.user_id;
    size = length i.content;
    mime_type = mime_type;
    chunk_size = 0;
    total_parts = pos 0;
    status = UploadStatus.in_progress;
    mode = UploadMode.unspecified;
    policy = or_rename i.policy;
    path = [];
    etag = [];
    description = i.description;
    metadata = i.metadata;
    received_bytes = 0;
    last_error = [];
    expires_at = 0;
  }

  -- `UploadSmallFile`; the content is the list of its bytes.
  unfoldable pub upload_small_file : Caller → UploadSmallFileInput → Io S Node
  upload_small_file c i = do
    check (is_authenticated c) Error.unauthenticated
    in_db (or_error (require c perm_upload))
    check (not (ltb uc.limit.max_inline_size (length i.content))) Error.too_large
    let name = trim_space i.name
    check
        (not
          (is_empty name || any is_separator name || ltb_ℤ uc.nodes.max_name (pos (byte_len name))))
        Error.invalid_argument
    let mime_type =
        if is_empty i.mime_type then detect_mime_type platform files name else i.mime_type
    id ← in_db (new_id platform)
    let key = object_key platform c.user_id id
    etag ← on_objects (store.put_object key i.content (length i.content) mime_type)
    upload_id ← in_db (new_id platform)
    let content : Content = record {
      key = key;
      size = length i.content;
      etag = etag;
      comment = codes "inline upload";
    }
    commit_or_remove c (inline_upload c i name mime_type upload_id) id content

  -- `GetUpload`.
  unfoldable pub get_upload : Caller → Uuid → Io S (Upload × List SignedPart)
  get_upload c id = do
    check (is_authenticated c) Error.unauthenticated
    u ← in_db (load_owned_upload c id)
    parts ← in_db (list_upload_parts id 0)
    signed ←
        if is_presigned u.mode && not (is_completed u.status)
        then sign_parts u parts
        else done (unsigned parts)
    done (u, signed)

  -- `ListUploadParts`.
  unfoldable pub own_upload_parts : Caller → Uuid → ℤ → Io S (List SignedPart × Upload)
  own_upload_parts c id from = do
    found ← get_upload c id
    let after = keep (λ p. ltb_ℤ from (pos p.part.part_number)) found.1
    done (if leb_ℤ from (pos 0) then found.1 else after, found.0)
