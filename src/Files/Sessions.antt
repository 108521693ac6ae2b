-- ===== src/Files/Sessions.antt =====
-- internal/biz/file.go: the multipart upload sessions of a caller, and their parts.
use nagisa.Prelude.{
  ℕ, ◌+◌, Bool, true, false, not, ◌&&◌, ◌||◌, Option, none, some, List, [], ◌∷◌, ◌++◌, Text, codes,
  any, keep, is_empty, trim_space, byte_len, reverse, ltb, ◌==◌, if◌then◌else◌,
}
use nagisa.Prelude.Int.{ℤ, pos, pos_part, ltb_ℤ}
use nagisa.Errors.{Error}
use nagisa.Perm.{UploadStatus, UploadMode, ConflictPolicy, perm_upload, perm_storage_manage}
use nagisa.Access.{Uuid, nil_id, Caller, is_authenticated, caller_has, require}
use nagisa.Store.{
  Platform, Db, Tx, Upload, UploadPart, pure, guard, or_error, with_tx, get_db, ◌>>=◌, ◌>>◌,
  ListOption, find_upload, find_upload_by_id, find_reusable_upload, create_upload, update_upload,
  delete_upload_parts, list_upload_parts, list_uploads, count_uploads, put_upload_part,
  upload_status_value,
}
use nagisa.Tree.{load_writable_parent, new_id}
use nagisa.Files.World.{PresignedRequest}
use nagisa.Files.Limits.{FilePlatform, FileUsecase, plan_chunk, plan_parts, detect_mime_type}
use nagisa.Files.Quota.{check_quota}

pub record InitiateUploadInput : Type 0 where
  pub parent_id : Uuid
  pub name : Text
  pub size : ℤ
  pub mime_type : Text
  pub chunk_size : ℤ
  pub mode : UploadMode
  pub policy : ConflictPolicy
  pub etag : Text
  pub description : Text
  pub metadata : Option (List (Text × Text))
  pub resume_id : Uuid

-- A part with the address that it can be sent to.
pub record SignedPart : Type 0 where
  pub part : UploadPart
  pub presign : Option PresignedRequest

abbrev pub is_completed : UploadStatus → Bool
is_completed UploadStatus.completed = true
is_completed _ = false

abbrev pub is_presigned : UploadMode → Bool
is_presigned UploadMode.presigned = true
is_presigned _ = false

abbrev reopened : UploadStatus → UploadStatus
reopened UploadStatus.expired = UploadStatus.pending
reopened UploadStatus.aborted = UploadStatus.pending
reopened s = s

abbrev or_mode : UploadMode → UploadMode → UploadMode
or_mode UploadMode.unspecified d = d
or_mode mode d = mode

abbrev pub or_rename : ConflictPolicy → ConflictPolicy
or_rename ConflictPolicy.unspecified = ConflictPolicy.rename
or_rename policy = policy

-- `strings.ContainsAny(name, "/\\")`.
abbrev pub is_separator : ℕ → Bool
is_separator c = (c == b'/') || (c == 0x5c)

abbrev pub trim_quotes_left : Text → Text
trim_quotes_left [] = []
trim_quotes_left (c ∷ s) = let rest = trim_quotes_left s in if c == b'"' then rest else c ∷ s

-- `strings.Trim(s, "\"")`.
unfoldable pub trim_quotes : Text → Text
trim_quotes s = reverse (trim_quotes_left (reverse (trim_quotes_left s)))

-- An entity tag that the client sent and that of the object differ; one that is missing differs from none.
unfoldable pub etag_differs : FilePlatform → Text → Text → Bool
unfolding trim_quotes
etag_differs files sent stored =
    not (is_empty sent)
    && not (is_empty stored)
    && not (files.equal_fold (trim_quotes sent) (trim_quotes stored))

-- `assertSessionOpen`.
unfoldable pub session_open : Upload → ℕ → Option Error
session_open u now = elim u.status [
  | UploadStatus.aborted ↦ some Error.aborted
  | UploadStatus.completed ↦ some Error.invalid_argument
  | UploadStatus.expired ↦ some Error.upload_expired
  | _ ↦ if ltb u.expires_at now then some Error.upload_expired else none
]

unfoldable pub load_owned_upload : Caller → Uuid → Tx Upload
load_owned_upload c id = do
  guard (not (id == nil_id)) Error.invalid_argument
  upload ← find_upload_by_id id
  guard ((upload.owner_id == c.user_id) || caller_has c perm_storage_manage) Error.permission_denied
  pure upload

abbrev pub sum_sizes : List UploadPart → ℕ
sum_sizes [] = 0
sum_sizes (p ∷ rest) = p.size + sum_sizes rest

abbrev pub is_pending : UploadStatus → Bool
is_pending UploadStatus.pending = true
is_pending _ = false

unfoldable pub progressed : Upload → List UploadPart → Upload
progressed u parts = record u {
  received_bytes = sum_sizes parts;
  status =
      if not (is_empty parts) && is_pending u.status then UploadStatus.in_progress else u.status;
}

unfoldable pub refresh_progress : Upload → Tx Upload
refresh_progress u = do parts ← list_upload_parts u.id 0; update_upload (progressed u parts)

-- What the checks of `InitiateUpload` settle.
pub record UploadPlan : Type 0 where
  pub parent_id : Uuid
  pub name : Text
  pub size : ℕ
  pub mime_type : Text
  pub chunk_size : ℕ
  pub total_parts : ℤ
  pub mode : UploadMode
  pub policy : ConflictPolicy
  pub etag : Text
  pub description : Text
  pub metadata : Option (List (Text × Text))
  pub resume_id : Uuid

unfoldable pub replanned : Upload → UploadPlan → Upload
replanned u p = record u {
  size = p.size;
  chunk_size = p.chunk_size;
  total_parts = p.total_parts;
  mode = p.mode;
}

-- An open session, or one that was closed and may be taken up again.
unfoldable pub resumable : Caller → UploadPlan → ℕ → Db → Option Upload
resumable c p now db = if p.resume_id == nil_id then none else elim (find_upload p.resume_id db) [
  | none ↦ none
  | some u ↦
      if (u.owner_id == c.user_id) && not (is_completed u.status) && ltb now u.expires_at
      then some u
      else none
]

module _ (platform : Platform) where
  -- The new part, and the session with the bytes received so far.
  unfoldable pub record_part : Upload → UploadPart → Tx (UploadPart × Upload)
  record_part u part = do
    saved ← put_upload_part platform part
    updated ← refresh_progress u
    pure (saved, updated)

  module _ (files : FilePlatform) (uc : FileUsecase) where
    -- The checks of `InitiateUpload` before the quota.
    unfoldable pub plan_upload : InitiateUploadInput → Tx UploadPlan
    plan_upload i = do
      let name = trim_space i.name
      guard
          (not (
            is_empty name
            || any is_separator name
            || ltb_ℤ uc.nodes.max_name (pos (byte_len name))))
          Error.invalid_argument
      guard (not (ltb_ℤ i.size (pos 0))) Error.invalid_argument
      let size = pos_part i.size
      guard (not (ltb 0 uc.limit.max_file_size && ltb uc.limit.max_file_size size)) Error.too_large
      let chunk = plan_chunk uc.limit i.chunk_size size
      let total = plan_parts size chunk
      guard (not (ltb_ℤ (pos uc.limit.max_parts) total)) Error.too_large
      pure (record {
        parent_id = i.parent_id;
        name = name;
        size = size;
        mime_type =
            if is_empty i.mime_type then detect_mime_type platform files name else i.mime_type;
        chunk_size = chunk;
        total_parts = total;
        mode = or_mode i.mode uc.limit.default_mode;
        policy = or_rename i.policy;
        etag = i.etag;
        description = i.description;
        metadata = i.metadata;
        resume_id = i.resume_id;
      })

    unfoldable pub new_upload : Caller → UploadPlan → Uuid → ℕ → Upload
    new_upload c p id now = record {
      id = id;
      parent_id = p.parent_id;
      name = p.name;
      owner_id = c.user_id;
      size = p.size;
      mime_type = p.mime_type;
      chunk_size = p.chunk_size;
      total_parts = p.total_parts;
      status = UploadStatus.pending;
      mode = p.mode;
      policy = p.policy;
      path = codes "uploads/" ++ platform.uuid_text id;
      etag = p.etag;
      description = p.description;
      metadata = p.metadata;
      received_bytes = 0;
      last_error = [];
      expires_at = now + uc.limit.session_ttl;
    }

    -- An existing session takes over the plan, and is returned as it is in memory.
    unfoldable pub take_over : Upload → Tx (Upload × List UploadPart)
    take_over u = do _ ← update_upload u; parts ← list_upload_parts u.id 0; pure (u, parts)

    unfoldable pub open_upload : Caller → UploadPlan → ℕ → Tx (Upload × List UploadPart)
    open_upload c p now = do
      id ← new_id platform
      saved ← create_upload platform (new_upload c p id now)
      pure (saved, [])

    -- The transaction of `InitiateUpload`.
    unfoldable pub initiate_tx : Caller → UploadPlan → ℕ → Tx (Upload × List UploadPart)
    initiate_tx c p now = do
      _ ← load_writable_parent platform uc.nodes c p.parent_id
      db ← get_db
      elim (resumable c p now db) [
        | some u ↦ take_over (record (replanned u p) { status = reopened u.status })
        | none ↦ elim (find_reusable_upload platform c.user_id p.parent_id p.name now db) [
          | some u ↦ take_over (record (replanned u p) { expires_at = now + uc.limit.session_ttl })
          | none ↦ open_upload c p now
        ]
      ]

    -- `InitiateUpload` up to the addresses of the parts.
    unfoldable pub start_upload : Caller → InitiateUploadInput → ℕ → Tx (Upload × List UploadPart)
    start_upload c i now = do
      guard (is_authenticated c) Error.unauthenticated
      or_error (require c perm_upload)
      plan ← plan_upload i
      check_quota c (pos plan.size)
      with_tx (initiate_tx c plan now)

-- The transaction of `AbortUpload`.
unfoldable pub abort_tx : Upload → Tx (Unit {0})
abort_tx u = do
  _ ← update_upload (record u { status = UploadStatus.aborted })
  delete_upload_parts u.id

unfoldable pub own_uploads :
    Caller → UploadStatus → Uuid → List (ListOption Upload) → Tx (List Upload × ℕ)
own_uploads c status parent_id opts = do
  guard (is_authenticated c) Error.unauthenticated
  let wanted = if upload_status_value status == 0 then none else some status
  uploads ← list_uploads (some c.user_id) wanted opts
  total ← count_uploads (some c.user_id) wanted
  let below = keep (λ u. u.parent_id == parent_id) uploads
  pure (if parent_id == nil_id then uploads else below, total)
