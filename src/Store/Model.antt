-- ===== src/Store/Model.antt =====
-- The rows of the tables that the tree and the account usecases touch, and the code that is not the
-- program's own: how a uuid and a lower-case text are written, and the identifiers that are minted.
use nagisa.Prelude.{ℕ, ◌<◌, ◌≡◌, Bool, Option, List, Text, Text, length}
use nagisa.Prelude.Int.{ℤ}
use nagisa.Perm.{PermMask, Role, UserStatus, UploadStatus, UploadMode, ShareStatus, ConflictPolicy}
use nagisa.Access.{Uuid, Node, AclEntry}

-- `uuid.UUID.String`, `strings.ToLower`, and the identifiers of `uuid.NewV7` in the order in which
-- they are minted.
pub record Platform : Type 0 where
  pub uuid_text : Uuid → Text
  pub to_lower : Text → Text
  pub minted : ℕ → Uuid

-- What their documentation promises: a uuid is written by 36 characters that identify it, and the
-- minted identifiers are not nil and grow.
pub record IsStandard (p : Platform) : Type 0 where
  pub text_injective : (a b : Uuid) → p.uuid_text a ≡ p.uuid_text b → a ≡ b
  pub text_length : (a : Uuid) → length (p.uuid_text a) ≡ 36
  pub minted_pos : (n : ℕ) → 0 < p.minted n
  pub minted_grows : (m n : ℕ) → m < n → p.minted m < p.minted n

-- internal/biz/user.go, `User`. The counters are clamped at 0 by every write.
pub record User : Type 0 where
  pub id : Uuid
  pub username : Text
  pub nickname : Text
  pub email : Text
  pub avatar_url : Text
  pub password_hash : Text
  pub role : Role
  pub rank : ℤ
  pub permissions : PermMask
  pub status : UserStatus
  pub quota_bytes : ℤ
  pub used_bytes : ℕ
  pub file_count : ℕ
  pub folder_count : ℕ
  pub remark : Text
  pub must_change_password : Bool
  pub last_login_at : Option ℕ
  pub created_by : Uuid
  pub created_at : ℕ
  pub updated_at : ℕ
  pub locked : Bool

-- internal/biz/file.go: a retained revision, a row of the deletion queue, an upload session and a part
-- of it. `node_id` of a session is nil: no code sets it.
pub record NodeVersion : Type 0 where
  pub id : Uuid
  pub node_id : Uuid
  pub version : ℕ
  pub storage_key : Text
  pub size : ℕ
  pub mime_type : Text
  pub etag : Text
  pub comment : Text
  pub created_by : Uuid

pub record PendingDeletion : Type 0 where
  pub storage_key : Text
  pub reason : Text

pub record Upload : Type 0 where
  pub id : Uuid
  pub parent_id : Uuid
  pub name : Text
  pub owner_id : Uuid
  pub size : ℕ
  pub mime_type : Text
  pub chunk_size : ℕ
  pub total_parts : ℤ
  pub status : UploadStatus
  pub mode : UploadMode
  pub policy : ConflictPolicy
  pub path : Text
  pub etag : Text
  pub description : Text
  pub metadata : Option (List (Text × Text))
  pub received_bytes : ℕ
  pub last_error : Text
  pub expires_at : ℕ

pub record UploadPart : Type 0 where
  pub id : Uuid
  pub upload_id : Uuid
  pub part_number : ℕ
  pub size : ℕ
  pub etag : Text
  pub storage_key : Text

-- internal/biz/user.go, `Session`.
pub record Session : Type 0 where
  pub id : Uuid
  pub user_id : Uuid
  pub token_hash : Text
  pub ip : Text
  pub user_agent : Text
  pub expires_at : ℕ
  pub revoked_at : Option ℕ
  pub last_used_at : Option ℕ

-- internal/biz/share.go, `Share`, without the instants that the database sets.
pub record Share : Type 0 where
  pub id : Uuid
  pub token : Text
  pub node_id : Uuid
  pub owner_id : Uuid
  pub name : Text
  pub description : Text
  pub permissions : PermMask
  pub password_hash : Text
  pub password_hint : Text
  pub expires_at : Option ℕ
  pub max_downloads : ℤ
  pub download_count : ℕ
  pub view_count : ℕ
  pub status : ShareStatus
  pub created_by : Uuid

-- `nodes` stands in the order of the primary key; `next` counts the identifiers minted so far.
pub record Db : Type 0 where
  pub nodes : List Node
  pub acls : List AclEntry
  pub users : List User
  pub versions : List NodeVersion
  pub pending : List PendingDeletion
  pub sessions : List Session
  pub shares : List Share
  pub uploads : List Upload
  pub parts : List UploadPart
  pub next : ℕ
