-- ===== src/Perm/Lifecycles.antt =====
-- internal/biz/model.go: the life cycles of uploads and of share links.
use nagisa.Prelude.{Bool, true, false}

pub data UploadStatus : Type 0 where
  unspecified pending in_progress completed aborted expired : UploadStatus

pub data UploadMode : Type 0 where
  unspecified presigned proxy : UploadMode

pub data ShareStatus : Type 0 where
  unspecified active expired revoked : ShareStatus

abbrev pub is_open_upload : UploadStatus → Bool
is_open_upload UploadStatus.pending = true
is_open_upload UploadStatus.in_progress = true
is_open_upload _ = false

abbrev pub is_active_share : ShareStatus → Bool
is_active_share ShareStatus.active = true
is_active_share _ = false
