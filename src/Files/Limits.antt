-- ===== src/Files/Limits.antt =====
-- internal/biz/file.go: the limits of uploads, the plan of the parts, and the names of objects. A limit
-- that is not positive stands for none, as 0.
use nagisa.Prelude.{
  ℕ, ◌+◌, ◌-◌, ◌*◌, ◌/◌, ◌%◌, ◌^◌, Bool, not, ◌&&◌, ◌||◌, List, [], ◌∷◌, ◌++◌, Text, codes, text_eq,
  has_prefix, drop, reverse, is_empty, byte_len, decimal, ltb, ◌==◌, if◌then◌else◌, any,
}
use nagisa.Prelude.Int.{ℤ, pos, negsuc, pos_part, leb_ℤ, ◌-ℤ◌}
use nagisa.Perm.{UploadMode}
use nagisa.Access.{Uuid}
use nagisa.Store.{Platform, Upload, ext_loop}
use nagisa.Tree.{NodeUsecase}

pub record UploadLimits : Type 0 where
  pub default_chunk_size : ℕ
  pub min_chunk_size : ℕ
  pub max_chunk_size : ℕ
  pub max_file_size : ℕ
  pub max_inline_size : ℕ
  pub max_parts : ℕ
  pub session_ttl : ℕ
  pub presign_ttl : ℕ
  pub default_mode : UploadMode
  pub verify_checksum : Bool
  pub keep_versions : Bool
  pub max_versions : ℕ

-- `strings.EqualFold`, and `mime.TypeByExtension`, which gives an empty text for an unknown one.
pub record FilePlatform : Type 0 where
  pub equal_fold : Text → Text → Bool
  pub type_by_extension : Text → Text

pub record FileUsecase : Type 0 where
  pub nodes : NodeUsecase
  pub limit : UploadLimits

abbrev or_limit : ℕ → ℕ → ℕ
or_limit d n = if n == 0 then d else n

abbrev or_presigned : UploadMode → UploadMode
or_presigned UploadMode.unspecified = UploadMode.presigned
or_presigned mode = mode

unfoldable pub new_limits : UploadLimits → UploadLimits
new_limits limit = record limit {
  default_chunk_size = or_limit (8 * 2 ^ 20) limit.default_chunk_size;
  min_chunk_size = or_limit (5 * 2 ^ 20) limit.min_chunk_size;
  max_chunk_size = or_limit (5 * 2 ^ 30) limit.max_chunk_size;
  max_parts = or_limit 10000 limit.max_parts;
  max_inline_size = or_limit (4 * 2 ^ 20) limit.max_inline_size;
  session_ttl = or_limit (86_400 * 10 ^ 9) limit.session_ttl;
  presign_ttl = or_limit (1800 * 10 ^ 9) limit.presign_ttl;
  default_mode = or_presigned limit.default_mode;
}

-- 256 KiB.
abbrev pub align : ℕ
align = 256 * 2 ^ 10

abbrev pub clamped_chunk : ℕ → UploadLimits → ℕ
clamped_chunk chunk limit =
    let low = if ltb chunk limit.min_chunk_size then limit.min_chunk_size else chunk in
    if ltb limit.max_chunk_size low then limit.max_chunk_size else low

unfoldable pub normalize_chunk : ℕ → UploadLimits → ℕ
normalize_chunk chunk limit =
    let clamped = clamped_chunk chunk limit in
    let rem = clamped % align in if rem == 0 then clamped else clamped + (align - rem)

-- The conversion to int32 wraps around.
unfoldable pub to_int32 : ℕ → ℤ
to_int32 n = let low = n % 2 ^ 32 in if ltb low (2 ^ 31) then pos low else negsuc (2 ^ 32 - 1 - low)

-- The part size and the number of parts of a new session.
unfoldable pub plan_chunk : UploadLimits → ℤ → ℕ → ℕ
unfolding normalize_chunk
plan_chunk limit asked size =
    let chunk = if leb_ℤ asked (pos 0) then limit.default_chunk_size else pos_part asked in
    if size == 0 then limit.min_chunk_size else normalize_chunk chunk limit

unfoldable pub plan_parts : ℕ → ℕ → ℤ
unfolding to_int32
plan_parts size chunk = if size == 0 then pos 1 else to_int32 ((size + chunk - 1) / chunk)

-- `itoa` of a part number.
unfoldable pub part_key : Upload → ℕ → Text
part_key u number = u.path ++ (codes "/parts/" ++ decimal number)

-- The bound on the size of a part; the subtraction is that of int64.
unfoldable pub max_part_size : Upload → ℕ → ℤ
unfolding ◌-ℤ◌
max_part_size u number =
    if (leb_ℤ u.total_parts (pos number) && leb_ℤ (pos number) u.total_parts) && ltb 0 u.size
    then pos u.size -ℤ pos ((pos_part u.total_parts - 1) * u.chunk_size)
    else pos u.chunk_size

abbrev pub mime_prefixes : List Text
mime_prefixes = codes "image/" ∷ codes "video/" ∷ codes "audio/" ∷ codes "text/" ∷ []

unfoldable pub is_previewable : Text → Bool
unfolding has_prefix text_eq
is_previewable mime_type =
    not (is_empty mime_type)
    && (any (has_prefix mime_type) mime_prefixes || text_eq mime_type (codes "application/pdf"))

unfoldable pub presign_ttl : UploadLimits → ℤ → ℕ
presign_ttl limit requested =
    if leb_ℤ requested (pos 0)
    then limit.presign_ttl
    else let ttl = pos_part requested * 10 ^ 9 in
      if ltb (limit.presign_ttl * 4) ttl then limit.presign_ttl * 4 else ttl

module _ (platform : Platform) where
  unfoldable pub object_key : Uuid → Uuid → Text
  object_key owner node =
      codes "files/" ++ (platform.uuid_text owner ++ (codes "/" ++ platform.uuid_text node))

  -- `filepath.Ext`.
  abbrev pub name_ext : Text → Text
  name_ext name = ext_loop platform (reverse name) []

  abbrev pub trim_dot : Text → Text
  trim_dot s = if has_prefix s (codes ".") then drop 1 s else s

  unfoldable pub extension : Text → Text
  unfolding ext_loop has_prefix byte_len
  extension name =
      let ext = trim_dot (platform.to_lower (name_ext name)) in
      if ltb 32 (byte_len ext) then [] else ext

  unfoldable pub detect_mime_type : FilePlatform → Text → Text
  unfolding ext_loop
  detect_mime_type files name =
      let found = files.type_by_extension (name_ext name) in
      if is_empty (name_ext name) || is_empty found then codes "application/octet-stream" else found
