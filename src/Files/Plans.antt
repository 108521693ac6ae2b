-- ===== src/Files/Plans.antt =====
-- internal/biz/file.go: the part size and the number of parts that `InitiateUpload` settles on.
use Prim.Native.Nat.{max}
use nagisa.Prelude.{
  ℕ, ◌+◌, ◌*◌, ◌^◌, ◌<◌, ◌≤◌, ◌≡◌, Bool, true, not, ◌||◌, any, is_empty, trim_space, byte_len,
}
use nagisa.Prelude.Int.{ℤ, pos, pos_part, ltb_ℤ}
use nagisa.Files.Limits.{UploadLimits, FileUsecase, align, plan_parts}
use nagisa.Files.Sessions.{InitiateUploadInput, is_separator}

-- The number of the parts fits, they cover the size, and one part less would not.
abbrev pub IsCovering : ℕ → ℕ → ℤ → Type 0
IsCovering size chunk total =
    (ltb_ℤ (pos 0) total ≡ true)
    × (size ≤ chunk * pos_part total)
    × (chunk * pos_part total < max 1 size + chunk)

module _ (limit : UploadLimits) (least : 0 < limit.min_chunk_size)
    (ordered : limit.min_chunk_size ≤ limit.max_chunk_size) (asked : ℤ) (size : ℕ)
    (bounded : size ≤ 2 ^ 48) where
  abbrev pub IsWithinChunks : ℕ → Type 0
  IsWithinChunks chunk = (limit.min_chunk_size ≤ chunk) × (chunk < limit.max_chunk_size + align)

  abbrev IsPlan : ℕ → Type 0
  IsPlan chunk = IsWithinChunks chunk × IsCovering size chunk (plan_parts size chunk)

abbrev name_fits : FileUsecase → InitiateUploadInput → Bool
name_fits uc i =
    let name = trim_space i.name in
    not (is_empty name || any is_separator name || ltb_ℤ uc.nodes.max_name (pos (byte_len name)))
