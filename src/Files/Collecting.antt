-- ===== src/Files/Collecting.antt =====
-- internal/biz/file.go: what `CompleteUpload` computes of the recorded parts and of a checksum.
use nagisa.Prelude.{
  ℕ, zero, suc, ◌+◌, Bool, true, false, not, ◌&&◌, Option, none, some, List, [], ◌∷◌, ◌++◌, Text,
  codes, is_empty, has_prefix, drop, ltb, ◌==◌, if◌then◌else◌,
}
use nagisa.Prelude.Int.{ℤ, pos, pos_part, ltb_ℤ}
use nagisa.Store.{UploadPart}
use nagisa.Files.Limits.{FilePlatform}

-- The parts of a number `i` that `CompleteUpload` runs over: the running total and the keys, unless one
-- that is not the last is too small.
unfoldable pub take_parts :
    ℕ → ℤ → ℕ → List UploadPart → Bool → ℕ → List Text → Option (Bool × ℕ × List Text)
take_parts least last i [] found total keys = some (found, total, keys)
take_parts least last i (p ∷ rest) found total keys =
    if not (p.part_number == i)
    then take_parts least last i rest found total keys
    else if ltb_ℤ (pos i) last && ltb p.size least
    then none
    else take_parts least last i rest true (total + p.size) (keys ++ p.storage_key ∷ [])

-- The loop of `CompleteUpload` over the numbers from `i`, with the rounds that are left.
unfoldable pub assemble : ℕ → ℕ → ℤ → ℕ → List UploadPart → ℕ → List Text → Option (ℕ × List Text)
assemble zero least last i parts total keys = some (total, keys)
assemble (suc rounds) least last i parts total keys =
    elim (take_parts least last i parts false total keys) [
      | none ↦ none
      | some (found, total', keys') ↦
          if found then assemble rounds least last (i + 1) parts total' keys' else none
    ]

unfoldable pub assembled : ℕ → ℤ → List UploadPart → Option (ℕ × List Text)
assembled least last parts = assemble (pos_part last) least last 1 parts 0 []

abbrev pub sha256_prefix : Text
sha256_prefix = codes "sha256:"

abbrev pub trim_sha256 : Text → Text
trim_sha256 s = if has_prefix s sha256_prefix then drop 7 s else s

unfoldable pub checksum_differs : FilePlatform → Bool → Text → Text → Bool
checksum_differs files verify checksum etag =
    verify
    && not (is_empty checksum)
    && not (is_empty etag)
    && has_prefix checksum sha256_prefix
    && not (files.equal_fold (trim_sha256 checksum) (trim_sha256 etag))
