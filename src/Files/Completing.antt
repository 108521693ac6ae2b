-- ===== src/Files/Completing.antt =====
-- `CompleteUpload` of internal/biz/file.go: which sessions it composes an object for, and of what.
use nagisa.Prelude.{
  ℕ, ◌≡◌, refl, Bool, true, false, not, ◌&&◌, ◌||◌, List, Text, map, length, ltb, ◌==◌,
  if◌then◌else◌, arith, inl, inr, Bool-cases,
}
use nagisa.Prelude.Int.{pos_part}
use nagisa.Errors.{Error, Result, ok, err}
use nagisa.Access.{Uuid, Caller}
use nagisa.Store.{Platform, Upload, UploadPart, list_upload_parts}
use nagisa.Files.World.{World, ObjectStore, Io, proceed, check}
use nagisa.Files.Limits.{FilePlatform, FileUsecase, to_int32}
use nagisa.Files.Sessions.{sum_sizes}
use nagisa.Files.Transfer.{eq_ℤ, open_session_of, complete_upload, compose_upload}
use nagisa.Files.Assembly.{in_order, is_whole, assembled-in_order}

-- The parts of a session in the order of their numbers.
abbrev pub ordered : Upload → List UploadPart → List UploadPart
ordered u parts = in_order (pos_part u.total_parts) 1 parts

-- The count of the parts is the one of the session, every number has a part, none but those of the last is
-- too small, and together they have the declared size, unless that is 0.
abbrev pub is_complete : FileUsecase → Upload → List UploadPart → Bool
is_complete uc u parts =
    eq_ℤ (to_int32 (length parts)) u.total_parts
    && (is_whole (pos_part u.total_parts) uc.limit.min_chunk_size u.total_parts 1 parts
        && ((u.size == 0) || (sum_sizes (ordered u parts) == u.size)))

size_test :
    (size total : ℕ) → not (ltb 0 size && not (total == size)) ≡ ((size == 0) || (total == size))
size_test size total = ground arith

-- The last test of `CompleteUpload`, and what follows it.
sized :
    {S : Type 0} {A : Type 0} (u : Upload) (total : ℕ) (next : Io S A) (w : World S)
    → proceed
        (λ _. next)
        (check (not (ltb 0 u.size && not (total == u.size))) Error.upload_incomplete w)
      ≡ (if (u.size == 0) || (total == u.size) then next w else (err Error.upload_incomplete, w))
sized {S} {A} u total next w =
    go (not (ltb 0 u.size && not (total == u.size))) ((u.size == 0) || (total == u.size))
      (size_test u.size total)
  where
    go :
        (test sound : Bool)
        → test ≡ sound
        → ◌≡◌ {A = Result A × World S}
            (proceed (λ _. next) (check test Error.upload_incomplete w))
            (if sound then next w else (err Error.upload_incomplete, w))
    go true true e = refl
    go false false e = refl
    go true false e = cc
    go false true e = cc

module _ {S : Type 0} (platform : Platform) (files : FilePlatform) (store : ObjectStore S)
    (uc : FileUsecase) where
  -- Once the caller's session `u` is opened and its parts are listed, `CompleteUpload` goes on to compose the
  -- object exactly if the count of the parts, as an int32, is the number of parts of the session, every
  -- number from 1 to the last has a part, no part but those of the last number is below the least size, and
  -- the sizes add up to the declared size, if that is positive. The object is composed of the parts in the
  -- order of their numbers, and has the sum of their sizes. Otherwise the upload is reported as incomplete,
  -- and nothing is changed.
  pub complete_upload-in_order :
      (c : Caller) (id : Uuid) (checksum comment : Text) (now : ℕ) (u : Upload)
      (parts : List UploadPart) (w : World S)
      → open_session_of platform files store uc c id now w ≡ (ok u, w)
      → list_upload_parts u.id 0 w.db ≡ (ok parts, w.db)
      → complete_upload platform files store uc c id checksum comment now w ≡ (
          if is_complete uc u parts
          then compose_upload platform files store uc c u
              (sum_sizes (ordered u parts))
              (map (λ p. p.storage_key) (ordered u parts))
              checksum
              comment
              w
          else (err Error.upload_incomplete, w))
  unfolding complete_upload
  complete_upload-in_order c id checksum comment now u parts w opened listed =
      let least = uc.limit.min_chunk_size in
      rw (opened, listed)
        (elim (Bool-cases (eq_ℤ (to_int32 (length parts)) u.total_parts)) [
          | inl counted ↦
              rw (counted, assembled-in_order least u.total_parts parts)
                (elim (Bool-cases (is_whole (pos_part u.total_parts) least u.total_parts 1 parts)) [
                  | inl whole ↦ rw whole (sized u (sum_sizes (ordered u parts)) _ w)
                  | inr missing ↦ rw missing refl
                ])
          | inr other ↦ rw other refl
        ])
