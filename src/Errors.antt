-- ===== src/Errors.antt =====
-- The typed errors of internal/biz/model.go. A repository's own failures (a lost database
-- connection) are no values of the model.

pub data Error : Type 0 where
  not_found invalid_argument unauthenticated permission_denied conflict : Error
  internal unavailable quota_exceeded storage node_locked name_conflict : Error
  cycle_detected upload_incomplete upload_expired too_large unsupported : Error
  resource_exhausted precondition_failed already_exists aborted account_disabled : Error

pub data Result {ℓ} (A : Type ℓ) : Type ℓ where
  ok : A → Result A
  err : Error → Result A
