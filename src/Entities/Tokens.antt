-- ===== src/Entities/Tokens.antt =====
-- src/auth/entities/refresh-token.entity.ts, less the columns `userAgent` and `ipAddress`, which are
-- kept for the audit trail and never read. Token hashes are numbers that are only compared.
use arkride_backend.Common.{ℕ, Option}
use arkride_backend.Entities.Accounts.{Role}

-- `revokedReason`
pub data RevokedReason : Type 0 where
  rotated logout reuse_detected subject_unavailable subject_revoked : RevokedReason

pub record RefreshToken : Type 0 where
  pub id : ℕ
  pub token_hash : ℕ
  pub family_id : ℕ
  pub subject_id : ℕ
  pub subject_type : Role
  pub expires_at : ℕ
  pub revoked_at : Option ℕ
  pub revoked_reason : Option RevokedReason
