-- ===== src/Mfa/Model.antt =====
-- internal/mfa/store.go: the tables of users, second factors and sessions. Times are microseconds; `none` is
-- NULL, or the zero time.
use dwh_v.Common.{ℕ, Bool, String, Option, List}
use dwh_v.Common.Transactions.{Transaction}
use dwh_v.Mfa.Totp.{ℤ, Crypto}

pub data Purpose : Type 0 where
  login enrollment step_up rotation rotate_authorize regenerate : Purpose

-- What a secret is encrypted for (`secretcrypto.Purpose`).
pub data SecretPurpose : Type 0 where
  totp_pending totp_active : SecretPurpose

pub record Challenge : Type 0 where
  pub id : ℕ
  pub token_hash : String
  pub user : ℕ
  pub session : Option ℕ
  pub purpose : Purpose
  pub pending_secret : Option String
  pub remember_me : Bool
  pub next_path : String
  pub failures : ℕ
  pub expires_at : ℕ
  pub consumed_at : Option ℕ
  pub created_at : ℕ

-- A row of `sessions` (`auth.Session`).
pub record Session : Type 0 where
  pub id : ℕ
  pub user : ℕ
  pub impersonated : Option ℕ
  pub token_hash : String
  pub remember_me : Bool
  pub expires_at : ℕ
  pub last_seen_at : ℕ
  pub mfa_verified_at : Option ℕ
  pub created_at : ℕ
  pub updated_at : ℕ

pub record User : Type 0 where
  pub id : ℕ
  pub username : String
  pub password_hash : String
  pub active : Bool
  pub role : ℕ
  pub last_login_at : Option ℕ

-- A role, with the keys of its permissions.
pub record Role : Type 0 where
  pub id : ℕ
  pub slug : String
  pub permissions : List String

pub record Enrolled : Type 0 where
  pub user : ℕ
  pub secret : String
  pub last_counter : ℤ
  pub enrolled_at : ℕ
  pub updated_at : ℕ

pub record RecoveryCode : Type 0 where
  pub user : ℕ
  pub code_hash : String
  pub used_at : Option ℕ
  pub created_at : ℕ

pub data AuditAction : Type 0 where
  mfa_failed mfa_exhausted mfa_enrolled mfa_rotated mfa_recovery_used auth_login : AuditAction
  mfa_step_up mfa_recovery_regenerated mfa_operator_reset mfa_admin_reset : AuditAction

-- `audits` holds the events of `audit.Append` with the user that they name, newest first.
pub record Store : Type 0 where
  pub users : List User
  pub roles : List Role
  pub challenges : List Challenge
  pub next_challenge : ℕ
  pub enrollments : List Enrolled
  pub recovery : List RecoveryCode
  pub sessions : List Session
  pub next_session : ℕ
  pub audits : List (AuditAction × ℕ)

-- What the store is built with, and the functions of libraries that it calls.
pub record Env : Type 0 where
  pub lifetime : ℕ
  pub remember_lifetime : ℕ
  pub idle_timeout : ℕ
  pub crypto : Crypto
  pub sha256 : String → String
  pub zero_hash : String
  pub encrypt : SecretPurpose → ℕ → String → Option String
  pub decrypt : SecretPurpose → ℕ → String → Option String
  pub print_id : ℕ → String
  pub trim_space : String → String
  pub to_upper : String → String
  pub without_dashes : String → String

-- What one operation draws from the random source.
pub record Draws : Type 0 where
  pub challenge_token : String
  pub secret : String
  pub session_token : String
  pub codes : List String

pub data MfaError : Type 0 where
  invalid pending no_rows duplicate_key cipher_failed bad_session : MfaError

pub record Issued : Type 0 where
  pub token : String
  pub challenge : Challenge

pub record Verified : Type 0 where
  pub raw_token : String
  pub session : Option Session
  pub next : String
  pub recovery_codes : List String
  pub pending : Option Issued
  pub logout : Bool

-- What `Verify` returns after a commit: the value, `ErrInvalid` or `ErrExhausted`.
pub data Outcome : Type 0 where
  accepted : Verified → Outcome
  wrong_code : Outcome
  exhausted : Outcome

abbrev pub Tx {ℓ} : Type ℓ → Type ℓ
Tx A = Transaction Store MfaError A
