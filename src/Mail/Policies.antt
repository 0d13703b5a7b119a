-- ===== src/Mail/Policies.antt =====
-- src/domain/email: message-types.ts, token-mail-types.ts, worker-handled-message-types.ts,
-- mail-error-codes.ts and retry-backoff.ts. The column of the message type holds one of the four types.
use senecial.Base.{
  ℕ, ◌+◌, ◌*◌, ◌/◌, ◌^◌, max, Bool, true, false, Option, none, some, ◌==◌, leb, not, if◌then◌else◌,
}

pub data MessageType : Type 0 where
  organization_invitation email_verification password_reset password_changed : MessageType

-- TOKEN_MAIL_MESSAGE_TYPES
abbrev pub is_token_mail : MessageType → Bool
is_token_mail organization_invitation = true
is_token_mail email_verification = true
is_token_mail password_reset = true
is_token_mail password_changed = false

-- WORKER_HANDLED_MESSAGE_TYPES
abbrev pub is_worker_handled : MessageType → Bool
is_worker_handled password_changed = true
is_worker_handled organization_invitation = false
is_worker_handled email_verification = false
is_worker_handled password_reset = false

pub data MailErrorCode : Type 0 where
  provider_timeout provider_rate_limited provider_unavailable invalid_recipient : MailErrorCode
  sender_not_verified provider_auth_failed max_attempts_reached : MailErrorCode
  token_reissue_required : MailErrorCode

abbrev pub is_non_retryable : MailErrorCode → Bool
is_non_retryable invalid_recipient = true
is_non_retryable sender_not_verified = true
is_non_retryable provider_auth_failed = true
is_non_retryable max_attempts_reached = true
is_non_retryable token_reissue_required = true
is_non_retryable provider_timeout = false
is_non_retryable provider_rate_limited = false
is_non_retryable provider_unavailable = false

-- `none` is the text "", which a row without an error is read as.
unfoldable pub is_retryable_mail_error : Option MailErrorCode → ℕ → ℕ → Bool
is_retryable_mail_error code attempt max_attempts =
    if leb max_attempts attempt
    then false
    else elim code [ none ↦ true | some c ↦ not (is_non_retryable c) ]

-- The delay before jitter, in milliseconds.
unfoldable pub base_backoff_ms : ℕ → ℕ
base_backoff_ms attempt =
    if attempt == 1 then 60 * 1000 else if attempt == 2 then 5 * 60 * 1000 else 30 * 60 * 1000

-- `Math.random()` is `random` of these units, below 1. The product with 1 + jitter, which is
-- 4/5 + 2/5 of the random number, is exact here, and `Math.round` rounds halves up.
abbrev pub random_units : ℕ
random_units = 2 ^ 53

unfoldable pub compute_mail_retry_backoff_ms : ℕ → ℕ → ℕ
unfolding base_backoff_ms
compute_mail_retry_backoff_ms attempt random = max 1000 (
    (2 * (base_backoff_ms attempt * (4 * random_units + 2 * random)) + 5 * random_units)
    / (10 * random_units))
