-- ===== src/Mail/Process.antt =====
-- What sends a mail and settles its row: process-next-mail-delivery.ts and
-- recover-stale-mail-deliveries.ts of src/features/mail/server, and
-- src/server/services/email/send-tracked-mail.ts. What the provider answers is an argument.
use senecial.Base.{ℕ, ◌+◌, String, none, some, List, [], ◌∷◌, leb, if◌then◌else◌}
use senecial.Mail.Policies.{
  MailErrorCode, password_changed, provider_unavailable, max_attempts_reached,
  is_retryable_mail_error, compute_mail_retry_backoff_ms,
}
use senecial.Mail.Repository.{
  MailDelivery, Mails, claim_next_pending_mail_delivery, mark_mail_delivery_sending,
  mark_mail_delivery_sent, mark_mail_delivery_retrying, mark_mail_delivery_failed,
  find_stale_sending_mail_deliveries, reset_mail_delivery_to_pending,
}

-- The provider took the mail, or an error that `classifyMailSendError` has classified. The lookups
-- that fail with INVALID_RECIPIENT are such an error.
pub data SendResult : Type 0 where
  accepted : SendResult
  refused : MailErrorCode → SendResult

pub data Outcome : Type 0 where
  idle : Outcome
  was_sent was_retrying was_failed : String → Outcome

unfoldable pub final_error_code : MailDelivery → MailErrorCode → MailErrorCode
final_error_code mail code =
    if leb mail.max_attempts mail.attempt then max_attempts_reached else code

-- The `catch`: `mail` is the row that the claim returned.
unfoldable pub settle_error :
    String → MailDelivery → MailErrorCode → ℕ → ℕ → Mails → Mails × Outcome
unfolding is_retryable_mail_error mark_mail_delivery_retrying mark_mail_delivery_failed
    final_error_code compute_mail_retry_backoff_ms
settle_error id mail code random now mails =
    if is_retryable_mail_error (some code) mail.attempt mail.max_attempts
    then (
      mark_mail_delivery_retrying id (now + compute_mail_retry_backoff_ms mail.attempt random) code
          mails,
      was_retrying id,
    )
    else (mark_mail_delivery_failed id now (final_error_code mail code) mails, was_failed id)

unfoldable pub send_claimed : String → MailDelivery → SendResult → ℕ → ℕ → Mails → Mails × Outcome
unfolding settle_error mark_mail_delivery_sent mark_mail_delivery_failed
send_claimed id mail result random now mails = elim mail.message_type [
  | password_changed ↦ elim result [
    | accepted ↦ (mark_mail_delivery_sent id now mails, was_sent id)
    | refused code ↦ settle_error id mail code random now mails
  ]
  | _ ↦ (mark_mail_delivery_failed id now provider_unavailable mails, was_failed id)
]

-- The claim at one time, the settlement at another, where no other step comes between. Runs has the claim
-- and the settlement as steps of their own.
unfoldable pub process_next_mail_delivery :
    String → SendResult → ℕ → ℕ → ℕ → Mails → Mails × Outcome
unfolding claim_next_pending_mail_delivery send_claimed
process_next_mail_delivery worker_id result random claimed_at now mails =
    let (mails', claim) = claim_next_pending_mail_delivery worker_id claimed_at mails in
    elim claim [
      | none ↦ (mails', idle)
      | some (id, mail) ↦ send_claimed id mail result random now mails'
    ]

-- The error is thrown on to the caller, which only logs it.
unfoldable pub send_tracked_mail : String → SendResult → ℕ → Mails → Mails
unfolding mark_mail_delivery_sending mark_mail_delivery_sent mark_mail_delivery_failed
send_tracked_mail id result now mails =
    let mails' = mark_mail_delivery_sending id mails in
    elim result [
      | accepted ↦ mark_mail_delivery_sent id now mails'
      | refused code ↦ mark_mail_delivery_failed id now code mails'
    ]

unfoldable pub recover_delivery : ℕ → String × MailDelivery → Mails → Mails
unfolding is_retryable_mail_error reset_mail_delivery_to_pending mark_mail_delivery_failed
recover_delivery now (id, mail) mails =
    if is_retryable_mail_error mail.error_code mail.attempt mail.max_attempts
    then reset_mail_delivery_to_pending id now mails
    else mark_mail_delivery_failed id now max_attempts_reached mails

unfoldable pub recover_deliveries : ℕ → List (String × MailDelivery) → Mails → Mails
unfolding recover_delivery
recover_deliveries now [] mails = mails
recover_deliveries now (one ∷ stale) mails =
    recover_deliveries now stale (recover_delivery now one mails)

unfoldable pub recover_stale_mail_deliveries : ℕ → ℕ → Mails → Mails
unfolding recover_deliveries find_stale_sending_mail_deliveries
recover_stale_mail_deliveries stale_minutes now mails =
    recover_deliveries now (find_stale_sending_mail_deliveries stale_minutes now mails) mails
