-- ===== src/Mail/Turns.antt =====
-- A turn of the worker, and the time to the next attempt.
use mathlib.Core.Bool.{false≢true}
use mathlib.Core.Path.{subst}
use senecial.Base.{
  ℕ, ◌+◌, ◌*◌, ◌≤◌, ◌<◌, String, true, false, ◌≡◌, ◌≢◌, ◌⊎◌, refl, sym, ◌∙◌, none, some, get, IsMap,
  leb, if◌then◌else◌, arith, Bool-cases, inl, inr,
}
use senecial.Base.Tables.{Every, update_row, get-update_row_here, get-update_row_other}
use senecial.Mail.{
  MessageType, organization_invitation, email_verification, password_reset, password_changed,
  MailErrorCode, MailDeliveryStatus, pending, sending, sent, failed, cancelled, MailDelivery, Mails,
  is_worker_handled, is_pending_status, max_attempts_reached, is_claimable, claimed, as_sent,
  as_retrying, as_failed, random_units, base_backoff_ms, compute_mail_retry_backoff_ms,
  is_non_retryable, is_retryable_mail_error, mark_mail_delivery_sent, mark_mail_delivery_retrying,
  mark_mail_delivery_failed,
}
use senecial.Mail.Process.{
  SendResult, accepted, refused, Outcome, idle, was_sent, was_retrying, was_failed,
  final_error_code, settle_error, send_claimed, process_next_mail_delivery,
}
use senecial.Mail.Runs.{process-cases}

-- The delay lies within a fifth of the base, whatever the random number, and a later attempt up to the
-- third waits longer than an earlier one, whatever the two random numbers.
compute_mail_retry_backoff_ms-bounds :
    (attempt random later later_random : ℕ)
    → random < random_units
    → later_random < random_units
    → let wait = compute_mail_retry_backoff_ms attempt random in
      (4 * base_backoff_ms attempt ≤ 5 * wait)
      × (5 * wait ≤ 6 * base_backoff_ms attempt)
      × (0 < attempt
          → attempt < later
          → attempt < 3
          → wait < compute_mail_retry_backoff_ms later later_random)
unfolding compute_mail_retry_backoff_ms base_backoff_ms
compute_mail_retry_backoff_ms-bounds attempt random later later_random h h' = ground arith

-- How the provider's answer settles a mail in the attempt with this number: its row and the outcome.
abbrev pub IsSettled : String → ℕ → ℕ → SendResult → ℕ → ℕ → MailDelivery → Outcome → Type 0
IsSettled id attempt max_attempts result random now row outcome =
    (row.attempt ≡ attempt)
    × (row.locked_at ≡ none)
    × (row.locked_by ≡ none)
    × (((result ≡ accepted)
          × (outcome ≡ was_sent id)
          × (row.status ≡ sent)
          × (row.sent_at ≡ some now))
        ⊎ (((code : MailErrorCode) × (result ≡ refused code)
              × (outcome ≡ was_retrying id)
              × (attempt < max_attempts)
              × (is_non_retryable code ≡ false)
              × (row.status ≡ pending)
              × (row.scheduled_for ≡ now + compute_mail_retry_backoff_ms attempt random)
              × (row.error_code ≡ some code))
            ⊎ ((code : MailErrorCode) × (result ≡ refused code)
                × (outcome ≡ was_failed id)
                × ((max_attempts ≤ attempt) ⊎ (is_non_retryable code ≡ true))
                × (row.status ≡ failed)
                × (row.failed_at ≡ some now)
                × (row.error_code
                    ≡ some (if leb max_attempts attempt then max_attempts_reached else code)))))

-- The worker may send the mail by now.
abbrev pub IsDue : ℕ → MailDelivery → Type 0
IsDue now mail =
    (mail.status ≡ pending) × (mail.message_type ≡ password_changed) × (mail.scheduled_for ≤ now)

abbrev pub IsTurn : String → SendResult → ℕ → ℕ → ℕ → Mails → Mails × Outcome → Type 0
IsTurn worker_id result random claimed_at now mails (after, outcome) =
    ((outcome ≡ idle) × (after ≡ mails) × Every (λ mail. IsDue claimed_at mail → ⊥) mails)
    ⊎ ((id : String) × (mail : MailDelivery) × (row : MailDelivery) × (get id mails ≡ some mail)
        × IsDue claimed_at mail
        × Every (λ other. IsDue claimed_at other → mail.scheduled_for ≤ other.scheduled_for) mails
        × (get id after ≡ some row)
        × IsSettled id (mail.attempt + 1) mail.max_attempts result random now row outcome
        × ((other : String) → id ≢ other → get other after ≡ get other mails))

worker-password_changed : (t : MessageType) → is_worker_handled t ≡ true → t ≡ password_changed
worker-password_changed password_changed h = refl
worker-password_changed organization_invitation h = absurd (false≢true h)
worker-password_changed email_verification h = absurd (false≢true h)
worker-password_changed password_reset h = absurd (false≢true h)

retryable-reasons :
    (code : MailErrorCode) (attempt max_attempts : ℕ)
    → is_retryable_mail_error (some code) attempt max_attempts ≡ true
    → (attempt < max_attempts) × (is_non_retryable code ≡ false)
unfolding is_retryable_mail_error
retryable-reasons code attempt max_attempts h = ground (arith, h)

final-reasons :
    (code : MailErrorCode) (attempt max_attempts : ℕ)
    → is_retryable_mail_error (some code) attempt max_attempts ≡ false
    → (max_attempts ≤ attempt) ⊎ (is_non_retryable code ≡ true)
unfolding is_retryable_mail_error
final-reasons code attempt max_attempts h = elim (Bool-cases (leb max_attempts attempt)) [
  | inl over ↦ inl (ground (arith, over))
  | inr below ↦ inr (ground (arith, rw below at h))
]

-- What a claimed mail's row becomes.
abbrev SettledIn : String → MailDelivery → SendResult → ℕ → ℕ → Mails → Mails × Outcome → Type 0
SettledIn id mail result random now mails (after, outcome) =
    (row : MailDelivery) × (get id after ≡ some row)
    × IsSettled id mail.attempt mail.max_attempts result random now row outcome
    × ((other : String) → id ≢ other → get other after ≡ get other mails)

send_claimed-accepted :
    (id : String) (mail : MailDelivery) (random now : ℕ) (mails : Mails)
    → is_worker_handled mail.message_type ≡ true
    → send_claimed id mail accepted random now mails
      ≡ (update_row id (as_sent now) mails, was_sent id)
unfolding send_claimed mark_mail_delivery_sent
send_claimed-accepted id mail random now mails works =
    rw (worker-password_changed mail.message_type works, send_claimed) refl

send_claimed-refused :
    (id : String) (mail : MailDelivery) (code : MailErrorCode) (random now : ℕ) (mails : Mails)
    → is_worker_handled mail.message_type ≡ true
    → send_claimed id mail (refused code) random now mails
      ≡ settle_error id mail code random now mails
unfolding send_claimed
send_claimed-refused id mail code random now mails works =
    rw (worker-password_changed mail.message_type works, send_claimed) refl

settle_error-Settled :
    (id : String) (mail : MailDelivery) (code : MailErrorCode) (random now : ℕ) (mails : Mails)
    → get id mails ≡ some mail
    → SettledIn id mail (refused code) random now mails (settle_error id mail code random now mails)
unfolding settle_error mark_mail_delivery_retrying mark_mail_delivery_failed final_error_code
settle_error-Settled id mail code random now mails there =
    elim (Bool-cases (is_retryable_mail_error (some code) mail.attempt mail.max_attempts)) [
      | inl again ↦
          let at = now + compute_mail_retry_backoff_ms mail.attempt random in
          let (left, transient) = retryable-reasons code mail.attempt mail.max_attempts again in
          rw (again, settle_error)
            (
              as_retrying at code mail,
              get-update_row_here id (as_retrying at code) mails mail there,
              (refl, refl, refl, inr (inl (code, refl, refl, left, transient, refl, refl, refl))),
              λ other ne. get-update_row_other id other (as_retrying at code) mails ne,
            )
      | inr over ↦
          let final = final_error_code mail code in
          rw (over, settle_error)
            (
              as_failed now final mail,
              get-update_row_here id (as_failed now final) mails mail there,
              (
                refl,
                refl,
                refl,
                inr (
                    inr (
                      code,
                      refl,
                      refl,
                      final-reasons code mail.attempt mail.max_attempts over,
                      refl,
                      refl,
                      refl,
                    )),
              ),
              λ other ne. get-update_row_other id other (as_failed now final) mails ne,
            )
    ]

send_claimed-Settled :
    (id : String) (mail : MailDelivery) (result : SendResult) (random now : ℕ) (mails : Mails)
    → is_worker_handled mail.message_type ≡ true
    → get id mails ≡ some mail
    → SettledIn id mail result random now mails (send_claimed id mail result random now mails)
send_claimed-Settled id mail accepted random now mails works there =
    subst (SettledIn id mail accepted random now mails)
      (sym (send_claimed-accepted id mail random now mails works))
      (
        as_sent now mail,
        get-update_row_here id (as_sent now) mails mail there,
        (refl, refl, refl, inl (refl, refl, refl, refl)),
        λ other ne. get-update_row_other id other (as_sent now) mails ne,
      )
send_claimed-Settled id mail (refused code) random now mails works there =
    subst (SettledIn id mail (refused code) random now mails)
      (sym (send_claimed-refused id mail code random now mails works))
      (settle_error-Settled id mail code random now mails there)

pending-status :
    (mail : MailDelivery) → is_pending_status mail.status ≡ true → mail.status ≡ pending
pending-status mail = go mail.status
  where
    go : (s : MailDeliveryStatus) → is_pending_status s ≡ true → s ≡ pending
    go pending h = refl
    go sending h = absurd (false≢true h)
    go sent h = absurd (false≢true h)
    go failed h = absurd (false≢true h)
    go cancelled h = absurd (false≢true h)

claimable-IsDue : (now : ℕ) (mail : MailDelivery) → is_claimable now mail ≡ true → IsDue now mail
claimable-IsDue now mail h = (
  pending-status mail (ground (arith, h)),
  worker-password_changed mail.message_type (ground (arith, h)),
  ground (arith, h),
)

claimable_of_IsDue : (now : ℕ) (mail : MailDelivery) → IsDue now mail → is_claimable now mail ≡ true
claimable_of_IsDue now mail (waits, type, at) = rw (waits, type) (ground (arith, at))

-- In a table with one row for an id, a worker's turn does nothing if no mail of the worker is due, that
-- is, pending and scheduled for now or earlier. Else it claims one that none was due before, which counts
-- one more attempt: it is SENT where the provider accepts it; where the provider refuses it for a reason
-- that may pass and attempts are left, it is PENDING again and scheduled for the end of the backoff; and
-- otherwise it is FAILED with the code. Its lock is gone, and no other mail changes.
pub process_next_mail_delivery-IsTurn :
    (worker_id : String) (result : SendResult) (random claimed_at now : ℕ) (mails : Mails)
    → IsMap mails
    → IsTurn worker_id result random claimed_at now mails
        (process_next_mail_delivery worker_id result random claimed_at now mails)
process_next_mail_delivery-IsTurn worker_id result random claimed_at now mails h =
    process-cases (IsTurn worker_id result random claimed_at now mails) worker_id result random
      claimed_at now mails h
      (λ e. inl (
        refl,
        refl,
        λ id mail there due.
            false≢true (sym (e id mail there) ∙ claimable_of_IsDue claimed_at mail due),
      ))
      (λ id mail there claimable first.
        let change = claimed worker_id claimed_at in
        let after = update_row id change mails in
        let (row, found, settled, others) =
          send_claimed-Settled id (change mail) result random now after (ground (arith, claimable))
            (get-update_row_here id change mails mail there) in
        inr (
          id,
          mail,
          row,
          there,
          claimable-IsDue claimed_at mail claimable,
          λ key other e due. first key other e (claimable_of_IsDue claimed_at other due),
          found,
          settled,
          λ other ne. others other ne ∙ get-update_row_other id other change mails ne,
        ))
