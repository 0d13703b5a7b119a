-- ===== src/Mail/Runs.antt =====
-- Any sequence of the operations on deliveries. A worker's turn is two of them, its claim and the write
-- that settles the claimed mail, and others can come between; of a recovery, each write is one too.
use senecial.Base.{
  ℕ, ◌+◌, ◌≤◌, String, true, false, ◌≡◌, Option, none, some, List, [], ◌∷◌, get, IsMap, Bool-cases,
  Option-cases, inl, inr, if◌then◌else◌,
}
use senecial.Base.Tables.{Every, update_row, first_by, first_by-IsFirst}
use senecial.Mail.{
  MessageType, organization_invitation, email_verification, password_reset, password_changed,
  MailErrorCode, MailDelivery, Mails, is_token_mail, is_claimable, claimed, sending,
  claim_next_pending_mail_delivery, as_sent, as_retrying, as_failed, EnqueuePendingMailDeliveryData,
  enqueue_pending_mail_delivery, mark_mail_delivery_sent, mark_mail_delivery_failed,
  mark_mail_delivery_retrying, is_retryable_mail_error, mark_mail_delivery_cancelled_if_pending,
  compute_mail_retry_backoff_ms, provider_unavailable,
}
use senecial.Mail.Process.{
  SendResult, accepted, refused, Outcome, idle, was_sent, was_retrying, was_failed,
  final_error_code, settle_error, send_claimed, process_next_mail_delivery, send_tracked_mail,
  recover_delivery, recover_stale_mail_deliveries,
}

pub data Operation : Type 0 where
  enqueue : String → EnqueuePendingMailDeliveryData → ℕ → Operation
  -- the claim of a worker
  claim : String → ℕ → Operation
  -- the end of a worker's turn, at whatever time, with the row that its claim returned
  settle : String → MailDelivery → SendResult → ℕ → ℕ → Operation
  -- an inline sender, which may have slept since its row was made
  send : String → SendResult → ℕ → Operation
  recover : ℕ → ℕ → Operation
  -- one write of a recovery, at whatever time, with the row that it has read
  recover_one : ℕ → String → MailDelivery → Operation
  cancel : String → ℕ → MailErrorCode → Operation

-- The callers of `sendTrackedMail` give it the row of a mail with a token.
unfoldable pub send_if_token : String → SendResult → ℕ → Mails → Mails
unfolding get send_tracked_mail
send_if_token id result now mails = elim (get id mails) [
  | none ↦ mails
  | some mail ↦
      if is_token_mail mail.message_type then send_tracked_mail id result now mails else mails
]

-- The id of the mail that a claim took.
abbrev pub claimed_id : Option (String × MailDelivery) → Option String
claimed_id none = none
claimed_id (some (id, mail)) = some id

-- The table after an operation, and the mail that it claimed.
unfoldable pub run : Operation → Mails → Mails × Option String
unfolding enqueue_pending_mail_delivery claim_next_pending_mail_delivery send_claimed send_if_token
    recover_stale_mail_deliveries recover_delivery mark_mail_delivery_cancelled_if_pending
run (enqueue id fields now) mails = ((enqueue_pending_mail_delivery id fields now mails).0, none)
run (claim worker_id now) mails =
    let (mails', answer) = claim_next_pending_mail_delivery worker_id now mails in
    (mails', claimed_id answer)
run (settle id mail result random now) mails =
    ((send_claimed id mail result random now mails).0, none)
run (send id result now) mails = (send_if_token id result now mails, none)
run (recover stale_minutes now) mails =
    (recover_stale_mail_deliveries stale_minutes now mails, none)
run (recover_one now id mail) mails = (recover_delivery now (id, mail) mails, none)
run (cancel id now code) mails =
    ((mark_mail_delivery_cancelled_if_pending id now code mails).0, none)

-- The table after a sequence, and what each step claimed.
unfoldable pub run_deliveries : List Operation → Mails → Mails × List (Option String)
unfolding run
run_deliveries [] mails = (mails, [])
run_deliveries (o ∷ operations) mails =
    let (mails', taken) = run o mails in
    let (mails'', more) = run_deliveries operations mails' in (mails'', taken ∷ more)

-- A write finds the row that was claimed or read as it was: its claim has not been taken back.
abbrev pub IsTimelyStep : Operation → Mails → Type 0
IsTimelyStep (settle id mail result random now) mails =
    (get id mails ≡ some mail) × (mail.status ≡ sending)
IsTimelyStep (recover_one now id mail) mails = (get id mails ≡ some mail) × (mail.status ≡ sending)
IsTimelyStep _ mails = Unit

abbrev pub IsTimely : List Operation → Mails → Type 0
unfolding run
IsTimely [] mails = Unit
IsTimely (o ∷ operations) mails = IsTimelyStep o mails × IsTimely operations (run o mails).0

-- The three ways in which a claimed mail is settled.
pub send_claimed-cases :
    (P : Mails × Outcome → Type 0) (id : String) (mail : MailDelivery) (result : SendResult)
    (random now : ℕ) (mails : Mails)
    → P (update_row id (as_sent now) mails, was_sent id)
    → ((at : ℕ) (code : MailErrorCode)
        → is_retryable_mail_error (some code) mail.attempt mail.max_attempts ≡ true
        → P (update_row id (as_retrying at code) mails, was_retrying id))
    → ((code : MailErrorCode) → P (update_row id (as_failed now code) mails, was_failed id))
    → P (send_claimed id mail result random now mails)
unfolding send_claimed mark_mail_delivery_sent mark_mail_delivery_retrying mark_mail_delivery_failed
    settle_error
send_claimed-cases P id mail result random now mails on_sent on_retry on_fail =
    go mail.message_type result
  where
    go :
        (t : MessageType) (r : SendResult)
        → P (elim t [
          | password_changed ↦ elim r [
            | accepted ↦ (mark_mail_delivery_sent id now mails, was_sent id)
            | refused code ↦ settle_error id mail code random now mails
          ]
          | _ ↦ (mark_mail_delivery_failed id now provider_unavailable mails, was_failed id)
        ])
    go password_changed accepted = on_sent
    go password_changed (refused code) =
        elim (Bool-cases (is_retryable_mail_error (some code) mail.attempt mail.max_attempts)) [
          | inl again ↦
              rw (again, settle_error)
                (on_retry (now + compute_mail_retry_backoff_ms mail.attempt random) code again)
          | inr over ↦ rw (over, settle_error) (on_fail (final_error_code mail code))
        ]
    go organization_invitation r = on_fail provider_unavailable
    go email_verification r = on_fail provider_unavailable
    go password_reset r = on_fail provider_unavailable

pub claim-cases :
    (P : Mails × Option (String × MailDelivery) → Type 0) (worker_id : String) (now : ℕ)
    (mails : Mails)
    → (first_by (is_claimable now) (λ mail. mail.scheduled_for) mails ≡ none → P (mails, none))
    → ((id : String) (mail : MailDelivery)
        → first_by (is_claimable now) (λ mail. mail.scheduled_for) mails ≡ some (id, mail)
        → P (update_row id (claimed worker_id now) mails, some (id, claimed worker_id now mail)))
    → P (claim_next_pending_mail_delivery worker_id now mails)
unfolding claim_next_pending_mail_delivery
claim-cases P worker_id now mails on_none on_some =
    elim (Option-cases (first_by (is_claimable now) (λ mail. mail.scheduled_for) mails)) [
      | inl e ↦ rw (e, claim_next_pending_mail_delivery) (on_none e)
      | inr ((id, mail), e) ↦ rw (e, claim_next_pending_mail_delivery) (on_some id mail e)
    ]

-- The rest of a worker's turn, after its claim.
abbrev pub end_turn : SendResult → ℕ → ℕ → Mails × Option (String × MailDelivery) → Mails × Outcome
end_turn result random now (mails, answer) = elim answer [
  | none ↦ (mails, idle)
  | some (id, mail) ↦ send_claimed id mail result random now mails
]

-- A worker's turn: nothing is due, or the first mail that is due is claimed and settled.
pub process-cases :
    (P : Mails × Outcome → Type 0) (worker_id : String) (result : SendResult)
    (random claimed_at now : ℕ) (mails : Mails)
    → IsMap mails
    → (Every (λ mail. is_claimable claimed_at mail ≡ false) mails → P (mails, idle))
    → ((id : String) (mail : MailDelivery)
        → get id mails ≡ some mail
        → is_claimable claimed_at mail ≡ true
        → Every
            (λ other.
              is_claimable claimed_at other ≡ true → mail.scheduled_for ≤ other.scheduled_for)
            mails
        → P (
            send_claimed id
              (claimed worker_id claimed_at mail)
              result
              random
              now
              (update_row id (claimed worker_id claimed_at) mails)))
    → P (process_next_mail_delivery worker_id result random claimed_at now mails)
unfolding process_next_mail_delivery
process-cases P worker_id result random claimed_at now mails h on_none on_some =
    let answer = first_by-IsFirst (is_claimable claimed_at) (λ m. m.scheduled_for) mails h in
    claim-cases (λ r. P (end_turn result random now r)) worker_id claimed_at mails
      (λ e. on_none (rw e at answer))
      (λ id mail e.
        let (there, claimable, first) = rw e at answer in on_some id mail there claimable first)

-- A claim: nothing is due, or the first mail that is due is claimed.
pub claim-first :
    (P : Mails × Option (String × MailDelivery) → Type 0) (worker_id : String) (now : ℕ)
    (mails : Mails)
    → IsMap mails
    → P (mails, none)
    → ((id : String) (mail : MailDelivery)
        → get id mails ≡ some mail
        → is_claimable now mail ≡ true
        → P (update_row id (claimed worker_id now) mails, some (id, claimed worker_id now mail)))
    → P (claim_next_pending_mail_delivery worker_id now mails)
claim-first P worker_id now mails h on_none on_some =
    let answer = first_by-IsFirst (is_claimable now) (λ m. m.scheduled_for) mails h in
    claim-cases P worker_id now mails (λ e. on_none)
      (λ id mail e.
        let (there, claimable, first) = rw e at answer in on_some id mail there claimable)
