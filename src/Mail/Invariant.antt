-- ===== src/Mail/Invariant.antt =====
-- Every operation on deliveries keeps the table well-formed, whenever it runs.
use mathlib.Core.Path.{subst}
use senecial.Base.{
  ℕ, String, true, false, ◌≡◌, refl, sym, ◌∙◌, List, [], ◌∷◌, get, arith, Bool-cases, Option-cases,
  inl, inr, some-inj,
}
use senecial.Base.Tables.{update_row, find_many}
use senecial.Mail.{
  MailDelivery, Mails, is_worker_handled, is_token_mail, is_claimable, claimed, as_sending, as_sent,
  as_retrying, as_failed, as_reset, as_cancelled, mark_mail_delivery_sending,
  mark_mail_delivery_sent, mark_mail_delivery_failed, is_stale_sending,
  find_stale_sending_mail_deliveries, reset_mail_delivery_to_pending, is_retryable_mail_error,
  max_attempts_reached,
}
use senecial.Mail.Process.{
  SendResult, accepted, refused, send_tracked_mail, recover_delivery, recover_deliveries,
  recover_stale_mail_deliveries,
}
use senecial.Mail.Validity.{IsLockedInWork, IsWellFormed, update-IsTable, enqueue-IsTable}
use senecial.Mail.Runs.{
  Operation, enqueue, claim, settle, send, recover, recover_one, cancel, send_if_token, run,
  run_deliveries, send_claimed-cases, claim-first,
}
use senecial.Mail.Sound.{token-not_worker, cancel-cases}

-- An update that takes the lock away and does not send.
frees :
    (id : String) (change : MailDelivery → MailDelivery) (mails : Mails)
    → ((m : MailDelivery) → (change m).idempotency_key ≡ m.idempotency_key)
    → ((m : MailDelivery) → IsLockedInWork (change m))
    → IsWellFormed mails
    → IsWellFormed (update_row id change mails)
frees id change mails same free h =
    update-IsTable IsLockedInWork id change mails same (λ m e v. free m) h

recover_one-IsWellFormed :
    (now : ℕ) (id : String) (mail : MailDelivery) (mails : Mails)
    → IsWellFormed mails
    → IsWellFormed (recover_delivery now (id, mail) mails)
unfolding recover_delivery reset_mail_delivery_to_pending mark_mail_delivery_failed
recover_one-IsWellFormed now id mail mails h =
    elim (Bool-cases (is_retryable_mail_error mail.error_code mail.attempt mail.max_attempts)) [
      | inl again ↦
          rw (again, recover_delivery) (frees id (as_reset now) mails (λ m. refl) (λ m. refl) h)
      | inr over ↦
          rw (over, recover_delivery)
            (frees id (as_failed now max_attempts_reached) mails (λ m. refl) (λ m. refl) h)
    ]

recover_deliveries-IsWellFormed :
    (now : ℕ) (stale : List (String × MailDelivery)) (mails : Mails)
    → IsWellFormed mails
    → IsWellFormed (recover_deliveries now stale mails)
unfolding recover_deliveries
recover_deliveries-IsWellFormed now [] mails h = h
recover_deliveries-IsWellFormed now ((id, mail) ∷ stale) mails h =
    recover_deliveries-IsWellFormed now stale (recover_delivery now (id, mail) mails)
      (recover_one-IsWellFormed now id mail mails h)

send_if_token-IsWellFormed :
    (id : String) (result : SendResult) (now : ℕ) (mails : Mails)
    → IsWellFormed mails
    → IsWellFormed (send_if_token id result now mails)
unfolding send_if_token send_tracked_mail mark_mail_delivery_sending mark_mail_delivery_sent
    mark_mail_delivery_failed
send_if_token-IsWellFormed id result now mails h = elim (Option-cases (get id mails)) [
  | inl gone ↦ rw (gone, send_if_token) h
  | inr (mail, there) ↦ elim (Bool-cases (is_token_mail mail.message_type)) [
    | inr other ↦ rw (there, other, send_if_token) h
    | inl token ↦
        rw (there, token, send_if_token)
          (go result (
            update-IsTable IsLockedInWork id as_sending mails (λ m. refl)
              (λ m e v.
                let idle =
                  subst (λ r. is_worker_handled r.message_type ≡ false) (some-inj (sym there ∙ e))
                    (token-not_worker mail.message_type token) in
                ground (arith, v, idle))
              h))
  ]
]
  where
    go :
        (r : SendResult)
        → IsWellFormed (update_row id as_sending mails)
        → IsWellFormed (send_tracked_mail id r now mails)
    go accepted begun =
        frees id (as_sent now) (update_row id as_sending mails) (λ m. refl) (λ m. refl) begun
    go (refused code) begun =
        frees id (as_failed now code) (update_row id as_sending mails) (λ m. refl) (λ m. refl) begun

run-IsWellFormed :
    (o : Operation) (mails : Mails) → IsWellFormed mails → IsWellFormed (run o mails).0
unfolding run recover_stale_mail_deliveries find_stale_sending_mail_deliveries
run-IsWellFormed (enqueue id fields now) mails h =
    enqueue-IsTable IsLockedInWork id fields now mails refl h
run-IsWellFormed (claim worker_id now) mails h =
    claim-first (λ r. IsWellFormed r.0) worker_id now mails h.0 h
      (λ id mail there claimable.
        update-IsTable IsLockedInWork id (claimed worker_id now) mails (λ m. refl)
          (λ m found v. ground (
            arith,
            subst (λ r. is_claimable now r ≡ true) (some-inj (sym there ∙ found)) claimable,
          ))
          h)
run-IsWellFormed (settle id mail result random now) mails h =
    send_claimed-cases (λ r. IsWellFormed r.0) id mail result random now mails
      (frees id (as_sent now) mails (λ m. refl) (λ m. refl) h)
      (λ at code again. frees id (as_retrying at code) mails (λ m. refl) (λ m. refl) h)
      (λ code. frees id (as_failed now code) mails (λ m. refl) (λ m. refl) h)
run-IsWellFormed (send id result now) mails h = send_if_token-IsWellFormed id result now mails h
run-IsWellFormed (recover stale_minutes now) mails h =
    recover_deliveries-IsWellFormed now (find_many (is_stale_sending stale_minutes now) mails) mails
      h
run-IsWellFormed (recover_one now id mail) mails h = recover_one-IsWellFormed now id mail mails h
run-IsWellFormed (cancel id now code) mails h =
    cancel-cases IsWellFormed id now code mails h
      (λ mail there waits. frees id (as_cancelled now code) mails (λ m. refl) (λ m. refl) h)

-- From a table with one row for an id and for an idempotency key in which exactly the mails of the worker
-- that are SENDING are locked, any sequence of operations leads to such a table: a claim and its
-- settlement are operations of their own, so workers may stop between them, and settle, recover and
-- send late, after others have changed the row. A mail with a token is thus never locked.
pub run_deliveries-IsWellFormed :
    (operations : List Operation) (mails : Mails)
    → IsWellFormed mails
    → IsWellFormed (run_deliveries operations mails).0
unfolding run_deliveries
run_deliveries-IsWellFormed [] mails h = h
run_deliveries-IsWellFormed (o ∷ operations) mails h =
    run_deliveries-IsWellFormed operations (run o mails).0 (run-IsWellFormed o mails h)
