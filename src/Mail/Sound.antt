-- ===== src/Mail/Sound.antt =====
-- Every operation on deliveries keeps a table sound whose writes find the rows that were read.
use mathlib.Core.Path.{subst}
use senecial.Base.{
  ℕ, ◌<◌, String, Bool, true, false, ◌≡◌, refl, sym, ap, ◌∙◌, Option, some, List, [], ◌∷◌, leb, get,
  All, arith, Bool-cases, Option-cases, inl, inr, some-inj,
}
use senecial.Base.Tables.{update_row, row_before, find_many, find_many-found}
use senecial.Mail.{
  MessageType, organization_invitation, email_verification, password_reset, password_changed,
  MailErrorCode, MailDelivery, Mails, is_worker_handled, is_token_mail, is_pending_status,
  is_claimable, claimed, claim_next_pending_mail_delivery, as_sending, as_sent, as_retrying,
  as_failed, as_reset, as_cancelled, mark_mail_delivery_sending, mark_mail_delivery_sent,
  mark_mail_delivery_failed, is_stale_sending, find_stale_sending_mail_deliveries,
  reset_mail_delivery_to_pending, is_retryable_mail_error, mark_mail_delivery_cancelled_if_pending,
  max_attempts_reached,
}
use senecial.Mail.Process.{
  SendResult, accepted, refused, send_claimed, send_tracked_mail, recover_delivery,
  recover_deliveries, recover_stale_mail_deliveries,
}
use senecial.Mail.Validity.{IsValid, IsSound, update-IsTable, enqueue-IsTable}
use senecial.Mail.Runs.{
  Operation, enqueue, claim, settle, send, recover, recover_one, cancel, send_if_token, run,
  IsTimelyStep, send_claimed-cases, claim-first,
}

pub is_retryable-lt :
    (code : Option MailErrorCode) (attempt max_attempts : ℕ)
    → is_retryable_mail_error code attempt max_attempts ≡ true
    → attempt < max_attempts
unfolding is_retryable_mail_error
is_retryable-lt code attempt max_attempts h = elim (Bool-cases (leb max_attempts attempt)) [
  | inl over ↦ absurd (ground (arith, rw over at h))
  | inr below ↦ ground (arith, below)
]

pub token-not_worker : (t : MessageType) → is_token_mail t ≡ true → is_worker_handled t ≡ false
token-not_worker organization_invitation h = refl
token-not_worker email_verification h = refl
token-not_worker password_reset h = refl
token-not_worker password_changed h = absurd (ground (arith, h))

claimed-IsValid :
    (worker_id : String) (now : ℕ) (mail : MailDelivery)
    → is_claimable now mail ≡ true
    → IsValid mail
    → IsValid (claimed worker_id now mail)
claimed-IsValid worker_id now mail claimable v =
    (λ w. ground (arith, claimable, v.1), λ w p. ground (arith, p), ground (arith, claimable))

send_claimed-IsSound :
    (id : String) (mail : MailDelivery) (result : SendResult) (random now : ℕ) (mails : Mails)
    → get id mails ≡ some mail
    → IsSound mails
    → IsSound (send_claimed id mail result random now mails).0
send_claimed-IsSound id mail result random now mails there h =
    send_claimed-cases (λ r. IsSound r.0) id mail result random now mails
      (update-IsTable IsValid id (as_sent now) mails (λ m. refl)
        (λ m e v. (v.0, λ w p. ground (arith, p), refl)) h)
      (λ at code again.
        update-IsTable IsValid id (as_retrying at code) mails (λ m. refl)
          (λ m e v. (
            v.0,
            λ w p.
                subst (λ r. r.attempt < r.max_attempts) (some-inj (sym there ∙ e))
                  (is_retryable-lt (some code) mail.attempt mail.max_attempts again),
            refl,
          ))
          h)
      (λ code.
        update-IsTable IsValid id (as_failed now code) mails (λ m. refl)
          (λ m e v. (v.0, λ w p. ground (arith, p), refl)) h)

claim-IsSound :
    (worker_id : String) (now : ℕ) (mails : Mails)
    → IsSound mails
    → IsSound (claim_next_pending_mail_delivery worker_id now mails).0
claim-IsSound worker_id now mails h =
    claim-first (λ r. IsSound r.0) worker_id now mails h.0 h
      (λ id mail there claimable.
        update-IsTable IsValid id (claimed worker_id now) mails (λ m. refl)
          (λ m found v.
            claimed-IsValid worker_id now m
              (subst (λ r. is_claimable now r ≡ true) (some-inj (sym there ∙ found)) claimable) v)
          h)

send_if_token-IsSound :
    (id : String) (result : SendResult) (now : ℕ) (mails : Mails)
    → IsSound mails
    → IsSound (send_if_token id result now mails)
unfolding send_if_token send_tracked_mail mark_mail_delivery_sending mark_mail_delivery_sent
    mark_mail_delivery_failed
send_if_token-IsSound id result now mails h = elim (Option-cases (get id mails)) [
  | inl gone ↦ rw (gone, send_if_token) h
  | inr (mail, there) ↦ elim (Bool-cases (is_token_mail mail.message_type)) [
    | inr other ↦ rw (there, other, send_if_token) h
    | inl token ↦
        let begun =
          update-IsTable IsValid id as_sending mails (λ m. refl)
            (λ m e v.
              let idle =
                subst (λ r. is_worker_handled r.message_type ≡ false) (some-inj (sym there ∙ e))
                  (token-not_worker mail.message_type token) in
              (
                λ w. absurd (ground (arith, w, idle)),
                λ w p. absurd (ground (arith, w, idle)),
                ground (arith, v.2, idle),
              ))
            h in
        rw (there, token, send_if_token) (go result begun)
  ]
]
  where
    go :
        (r : SendResult)
        → IsSound (update_row id as_sending mails)
        → IsSound (send_tracked_mail id r now mails)
    go accepted begun =
        update-IsTable IsValid id (as_sent now) (update_row id as_sending mails) (λ m. refl)
          (λ m e v. (v.0, λ w p. ground (arith, p), refl)) begun
    go (refused code) begun =
        update-IsTable IsValid id (as_failed now code) (update_row id as_sending mails) (λ m. refl)
          (λ m e v. (v.0, λ w p. ground (arith, p), refl)) begun

-- A row still has the attempts that a list of rows says.
abbrev Reads : Mails → String × MailDelivery → Type 0
Reads mails (id, mail) =
    (row : MailDelivery)
    → get id mails ≡ some row
    → (row.attempt ≡ mail.attempt) × (row.max_attempts ≡ mail.max_attempts)

abbrev KeepsAttempts : (MailDelivery → MailDelivery) → Type 0
KeepsAttempts change =
    (m : MailDelivery)
    → ((change m).attempt ≡ m.attempt) × ((change m).max_attempts ≡ m.max_attempts)

update-Reads :
    (id : String) (change : MailDelivery → MailDelivery) (mails : Mails)
    → KeepsAttempts change
    → (stale : List (String × MailDelivery)) → All (Reads mails) stale
    → All (Reads (update_row id change mails)) stale
update-Reads id change mails same [] h = tt
update-Reads id change mails same ((key, mail) ∷ stale) (h, hs) = (
  λ row e.
      let (old, found, from) = row_before id change mails key row e in
      elim from [
        | inl kept ↦ (
          ap (λ m. m.attempt) kept ∙ (h old found).0,
          ap (λ m. m.max_attempts) kept ∙ (h old found).1,
        )
        | inr changed ↦ (
          ap (λ m. m.attempt) changed ∙ (same old).0 ∙ (h old found).0,
          ap (λ m. m.max_attempts) changed ∙ (same old).1 ∙ (h old found).1,
        )
      ],
  update-Reads id change mails same stale hs,
)

recover_deliveries-IsSound :
    (now : ℕ) (stale : List (String × MailDelivery)) (mails : Mails)
    → All (Reads mails) stale
    → IsSound mails
    → IsSound (recover_deliveries now stale mails)
unfolding recover_deliveries recover_delivery reset_mail_delivery_to_pending
    mark_mail_delivery_failed
recover_deliveries-IsSound now [] mails all h = h
recover_deliveries-IsSound now ((id, mail) ∷ stale) mails (reads, all) h =
    elim (Bool-cases (is_retryable_mail_error mail.error_code mail.attempt mail.max_attempts)) [
      | inl again ↦ rw again (
          recover_deliveries-IsSound now stale (update_row id (as_reset now) mails)
            (update-Reads id (as_reset now) mails (λ m. (refl, refl)) stale all)
            (update-IsTable IsValid id (as_reset now) mails (λ m. refl)
              (λ m e v. (
                v.0,
                λ w p. omega (
                  arith,
                  is_retryable-lt mail.error_code mail.attempt mail.max_attempts again,
                  reads m e,
                ),
                refl,
              ))
              h))
      | inr over ↦ rw over (
          recover_deliveries-IsSound now stale
            (update_row id (as_failed now max_attempts_reached) mails)
            (update-Reads id (as_failed now max_attempts_reached) mails (λ m. (refl, refl)) stale
              all)
            (update-IsTable IsValid id (as_failed now max_attempts_reached) mails (λ m. refl)
              (λ m e v. (v.0, λ w p. ground (arith, p), refl)) h))
    ]

Reads-of_found :
    (mails : Mails) (test : MailDelivery → Bool) (stale : List (String × MailDelivery))
    → All (λ one. (get one.0 mails ≡ some one.1) × (test one.1 ≡ true)) stale
    → All (Reads mails) stale
Reads-of_found mails test [] h = tt
Reads-of_found mails test ((id, mail) ∷ stale) ((there, fits), hs) = (
  λ row e.
      let same = some-inj (sym e ∙ there) in
      (ap (λ m. m.attempt) same, ap (λ m. m.max_attempts) same),
  Reads-of_found mails test stale hs,
)

recover-IsSound :
    (stale_minutes now : ℕ) (mails : Mails)
    → IsSound mails
    → IsSound (recover_stale_mail_deliveries stale_minutes now mails)
unfolding recover_stale_mail_deliveries find_stale_sending_mail_deliveries
recover-IsSound stale_minutes now mails h =
    let test = is_stale_sending stale_minutes now in
    recover_deliveries-IsSound now (find_many test mails) mails
      (Reads-of_found mails test (find_many test mails) (find_many-found test mails h.0)) h

-- A cancellation is an update, or nothing.
pub cancel-cases :
    (P : Mails → Type 0) (id : String) (now : ℕ) (code : MailErrorCode) (mails : Mails)
    → P mails
    → ((mail : MailDelivery)
        → get id mails ≡ some mail
        → is_pending_status mail.status ≡ true
        → P (update_row id (as_cancelled now code) mails))
    → P (mark_mail_delivery_cancelled_if_pending id now code mails).0
unfolding mark_mail_delivery_cancelled_if_pending update_row
cancel-cases P id now code mails nothing cancels = elim (Option-cases (get id mails)) [
  | inl gone ↦ rw (gone, mark_mail_delivery_cancelled_if_pending) nothing
  | inr (mail, there) ↦ elim (Bool-cases (is_pending_status mail.status)) [
    | inl waits ↦
        rw (there, waits, mark_mail_delivery_cancelled_if_pending)
          (rw (there, update_row) at (cancels mail there waits))
    | inr over ↦ rw (there, over, mark_mail_delivery_cancelled_if_pending) nothing
  ]
]

recover_one-IsSound :
    (now : ℕ) (id : String) (mail : MailDelivery) (mails : Mails)
    → get id mails ≡ some mail
    → IsSound mails
    → IsSound (recover_delivery now (id, mail) mails)
unfolding recover_deliveries
recover_one-IsSound now id mail mails there h =
    recover_deliveries-IsSound now ((id, mail) ∷ []) mails
      (
        λ row e.
            let same = some-inj (sym e ∙ there) in
            (ap (λ m. m.attempt) same, ap (λ m. m.max_attempts) same),
        tt,
      )
      h

pub run-IsSound :
    (o : Operation) (mails : Mails) → IsTimelyStep o mails → IsSound mails → IsSound (run o mails).0
unfolding run
run-IsSound (enqueue id fields now) mails timely h =
    enqueue-IsTable IsValid id fields now mails (λ w. omega arith, λ w p. omega arith, refl) h
run-IsSound (claim worker_id now) mails timely h = claim-IsSound worker_id now mails h
run-IsSound (settle id mail result random now) mails (there, works) h =
    send_claimed-IsSound id mail result random now mails there h
run-IsSound (send id result now) mails timely h = send_if_token-IsSound id result now mails h
run-IsSound (recover stale_minutes now) mails timely h = recover-IsSound stale_minutes now mails h
run-IsSound (recover_one now id mail) mails (there, works) h =
    recover_one-IsSound now id mail mails there h
run-IsSound (cancel id now code) mails timely h =
    cancel-cases IsSound id now code mails h (λ mail there waits.
      update-IsTable IsValid id (as_cancelled now code) mails (λ m. refl)
        (λ m e v. (v.0, λ w p. ground (arith, p), refl)) h)
