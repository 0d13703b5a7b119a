-- ===== src/Mail/Attempts.antt =====
-- How often a mail of the worker is sent, and that a mail that is done stays as it is.
use mathlib.Core.Path.{subst}
use mathlib.Core.Bool.{false≢true}
use senecial.Base.{
  ℕ, ◌+◌, ◌≤◌, String, true, false, ◌≡◌, ◌≢◌, refl, sym, ap, ◌∙◌, some, List, [], ◌∷◌, ◌++◌, str_eq,
  eq_iff, get, All, arith, Bool-cases, Option-cases, inl, inr, none-ne-some, some-inj,
}
use senecial.Base.Tables.{
  update_row, get-update_row_here, get-update_row_other, find_many, find_many-found,
}
use senecial.Mail.{
  MailDelivery, Mails, is_worker_handled, is_token_mail, is_pending_status, is_claimable, claimed,
  claim_next_pending_mail_delivery, sending, as_sending, as_sent, as_failed, as_reset, as_cancelled,
  new_delivery, is_taken, enqueue_pending_mail_delivery, mark_mail_delivery_sending,
  mark_mail_delivery_sent, mark_mail_delivery_failed, is_stale_sending,
  find_stale_sending_mail_deliveries, reset_mail_delivery_to_pending, is_retryable_mail_error,
  max_attempts_reached,
}
use senecial.Mail.Process.{
  SendResult, accepted, refused, send_tracked_mail, recover_delivery, recover_deliveries,
  recover_stale_mail_deliveries,
}
use senecial.Mail.Validity.{IsSound}
use senecial.Mail.Runs.{
  Operation, enqueue, claim, settle, send, recover, recover_one, cancel, send_if_token, claimed_id,
  run, run_deliveries, IsTimelyStep, IsTimely, claim-first,
}
use senecial.Mail.Sound.{token-not_worker, cancel-cases, run-IsSound}
use senecial.Mail.Follows.{
  is_done, claims, times_claimed, Follows, Leads, Follows-refl, quiet-Leads_on, quiet-Leads,
  settled-Leads, then-Leads,
}

claim-Leads :
    (worker_id : String) (now : ℕ) (mails : Mails) (id : String) (row : MailDelivery)
    → IsSound mails
    → get id mails ≡ some row
    → let r = claim_next_pending_mail_delivery worker_id now mails in
      Leads (claims id (claimed_id r.1)) id row r.0
claim-Leads worker_id now mails id row h there =
    claim-first (λ r. Leads (claims id (claimed_id r.1)) id row r.0) worker_id now mails h.0
      (row, there, Follows-refl row)
      (λ key mail found claimable.
        let change = claimed worker_id now in
        let after = update_row key change mails in
        elim (Bool-cases (str_eq key id)) [
          | inl same ↦
              let e = (eq_iff key id).0 same in
              let mine : row ≡ mail =
                some-inj (sym there ∙ subst (λ k. get k mails ≡ some mail) e found) in
              let waits = subst (λ m. is_claimable now m ≡ true) (sym mine) claimable in
              let taken =
                subst (λ k. get id (update_row k change mails) ≡ some (change row)) (sym e)
                  (get-update_row_here id change mails row there) in
              rw same
                (change row, taken, (refl, refl, refl, λ d. absurd (ground (arith, waits, d))))
          | inr differs ↦
              let ne : key ≢ id = λ e. absurd (ground (arith, eq_iff key id, e, differs)) in
              rw differs
                (row, get-update_row_other key id change mails ne ∙ there, Follows-refl row)
        ])

-- A row that is being sent is not done.
sending-not_done :
    (key id : String) (mail row : MailDelivery) (mails : Mails)
    → get key mails ≡ some mail
    → mail.status ≡ sending
    → get id mails ≡ some row
    → key ≡ id
    → is_done row ≡ false
sending-not_done key id mail row mails found works there e =
    let mine : mail ≡ row = some-inj (sym (subst (λ k. get k mails ≡ some mail) e found) ∙ there) in
    subst (λ m. is_done m ≡ false) mine (rw works refl)

send-Leads :
    (key : String) (result : SendResult) (now : ℕ) (mails : Mails) (id : String)
    (row : MailDelivery)
    → is_worker_handled row.message_type ≡ true
    → get id mails ≡ some row
    → Leads 0 id row (send_if_token key result now mails)
unfolding send_if_token send_tracked_mail mark_mail_delivery_sending mark_mail_delivery_sent
    mark_mail_delivery_failed
send-Leads key result now mails id row works there = elim (Option-cases (get key mails)) [
  | inl gone ↦ rw (gone, send_if_token) (row, there, Follows-refl row)
  | inr (mail, found) ↦ elim (Bool-cases (is_token_mail mail.message_type)) [
    | inr other ↦ rw (found, other, send_if_token) (row, there, Follows-refl row)
    | inl token ↦
        let ne : key ≢ id = λ e.
          let mine : mail ≡ row =
            some-inj (sym (subst (λ k. get k mails ≡ some mail) e found) ∙ there) in
          absurd (
            false≢true (
              sym (token-not_worker mail.message_type token)
              ∙ ap (λ m. is_worker_handled m.message_type) mine
              ∙ works)) in
        let begun = get-update_row_other key id as_sending mails ne ∙ there in
        rw (found, token, send_if_token) (go result ne begun)
  ]
]
  where
    go :
        (r : SendResult)
        → key ≢ id
        → get id (update_row key as_sending mails) ≡ some row
        → Leads 0 id row (send_tracked_mail key r now mails)
    go accepted ne begun = (
      row,
      get-update_row_other key id (as_sent now) (update_row key as_sending mails) ne ∙ begun,
      Follows-refl row,
    )
    go (refused code) ne begun = (
      row,
      get-update_row_other key id (as_failed now code) (update_row key as_sending mails) ne ∙ begun,
      Follows-refl row,
    )

recover_deliveries-Leads :
    (now : ℕ) (stale : List (String × MailDelivery)) (mails : Mails) (id : String)
    (row now_row : MailDelivery)
    → get id mails ≡ some now_row
    → Follows 0 row now_row
    → All (λ one. one.0 ≡ id → is_done row ≡ false) stale
    → Leads 0 id row (recover_deliveries now stale mails)
unfolding recover_deliveries recover_delivery reset_mail_delivery_to_pending
    mark_mail_delivery_failed
recover_deliveries-Leads now [] mails id row now_row there before all = (now_row, there, before)
recover_deliveries-Leads now ((key, mail) ∷ stale) mails id row now_row there before (h, all) =
    elim (Bool-cases (is_retryable_mail_error mail.error_code mail.attempt mail.max_attempts)) [
      | inl again ↦
          let (next, found, follows) =
            quiet-Leads_on key id (as_reset now) mails row now_row (λ m. (refl, refl, refl)) there
              before h in
          rw again (
            recover_deliveries-Leads now stale (update_row key (as_reset now) mails) id row next
              found follows all)
      | inr over ↦
          let (next, found, follows) =
            quiet-Leads_on key id (as_failed now max_attempts_reached) mails row now_row
              (λ m. (refl, refl, refl)) there before h in
          rw over (
            recover_deliveries-Leads now stale
              (update_row key (as_failed now max_attempts_reached) mails) id row next found follows
              all)
    ]

stale-not_done :
    (stale_minutes now : ℕ) (mail : MailDelivery)
    → is_stale_sending stale_minutes now mail ≡ true
    → is_done mail ≡ false
stale-not_done stale_minutes now mail h = elim (Option-cases mail.locked_at) [
  | inl free ↦ absurd (false≢true (rw (free, is_stale_sending) at h))
  | inr (locked_at, held) ↦ ground (arith, rw (held, is_stale_sending) at h)
]

listed-not_done :
    (stale_minutes now : ℕ) (mails : Mails) (id : String) (row : MailDelivery)
    (stale : List (String × MailDelivery))
    → get id mails ≡ some row
    → All
        (λ one. (get one.0 mails ≡ some one.1) × (is_stale_sending stale_minutes now one.1 ≡ true))
        stale
    → All (λ one. one.0 ≡ id → is_done row ≡ false) stale
listed-not_done stale_minutes now mails id row [] there h = tt
listed-not_done stale_minutes now mails id row ((key, mail) ∷ stale) there ((found, old), hs) = (
  λ e.
      let mine : mail ≡ row =
        some-inj (sym (subst (λ k. get k mails ≡ some mail) e found) ∙ there) in
      subst (λ m. is_done m ≡ false) mine (stale-not_done stale_minutes now mail old),
  listed-not_done stale_minutes now mails id row stale there hs,
)

get-append :
    (id : String) (mails more : Mails) (row : MailDelivery)
    → get id mails ≡ some row
    → get id (mails ++ more) ≡ some row
unfolding get
get-append id [] more row e = absurd (none-ne-some e)
get-append id ((key, mail) ∷ mails) more row e = elim (Bool-cases (str_eq key id)) [
  | inl same ↦ rw same (rw same at e)
  | inr differs ↦ rw differs (get-append id mails more row (rw differs at e))
]

run-Leads :
    (o : Operation) (mails : Mails) (id : String) (row : MailDelivery)
    → IsTimelyStep o mails
    → IsSound mails
    → is_worker_handled row.message_type ≡ true
    → get id mails ≡ some row
    → Leads (claims id (run o mails).1) id row (run o mails).0
unfolding run enqueue_pending_mail_delivery recover_stale_mail_deliveries
    find_stale_sending_mail_deliveries recover_deliveries
run-Leads (enqueue key fields now) mails id row timely h works there =
    elim (Bool-cases (is_taken key fields.idempotency_key mails)) [
      | inl taken ↦ rw taken (row, there, Follows-refl row)
      | inr free ↦ rw free (
        row,
        get-append id mails ((key, new_delivery fields now) ∷ []) row there,
        Follows-refl row,
      )
    ]
run-Leads (claim worker_id now) mails id row timely h works there =
    claim-Leads worker_id now mails id row h there
run-Leads (settle key mail result random now) mails id row (found, sends) h works there =
    settled-Leads key id mail result random now mails row there
      (sending-not_done key id mail row mails found sends there)
run-Leads (send key result now) mails id row timely h works there =
    send-Leads key result now mails id row works there
run-Leads (recover stale_minutes now) mails id row timely h works there =
    let test = is_stale_sending stale_minutes now in
    recover_deliveries-Leads now (find_many test mails) mails id row row there (Follows-refl row) (
      listed-not_done stale_minutes now mails id row (find_many test mails) there
        (find_many-found test mails h.0))
run-Leads (recover_one now key mail) mails id row (found, sends) h works there =
    recover_deliveries-Leads now ((key, mail) ∷ []) mails id row row there (Follows-refl row)
      (sending-not_done key id mail row mails found sends there, tt)
run-Leads (cancel key now code) mails id row timely h works there =
    cancel-cases (Leads 0 id row) key now code mails (row, there, Follows-refl row)
      (λ mail found waits.
        quiet-Leads key id (as_cancelled now code) mails row (λ m. (refl, refl, refl)) there
          (λ e.
            let mine : mail ≡ row =
              some-inj (sym (subst (λ k. get k mails ≡ some mail) e found) ∙ there) in
            ground (arith, subst (λ m. is_pending_status m.status ≡ true) mine waits)))

run_deliveries-Leads :
    (operations : List Operation) (mails : Mails) (id : String) (row : MailDelivery)
    → IsTimely operations mails
    → IsSound mails
    → is_worker_handled row.message_type ≡ true
    → get id mails ≡ some row
    → let r = run_deliveries operations mails in
      Leads (times_claimed id r.1) id row r.0 × IsSound r.0
unfolding run_deliveries
run_deliveries-Leads [] mails id row timely h works there = ((row, there, Follows-refl row), h)
run_deliveries-Leads (o ∷ operations) mails id row (timely, later) h works there =
    let (next, found, follows) = run-Leads o mails id row timely h works there in
    let (leads, valid) =
      run_deliveries-Leads operations (run o mails).0 id next later (run-IsSound o mails timely h)
        (ap is_worker_handled follows.2 ∙ works) found in
    (
      then-Leads (claims id (run o mails).1)
          (times_claimed id (run_deliveries operations (run o mails).0).1) id row next
          (run_deliveries operations (run o mails).0).0 follows leads,
      valid,
    )

-- From a table in which each mail of the worker has at most as many attempts as its limit and one left
-- while it waits: if each settlement, and each single write of a recovery, finds its row as it was claimed
-- or read, then whatever operations follow, the table stays so, and a mail of the worker stays in it; each
-- claim of it counts one attempt, and there are at most as many as its limit leaves; and where it is
-- already sent, failed or cancelled, its row stays as it is and it is not claimed again.
pub times_claimed-le :
    (operations : List Operation) (mails : Mails) (id : String) (row : MailDelivery)
    → IsTimely operations mails
    → IsSound mails
    → is_worker_handled row.message_type ≡ true
    → get id mails ≡ some row
    → let (after, claimed_ids) = run_deliveries operations mails in
      IsSound after
      × ((row' : MailDelivery) × (get id after ≡ some row')
          × (row'.attempt ≡ row.attempt + times_claimed id claimed_ids)
          × (row.attempt + times_claimed id claimed_ids ≤ row.max_attempts)
          × (is_done row ≡ true → (row' ≡ row) × (times_claimed id claimed_ids ≡ 0)))
times_claimed-le operations mails id row timely h works there =
    let ((row', found, (at, limit, type, done)), valid) =
      run_deliveries-Leads operations mails id row timely h works there in
    let below = (valid.2 id row' found).0 (ap is_worker_handled type ∙ works) in
    (
      valid,
      (row', found, at, omega arith, λ d. (done d, omega (arith, ap (λ m. m.attempt) (done d)))),
    )
