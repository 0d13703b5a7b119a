-- ===== src/Mail/Tests.antt =====
-- Deliveries on concrete tables.
use senecial.Base.{◌+◌, ◌≤◌, Bool, true, false, ◌≡◌, refl, Option, none, some, List, [], ◌∷◌, get}
use senecial.Mail.{
  organization_invitation, password_changed, provider_timeout, invalid_recipient,
  token_reissue_required, MailDelivery, Mails, EnqueuePendingMailDeliveryData, new_delivery,
  claimed, as_sending, as_sent, as_retrying, as_reset, as_cancelled, is_pending_status,
  compute_mail_retry_backoff_ms,
}
use senecial.Mail.Process.{accepted, refused, process_next_mail_delivery}
use senecial.Mail.Validity.{IsLockedInWork, IsValid, IsSound, IsWellFormed, empty-IsTable}
use senecial.Mail.Runs.{
  Operation, enqueue, claim, settle, send, recover, cancel, run, run_deliveries, IsTimely,
}
use senecial.Mail.Sound.{run-IsSound}
use senecial.Mail.Invariant.{run_deliveries-IsWellFormed}
use senecial.Mail.Follows.{is_done, times_claimed}
use senecial.Mail.Attempts.{times_claimed-le}
use senecial.Mail.Turns.{IsTurn, process_next_mail_delivery-IsTurn}

abbrev notice : EnqueuePendingMailDeliveryData
notice = record {
  organization_id = none;
  user_id = some "u1";
  message_type = password_changed;
  recipient_hash = "h";
  idempotency_key = "password-changed:u1:1";
}

abbrev invitation : EnqueuePendingMailDeliveryData
invitation = record notice {
  message_type = organization_invitation;
  idempotency_key = "invitation:i1:0";
}

abbrev mails : Mails
mails = ("m1", new_delivery notice 1000) ∷ ("m2", new_delivery invitation 1000) ∷ []

mails-IsWellFormed : IsWellFormed mails
unfolding run_deliveries
mails-IsWellFormed =
    run_deliveries-IsWellFormed (enqueue "m1" notice 1000 ∷ enqueue "m2" invitation 1000 ∷ []) []
      (empty-IsTable IsLockedInWork)

mails-IsSound : IsSound mails
unfolding run
mails-IsSound =
    run-IsSound (enqueue "m2" invitation 1000) (("m1", new_delivery notice 1000) ∷ []) tt
      (run-IsSound (enqueue "m1" notice 1000) [] tt (empty-IsTable IsValid))

-- What two claims of the first mail return.
abbrev first_claim : MailDelivery
first_claim = claimed "w1" 2000 (new_delivery notice 1000)

abbrev second_claim : MailDelivery
unfolding compute_mail_retry_backoff_ms
second_claim =
    claimed "w2" 60000
      (as_retrying (3000 + compute_mail_retry_backoff_ms 1 0) provider_timeout first_claim)

abbrev day : List Operation
day =
    claim "w1" 2000
    ∷ settle "m1" first_claim (refused provider_timeout) 0 3000
    ∷ claim "w1" 4000
    ∷ send "m2" accepted 6000
    ∷ enqueue "m3" notice 7000
    ∷ recover 15 8000
    ∷ claim "w2" 60000
    ∷ settle "m1" second_claim accepted 0 61000
    ∷ []

-- The first attempt fails, and nothing is due before the backoff is over.
claims_of_day :
    (run_deliveries day mails).1
    ≡ some "m1" ∷ none ∷ none ∷ none ∷ none ∷ none ∷ some "m1" ∷ none ∷ []
unfolding run_deliveries get
claims_of_day = refl

day-IsTimely : IsTimely day mails
unfolding run get
day-IsTimely = (tt, ((refl, refl), (tt, (tt, (tt, (tt, (tt, ((refl, refl), tt))))))))

abbrev is_waiting : Option MailDelivery → Bool
is_waiting none = false
is_waiting (some mail) = is_pending_status mail.status

-- A worker whose claim was taken back ends late: the mail, which another worker has sent by then, waits
-- again and is sent once more.
late_worker :
    is_waiting (
      get "m1"
        (run_deliveries
          (claim "w1" 2000
            ∷ recover 15 1000000
            ∷ claim "w2" 1000000
            ∷ settle "m1" (claimed "w2" 1000000 (as_reset 1000000 first_claim)) accepted 0 1000001
            ∷ settle "m1" first_claim (refused provider_timeout) 0 1000002
            ∷ [])
          mails).0)
    ≡ true
unfolding run_deliveries get
late_worker = refl

-- A sender that wakes up after its delivery was cancelled sends the mail all the same.
late_sender :
    get "m2"
      (run_deliveries
        (cancel "m2" 9000 token_reissue_required ∷ send "m2" accepted 9500 ∷ [])
        mails).0
    ≡ some (
        as_sent 9500
          (as_sending (as_cancelled 9000 token_reissue_required (new_delivery invitation 1000))))
unfolding run_deliveries get
late_sender = refl

run_deliveries-IsWellFormed_example : IsWellFormed (run_deliveries day mails).0
run_deliveries-IsWellFormed_example = run_deliveries-IsWellFormed day mails mails-IsWellFormed

found : get "m1" mails ≡ some (new_delivery notice 1000)
unfolding get
found = refl

times_claimed-le_example :
    let (after, claimed_ids) = run_deliveries day mails in
    IsSound after
    × ((row' : MailDelivery) × (get "m1" after ≡ some row')
        × (row'.attempt ≡ 0 + times_claimed "m1" claimed_ids)
        × (0 + times_claimed "m1" claimed_ids ≤ 3)
        × (is_done (new_delivery notice 1000) ≡ true
            → (row' ≡ new_delivery notice 1000) × (times_claimed "m1" claimed_ids ≡ 0)))
times_claimed-le_example =
    times_claimed-le day mails "m1" (new_delivery notice 1000) day-IsTimely mails-IsSound refl found

process_next_mail_delivery-IsTurn_example :
    IsTurn "w1"
      (refused invalid_recipient)
      5
      2000
      3000
      mails
      (process_next_mail_delivery "w1" (refused invalid_recipient) 5 2000 3000 mails)
process_next_mail_delivery-IsTurn_example =
    process_next_mail_delivery-IsTurn "w1" (refused invalid_recipient) 5 2000 3000 mails
      mails-IsWellFormed.0
