-- ===== src/Mail/Repository.antt =====
-- src/server/repositories/mail-delivery-repository.ts over the table of deliveries. The columns that no
-- operation reads are left out: the provider, its message id and the message of an error. An operation of
-- the database runs by itself, and an instant is milliseconds since the epoch.
use senecial.Base.{
  ℕ, ◌+◌, ◌*◌, String, Bool, true, false, Option, none, some, List, [], ◌∷◌, ◌++◌, ltb, leb, str_eq,
  ◌&&◌, ◌||◌, if◌then◌else◌, Dict, get, put,
}
use senecial.Base.Tables.{update_row, find_many, first_by}
use senecial.Mail.Policies.{MessageType, MailErrorCode, is_token_mail, is_worker_handled}

pub data MailDeliveryStatus : Type 0 where
  pending sending sent failed cancelled : MailDeliveryStatus

abbrev pub is_pending_status : MailDeliveryStatus → Bool
is_pending_status pending = true
is_pending_status sending = false
is_pending_status sent = false
is_pending_status failed = false
is_pending_status cancelled = false

abbrev pub is_sending_status : MailDeliveryStatus → Bool
is_sending_status sending = true
is_sending_status pending = false
is_sending_status sent = false
is_sending_status failed = false
is_sending_status cancelled = false

pub record MailDelivery : Type 0 where
  pub organization_id : Option String
  pub user_id : Option String
  pub message_type : MessageType
  pub recipient_hash : String
  pub idempotency_key : String
  pub status : MailDeliveryStatus
  pub attempt : ℕ
  pub max_attempts : ℕ
  pub scheduled_for : ℕ
  pub locked_at : Option ℕ
  pub locked_by : Option String
  pub sent_at : Option ℕ
  pub failed_at : Option ℕ
  pub error_code : Option MailErrorCode
  pub created_at : ℕ

abbrev pub Mails : Type 0
Mails = Dict MailDelivery

pub record EnqueuePendingMailDeliveryData : Type 0 where
  pub organization_id : Option String
  pub user_id : Option String
  pub message_type : MessageType
  pub recipient_hash : String
  pub idempotency_key : String

-- The row with the defaults of the schema.
abbrev pub new_delivery : EnqueuePendingMailDeliveryData → ℕ → MailDelivery
new_delivery fields now = record {
  organization_id = fields.organization_id;
  user_id = fields.user_id;
  message_type = fields.message_type;
  recipient_hash = fields.recipient_hash;
  idempotency_key = fields.idempotency_key;
  status = pending;
  attempt = 0;
  max_attempts = 3;
  scheduled_for = now;
  locked_at = none;
  locked_by = none;
  sent_at = none;
  failed_at = none;
  error_code = none;
  created_at = now;
}

-- The unique columns: a new row violates a constraint if its id or its idempotency key is taken.
unfoldable pub is_taken : String → String → Mails → Bool
is_taken id key [] = false
is_taken id key ((other_id, other) ∷ mails) =
    str_eq other_id id || str_eq other.idempotency_key key || is_taken id key mails

-- `id` is the key that the database makes. A violated constraint is a silent no-op, `none`.
unfoldable pub enqueue_pending_mail_delivery :
    String → EnqueuePendingMailDeliveryData → ℕ → Mails → Mails × Option String
unfolding is_taken
enqueue_pending_mail_delivery id fields now mails =
    if is_taken id fields.idempotency_key mails
    then (mails, none)
    else (mails ++ (id, new_delivery fields now) ∷ [], some id)

abbrev pub is_claimable : ℕ → MailDelivery → Bool
is_claimable now mail =
    is_pending_status mail.status
    && leb mail.scheduled_for now
    && is_worker_handled mail.message_type

abbrev pub claimed : String → ℕ → MailDelivery → MailDelivery
claimed worker_id now mail = record mail {
  status = sending;
  attempt = mail.attempt + 1;
  locked_at = some now;
  locked_by = some worker_id;
}

-- The claim, and the claimed row with its key as the update returns it.
unfoldable pub claim_next_pending_mail_delivery :
    String → ℕ → Mails → Mails × Option (String × MailDelivery)
unfolding first_by update_row
claim_next_pending_mail_delivery worker_id now mails =
    elim (first_by (is_claimable now) (λ mail. mail.scheduled_for) mails) [
      | none ↦ (mails, none)
      | some (id, mail) ↦
          (update_row id (claimed worker_id now) mails, some (id, claimed worker_id now mail))
    ]

abbrev pub as_sending : MailDelivery → MailDelivery
as_sending mail = record mail { status = sending; attempt = mail.attempt + 1 }

abbrev pub as_sent : ℕ → MailDelivery → MailDelivery
as_sent now mail = record mail {
  status = sent;
  sent_at = some now;
  locked_at = none;
  locked_by = none;
}

abbrev pub as_retrying : ℕ → MailErrorCode → MailDelivery → MailDelivery
as_retrying scheduled_for code mail = record mail {
  status = pending;
  scheduled_for = scheduled_for;
  error_code = some code;
  locked_at = none;
  locked_by = none;
}

abbrev pub as_failed : ℕ → MailErrorCode → MailDelivery → MailDelivery
as_failed now code mail = record mail {
  status = failed;
  failed_at = some now;
  error_code = some code;
  locked_at = none;
  locked_by = none;
}

abbrev pub as_reset : ℕ → MailDelivery → MailDelivery
as_reset now mail = record mail {
  status = pending;
  scheduled_for = now;
  locked_at = none;
  locked_by = none;
}

abbrev pub as_cancelled : ℕ → MailErrorCode → MailDelivery → MailDelivery
as_cancelled now code mail = record mail {
  status = cancelled;
  failed_at = some now;
  error_code = some code;
  locked_at = none;
  locked_by = none;
}

unfoldable pub mark_mail_delivery_sending : String → Mails → Mails
unfolding update_row
mark_mail_delivery_sending id mails = update_row id as_sending mails

unfoldable pub mark_mail_delivery_sent : String → ℕ → Mails → Mails
unfolding update_row
mark_mail_delivery_sent id now mails = update_row id (as_sent now) mails

unfoldable pub mark_mail_delivery_retrying : String → ℕ → MailErrorCode → Mails → Mails
unfolding update_row
mark_mail_delivery_retrying id scheduled_for code mails =
    update_row id (as_retrying scheduled_for code) mails

unfoldable pub mark_mail_delivery_failed : String → ℕ → MailErrorCode → Mails → Mails
unfolding update_row
mark_mail_delivery_failed id now code mails = update_row id (as_failed now code) mails

-- `lockedAt: { lt: staleBefore }`, `staleBefore` being `now` less the threshold
abbrev pub is_stale_sending : ℕ → ℕ → MailDelivery → Bool
is_stale_sending stale_minutes now mail = elim mail.locked_at [
  | none ↦ false
  | some locked_at ↦
      is_sending_status mail.status
      && ltb (locked_at + stale_minutes * 60 * 1000) now
      && is_worker_handled mail.message_type
]

unfoldable pub find_stale_sending_mail_deliveries : ℕ → ℕ → Mails → List (String × MailDelivery)
unfolding find_many
find_stale_sending_mail_deliveries stale_minutes now mails =
    find_many (is_stale_sending stale_minutes now) mails

unfoldable pub reset_mail_delivery_to_pending : String → ℕ → Mails → Mails
unfolding update_row
reset_mail_delivery_to_pending id now mails = update_row id (as_reset now) mails

-- The rows as they come; the source orders them by their creation.
unfoldable pub find_stale_pending_token_deliveries : ℕ → ℕ → Mails → List (String × MailDelivery)
unfolding find_many
find_stale_pending_token_deliveries stale_minutes now mails =
    find_many
      (λ mail.
        is_pending_status mail.status
        && ltb (mail.created_at + stale_minutes * 60 * 1000) now
        && is_token_mail mail.message_type)
      mails

-- The condition is tested when the row is written.
unfoldable pub mark_mail_delivery_cancelled_if_pending :
    String → ℕ → MailErrorCode → Mails → Mails × Bool
unfolding get put
mark_mail_delivery_cancelled_if_pending id now code mails = elim (get id mails) [
  | none ↦ (mails, false)
  | some mail ↦
      if is_pending_status mail.status
      then (put id (as_cancelled now code mail) mails, true)
      else (mails, false)
]
