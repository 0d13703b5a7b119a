-- ===== src/Invitations/Requests.antt =====
-- The requests on invitations. An error after the transaction has been committed leaves what it wrote.
use senecial.Base.{
  ℕ, String, Bool, true, false, Option, none, some, [], ◌∷◌, ◌++◌, str_eq, ◌&&◌, ◌||◌,
  if◌then◌else◌, Dict, get,
}
use senecial.Members.{
  MembershipRole, Membership, verify_owner, find_membership_by_user_and_organization,
}
use senecial.Mail.{
  organization_invitation, EnqueuePendingMailDeliveryData, enqueue_pending_mail_delivery,
}
use senecial.Mail.Process.{SendResult, send_tracked_mail}
use senecial.Invitations.Repository.{
  OrganizationInvitation, Invitations, AuditAction, member_invited, member_invitation_resent,
  member_invitation_revoked, Database, compute_invitation_expires_at,
  build_invitation_idempotency_key, build_invitation_resend_idempotency_key, is_live,
  find_live_invitation_by_email, find_invitation_by_id, create_invitation_row,
  revoke_invitation_row, rotate_invitation_token,
}

-- `unexpected` is an error of the database that the code does not handle.
pub data Failure : Type 0 where
  not_found validation forbidden conflict unexpected : Failure

pub data Answer : Type 0 where
  done : Answer
  failed : Failure → Answer

abbrev pub log : String → AuditAction → Database → Database
log id action db = record db { audit_logs = db.audit_logs ++ (id, action) ∷ [] }

-- `deliverInvitationMail` on the row that the transaction made, if it made one; its error is only logged.
unfoldable pub deliver : Option String → SendResult → ℕ → Database → Database
unfolding send_tracked_mail
deliver none result now db = db
deliver (some mail_id) result now db = record db {
  mails = send_tracked_mail mail_id result now db.mails;
}

-- The keys that the database makes, the new token's hash and the mail's recipient hash are arguments.
pub record Made : Type 0 where
  pub id : String
  pub mail_id : String
  pub token_hash : String
  pub recipient_hash : String

abbrev pub invitation_mail : String → String → String → String → EnqueuePendingMailDeliveryData
invitation_mail organization_id user_id recipient_hash key = record {
  organization_id = some organization_id;
  user_id = some user_id;
  message_type = organization_invitation;
  recipient_hash = recipient_hash;
  idempotency_key = key;
}

-- The row of a mail in the same transaction, and the delivery after it.
unfoldable pub mail_and_deliver :
    EnqueuePendingMailDeliveryData → String → SendResult → ℕ → Database → Database
unfolding enqueue_pending_mail_delivery deliver
mail_and_deliver fields mail_id result now db =
    let (mails, made) = enqueue_pending_mail_delivery mail_id fields now db.mails in
    deliver made result now (record db { mails = mails })

-- The transaction of `createInvitation`.
unfoldable pub create_transaction :
    String → String → String → MembershipRole → Made → SendResult → ℕ → Database → Database × Answer
unfolding create_invitation_row mail_and_deliver compute_invitation_expires_at
    build_invitation_idempotency_key
create_transaction user_id organization_id email role made result now db =
    elim (create_invitation_row made.id
      (record {
        organization_id = organization_id;
        email = email;
        role = role;
        token_hash = made.token_hash;
        invited_by_id = user_id;
        expires_at = compute_invitation_expires_at now;
      })
      db.invitations) [
        | none ↦ (db, failed unexpected)
        | some rows ↦ (
          mail_and_deliver
              (invitation_mail organization_id user_id made.recipient_hash
                (build_invitation_idempotency_key made.id))
              made.mail_id result now
              (log made.id member_invited (record db { invitations = rows })),
          done,
        )
      ]

-- The user with an email.
unfoldable pub find_user_by_email : String → Dict String → Option String
find_user_by_email email [] = none
find_user_by_email email ((id, found) ∷ users) =
    let rest = find_user_by_email email users in if str_eq found email then some id else rest

abbrev pub is_member : Option Membership → Bool
is_member none = false
is_member (some row) = true

-- A user with the email is already a member.
unfoldable pub is_member_by_email : String → String → Database → Bool
unfolding find_user_by_email find_membership_by_user_and_organization
is_member_by_email organization_id email db = elim (find_user_by_email email db.users) [
  | none ↦ false
  | some user_id ↦
      is_member (find_membership_by_user_and_organization user_id organization_id db.memberships)
]

abbrev pub is_known : Option String → Bool
is_known none = false
is_known (some text) = true

abbrev pub is_found : Option (String × OrganizationInvitation) → Bool
is_found none = false
is_found (some found) = true

-- `none` is an input that the schema rejects.
unfoldable pub create_invitation :
    String
    → String
    → Option (String × MembershipRole)
    → Made
    → SendResult
    → ℕ
    → Database
    → Database
    → Database × Answer
unfolding verify_owner get is_member_by_email find_live_invitation_by_email create_transaction
create_invitation user_id organization_id input made result now seen db =
    if verify_owner user_id organization_id seen.memberships
    then elim input [
      | none ↦ (db, failed validation)
      | some (email, role) ↦
          if is_known (get user_id seen.users) && is_known (get organization_id seen.organizations)
          then if is_member_by_email organization_id email seen
              || is_found (find_live_invitation_by_email organization_id email seen.invitations)
            then (db, failed conflict)
            else create_transaction user_id organization_id email role made result now db
          else (db, failed validation)
    ]
    else (db, failed forbidden)

-- The row as it stands after its token was rotated.
unfoldable pub resend_mail :
    String → String → String → Made → SendResult → ℕ → Database → Database × Answer
unfolding get find_invitation_by_id enqueue_pending_mail_delivery deliver
    build_invitation_resend_idempotency_key
resend_mail user_id organization_id id made result now db =
    elim (find_invitation_by_id organization_id id db.invitations) [
      | none ↦ (db, failed conflict)
      | some row ↦
          let (mails, mail) =
            enqueue_pending_mail_delivery made.mail_id
              (invitation_mail organization_id user_id made.recipient_hash
                (build_invitation_resend_idempotency_key id row.resend_count))
              now db.mails in
          let db' = record db { mails = mails } in
          elim mail [
            | none ↦ (db', done)
            | some mail_id ↦
                if is_known (get user_id db.users)
                  && is_known (get organization_id db.organizations)
                then (deliver (some mail_id) result now db', done)
                else (db', failed validation)
          ]
    ]

-- Why a rotation fails: the row is not live, or the new hash is another row's.
unfoldable pub rotation_failure : String → String → Invitations → Failure
unfolding find_invitation_by_id
rotation_failure organization_id id rows = elim (find_invitation_by_id organization_id id rows) [
  | none ↦ conflict
  | some row ↦ if is_live row then unexpected else conflict
]

unfoldable pub resend_transaction :
    String → String → String → Made → SendResult → ℕ → Database → Database × Answer
unfolding rotate_invitation_token compute_invitation_expires_at resend_mail rotation_failure
resend_transaction user_id organization_id id made result now db =
    elim (rotate_invitation_token organization_id id made.token_hash
      (compute_invitation_expires_at now) db.invitations) [
        | none ↦ (db, failed (rotation_failure organization_id id db.invitations))
        | some rows ↦
            resend_mail user_id organization_id id made result now
              (log id member_invitation_resent (record db { invitations = rows }))
      ]

unfoldable pub resend_invitation :
    String → String → String → Made → SendResult → ℕ → Database → Database → Database × Answer
unfolding verify_owner find_invitation_by_id resend_transaction
resend_invitation user_id organization_id id made result now seen db =
    if verify_owner user_id organization_id seen.memberships
    then elim (find_invitation_by_id organization_id id seen.invitations) [
      | none ↦ (db, failed not_found)
      | some row ↦
          if is_live row
          then resend_transaction user_id organization_id id made result now db
          else (db, failed conflict)
    ]
    else (db, failed forbidden)

unfoldable pub revoke_transaction : String → String → ℕ → Database → Database × Answer
unfolding revoke_invitation_row
revoke_transaction organization_id id now db =
    elim (revoke_invitation_row organization_id id now db.invitations) [
      | none ↦ (db, failed not_found)
      | some rows ↦ (log id member_invitation_revoked (record db { invitations = rows }), done)
    ]

unfoldable pub revoke_invitation :
    String → String → String → ℕ → Database → Database → Database × Answer
unfolding verify_owner find_invitation_by_id revoke_transaction
revoke_invitation user_id organization_id id now seen db =
    if verify_owner user_id organization_id seen.memberships
    then elim (find_invitation_by_id organization_id id seen.invitations) [
      | none ↦ (db, failed not_found)
      | some row ↦
          if is_live row
          then revoke_transaction organization_id id now db
          else (db, failed not_found)
    ]
    else (db, failed forbidden)
