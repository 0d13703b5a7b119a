-- ===== src/Invitations/Events.antt =====
-- What a request does to the table of invitations and to the log, whatever it has read.
use senecial.Base.{
  ℕ, String, Bool, true, false, ◌≡◌, refl, sym, Option, none, some, [], ◌∷◌, ◌++◌, str_eq, ◌&&◌,
  ◌||◌, get, put, delete, Bool-cases, Option-cases, inl, inr, none-ne-some, some-inj, if◌then◌else◌,
}
use senecial.Members.{MembershipRole, verify_owner}
use senecial.Mail.{EnqueuePendingMailDeliveryData, enqueue_pending_mail_delivery}
use senecial.Mail.Process.{SendResult}
use senecial.Invitations.{
  OrganizationInvitation, Invitations, AuditAction, member_invited, member_invitation_resent,
  member_invitation_revoked, member_invitation_accepted, Database, compute_invitation_expires_at,
  build_invitation_idempotency_key, is_live, find_live_invitation_by_email, find_invitation_by_id,
  is_hash_taken, CreateInvitationData, new_invitation, create_invitation_row, update_live, accepted,
  revoked, rotated, mark_invitation_accepted, revoke_invitation_row,
}
use senecial.Invitations.Requests.{
  Made, Answer, deliver, mail_and_deliver, invitation_mail, create_transaction, is_member_by_email,
  is_known, is_found, create_invitation, revoke_transaction, revoke_invitation,
}
use senecial.Invitations.Acceptance.{create_membership, accept_transaction}

pub data Event : Type 0 where
  nothing : Event
  created : String → CreateInvitationData → Event
  was_accepted was_revoked : String → ℕ → Event
  was_rotated : String → String → ℕ → Event

-- A live row is changed, and the change is logged.
abbrev pub Changes :
    String
    → (OrganizationInvitation → OrganizationInvitation)
    → AuditAction
    → Database
    → Database
    → Type 0
Changes id change action db after =
    (row : OrganizationInvitation) × (get id db.invitations ≡ some row)
    × (is_live row ≡ true)
    × (after.invitations ≡ put id (change row) db.invitations)
    × (after.audit_logs ≡ db.audit_logs ++ (id, action) ∷ [])

abbrev pub Does : Event → Database → Database → Type 0
Does nothing db after = (after.invitations ≡ db.invitations) × (after.audit_logs ≡ db.audit_logs)
Does (created id fields) db after =
    (get id db.invitations ≡ none)
    × (is_hash_taken fields.token_hash db.invitations ≡ false)
    × (after.invitations ≡ put id (new_invitation fields) db.invitations)
    × (after.audit_logs ≡ db.audit_logs ++ (id, member_invited) ∷ [])
Does (was_accepted id now) db after = Changes id (accepted now) member_invitation_accepted db after
Does (was_revoked id now) db after = Changes id (revoked now) member_invitation_revoked db after
Does (was_rotated id token_hash expires_at) db after =
    (is_hash_taken token_hash (delete id db.invitations) ≡ false)
    × Changes id (rotated token_hash expires_at) member_invitation_resent db after

abbrev pub SomeEvent : Database → Database → Type 0
SomeEvent db after = (e : Event) × Does e db after

pub refuses : (db : Database) → SomeEvent db db
refuses db = (nothing, (refl, refl))

pub update_live-some :
    (organization_id id : String) (change : OrganizationInvitation → OrganizationInvitation)
    (rows after : Invitations)
    → update_live organization_id id change rows ≡ some after
    → (row : OrganizationInvitation) × (get id rows ≡ some row)
      × (is_live row ≡ true)
      × (after ≡ put id (change row) rows)
unfolding update_live find_invitation_by_id
update_live-some organization_id id change rows after e = elim (Option-cases (get id rows)) [
  | inl gone ↦ absurd (none-ne-some (rw (gone, find_invitation_by_id, update_live) at e))
  | inr (row, there) ↦ elim (Bool-cases (str_eq row.organization_id organization_id)) [
    | inr theirs ↦
        absurd (none-ne-some (rw (there, theirs, find_invitation_by_id, update_live) at e))
    | inl ours ↦ elim (Bool-cases (is_live row)) [
      | inr over ↦
          absurd (none-ne-some (rw (there, ours, over, find_invitation_by_id, update_live) at e))
      | inl live ↦ (
        row,
        there,
        live,
        sym (some-inj (rw (there, ours, live, find_invitation_by_id, update_live) at e)),
      )
    ]
  ]
]

-- A test in front of what a request does.
pub either :
    (db : Database) (test : Bool) (x y : Database × Answer)
    → SomeEvent db x.0
    → SomeEvent db y.0
    → SomeEvent db (if test then x else y).0
either db true x y hx hy = hx
either db false x y hx hy = hy

pub deliver-tables :
    (mail : Option String) (result : SendResult) (now : ℕ) (db : Database)
    → ((deliver mail result now db).invitations ≡ db.invitations)
      × ((deliver mail result now db).audit_logs ≡ db.audit_logs)
unfolding deliver
deliver-tables none result now db = (refl, refl)
deliver-tables (some mail_id) result now db = (refl, refl)

mail_and_deliver-tables :
    (fields : EnqueuePendingMailDeliveryData) (mail_id : String) (result : SendResult) (now : ℕ)
    (db : Database)
    → ((mail_and_deliver fields mail_id result now db).invitations ≡ db.invitations)
      × ((mail_and_deliver fields mail_id result now db).audit_logs ≡ db.audit_logs)
unfolding mail_and_deliver
mail_and_deliver-tables fields mail_id result now db =
    let (mails, made) = enqueue_pending_mail_delivery mail_id fields now db.mails in
    deliver-tables made result now (record db { mails = mails })

create_transaction-Event :
    (user_id organization_id email : String) (role : MembershipRole) (made : Made)
    (result : SendResult) (now : ℕ) (db : Database)
    → SomeEvent db (create_transaction user_id organization_id email role made result now db).0
unfolding create_transaction create_invitation_row
create_transaction-Event user_id organization_id email role made result now db =
    let fields : CreateInvitationData = record {
      organization_id = organization_id;
      email = email;
      role = role;
      token_hash = made.token_hash;
      invited_by_id = user_id;
      expires_at = compute_invitation_expires_at now;
    } in
    elim (Option-cases (get made.id db.invitations)) [
      | inr (row, there) ↦ rw (there, create_invitation_row, create_transaction) (refuses db)
      | inl free ↦ elim (Bool-cases (is_hash_taken made.token_hash db.invitations)) [
        | inl taken ↦ rw (free, taken, create_invitation_row, create_transaction) (refuses db)
        | inr new_hash ↦
            let rows = put made.id (new_invitation fields) db.invitations in
            let mail =
              invitation_mail organization_id user_id made.recipient_hash
                (build_invitation_idempotency_key made.id) in
            let logged = mail_and_deliver-tables mail made.mail_id result now (record db {
              invitations = rows;
              audit_logs = db.audit_logs ++ (made.id, member_invited) ∷ [];
            }) in
            rw (free, new_hash, create_invitation_row, create_transaction)
              (created made.id fields, (free, new_hash, logged.0, logged.1))
      ]
    ]

pub create-Event :
    (user_id organization_id : String) (input : Option (String × MembershipRole)) (made : Made)
    (result : SendResult) (now : ℕ) (seen db : Database)
    → SomeEvent db (create_invitation user_id organization_id input made result now seen db).0
unfolding create_invitation
create-Event user_id organization_id none made result now seen db =
    either db (verify_owner user_id organization_id seen.memberships) _ _ (refuses db) (refuses db)
create-Event user_id organization_id (some (email, role)) made result now seen db =
    either db (verify_owner user_id organization_id seen.memberships) _ _
      (either db
        (is_known (get user_id seen.users) && is_known (get organization_id seen.organizations)) _ _
        (either db
          (is_member_by_email organization_id email seen
            || is_found (find_live_invitation_by_email organization_id email seen.invitations))
          _ _ (refuses db)
          (create_transaction-Event user_id organization_id email role made result now db))
        (refuses db))
      (refuses db)

revoke_transaction-Event :
    (organization_id id : String) (now : ℕ) (db : Database)
    → SomeEvent db (revoke_transaction organization_id id now db).0
unfolding revoke_transaction revoke_invitation_row
revoke_transaction-Event organization_id id now db =
    elim (Option-cases (update_live organization_id id (revoked now) db.invitations)) [
      | inl over ↦ rw (over, revoke_invitation_row, revoke_transaction) (refuses db)
      | inr (rows, e) ↦
          let (row, there, live, after) =
            update_live-some organization_id id (revoked now) db.invitations rows e in
          rw (e, revoke_invitation_row, revoke_transaction)
            (was_revoked id now, (row, there, live, after, refl))
    ]

pub revoke-Event :
    (user_id organization_id id : String) (now : ℕ) (seen db : Database)
    → SomeEvent db (revoke_invitation user_id organization_id id now seen db).0
unfolding revoke_invitation
revoke-Event user_id organization_id id now seen db =
    either db (verify_owner user_id organization_id seen.memberships) _ _
      (elim (Option-cases (find_invitation_by_id organization_id id seen.invitations)) [
        | inl gone ↦ rw gone (refuses db)
        | inr (row, e) ↦ rw e (
            either db (is_live row) _ _ (revoke_transaction-Event organization_id id now db)
              (refuses db))
      ])
      (refuses db)

pub accept_transaction-Event :
    (user_id id : String) (invitation : OrganizationInvitation) (membership_id : String) (now : ℕ)
    (db : Database)
    → SomeEvent db (accept_transaction user_id id invitation membership_id now db).0
unfolding accept_transaction mark_invitation_accepted
accept_transaction-Event user_id id invitation membership_id now db =
    let change = update_live invitation.organization_id id (accepted now) db.invitations in
    elim (Option-cases (
      create_membership membership_id user_id invitation.organization_id invitation.role
        db.memberships)) [
          | inl clash ↦ rw (clash, accept_transaction) (refuses db)
          | inr (memberships, joined) ↦ elim (Option-cases change) [
            | inl over ↦
                rw (joined, over, mark_invitation_accepted, accept_transaction) (refuses db)
            | inr (rows, e) ↦
                let (row, there, live, after) =
                  update_live-some invitation.organization_id id (accepted now) db.invitations rows
                    e in
                rw (joined, e, mark_invitation_accepted, accept_transaction)
                  (was_accepted id now, (row, there, live, after, refl))
          ]
        ]
