-- ===== src/Invitations/Steps.antt =====
-- Every request does one event, or none.
use senecial.Base.{
  ℕ, String, Bool, ◌≡◌, refl, ◌∙◌, some, [], ◌∷◌, ◌++◌, str_eq, ◌&&◌, get, delete, Bool-cases,
  Option-cases, inl, inr, if◌then◌else◌,
}
use senecial.Members.{verify_owner}
use senecial.Mail.{enqueue_pending_mail_delivery}
use senecial.Mail.Process.{SendResult}
use senecial.Invitations.{
  OrganizationInvitation, member_invitation_resent, Database, compute_invitation_expires_at,
  build_invitation_resend_idempotency_key, is_live, find_invitation_by_token_hash,
  find_invitation_by_id, is_hash_taken, update_live, accepted, rotated, mark_invitation_accepted,
  rotate_invitation_token,
}
use senecial.Invitations.Requests.{
  conflict, Answer, failed, Made, invitation_mail, is_known, resend_mail, resend_transaction,
  resend_invitation, find_user_by_email,
}
use senecial.Invitations.Acceptance.{
  create_membership, check_invitation, accept_invitation, register_transaction,
  register_and_accept_invitation,
}
use senecial.Invitations.Runs.{Operation, create, resend, revoke, accept, register, run}
use senecial.Invitations.Events.{
  Event, nothing, created, was_accepted, was_revoked, was_rotated, Does, SomeEvent, refuses, either,
  deliver-tables, update_live-some, create-Event, revoke-Event, accept_transaction-Event,
}

-- Where an operation changes neither table, it does what was done before it.
same_tables :
    (db after later : Database)
    → (later.invitations ≡ after.invitations) × (later.audit_logs ≡ after.audit_logs)
    → (e : Event) → Does e db after
    → Does e db later
same_tables db after later (rows, logs) nothing (r, l) = (rows ∙ r, logs ∙ l)
same_tables db after later (rows, logs) (created id fields) (free, new, r, l) =
    (free, new, rows ∙ r, logs ∙ l)
same_tables db after later (rows, logs) (was_accepted id now) (row, there, live, r, l) =
    (row, there, live, rows ∙ r, logs ∙ l)
same_tables db after later (rows, logs) (was_revoked id now) (row, there, live, r, l) =
    (row, there, live, rows ∙ r, logs ∙ l)
same_tables db after later (rows, logs) (was_rotated id hash expires)
      (new, (row, there, live, r, l)) =
    (new, (row, there, live, rows ∙ r, logs ∙ l))

resend_mail-tables :
    (user_id organization_id id : String) (made : Made) (result : SendResult) (now : ℕ)
    (db : Database)
    → let after = (resend_mail user_id organization_id id made result now db).0 in
      (after.invitations ≡ db.invitations) × (after.audit_logs ≡ db.audit_logs)
unfolding resend_mail
resend_mail-tables user_id organization_id id made result now db =
    elim (Option-cases (find_invitation_by_id organization_id id db.invitations)) [
      | inl gone ↦ rw (gone, resend_mail) (refl, refl)
      | inr (row, there) ↦
          let fields =
            invitation_mail organization_id user_id made.recipient_hash
              (build_invitation_resend_idempotency_key id row.resend_count) in
          let (mails, mail) = enqueue_pending_mail_delivery made.mail_id fields now db.mails in
          let known =
            is_known (get user_id db.users) && is_known (get organization_id db.organizations) in
          elim (Option-cases mail) [
            | inl taken ↦ rw (there, taken, resend_mail) (refl, refl)
            | inr (mail_id, e) ↦ elim (Bool-cases known) [
              | inl both ↦
                  rw (there, e, both, resend_mail)
                    (deliver-tables (some mail_id) result now (record db { mails = mails }))
              | inr lost ↦ rw (there, e, lost, resend_mail) (refl, refl)
            ]
          ]
    ]

resend_transaction-Event :
    (user_id organization_id id : String) (made : Made) (result : SendResult) (now : ℕ)
    (db : Database)
    → SomeEvent db (resend_transaction user_id organization_id id made result now db).0
unfolding resend_transaction rotate_invitation_token
resend_transaction-Event user_id organization_id id made result now db =
    let expires_at = compute_invitation_expires_at now in
    elim (Bool-cases (is_hash_taken made.token_hash (delete id db.invitations))) [
      | inl taken ↦ rw (taken, rotate_invitation_token, resend_transaction) (refuses db)
      | inr new_hash ↦
          elim (Option-cases
            (update_live organization_id id (rotated made.token_hash expires_at) db.invitations)) [
              | inl over ↦
                  rw (new_hash, over, rotate_invitation_token, resend_transaction) (refuses db)
              | inr (rows, e) ↦
                  let (row, there, live, after) =
                    update_live-some organization_id id (rotated made.token_hash expires_at)
                      db.invitations rows e in
                  let logged = record db {
                    invitations = rows;
                    audit_logs = db.audit_logs ++ (id, member_invitation_resent) ∷ [];
                  } in
                  rw (new_hash, e, rotate_invitation_token, resend_transaction)
                    (
                      was_rotated id made.token_hash expires_at,
                      same_tables db logged
                          (resend_mail user_id organization_id id made result now logged).0
                          (resend_mail-tables user_id organization_id id made result now logged)
                          (was_rotated id made.token_hash expires_at)
                          (new_hash, (row, there, live, after, refl)),
                    )
            ]
    ]

resend-Event :
    (user_id organization_id id : String) (made : Made) (result : SendResult) (now : ℕ)
    (seen db : Database)
    → SomeEvent db (resend_invitation user_id organization_id id made result now seen db).0
unfolding resend_invitation
resend-Event user_id organization_id id made result now seen db =
    either db (verify_owner user_id organization_id seen.memberships) _ _
      (elim (Option-cases (find_invitation_by_id organization_id id seen.invitations)) [
        | inl gone ↦ rw gone (refuses db)
        | inr (row, e) ↦ rw e (
            either db (is_live row) _ _
              (resend_transaction-Event user_id organization_id id made result now db) (refuses db))
      ])
      (refuses db)

accept-Event :
    (user_id token_hash membership_id : String) (read_at now : ℕ) (seen db : Database)
    → SomeEvent db (accept_invitation user_id token_hash membership_id read_at now seen db).0
unfolding accept_invitation
accept-Event user_id token_hash membership_id read_at now seen db =
    elim (Option-cases (find_invitation_by_token_hash token_hash seen.invitations)) [
      | inl gone ↦ rw (gone, accept_invitation) (refuses db)
      | inr ((id, invitation), e) ↦ elim (Option-cases (check_invitation invitation read_at)) [
        | inr (failure, e') ↦ rw (e, e', accept_invitation) (refuses db)
        | inl passes ↦ elim (Option-cases (get user_id seen.users)) [
          | inl nobody ↦ rw (e, passes, nobody, accept_invitation) (refuses db)
          | inr (email, known) ↦
              rw (e, passes, known, accept_invitation)
                (either db (str_eq email invitation.email) _ _
                  (either db (is_known (get invitation.organization_id seen.organizations)) _ _
                    (accept_transaction-Event user_id id invitation membership_id now db)
                    (refuses db))
                  (refuses db))
        ]
      ]
    ]

register_transaction-Event :
    (id : String) (invitation : OrganizationInvitation) (new_user_id membership_id : String)
    (now : ℕ) (db : Database)
    → SomeEvent db (register_transaction id invitation new_user_id membership_id now db).0
unfolding register_transaction mark_invitation_accepted
register_transaction-Event id invitation new_user_id membership_id now db =
    let change = update_live invitation.organization_id id (accepted now) db.invitations in
    elim (Option-cases (get id db.invitations)) [
      | inl gone ↦ rw (gone, register_transaction) (refuses db)
      | inr (row, there) ↦
          elim (Option-cases (
            create_membership membership_id new_user_id invitation.organization_id invitation.role
              db.memberships)) [
                | inl clash ↦ rw (there, clash, register_transaction) (guarded row _ (refuses db))
                | inr (memberships, joined) ↦ elim (Option-cases change) [
                  | inl over ↦
                      rw (there, joined, over, mark_invitation_accepted, register_transaction)
                        (guarded row _ (refuses db))
                  | inr (rows, e) ↦
                      let (old, found, live, after) =
                        update_live-some invitation.organization_id id (accepted now) db.invitations
                          rows e in
                      rw (there, joined, e, mark_invitation_accepted, register_transaction)
                        (guarded row _ (was_accepted id now, (old, found, live, after, refl)))
                ]
              ]
    ]
  where
    guarded :
        (row : OrganizationInvitation) (x : Database × Answer)
        → SomeEvent db x.0
        → SomeEvent db
            (if is_live row
              then if is_known (find_user_by_email invitation.email db.users)
                then (db, failed conflict)
                else x
              else (db, failed conflict)).0
    guarded row x h =
        either db (is_live row) _ _
          (either db (is_known (find_user_by_email invitation.email db.users)) _ _ (refuses db) h)
          (refuses db)

register-Event :
    (valid : Bool) (token_hash new_user_id membership_id : String) (read_at now : ℕ)
    (seen db : Database)
    → SomeEvent db
        (register_and_accept_invitation valid token_hash new_user_id membership_id read_at now seen
          db).0
unfolding register_and_accept_invitation
register-Event valid token_hash new_user_id membership_id read_at now seen db =
    either db valid _ _
      (elim (Option-cases (find_invitation_by_token_hash token_hash seen.invitations)) [
        | inl gone ↦ rw gone (refuses db)
        | inr ((id, invitation), e) ↦ elim (Option-cases (check_invitation invitation read_at)) [
          | inr (failure, e') ↦ rw (e, e') (refuses db)
          | inl passes ↦
              rw (e, passes)
                (either db (is_known (find_user_by_email invitation.email seen.users)) _ _
                  (refuses db)
                  (register_transaction-Event id invitation new_user_id membership_id now db))
        ]
      ])
      (refuses db)

pub run-Event : (o : Operation) (seen db : Database) → SomeEvent db (run o seen db).0
unfolding run
run-Event (create user_id organization_id input made result now) seen db =
    create-Event user_id organization_id input made result now seen db
run-Event (resend user_id organization_id id made result now) seen db =
    resend-Event user_id organization_id id made result now seen db
run-Event (revoke user_id organization_id id now) seen db =
    revoke-Event user_id organization_id id now seen db
run-Event (accept user_id token_hash membership_id read_at now) seen db =
    accept-Event user_id token_hash membership_id read_at now seen db
run-Event (register valid token_hash new_user_id membership_id read_at now) seen db =
    register-Event valid token_hash new_user_id membership_id read_at now seen db
