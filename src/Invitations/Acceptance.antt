-- ===== src/Invitations/Acceptance.antt =====
-- accept-invitation.ts and register-and-accept-invitation.ts: the checks on what was read, and the
-- transaction.
use senecial.Base.{ℕ, String, Bool, Option, none, some, str_eq, if◌then◌else◌, get, put}
use senecial.Members.{MembershipRole, Memberships, find_membership_by_user_and_organization}
use senecial.Invitations.Repository.{
  OrganizationInvitation, member_invitation_accepted, Database, is_invitation_expired, is_live,
  find_invitation_by_token_hash, mark_invitation_accepted,
}
use senecial.Invitations.Requests.{
  Failure, not_found, validation, forbidden, conflict, unexpected, Answer, done, failed, log,
  is_member, is_known, find_user_by_email,
}

-- `membership.create`, which violates an index where the user is a member or the id is taken.
unfoldable pub create_membership :
    String → String → String → MembershipRole → Memberships → Option Memberships
unfolding find_membership_by_user_and_organization get put
create_membership id user_id organization_id role rows =
    if is_member (find_membership_by_user_and_organization user_id organization_id rows)
    then none
    else elim (get id rows) [
      | some old ↦ none
      | none ↦ some (
          put id (record { user_id = user_id; organization_id = organization_id; role = role })
            rows)
    ]

-- The transaction of `acceptInvitation`, rolled back where the invitation is no longer live. The `catch`
-- goes on after a violated index of the user, but PostgreSQL has aborted the transaction by then: its next
-- statement is an error, and all is rolled back.
unfoldable pub accept_transaction :
    String → String → OrganizationInvitation → String → ℕ → Database → Database × Answer
unfolding create_membership mark_invitation_accepted
accept_transaction user_id id invitation membership_id now db =
    elim (create_membership membership_id user_id invitation.organization_id invitation.role
      db.memberships) [
        | none ↦ (db, failed unexpected)
        | some memberships ↦
            elim (mark_invitation_accepted invitation.organization_id id now db.invitations) [
              | none ↦ (db, failed conflict)
              | some rows ↦ (
                log id member_invitation_accepted
                    (record db { invitations = rows; memberships = memberships }),
                done,
              )
            ]
      ]

-- The checks of an invitation that was found.
unfoldable pub check_invitation : OrganizationInvitation → ℕ → Option Failure
unfolding is_invitation_expired
check_invitation invitation now =
    if is_live invitation
    then if is_invitation_expired invitation.expires_at now then some conflict else none
    else some conflict

unfoldable pub accept_invitation :
    String → String → String → ℕ → ℕ → Database → Database → Database × Answer
unfolding find_invitation_by_token_hash check_invitation get accept_transaction
accept_invitation user_id token_hash membership_id read_at now seen db =
    elim (find_invitation_by_token_hash token_hash seen.invitations) [
      | none ↦ (db, failed not_found)
      | some (id, invitation) ↦ elim (check_invitation invitation read_at) [
        | some failure ↦ (db, failed failure)
        | none ↦ elim (get user_id seen.users) [
          | none ↦ (db, failed validation)
          | some email ↦
              if str_eq email invitation.email
              then if is_known (get invitation.organization_id seen.organizations)
                then accept_transaction user_id id invitation membership_id now db
                else (db, failed not_found)
              else (db, failed forbidden)
        ]
      ]
    ]

-- The transaction of `registerAndAcceptInvitation`; the columns of a user but the email are left out.
unfoldable pub register_transaction :
    String → OrganizationInvitation → String → String → ℕ → Database → Database × Answer
unfolding get find_user_by_email create_membership mark_invitation_accepted put
register_transaction id invitation new_user_id membership_id now db = elim (get id db.invitations) [
  | none ↦ (db, failed conflict)
  | some row ↦
      if is_live row
      then if is_known (find_user_by_email invitation.email db.users)
        then (db, failed conflict)
        else elim (create_membership membership_id new_user_id invitation.organization_id
            invitation.role db.memberships) [
              | none ↦ (db, failed unexpected)
              | some memberships ↦
                  elim (mark_invitation_accepted invitation.organization_id id now db.invitations) [
                    | none ↦ (db, failed conflict)
                    | some rows ↦ (
                      log id member_invitation_accepted (record db {
                        invitations = rows;
                        users = put new_user_id invitation.email db.users;
                        memberships = memberships;
                      }),
                      done,
                    )
                  ]
            ]
      else (db, failed conflict)
]

-- `valid` says that the schema accepts the input.
unfoldable pub register_and_accept_invitation :
    Bool → String → String → String → ℕ → ℕ → Database → Database → Database × Answer
unfolding find_invitation_by_token_hash check_invitation find_user_by_email register_transaction
register_and_accept_invitation valid token_hash new_user_id membership_id read_at now seen db =
    if valid
    then elim (find_invitation_by_token_hash token_hash seen.invitations) [
      | none ↦ (db, failed conflict)
      | some (id, invitation) ↦ elim (check_invitation invitation read_at) [
        | some failure ↦ (db, failed failure)
        | none ↦
            if is_known (find_user_by_email invitation.email seen.users)
            then (db, failed conflict)
            else register_transaction id invitation new_user_id membership_id now db
      ]
    ]
    else (db, failed validation)
