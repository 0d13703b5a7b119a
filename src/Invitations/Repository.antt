-- ===== src/Invitations/Repository.antt =====
-- src/server/repositories/invitation-repository.ts and src/domain/invitations/invitation-expiry.ts over
-- the table of invitations, and what the requests use of the other tables. A violated constraint is `none`.
use Prim.Native.String.{◌++◌ as ◌<>◌}
use senecial.Base.{
  ℕ, ◌+◌, ◌*◌, String, Bool, true, false, Option, none, some, List, [], ◌∷◌, leb, str_eq, ◌&&◌,
  ◌||◌, if◌then◌else◌, Dict, get, put, delete,
}
use senecial.Base.Decimal.{show_nat}
use senecial.Members.{MembershipRole, Memberships}
use senecial.Mail.{Mails}

pub record OrganizationInvitation : Type 0 where
  pub organization_id : String
  pub email : String
  pub role : MembershipRole
  pub token_hash : String
  pub invited_by_id : String
  pub expires_at : ℕ
  pub accepted_at : Option ℕ
  pub revoked_at : Option ℕ
  pub resend_count : ℕ

abbrev pub Invitations : Type 0
Invitations = Dict OrganizationInvitation

pub data AuditAction : Type 0 where
  member_invited member_invitation_resent member_invitation_revoked : AuditAction
  member_invitation_accepted : AuditAction

-- `users` has the email of each user, and `organizations` the name of each organization.
pub record Database : Type 0 where
  pub users : Dict String
  pub organizations : Dict String
  pub memberships : Memberships
  pub invitations : Invitations
  pub mails : Mails
  pub audit_logs : List (String × AuditAction)

-- 7 days, in milliseconds
abbrev pub invitation_expiry_ms : ℕ
invitation_expiry_ms = 7 * (24 * 60 * 60 * 1000)

unfoldable pub compute_invitation_expires_at : ℕ → ℕ
compute_invitation_expires_at now = now + invitation_expiry_ms

unfoldable pub is_invitation_expired : ℕ → ℕ → Bool
is_invitation_expired expires_at now = leb expires_at now

unfoldable pub build_invitation_idempotency_key : String → String
build_invitation_idempotency_key id = "organization-invitation:" <> id

unfoldable pub build_invitation_resend_idempotency_key : String → ℕ → String
unfolding show_nat
build_invitation_resend_idempotency_key id resend_count =
    ("organization-invitation:" <> id) <> (":resend:" <> show_nat resend_count)

abbrev pub is_null : Option ℕ → Bool
is_null none = true
is_null (some t) = false

-- Neither accepted nor revoked.
abbrev pub is_live : OrganizationInvitation → Bool
is_live invitation = is_null invitation.accepted_at && is_null invitation.revoked_at

-- The first row that meets a condition.
unfoldable pub find_first :
    (OrganizationInvitation → Bool) → Invitations → Option (String × OrganizationInvitation)
find_first test [] = none
find_first test ((id, row) ∷ rows) =
    let rest = find_first test rows in if test row then some (id, row) else rest

unfoldable pub find_live_invitation_by_email :
    String → String → Invitations → Option (String × OrganizationInvitation)
unfolding find_first
find_live_invitation_by_email organization_id email rows =
    find_first
      (λ row. str_eq row.organization_id organization_id && str_eq row.email email && is_live row)
      rows

unfoldable pub find_invitation_by_token_hash :
    String → Invitations → Option (String × OrganizationInvitation)
unfolding find_first
find_invitation_by_token_hash token_hash rows =
    find_first (λ row. str_eq row.token_hash token_hash) rows

unfoldable pub find_invitation_by_id : String → String → Invitations → Option OrganizationInvitation
unfolding get
find_invitation_by_id organization_id id rows = elim (get id rows) [
  | none ↦ none
  | some row ↦ if str_eq row.organization_id organization_id then some row else none
]

-- The unique column of the table.
unfoldable pub is_hash_taken : String → Invitations → Bool
is_hash_taken token_hash [] = false
is_hash_taken token_hash ((id, row) ∷ rows) =
    str_eq row.token_hash token_hash || is_hash_taken token_hash rows

abbrev pub is_some : Option OrganizationInvitation → Bool
is_some none = false
is_some (some row) = true

pub record CreateInvitationData : Type 0 where
  pub organization_id : String
  pub email : String
  pub role : MembershipRole
  pub token_hash : String
  pub invited_by_id : String
  pub expires_at : ℕ

abbrev pub new_invitation : CreateInvitationData → OrganizationInvitation
new_invitation fields = record {
  organization_id = fields.organization_id;
  email = fields.email;
  role = fields.role;
  token_hash = fields.token_hash;
  invited_by_id = fields.invited_by_id;
  expires_at = fields.expires_at;
  accepted_at = none;
  revoked_at = none;
  resend_count = 0;
}

-- `id` is the key that the database makes.
unfoldable pub create_invitation_row :
    String → CreateInvitationData → Invitations → Option Invitations
unfolding get is_hash_taken put
create_invitation_row id fields rows =
    if is_some (get id rows) || is_hash_taken fields.token_hash rows
    then none
    else some (put id (new_invitation fields) rows)

-- `updateMany` with the id, the organization and the condition that the row is live; `none` is a count
-- of no rows.
unfoldable pub update_live :
    String
    → String
    → (OrganizationInvitation → OrganizationInvitation)
    → Invitations
    → Option Invitations
unfolding find_invitation_by_id put
update_live organization_id id change rows = elim (find_invitation_by_id organization_id id rows) [
  | none ↦ none
  | some row ↦ if is_live row then some (put id (change row) rows) else none
]

abbrev pub accepted : ℕ → OrganizationInvitation → OrganizationInvitation
accepted now row = record row { accepted_at = some now }

abbrev pub revoked : ℕ → OrganizationInvitation → OrganizationInvitation
revoked now row = record row { revoked_at = some now }

abbrev pub rotated : String → ℕ → OrganizationInvitation → OrganizationInvitation
rotated token_hash expires_at row = record row {
  token_hash = token_hash;
  expires_at = expires_at;
  resend_count = row.resend_count + 1;
}

unfoldable pub mark_invitation_accepted : String → String → ℕ → Invitations → Option Invitations
unfolding update_live
mark_invitation_accepted organization_id id now rows =
    update_live organization_id id (accepted now) rows

unfoldable pub revoke_invitation_row : String → String → ℕ → Invitations → Option Invitations
unfolding update_live
revoke_invitation_row organization_id id now rows =
    update_live organization_id id (revoked now) rows

unfoldable pub rotate_invitation_token :
    String → String → String → ℕ → Invitations → Option Invitations
unfolding update_live is_hash_taken delete
rotate_invitation_token organization_id id token_hash expires_at rows =
    if is_hash_taken token_hash (delete id rows)
    then none
    else update_live organization_id id (rotated token_hash expires_at) rows
