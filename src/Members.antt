-- ===== src/Members.antt =====
-- The members of organizations: src/features/members/server/change-member-role.ts and remove-member.ts
-- over src/server/repositories/membership-repository.ts, with src/domain/members/last-owner-policy.ts
-- and the check of src/lib/permissions/verify-membership.ts. An operation runs by itself.
pub mod Owners
pub mod Tests
use senecial.Base.{
  ℕ, zero, suc, String, Bool, true, false, not, ◌&&◌, Option, none, some, List, [], ◌∷◌, ◌++◌, leb,
  str_eq, if◌then◌else◌, Dict, get, put, delete,
}

pub data MembershipRole : Type 0 where
  owner member : MembershipRole

abbrev pub is_owner : MembershipRole → Bool
is_owner owner = true
is_owner member = false

pub record Membership : Type 0 where
  pub user_id : String
  pub organization_id : String
  pub role : MembershipRole

abbrev pub Memberships : Type 0
Memberships = Dict Membership

pub data AuditAction : Type 0 where
  member_role_changed member_removed : AuditAction

pub record Database : Type 0 where
  pub memberships : Memberships
  pub audit_logs : List (String × AuditAction)

pub data Failure : Type 0 where
  forbidden validation not_found conflict : Failure

pub data Result : Type 0 where
  done : Database → Result
  failed : Failure → Result

unfoldable pub is_last_owner : ℕ → Bool
is_last_owner owner_count = leb owner_count 1

-- The repository.
unfoldable pub find_membership_by_user_and_organization :
    String → String → Memberships → Option Membership
find_membership_by_user_and_organization user_id organization_id [] = none
find_membership_by_user_and_organization user_id organization_id ((id, row) ∷ rows) =
    let rest = find_membership_by_user_and_organization user_id organization_id rows in
    if str_eq row.user_id user_id && str_eq row.organization_id organization_id
    then some row
    else rest

unfoldable pub find_membership_by_id : String → String → Memberships → Option Membership
unfolding get
find_membership_by_id organization_id id rows = elim (get id rows) [
  | none ↦ none
  | some row ↦ if str_eq row.organization_id organization_id then some row else none
]

abbrev pub owns : String → Membership → Bool
owns organization_id row = str_eq row.organization_id organization_id && is_owner row.role

unfoldable pub count_owners : String → Memberships → ℕ
count_owners organization_id [] = 0
count_owners organization_id ((id, row) ∷ rows) =
    let rest = count_owners organization_id rows in
    if owns organization_id row then suc rest else rest

abbrev pub with_role : MembershipRole → Membership → Membership
with_role role row = record row { role = role }

unfoldable pub update_membership_role :
    String → String → MembershipRole → Memberships → Option Memberships
unfolding find_membership_by_id put
update_membership_role organization_id id role rows =
    elim (find_membership_by_id organization_id id rows) [
      | none ↦ none
      | some row ↦ some (put id (with_role role row) rows)
    ]

unfoldable pub delete_membership : String → String → Memberships → Option Memberships
unfolding find_membership_by_id delete
delete_membership organization_id id rows = elim (find_membership_by_id organization_id id rows) [
  | none ↦ none
  | some row ↦ some (delete id rows)
]

-- `verifyOrganizationRole(userId, organizationId, OWNER)` lets the caller through.
unfoldable pub verify_owner : String → String → Memberships → Bool
unfolding find_membership_by_user_and_organization
verify_owner user_id organization_id rows =
    elim (find_membership_by_user_and_organization user_id organization_id rows) [
      | none ↦ false
      | some row ↦ is_owner row.role
    ]

-- What a transaction leaves: `null` of the repository is `NotFoundError`.
abbrev pub commit : String → AuditAction → Database → Option Memberships → Result
commit id action db none = failed not_found
commit id action db (some rows) =
    done (record { memberships = rows; audit_logs = db.audit_logs ++ (id, action) ∷ [] })

-- The transaction of `changeMemberRole` on the row that was found.
unfoldable pub change_role : String → String → Membership → MembershipRole → Database → Result
unfolding update_membership_role count_owners is_last_owner
change_role organization_id id target next_role db =
    if is_owner target.role
      && not (is_owner next_role)
      && is_last_owner (count_owners organization_id db.memberships)
    then failed conflict
    else commit id member_role_changed db
        (update_membership_role organization_id id next_role db.memberships)

-- `none` is an input that the schema rejects.
unfoldable pub change_member_role :
    String → String → String → Option MembershipRole → Database → Result
unfolding verify_owner find_membership_by_id change_role
change_member_role user_id organization_id id input db =
    if verify_owner user_id organization_id db.memberships
    then elim input [
      | none ↦ failed validation
      | some next_role ↦ elim (find_membership_by_id organization_id id db.memberships) [
        | none ↦ failed not_found
        | some target ↦
            if str_eq target.user_id user_id
            then failed forbidden
            else change_role organization_id id target next_role db
      ]
    ]
    else failed forbidden

-- The transaction of `removeMember` on the row that was found.
unfoldable pub remove_row : String → String → Membership → Database → Result
unfolding delete_membership count_owners is_last_owner
remove_row organization_id id target db =
    if is_owner target.role && is_last_owner (count_owners organization_id db.memberships)
    then failed conflict
    else commit id member_removed db (delete_membership organization_id id db.memberships)

unfoldable pub remove_member : String → String → String → Database → Result
unfolding verify_owner find_membership_by_id remove_row
remove_member user_id organization_id id db =
    if verify_owner user_id organization_id db.memberships
    then elim (find_membership_by_id organization_id id db.memberships) [
      | none ↦ failed not_found
      | some target ↦
          if str_eq target.user_id user_id
          then failed forbidden
          else remove_row organization_id id target db
    ]
    else failed forbidden
