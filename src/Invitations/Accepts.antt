-- ===== src/Invitations/Accepts.antt =====
-- What an acceptance that succeeds has checked, and what it does.
use mathlib.Core.Path.{subst}
use senecial.Base.{
  ℕ, ◌<◌, String, Bool, true, false, ◌≡◌, ◌≢◌, refl, sym, ap, ◌∙◌, none, some, [], ◌∷◌, str_eq,
  eq_iff, eq_refl, ◌&&◌, leb, get, put, get-put_self, get-put_other, IsMap, arith, Bool-cases,
  Option-cases, inl, inr, none-ne-some, some-inj, if◌then◌else◌,
}
use senecial.Base.Tables.{get-cons_here, get-cons_later}
use senecial.Members.{
  MembershipRole, Membership, Memberships, find_membership_by_user_and_organization,
}
use senecial.Invitations.{
  OrganizationInvitation, Invitations, Database, is_live, is_invitation_expired, find_first,
  find_invitation_by_token_hash, update_live, accepted, mark_invitation_accepted,
}
use senecial.Invitations.Requests.{
  Answer, done, failed, is_known, Failure, conflict, not_found, validation, forbidden, unexpected,
}
use senecial.Invitations.Acceptance.{
  create_membership, accept_transaction, check_invitation, accept_invitation,
}
use senecial.Invitations.Events.{update_live-some}

find_first-found :
    (test : OrganizationInvitation → Bool) (rows : Invitations) (id : String)
    (row : OrganizationInvitation)
    → IsMap rows
    → find_first test rows ≡ some (id, row)
    → (get id rows ≡ some row) × (test row ≡ true)
unfolding find_first
find_first-found test [] id row h e = absurd (none-ne-some e)
find_first-found test ((key, first) ∷ rows) id row (fresh, h) e = elim (Bool-cases (test first)) [
  | inl fits ↦
      let same = some-inj (rw fits at e) in
      subst (λ x. (get x.0 ((key, first) ∷ rows) ≡ some x.1) × (test x.1 ≡ true)) same
        (get-cons_here key first rows, fits)
  | inr out ↦
      let (there, fits) = find_first-found test rows id row h (rw out at e) in
      (get-cons_later key id first row rows fresh there, fits)
]

find_membership-put :
    (user_id organization_id id : String) (row : Membership) (rows : Memberships)
    → (str_eq row.user_id user_id && str_eq row.organization_id organization_id) ≡ true
    → find_membership_by_user_and_organization user_id organization_id rows ≡ none
    → get id rows ≡ none
    → find_membership_by_user_and_organization user_id organization_id (put id row rows) ≡ some row
unfolding find_membership_by_user_and_organization put get
find_membership-put user_id organization_id id row [] fits absent free = rw fits refl
find_membership-put user_id organization_id id row ((key, first) ∷ rows) fits absent free =
    elim (Bool-cases (str_eq key id)) [
      | inl same ↦ absurd (none-ne-some (sym (rw same at free)))
      | inr differs ↦
          elim (Bool-cases
            (str_eq first.user_id user_id && str_eq first.organization_id organization_id)) [
              | inl theirs ↦ absurd (none-ne-some (sym (rw theirs at absent)))
              | inr other ↦
                  rw (differs, other)
                    (find_membership-put user_id organization_id id row rows fits
                      (rw other at absent) (rw differs at free))
            ]
    ]

-- The user was not a member, and is one afterwards with the role that was offered.
abbrev pub Joins : String → String → MembershipRole → Memberships → Memberships → Type 0
Joins user_id organization_id role before after =
    (m : Membership) × (find_membership_by_user_and_organization user_id organization_id after
      ≡ some m)
    × (m.role ≡ role)
    × (find_membership_by_user_and_organization user_id organization_id before ≡ none)

create_membership-Joins :
    (id user_id organization_id : String) (role : MembershipRole) (rows after : Memberships)
    → create_membership id user_id organization_id role rows ≡ some after
    → Joins user_id organization_id role rows after
unfolding create_membership
create_membership-Joins id user_id organization_id role rows after e =
    elim (Option-cases (find_membership_by_user_and_organization user_id organization_id rows)) [
      | inr (m, old) ↦ absurd (none-ne-some (rw (old, create_membership) at e))
      | inl absent ↦ elim (Option-cases (get id rows)) [
        | inr (m, taken) ↦ absurd (none-ne-some (rw (absent, taken, create_membership) at e))
        | inl free ↦
            let row : Membership = record {
              user_id = user_id;
              organization_id = organization_id;
              role = role;
            } in
            subst (Joins user_id organization_id role rows)
              (some-inj (rw (absent, free, create_membership) at e))
              (
                row,
                find_membership-put user_id organization_id id row rows
                    (rw (eq_refl user_id, eq_refl organization_id) refl) absent free,
                refl,
                absent,
              )
      ]
    ]

check_invitation-none :
    (invitation : OrganizationInvitation) (now : ℕ)
    → check_invitation invitation now ≡ none
    → (is_live invitation ≡ true) × (now < invitation.expires_at)
unfolding check_invitation is_invitation_expired
check_invitation-none invitation now e = elim (Bool-cases (is_live invitation)) [
  | inr over ↦ absurd (none-ne-some (sym (rw over at e)))
  | inl live ↦ elim (Bool-cases (leb invitation.expires_at now)) [
    | inl late ↦ absurd (none-ne-some (sym (rw (live, late) at e)))
    | inr early ↦ (live, ground (arith, early))
  ]
]

failed-ne-done : (f : Failure) → failed f ≡ done → ⊥
failed-ne-done f e = cc

-- What the transaction of an acceptance writes.
abbrev pub Writes : String → String → OrganizationInvitation → ℕ → Database → Database → Type 0
Writes user_id id invitation now db after =
    (row : OrganizationInvitation) × (get id db.invitations ≡ some row)
    × (is_live row ≡ true)
    × (get id after.invitations ≡ some (accepted now row))
    × ((other : String) → id ≢ other → get other after.invitations ≡ get other db.invitations)
    × Joins user_id invitation.organization_id invitation.role db.memberships after.memberships

accept_transaction-Writes :
    (user_id id : String) (invitation : OrganizationInvitation) (membership_id : String) (now : ℕ)
    (db : Database)
    → let (after, answer) = accept_transaction user_id id invitation membership_id now db in
      answer ≡ done → Writes user_id id invitation now db after
unfolding accept_transaction mark_invitation_accepted
accept_transaction-Writes user_id id invitation membership_id now db e =
    elim (Option-cases (
      create_membership membership_id user_id invitation.organization_id invitation.role
        db.memberships)) [
          | inl clash ↦ absurd (failed-ne-done unexpected (rw (clash, accept_transaction) at e))
          | inr (memberships, created) ↦
              elim (Option-cases
                (update_live invitation.organization_id id (accepted now) db.invitations)) [
                  | inl over ↦ absurd (
                      failed-ne-done conflict
                        (rw (created, over, mark_invitation_accepted, accept_transaction) at e))
                  | inr (rows, e') ↦
                      let (row, there, live, after) =
                        update_live-some invitation.organization_id id (accepted now) db.invitations
                          rows e' in
                      rw (created, e', mark_invitation_accepted, accept_transaction)
                        (
                          row,
                          there,
                          live,
                          ap (get id) after ∙ get-put_self id (accepted now row) db.invitations,
                          λ other ne.
                              ap (get other) after
                              ∙ get-put_other id other (accepted now row) db.invitations ne,
                          create_membership-Joins membership_id user_id invitation.organization_id
                              invitation.role db.memberships memberships created,
                        )
                ]
        ]

-- A test in front of an answer that is not an error.
passes :
    (test : Bool) (x : Database × Answer) (db : Database) (f : Failure)
    → (if test then x else (db, failed f)).1 ≡ done
    → test ≡ true
passes true x db f e = refl
passes false x db f e = absurd (failed-ne-done f e)

abbrev pub IsAcceptance : String → String → ℕ → ℕ → Database → Database → Database → Type 0
IsAcceptance user_id token_hash read_at now seen db after =
    (id : String) × (invitation : OrganizationInvitation) × (get id seen.invitations
      ≡ some invitation)
    × (invitation.token_hash ≡ token_hash)
    × (is_live invitation ≡ true)
    × (read_at < invitation.expires_at)
    × (get user_id seen.users ≡ some invitation.email)
    × Writes user_id id invitation now db after

-- An acceptance that succeeds has read a live invitation with the token that had not expired, to the
-- email of the user; and at its transaction the row was live still. It marks that row accepted and no
-- other, and the user, who was not a member of the organization, is one then with the role that was
-- offered. The table that was read has one row for an id.
pub accept_invitation-IsAcceptance :
    (user_id token_hash membership_id : String) (read_at now : ℕ) (seen db : Database)
    → IsMap seen.invitations
    → let (after, answer) =
        accept_invitation user_id token_hash membership_id read_at now seen db in
      answer ≡ done → IsAcceptance user_id token_hash read_at now seen db after
unfolding accept_invitation find_invitation_by_token_hash
accept_invitation-IsAcceptance user_id token_hash membership_id read_at now seen db h e =
    let has_hash = λ (row : OrganizationInvitation). str_eq row.token_hash token_hash in
    elim (Option-cases (find_first has_hash seen.invitations)) [
      | inl gone ↦ absurd (
          failed-ne-done not_found
            (rw (gone, find_invitation_by_token_hash, accept_invitation) at e))
      | inr ((id, invitation), found) ↦
          let (there, hash) = find_first-found has_hash seen.invitations id invitation h found in
          elim (Option-cases (check_invitation invitation read_at)) [
            | inr (failure, bad) ↦ absurd (
                failed-ne-done failure
                  (rw (found, bad, find_invitation_by_token_hash, accept_invitation) at e))
            | inl good ↦ elim (Option-cases (get user_id seen.users)) [
              | inl nobody ↦ absurd (
                  failed-ne-done validation (
                    rw (found, good, nobody, find_invitation_by_token_hash, accept_invitation) at
                      e))
              | inr (email, known) ↦
                  let e' =
                    rw (found, good, known, find_invitation_by_token_hash, accept_invitation) at
                      e in
                  let mine = passes (str_eq email invitation.email) _ db forbidden e' in
                  let exists =
                    passes (is_known (get invitation.organization_id seen.organizations)) _ db
                      not_found (rw mine at e') in
                  let (live, early) = check_invitation-none invitation read_at good in
                  rw
                    (
                      found, good, known, mine, exists, find_invitation_by_token_hash,
                      accept_invitation,
                    )
                    (
                      id,
                      invitation,
                      there,
                      (eq_iff invitation.token_hash token_hash).0 hash,
                      live,
                      early,
                      ap (λ x. some x) ((eq_iff email invitation.email).0 mine),
                      accept_transaction-Writes user_id id invitation membership_id now db
                          (rw (mine, exists) at e'),
                    )
            ]
          ]
    ]
