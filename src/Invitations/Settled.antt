-- ===== src/Invitations/Settled.antt =====
-- What requests leave of an invitation.
use mathlib.Core.Path.{subst}
use mathlib.Core.Bool.{false≢true}
use senecial.Base.{
  String, true, false, ◌≡◌, refl, sym, ap, ◌∙◌, some, List, [], ◌∷◌, str_eq, eq_iff, get, put,
  get-put, Bool-cases, inl, inr, none-ne-some, some-inj,
}
use senecial.Invitations.{OrganizationInvitation, Database, is_live, accepted, revoked, rotated}
use senecial.Invitations.Runs.{Operation, run, run_requests}
use senecial.Invitations.Events.{
  Event, nothing, created, was_accepted, was_revoked, was_rotated, Does,
}
use senecial.Invitations.Steps.{run-Event}

-- Whom an invitation invites, to what, and that it stays as it is once it is not live.
abbrev pub Follows : OrganizationInvitation → OrganizationInvitation → Type 0
Follows row row' =
    (row'.organization_id ≡ row.organization_id)
    × (row'.email ≡ row.email)
    × (row'.role ≡ row.role)
    × (row'.invited_by_id ≡ row.invited_by_id)
    × (is_live row ≡ false → row' ≡ row)

abbrev Leads : String → OrganizationInvitation → Database → Type 0
Leads id row db =
    (row' : OrganizationInvitation) × (get id db.invitations ≡ some row') × Follows row row'

Follows-refl : (row : OrganizationInvitation) → Follows row row
Follows-refl row = (refl, refl, refl, refl, λ h. refl)

Follows-trans : (a b c : OrganizationInvitation) → Follows a b → Follows b c → Follows a c
Follows-trans a b c (o, e, r, i, same) (o', e', r', i', same') = (
  o' ∙ o,
  e' ∙ e,
  r' ∙ r,
  i' ∙ i,
  λ h. let s = same h in same' (subst (λ x. is_live x ≡ false) (sym s) h) ∙ s,
)

changed-Leads :
    (key id : String) (old v row : OrganizationInvitation) (db after : Database)
    → get key db.invitations ≡ some old
    → is_live old ≡ true
    → (v.organization_id ≡ old.organization_id)
      × (v.email ≡ old.email)
      × (v.role ≡ old.role)
      × (v.invited_by_id ≡ old.invited_by_id)
    → after.invitations ≡ put key v db.invitations
    → get id db.invitations ≡ some row
    → Leads id row after
changed-Leads key id old v row db after there live (o, e, r, i) rows found =
    elim (Bool-cases (str_eq key id)) [
      | inr differs ↦ (row, ap (get id) rows ∙ rw (get-put, differs) found, Follows-refl row)
      | inl same ↦
          let mine : old ≡ row = some-inj (
            sym there
            ∙ subst (λ k. get k db.invitations ≡ some row) (sym ((eq_iff key id).0 same)) found) in
          (
            v,
            ap (get id) rows ∙ rw (get-put, same) refl,
            subst (λ x. Follows x v) mine (o, e, r, i, λ h. absurd (false≢true (sym h ∙ live))),
          )
    ]

Does-Leads :
    (e : Event) (db after : Database)
    → Does e db after
    → (id : String) (row : OrganizationInvitation) → get id db.invitations ≡ some row
    → Leads id row after
Does-Leads nothing db after (r, l) id row found = (row, ap (get id) r ∙ found, Follows-refl row)
Does-Leads (created key fields) db after (free, new, r, l) id row found =
    elim (Bool-cases (str_eq key id)) [
      | inr differs ↦ (row, ap (get id) r ∙ rw (get-put, differs) found, Follows-refl row)
      | inl same ↦ absurd (
          none-ne-some (
            sym free
            ∙ subst (λ k. get k db.invitations ≡ some row) (sym ((eq_iff key id).0 same)) found))
    ]
Does-Leads (was_accepted key now) db after (old, there, live, r, l) id row found =
    changed-Leads key id old (accepted now old) row db after there live (refl, refl, refl, refl) r
      found
Does-Leads (was_revoked key now) db after (old, there, live, r, l) id row found =
    changed-Leads key id old (revoked now old) row db after there live (refl, refl, refl, refl) r
      found
Does-Leads (was_rotated key hash expires_at) db after (new, (old, there, live, r, l)) id row found =
    changed-Leads key id old (rotated hash expires_at old) row db after there live
      (refl, refl, refl, refl) r found

-- Whatever requests follow, and whatever each has read, an invitation stays in the table with its
-- organization, its email, its role and its inviter; and once it is accepted or revoked, its row never
-- changes again.
pub run_requests-Follows :
    (operations : List (Operation × Database)) (db : Database) (id : String)
    (row : OrganizationInvitation)
    → get id db.invitations ≡ some row
    → (row' : OrganizationInvitation) × (get id (run_requests operations db).invitations
        ≡ some row')
      × Follows row row'
unfolding run_requests
run_requests-Follows [] db id row found = (row, found, Follows-refl row)
run_requests-Follows ((o, seen) ∷ operations) db id row found =
    let (e, does) = run-Event o seen db in
    let (next, there, follows) = Does-Leads e db (run o seen db).0 does id row found in
    let (last, there', follows') =
      run_requests-Follows operations (run o seen db).0 id next there in
    (last, there', Follows-trans row next last follows follows')
