-- ===== src/Invitations/Once.antt =====
-- An invitation is accepted or revoked once, and its token is its own.
use mathlib.Core.Path.{subst}
use senecial.Base.{
  ℕ, ◌+◌, String, Bool, true, false, ◌≡◌, ◌≢◌, refl, sym, ap, ◌∙◌, ◌⊎◌, Option, none, some, List,
  [], ◌∷◌, ◌++◌, str_eq, eq_iff, get, put, delete, get-put, get-delete_other, IsMap, IsMap-put,
  arith, Bool-cases, Option-cases, inl, inr, none-ne-some, some-inj, if◌then◌else◌,
}
use senecial.Base.Tables.{Every, Every-put}
use senecial.Invitations.{
  OrganizationInvitation, Invitations, AuditAction, member_invited, member_invitation_resent,
  member_invitation_revoked, member_invitation_accepted, Database, is_null, is_live, is_hash_taken,
  new_invitation, accepted, revoked, rotated,
}
use senecial.Invitations.Runs.{Operation, run, run_requests}
use senecial.Invitations.Events.{
  Event, nothing, created, was_accepted, was_revoked, was_rotated, Does,
}
use senecial.Invitations.Steps.{run-Event}

abbrev pub is_acceptance : AuditAction → Bool
is_acceptance member_invitation_accepted = true
is_acceptance member_invited = false
is_acceptance member_invitation_resent = false
is_acceptance member_invitation_revoked = false

abbrev pub is_revocation : AuditAction → Bool
is_revocation member_invitation_revoked = true
is_revocation member_invited = false
is_revocation member_invitation_resent = false
is_revocation member_invitation_accepted = false

-- How many entries of the log are about an invitation, of a kind.
abbrev pub times_logged : (AuditAction → Bool) → String → List (String × AuditAction) → ℕ
times_logged test id [] = 0
times_logged test id ((key, action) ∷ logs) =
    (if str_eq key id then if test action then 1 else 0 else 0) + times_logged test id logs

times_logged-append :
    (test : AuditAction → Bool) (id key : String) (action : AuditAction)
    (logs : List (String × AuditAction))
    → times_logged test id (logs ++ (key, action) ∷ [])
      ≡ times_logged test id logs + (if str_eq key id then if test action then 1 else 0 else 0)
times_logged-append test id key action [] = omega arith
times_logged-append test id key action ((k, a) ∷ logs) =
    omega (arith, times_logged-append test id key action logs)

abbrev pub one_if_set : Option ℕ → ℕ
one_if_set none = 0
one_if_set (some t) = 1

abbrev pub acceptances : Option OrganizationInvitation → ℕ
acceptances none = 0
acceptances (some row) = one_if_set row.accepted_at

abbrev pub revocations : Option OrganizationInvitation → ℕ
revocations none = 0
revocations (some row) = one_if_set row.revoked_at

abbrev pub UniqueHashes : Invitations → Type 0
UniqueHashes rows =
    (i j : String) (a b : OrganizationInvitation)
    → get i rows ≡ some a
    → get j rows ≡ some b
    → a.token_hash ≡ b.token_hash
    → i ≡ j

-- The log has one acceptance of an accepted invitation and none of another, and so for revocations; none
-- is both; and different invitations have different tokens.
abbrev pub Fits : Invitations → List (String × AuditAction) → Type 0
Fits rows logs =
    IsMap rows
    × UniqueHashes rows
    × ((id : String)
        → (times_logged is_acceptance id logs ≡ acceptances (get id rows))
          × (times_logged is_revocation id logs ≡ revocations (get id rows)))
    × Every (λ row. (is_null row.accepted_at ≡ true) ⊎ (is_null row.revoked_at ≡ true)) rows

abbrev pub IsWellFormed : Database → Type 0
IsWellFormed db = Fits db.invitations db.audit_logs

is_hash_taken-differs :
    (token_hash : String) (rows : Invitations)
    → is_hash_taken token_hash rows ≡ false
    → Every (λ row. row.token_hash ≢ token_hash) rows
unfolding is_hash_taken get
is_hash_taken-differs token_hash [] h id row e = absurd (none-ne-some e)
is_hash_taken-differs token_hash ((key, first) ∷ rows) h id row e =
    elim (Bool-cases (str_eq first.token_hash token_hash)) [
      | inl same ↦ absurd (ground (arith, same, h))
      | inr differs ↦ elim (Bool-cases (str_eq key id)) [
        | inl here ↦
            subst (λ r. r.token_hash ≢ token_hash) (some-inj (rw here at e))
              (λ same. absurd (ground (arith, eq_iff first.token_hash token_hash, same, differs)))
        | inr there ↦ is_hash_taken-differs token_hash rows (rw differs at h) id row (rw there at e)
      ]
    ]

get-put_cases :
    (id : String) (v : OrganizationInvitation) (rows : Invitations) (i : String)
    (a : OrganizationInvitation)
    → get i (put id v rows) ≡ some a
    → ((id ≡ i) × (v ≡ a)) ⊎ ((id ≢ i) × (get i rows ≡ some a))
get-put_cases id v rows i a e = elim (Bool-cases (str_eq id i)) [
  | inl same ↦ inl ((eq_iff id i).0 same, some-inj (rw (get-put, same) at e))
  | inr differs ↦
      inr (λ same. absurd (ground (arith, eq_iff id i, same, differs)), rw (get-put, differs) at e)
]

-- No other row has the token of a row that is put.
abbrev Own : String → OrganizationInvitation → Invitations → Type 0
Own id v rows =
    (j : String) (b : OrganizationInvitation)
    → id ≢ j
    → get j rows ≡ some b
    → v.token_hash ≢ b.token_hash

put-UniqueHashes :
    (id : String) (v : OrganizationInvitation) (rows : Invitations)
    → Own id v rows
    → UniqueHashes rows
    → UniqueHashes (put id v rows)
put-UniqueHashes id v rows own unique i j a b ea eb same = elim (get-put_cases id v rows i a ea) [
  | inl (here, va) ↦ elim (get-put_cases id v rows j b eb) [
    | inl (there, vb) ↦ sym here ∙ there
    | inr (ne, old) ↦ absurd (own j b ne old (ap (λ r. r.token_hash) va ∙ same))
  ]
  | inr (ne, old) ↦ elim (get-put_cases id v rows j b eb) [
    | inl (there, vb) ↦ absurd (own i a ne old (ap (λ r. r.token_hash) vb ∙ sym same))
    | inr (ne', old') ↦ unique i j a b old old' same
  ]
]

same_hash-Own :
    (id : String) (row v : OrganizationInvitation) (rows : Invitations)
    → UniqueHashes rows
    → get id rows ≡ some row
    → v.token_hash ≡ row.token_hash
    → Own id v rows
same_hash-Own id row v rows unique there same j b ne old e =
    ne (unique id j row b there old (sym same ∙ e))

new_hash-Own :
    (id : String) (v : OrganizationInvitation) (rows : Invitations)
    → is_hash_taken v.token_hash (delete id rows) ≡ false
    → Own id v rows
new_hash-Own id v rows free j b ne old e =
    is_hash_taken-differs v.token_hash (delete id rows) free j b
      (get-delete_other id j rows ne ∙ old) (sym e)

put-Fits :
    (id : String) (v : OrganizationInvitation) (action : AuditAction) (rows : Invitations)
    (logs : List (String × AuditAction))
    → Own id v rows
    → (is_null v.accepted_at ≡ true) ⊎ (is_null v.revoked_at ≡ true)
    → one_if_set v.accepted_at ≡ acceptances (get id rows) + (if is_acceptance action then 1 else 0)
    → one_if_set v.revoked_at ≡ revocations (get id rows) + (if is_revocation action then 1 else 0)
    → Fits rows logs
    → Fits (put id v rows) (logs ++ (id, action) ∷ [])
put-Fits id v action rows logs own apart accepts revokes (map, unique, logged, exclusive) = (
  IsMap-put id v rows map,
  put-UniqueHashes id v rows own unique,
  λ i. elim (Bool-cases (str_eq id i)) [
    | inl same ↦
        let e = (eq_iff id i).0 same in
        let here =
          subst
            (λ k.
              (one_if_set v.accepted_at
                ≡ acceptances (get k rows) + (if is_acceptance action then 1 else 0))
              × (one_if_set v.revoked_at
                  ≡ revocations (get k rows) + (if is_revocation action then 1 else 0)))
            e (accepts, revokes) in
        let a = times_logged-append is_acceptance i id action logs in
        let r = times_logged-append is_revocation i id action logs in
        (
          rw (get-put, same)
              ((rw same at a)
                ∙ ap (λ n. n + (if is_acceptance action then 1 else 0)) (logged i).0
                ∙ sym here.0),
          rw (get-put, same)
              ((rw same at r)
                ∙ ap (λ n. n + (if is_revocation action then 1 else 0)) (logged i).1
                ∙ sym here.1),
        )
    | inr differs ↦
        let a = times_logged-append is_acceptance i id action logs in
        let r = times_logged-append is_revocation i id action logs in
        (
          rw (get-put, differs) (omega (arith, rw differs at a, (logged i).0)),
          rw (get-put, differs) (omega (arith, rw differs at r, (logged i).1)),
        )
  ],
  Every-put (λ row. (is_null row.accepted_at ≡ true) ⊎ (is_null row.revoked_at ≡ true)) id v rows
      apart exclusive,
)

live-parts :
    (row : OrganizationInvitation)
    → is_live row ≡ true
    → (is_null row.accepted_at ≡ true)
      × (is_null row.revoked_at ≡ true)
      × (one_if_set row.accepted_at ≡ 0)
      × (one_if_set row.revoked_at ≡ 0)
live-parts row h = elim (Option-cases row.accepted_at) [
  | inr (t, e) ↦ absurd (ground (arith, rw e at h))
  | inl e ↦ elim (Option-cases row.revoked_at) [
    | inr (t, e') ↦ absurd (ground (arith, rw (e, e') at h))
    | inl e' ↦ rw (e, e') (refl, refl, refl, refl)
  ]
]

-- A change of a live row that keeps its token or gives it a free one.
changed-Fits :
    (id : String) (row v : OrganizationInvitation) (action : AuditAction) (rows : Invitations)
    (logs : List (String × AuditAction))
    → get id rows ≡ some row
    → is_live row ≡ true
    → Own id v rows
    → (is_null v.accepted_at ≡ true) ⊎ (is_null v.revoked_at ≡ true)
    → one_if_set v.accepted_at
      ≡ one_if_set row.accepted_at + (if is_acceptance action then 1 else 0)
    → one_if_set v.revoked_at ≡ one_if_set row.revoked_at + (if is_revocation action then 1 else 0)
    → Fits rows logs
    → Fits (put id v rows) (logs ++ (id, action) ∷ [])
changed-Fits id row v action rows logs there live own apart accepts revokes h =
    put-Fits id v action rows logs own apart (rw there accepts) (rw there revokes) h

Does-Fits :
    (e : Event) (db after : Database) → Does e db after → IsWellFormed db → IsWellFormed after
Does-Fits nothing db after (r, l) h = rw (r, l) h
Does-Fits (created id fields) db after (free, new, r, l) h =
    rw (r, l)
      (put-Fits id (new_invitation fields) member_invited db.invitations db.audit_logs
        (λ j b ne old e. is_hash_taken-differs fields.token_hash db.invitations new j b old (sym e))
        (inl refl) (rw free refl) (rw free refl) h)
Does-Fits (was_accepted id now) db after (row, there, live, r, l) h =
    let (a, v, na, nv) = live-parts row live in
    rw (r, l)
      (changed-Fits id row (accepted now row) member_invitation_accepted db.invitations
        db.audit_logs there live
        (same_hash-Own id row (accepted now row) db.invitations h.1 there refl) (inr v)
        (omega (arith, na)) (omega arith) h)
Does-Fits (was_revoked id now) db after (row, there, live, r, l) h =
    let (a, v, na, nv) = live-parts row live in
    rw (r, l)
      (changed-Fits id row (revoked now row) member_invitation_revoked db.invitations db.audit_logs
        there live (same_hash-Own id row (revoked now row) db.invitations h.1 there refl) (inl a)
        (omega arith) (omega (arith, nv)) h)
Does-Fits (was_rotated id token_hash expires_at) db after (new, (row, there, live, r, l)) h =
    let (a, v, na, nv) = live-parts row live in
    rw (r, l)
      (changed-Fits id row (rotated token_hash expires_at row) member_invitation_resent
        db.invitations db.audit_logs there live
        (new_hash-Own id (rotated token_hash expires_at row) db.invitations new) (inl a)
        (omega arith) (omega arith) h)

-- From a well-formed database, any sequence of requests, whatever each has read before its transaction,
-- leads to a well-formed one: the log has one acceptance of an accepted invitation and none of another,
-- and so for revocations; no invitation is both; and no two have one token.
pub run_requests-IsWellFormed :
    (operations : List (Operation × Database)) (db : Database)
    → IsWellFormed db
    → IsWellFormed (run_requests operations db)
unfolding run_requests
run_requests-IsWellFormed [] db h = h
run_requests-IsWellFormed ((o, seen) ∷ operations) db h =
    let (e, does) = run-Event o seen db in
    run_requests-IsWellFormed operations (run o seen db).0 (Does-Fits e db (run o seen db).0 does h)
