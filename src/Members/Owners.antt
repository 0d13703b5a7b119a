-- ===== src/Members/Owners.antt =====
-- No sequence of role changes and removals takes the last owner from an organization.
use mathlib.Core.Path.{subst}
use senecial.Base.{
  ℕ, ◌+◌, ◌<◌, String, Bool, true, false, not, ◌&&◌, ◌≡◌, refl, ap, ◌∙◌, Option, some, List, [],
  ◌∷◌, leb, str_eq, eq_iff, get, put, delete, IsMap, IsMap-put, NoKey, none-ne-some, some-inj,
  arith, Bool-cases, Option-cases, inl, inr,
}
use senecial.Members.{
  MembershipRole, is_owner, Membership, Memberships, Database, Result, done, failed, is_last_owner,
  find_membership_by_id, owns, count_owners, with_role, update_membership_role, delete_membership,
  verify_owner, change_role, change_member_role, remove_row, remove_member,
}

abbrev one_if : Bool → ℕ
one_if true = 1
one_if false = 0

-- A new row for a key replaces what the old one counts for.
count_owners-put :
    (o id : String) (old new : Membership) (rows : Memberships)
    → get id rows ≡ some old
    → count_owners o (put id new rows) + one_if (owns o old)
      ≡ count_owners o rows + one_if (owns o new)
unfolding count_owners get put
count_owners-put o id old new [] e = absurd (none-ne-some e)
count_owners-put o id old new ((k, row) ∷ rows) e = elim (Bool-cases (str_eq k id)) [
  | inl same ↦ rw same (ground (arith, ap (owns o) (some-inj (rw same at e))))
  | inr differs ↦ rw differs (ground (arith, count_owners-put o id old new rows (rw differs at e)))
]

delete_of_NoKey : (id : String) (rows : Memberships) → NoKey id rows → delete id rows ≡ rows
unfolding delete
delete_of_NoKey id [] h = refl
delete_of_NoKey id ((k, row) ∷ rows) (differs, h) = elim (Bool-cases (str_eq k id)) [
  | inl same ↦ absurd (differs ((eq_iff k id).0 same))
  | inr other ↦ rw (other, delete_of_NoKey id rows h) refl
]

-- A deleted row no longer counts.
count_owners-delete :
    (o id : String) (old : Membership) (rows : Memberships)
    → IsMap rows
    → get id rows ≡ some old
    → count_owners o (delete id rows) + one_if (owns o old) ≡ count_owners o rows
unfolding count_owners get delete
count_owners-delete o id old [] h e = absurd (none-ne-some e)
count_owners-delete o id old ((k, row) ∷ rows) (fresh, h) e = elim (Bool-cases (str_eq k id)) [
  | inl same ↦
      let gone = delete_of_NoKey id rows (subst (λ j. NoKey j rows) ((eq_iff k id).0 same) fresh) in
      rw (same, gone) (ground (arith, ap (owns o) (some-inj (rw same at e))))
  | inr differs ↦ rw differs (ground (arith, count_owners-delete o id old rows h (rw differs at e)))
]

NoKey-delete : (k id : String) (rows : Memberships) → NoKey k rows → NoKey k (delete id rows)
unfolding delete
NoKey-delete k id [] h = tt
NoKey-delete k id ((j, row) ∷ rows) (differs, h) = elim (Bool-cases (str_eq j id)) [
  | inl same ↦ rw same (NoKey-delete k id rows h)
  | inr other ↦ rw other (differs, NoKey-delete k id rows h)
]

IsMap-delete : (id : String) (rows : Memberships) → IsMap rows → IsMap (delete id rows)
unfolding delete
IsMap-delete id [] h = tt
IsMap-delete id ((j, row) ∷ rows) (fresh, h) = elim (Bool-cases (str_eq j id)) [
  | inl same ↦ rw same (IsMap-delete id rows h)
  | inr other ↦ rw other (NoKey-delete j id rows fresh, IsMap-delete id rows h)
]

find_membership_by_id-get :
    (organization_id id : String) (rows : Memberships) (row : Membership)
    → find_membership_by_id organization_id id rows ≡ some row
    → (get id rows ≡ some row) × (row.organization_id ≡ organization_id)
unfolding find_membership_by_id
find_membership_by_id-get organization_id id rows row e = elim (Option-cases (get id rows)) [
  | inl gone ↦ absurd (none-ne-some (rw (gone, find_membership_by_id) at e))
  | inr (found, there) ↦ elim (Bool-cases (str_eq found.organization_id organization_id)) [
    | inl ours ↦
        let same = some-inj (rw (there, ours, find_membership_by_id) at e) in
        (
          there ∙ ap (λ r. some r) same,
          subst (λ r. r.organization_id ≡ organization_id) same
              ((eq_iff found.organization_id organization_id).0 ours),
        )
    | inr theirs ↦ absurd (none-ne-some (rw (there, theirs, find_membership_by_id) at e))
  ]
]

-- One row for a key, and an owner of `o`.
abbrev pub HasOwner : String → Database → Type 0
HasOwner o db = IsMap db.memberships × (0 < count_owners o db.memberships)

abbrev pub Keeps : (Database → Type 0) → Database → Result → Type 0
Keeps P db (done after) = P after
Keeps P db (failed e) = P db

change_role-HasOwner :
    (o organization_id id : String) (target : Membership) (next_role : MembershipRole)
    (db : Database)
    → find_membership_by_id organization_id id db.memberships ≡ some target
    → HasOwner o db
    → Keeps (HasOwner o) db (change_role organization_id id target next_role db)
unfolding change_role update_membership_role is_last_owner
change_role-HasOwner o organization_id id target next_role db e (h, positive) =
    let (there, ours) = find_membership_by_id-get organization_id id db.memberships target e in
    let counted = count_owners-put o id target (with_role next_role target) db.memberships there in
    elim (Bool-cases (
      is_owner target.role
      && not (is_owner next_role)
      && leb (count_owners organization_id db.memberships) 1)) [
        | inl last ↦ rw last (h, positive)
        | inr several ↦
            rw (several, e, update_membership_role)
              (
                IsMap-put id (with_role next_role target) db.memberships h,
                ground (arith, counted, several, positive, ours, eq_iff target.organization_id o),
              )
      ]

remove_row-HasOwner :
    (o organization_id id : String) (target : Membership) (db : Database)
    → find_membership_by_id organization_id id db.memberships ≡ some target
    → HasOwner o db
    → Keeps (HasOwner o) db (remove_row organization_id id target db)
unfolding remove_row delete_membership is_last_owner
remove_row-HasOwner o organization_id id target db e (h, positive) =
    let (there, ours) = find_membership_by_id-get organization_id id db.memberships target e in
    let counted = count_owners-delete o id target db.memberships h there in
    elim (Bool-cases
      (is_owner target.role && leb (count_owners organization_id db.memberships) 1)) [
        | inl last ↦ rw last (h, positive)
        | inr several ↦
            rw (several, e, delete_membership)
              (
                IsMap-delete id db.memberships h,
                ground (arith, counted, several, positive, ours, eq_iff target.organization_id o),
              )
      ]

change_member_role-HasOwner :
    (o user_id organization_id id : String) (input : Option MembershipRole) (db : Database)
    → HasOwner o db
    → Keeps (HasOwner o) db (change_member_role user_id organization_id id input db)
unfolding change_member_role
change_member_role-HasOwner o user_id organization_id id input db h =
    elim (Bool-cases (verify_owner user_id organization_id db.memberships)) [
      | inr not_owner ↦ rw not_owner h
      | inl verified ↦ elim (Option-cases input) [
        | inl invalid ↦ rw (verified, invalid, change_member_role) h
        | inr (next_role, valid) ↦
            elim (Option-cases (find_membership_by_id organization_id id db.memberships)) [
              | inl gone ↦ rw (verified, valid, gone, change_member_role) h
              | inr (target, there) ↦ elim (Bool-cases (str_eq target.user_id user_id)) [
                | inl self ↦ rw (verified, valid, there, self, change_member_role) h
                | inr other ↦
                    rw (verified, valid, there, other, change_member_role)
                      (change_role-HasOwner o organization_id id target next_role db there h)
              ]
            ]
      ]
    ]

remove_member-HasOwner :
    (o user_id organization_id id : String) (db : Database)
    → HasOwner o db
    → Keeps (HasOwner o) db (remove_member user_id organization_id id db)
unfolding remove_member
remove_member-HasOwner o user_id organization_id id db h =
    elim (Bool-cases (verify_owner user_id organization_id db.memberships)) [
      | inr not_owner ↦ rw not_owner h
      | inl verified ↦
          elim (Option-cases (find_membership_by_id organization_id id db.memberships)) [
            | inl gone ↦ rw (verified, gone, remove_member) h
            | inr (target, there) ↦ elim (Bool-cases (str_eq target.user_id user_id)) [
              | inl self ↦ rw (verified, there, self, remove_member) h
              | inr other ↦
                  rw (verified, there, other, remove_member)
                    (remove_row-HasOwner o organization_id id target db there h)
            ]
          ]
    ]

-- The caller, the organization, the membership, and the new role.
pub data Request : Type 0 where
  change : String → String → String → Option MembershipRole → Request
  remove : String → String → String → Request

abbrev pub after : Database → Result → Database
after db (done next) = next
after db (failed e) = db

unfoldable pub run : Request → Database → Database
unfolding change_member_role remove_member
run (change user_id organization_id id input) db =
    after db (change_member_role user_id organization_id id input db)
run (remove user_id organization_id id) db = after db (remove_member user_id organization_id id db)

unfoldable pub run_all : List Request → Database → Database
unfolding run
run_all [] db = db
run_all (r ∷ requests) db = run_all requests (run r db)

Keeps-after :
    (o : String) (db : Database) (result : Result)
    → Keeps (HasOwner o) db result
    → HasOwner o (after db result)
Keeps-after o db (done next) h = h
Keeps-after o db (failed e) h = h

-- An organization that has an owner has one after any sequence of role changes and removals, of any
-- organizations and by any callers, that run one after the other; the table keeps one row for a key.
pub run_all-HasOwner :
    (o : String) (requests : List Request) (db : Database)
    → HasOwner o db
    → HasOwner o (run_all requests db)
unfolding run_all run
run_all-HasOwner o [] db h = h
run_all-HasOwner o (change user_id organization_id id input ∷ requests) db h =
    run_all-HasOwner o requests (run (change user_id organization_id id input) db) (
      Keeps-after o db (change_member_role user_id organization_id id input db)
        (change_member_role-HasOwner o user_id organization_id id input db h))
run_all-HasOwner o (remove user_id organization_id id ∷ requests) db h =
    run_all-HasOwner o requests (run (remove user_id organization_id id) db) (
      Keeps-after o db (remove_member user_id organization_id id db)
        (remove_member-HasOwner o user_id organization_id id db h))
