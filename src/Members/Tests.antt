-- ===== src/Members/Tests.antt =====
-- An organization of two owners and a member.
use senecial.Base.{String, false, ◌≡◌, ◌≢◌, refl, some, [], ◌∷◌, put, str_eq, eq_iff, arith}
use senecial.Members.{
  owner, member, Membership, Database, failed, forbidden, is_last_owner, count_owners, with_role,
  change_member_role,
}
use senecial.Members.Owners.{HasOwner, change, remove, run_all, run_all-HasOwner}

abbrev ann : Membership
ann = record { user_id = "ann"; organization_id = "o"; role = owner }

abbrev ben : Membership
ben = record { user_id = "ben"; organization_id = "o"; role = owner }

abbrev cem : Membership
cem = record { user_id = "cem"; organization_id = "o"; role = member }

abbrev db : Database
db = record { memberships = ("m1", ann) ∷ ("m2", ben) ∷ ("m3", cem) ∷ []; audit_logs = [] }

-- A member may not change roles, and an owner not its own.
refused :
    (change_member_role "cem" "o" "m1" (some member) db ≡ failed forbidden)
    × (change_member_role "ann" "o" "m1" (some member) db ≡ failed forbidden)
unfolding change_member_role
refused = (refl, refl)

-- Two demotions whose transactions both count two owners before either writes leave none: that they
-- run one after the other is what keeps an owner.
race :
    (is_last_owner (count_owners "o" db.memberships) ≡ false)
    × (count_owners "o"
          (put "m1" (with_role member ann) (put "m2" (with_role member ben) db.memberships))
        ≡ 0)
unfolding count_owners put is_last_owner
race = (refl, refl)

differ : (k j : String) → str_eq k j ≡ false → k ≢ j
differ k j h e = absurd (ground (arith, eq_iff k j, h, e))

has_owner : HasOwner "o" db
unfolding count_owners
has_owner = (
  ((differ "m2" "m1" refl, (differ "m3" "m1" refl, tt)), ((differ "m3" "m2" refl, tt), (tt, tt))),
  omega arith,
)

run_all-HasOwner_example :
    HasOwner "o" (run_all (change "ann" "o" "m2" (some member) ∷ remove "ben" "o" "m1" ∷ []) db)
run_all-HasOwner_example =
    run_all-HasOwner "o" (change "ann" "o" "m2" (some member) ∷ remove "ben" "o" "m1" ∷ []) db
      has_owner
