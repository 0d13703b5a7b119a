-- ===== src/Invitations/Tests.antt =====
-- Invitations on concrete databases.
use senecial.Base.{true, ◌≡◌, refl, some, List, [], ◌∷◌, get, IsMap, none-ne-some}
use senecial.Members.{owner, member}
use senecial.Mail.Process.{accepted}
use senecial.Invitations.{OrganizationInvitation, Database, new_invitation}
use senecial.Invitations.Requests.{Made, done, failed, conflict, not_found, unexpected}
use senecial.Invitations.Acceptance.{accept_invitation}
use senecial.Invitations.Runs.{
  Operation, create, resend, revoke, accept, register, run, run_requests,
}
use senecial.Invitations.Once.{IsWellFormed, run_requests-IsWellFormed}
use senecial.Invitations.Settled.{Follows, run_requests-Follows}
use senecial.Invitations.Accepts.{IsAcceptance, accept_invitation-IsAcceptance}

abbrev empty : Database
empty = record {
  users = ("u1", "ann@a.kr") ∷ ("u2", "bob@b.kr") ∷ [];
  organizations = ("o1", "A") ∷ [];
  memberships = ("s1", record { user_id = "u1"; organization_id = "o1"; role = owner }) ∷ [];
  invitations = [];
  mails = [];
  audit_logs = [];
}

empty-IsWellFormed : IsWellFormed empty
unfolding get
empty-IsWellFormed = (
  tt,
  λ i j a b ea eb e. absurd (none-ne-some ea),
  λ i. (refl, refl),
  λ i row e. absurd (none-ne-some e),
)

abbrev first : Made
first = record { id = "i1"; mail_id = "m1"; token_hash = "t1"; recipient_hash = "r1" }

abbrev second : Made
second = record { id = "i2"; mail_id = "m2"; token_hash = "t2"; recipient_hash = "r1" }

abbrev ask : Operation
ask = create "u1" "o1" (some ("bob@b.kr", member)) first accepted 1000

abbrev invited : Database
invited = run_requests ((ask, empty) ∷ []) empty

abbrev again : Operation
again = create "u1" "o1" (some ("bob@b.kr", member)) second accepted 2000

-- The second of two invitations to one email is a conflict, unless it has read before the first was
-- written: then both are live.
twice : ((run again invited invited).1 ≡ failed conflict) × ((run again empty invited).1 ≡ done)
unfolding run run_requests get
twice = (refl, refl)

abbrev joined : Database
joined =
    run_requests ((ask, empty) ∷ (again, empty) ∷ (accept "u2" "t1" "s2" 1500 1600, invited) ∷ [])
      empty

-- A user who is a member already cannot accept the second invitation.
member_again : (accept_invitation "u2" "t2" "s3" 2500 2600 joined joined).1 ≡ failed unexpected
unfolding accept_invitation run_requests get
member_again = refl

abbrev renewed : Database
renewed = run_requests ((resend "u1" "o1" "i1" second accepted 2000, invited) ∷ []) invited

-- After a resend the old token finds no invitation, but a request that has read before it is accepted.
rotation :
    ((accept_invitation "u2" "t1" "s2" 3000 3000 renewed renewed).1 ≡ failed not_found)
    × ((accept_invitation "u2" "t1" "s2" 1500 3000 invited renewed).1 ≡ done)
unfolding accept_invitation run_requests get
rotation = (refl, refl)

abbrev week : List (Operation × Database)
week =
    (ask, empty)
    ∷ (accept "u2" "t1" "s2" 1500 1600, invited)
    ∷ (revoke "u1" "o1" "i1" 1700, invited)
    ∷ (register true "t1" "u3" "s3" 1800 1900, invited)
    ∷ []

run_requests-IsWellFormed_example : IsWellFormed (run_requests week empty)
run_requests-IsWellFormed_example = run_requests-IsWellFormed week empty empty-IsWellFormed

abbrev row : OrganizationInvitation
row = new_invitation (record {
  organization_id = "o1";
  email = "bob@b.kr";
  role = member;
  token_hash = "t1";
  invited_by_id = "u1";
  expires_at = 604801000;
})

found : get "i1" invited.invitations ≡ some row
unfolding run_requests get
found = refl

run_requests-Follows_example :
    (row' : OrganizationInvitation) × (get "i1" (run_requests week invited).invitations ≡ some row')
    × Follows row row'
run_requests-Follows_example = run_requests-Follows week invited "i1" row found

invited-IsMap : IsMap invited.invitations
invited-IsMap = (run_requests-IsWellFormed ((ask, empty) ∷ []) empty empty-IsWellFormed).0

accepts : (accept_invitation "u2" "t1" "s2" 1500 1600 invited invited).1 ≡ done
unfolding accept_invitation run_requests get
accepts = refl

accept_invitation-IsAcceptance_example :
    IsAcceptance "u2" "t1" 1500 1600 invited invited
      (accept_invitation "u2" "t1" "s2" 1500 1600 invited invited).0
accept_invitation-IsAcceptance_example =
    accept_invitation-IsAcceptance "u2" "t1" "s2" 1500 1600 invited invited invited-IsMap accepts
