-- ===== src/Invitations/Runs.antt =====
-- Any sequence of requests on invitations, each with what it has read and whenever it has read it.
use senecial.Base.{ℕ, String, Bool, Option, List, [], ◌∷◌}
use senecial.Members.{MembershipRole}
use senecial.Mail.Process.{SendResult}
use senecial.Invitations.{Database}
use senecial.Invitations.Requests.{
  Made, Answer, create_invitation, resend_invitation, revoke_invitation,
}
use senecial.Invitations.Acceptance.{accept_invitation, register_and_accept_invitation}

pub data Operation : Type 0 where
  create : String → String → Option (String × MembershipRole) → Made → SendResult → ℕ → Operation
  resend : String → String → String → Made → SendResult → ℕ → Operation
  revoke : String → String → String → ℕ → Operation
  accept : String → String → String → ℕ → ℕ → Operation
  register : Bool → String → String → String → ℕ → ℕ → Operation

unfoldable pub run : Operation → Database → Database → Database × Answer
unfolding create_invitation resend_invitation revoke_invitation accept_invitation
    register_and_accept_invitation
run (create user_id organization_id input made result now) seen db =
    create_invitation user_id organization_id input made result now seen db
run (resend user_id organization_id id made result now) seen db =
    resend_invitation user_id organization_id id made result now seen db
run (revoke user_id organization_id id now) seen db =
    revoke_invitation user_id organization_id id now seen db
run (accept user_id token_hash membership_id read_at now) seen db =
    accept_invitation user_id token_hash membership_id read_at now seen db
run (register valid token_hash new_user_id membership_id read_at now) seen db =
    register_and_accept_invitation valid token_hash new_user_id membership_id read_at now seen db

unfoldable pub run_requests : List (Operation × Database) → Database → Database
unfolding run
run_requests [] db = db
run_requests ((o, seen) ∷ operations) db = run_requests operations (run o seen db).0
