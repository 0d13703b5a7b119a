-- ===== src/Mail/Follows.antt =====
-- What becomes of one delivery while others are handled too.
use mathlib.Core.Path.{subst}
use mathlib.Core.Bool.{false≢true}
use senecial.Base.{
  ℕ, ◌+◌, String, Bool, true, false, ◌≡◌, ◌≢◌, refl, sym, ◌∙◌, Option, none, some, List, [], ◌∷◌,
  str_eq, eq_iff, get, arith, Bool-cases, inl, inr, if◌then◌else◌,
}
use senecial.Base.Tables.{update_row, get-update_row_here, get-update_row_other}
use senecial.Mail.{
  MailDelivery, Mails, is_pending_status, is_sending_status, as_sent, as_retrying, as_failed,
}
use senecial.Mail.Process.{SendResult, send_claimed}
use senecial.Mail.Runs.{send_claimed-cases}

abbrev pub is_done : MailDelivery → Bool
is_done mail =
    if is_pending_status mail.status
    then false
    else if is_sending_status mail.status
    then false
    else true

-- One if a step claimed the mail.
abbrev pub claims : String → Option String → ℕ
claims id none = 0
claims id (some key) = if str_eq key id then 1 else 0

abbrev pub times_claimed : String → List (Option String) → ℕ
times_claimed id [] = 0
times_claimed id (one ∷ more) = claims id one + times_claimed id more

-- What becomes of a row: so many more attempts, and nothing if it is done.
abbrev pub Follows : ℕ → MailDelivery → MailDelivery → Type 0
Follows n row row' =
    (row'.attempt ≡ row.attempt + n)
    × (row'.max_attempts ≡ row.max_attempts)
    × (row'.message_type ≡ row.message_type)
    × (is_done row ≡ true → row' ≡ row)

abbrev pub Leads : ℕ → String → MailDelivery → Mails → Type 0
Leads n id row mails = (row' : MailDelivery) × (get id mails ≡ some row') × Follows n row row'

pub Follows-refl : (row : MailDelivery) → Follows 0 row row
Follows-refl row = (omega arith, refl, refl, λ d. refl)

Follows-trans :
    (m n : ℕ) (a b c : MailDelivery) → Follows m a b → Follows n b c → Follows (m + n) a c
Follows-trans m n a b c (at, limit, type, done) (at', limit', type', done') = (
  omega arith,
  limit' ∙ limit,
  type' ∙ type,
  λ d. let same = done d in done' (subst (λ r. is_done r ≡ true) (sym same) d) ∙ same,
)

-- An update of another row, or one that leads on; the row is `now_row` by now.
update-Leads :
    (n : ℕ) (key id : String) (change : MailDelivery → MailDelivery) (mails : Mails)
    (row now_row : MailDelivery)
    → get id mails ≡ some now_row
    → (key ≡ id → Follows n row (change now_row))
    → (key ≢ id → Follows n row now_row)
    → Leads n id row (update_row key change mails)
update-Leads n key id change mails row now_row there here other =
    elim (Bool-cases (str_eq key id)) [
      | inl same ↦
          let e = (eq_iff key id).0 same in
          (
            change now_row,
            subst (λ k. get id (update_row k change mails) ≡ some (change now_row)) (sym e)
                (get-update_row_here id change mails now_row there),
            here e,
          )
      | inr differs ↦
          let ne : key ≢ id = λ e. absurd (ground (arith, eq_iff key id, e, differs)) in
          (now_row, get-update_row_other key id change mails ne ∙ there, other ne)
    ]

-- A change that counts no attempt, of a row that is not done.
abbrev pub IsQuiet : (MailDelivery → MailDelivery) → Type 0
IsQuiet change =
    (m : MailDelivery)
    → ((change m).attempt ≡ m.attempt)
      × ((change m).max_attempts ≡ m.max_attempts)
      × ((change m).message_type ≡ m.message_type)

pub quiet-Leads_on :
    (key id : String) (change : MailDelivery → MailDelivery) (mails : Mails)
    (row now_row : MailDelivery)
    → IsQuiet change
    → get id mails ≡ some now_row
    → Follows 0 row now_row
    → (key ≡ id → is_done row ≡ false)
    → Leads 0 id row (update_row key change mails)
quiet-Leads_on key id change mails row now_row quiet there before open_row =
    update-Leads 0 key id change mails row now_row there
      (λ e.
        let (at, limit, type) = quiet now_row in
        let (at', limit', type', done') = before in
        (
          omega arith,
          limit ∙ limit',
          type ∙ type',
          λ d. absurd (false≢true (sym (open_row e) ∙ d)),
        ))
      (λ ne. before)

pub quiet-Leads :
    (key id : String) (change : MailDelivery → MailDelivery) (mails : Mails) (row : MailDelivery)
    → IsQuiet change
    → get id mails ≡ some row
    → (key ≡ id → is_done row ≡ false)
    → Leads 0 id row (update_row key change mails)
quiet-Leads key id change mails row quiet there open_row =
    quiet-Leads_on key id change mails row row quiet there (Follows-refl row) open_row

pub settled-Leads :
    (key id : String) (mail : MailDelivery) (result : SendResult) (random now : ℕ) (mails : Mails)
    (row : MailDelivery)
    → get id mails ≡ some row
    → (key ≡ id → is_done row ≡ false)
    → Leads 0 id row (send_claimed key mail result random now mails).0
settled-Leads key id mail result random now mails row there open_row =
    send_claimed-cases (λ r. Leads 0 id row r.0) key mail result random now mails
      (quiet-Leads key id (as_sent now) mails row (λ m. (refl, refl, refl)) there open_row)
      (λ at code again.
        quiet-Leads key id (as_retrying at code) mails row (λ m. (refl, refl, refl)) there open_row)
      (λ code.
        quiet-Leads key id (as_failed now code) mails row (λ m. (refl, refl, refl)) there open_row)

pub then-Leads :
    (m n : ℕ) (id : String) (a b : MailDelivery) (mails : Mails)
    → Follows m a b
    → Leads n id b mails
    → Leads (m + n) id a mails
then-Leads m n id a b mails first (c, there, second) =
    (c, there, Follows-trans m n a b c first second)
