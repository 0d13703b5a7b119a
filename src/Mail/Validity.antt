-- ===== src/Mail/Validity.antt =====
-- Well-formed tables of deliveries: one row for an id and for an idempotency key, and valid rows.
use mathlib.Core.Path.{subst}
use senecial.Base.{
  ℕ, ◌≤◌, ◌<◌, String, Bool, true, false, ◌≡◌, ◌≢◌, sym, ap, ◌∙◌, ◌⊎◌, Option, none, some, [], ◌∷◌,
  ◌++◌, ◌&&◌, str_eq, eq_iff, get, NoKey, IsMap, arith, Bool-cases, inl, inr, none-ne-some,
  some-inj,
}
use senecial.Base.Tables.{update_row, row_before, IsMap-update_row, Every, Every-update_row}
use senecial.Mail.{
  MailDelivery, Mails, is_worker_handled, is_pending_status, is_sending_status, is_taken,
  new_delivery, EnqueuePendingMailDeliveryData, enqueue_pending_mail_delivery,
}

abbrev pub is_set : Option ℕ → Bool
is_set none = false
is_set (some t) = true

-- Exactly the mails of the worker that are being sent are locked.
abbrev pub IsLockedInWork : MailDelivery → Type 0
IsLockedInWork mail =
    is_set mail.locked_at ≡ (is_sending_status mail.status && is_worker_handled mail.message_type)

-- And a mail of the worker has at most as many attempts as its limit, and one left while it waits.
abbrev pub IsValid : MailDelivery → Type 0
IsValid mail =
    (is_worker_handled mail.message_type ≡ true → mail.attempt ≤ mail.max_attempts)
    × (is_worker_handled mail.message_type ≡ true
        → is_pending_status mail.status ≡ true
        → mail.attempt < mail.max_attempts)
    × IsLockedInWork mail

abbrev pub UniqueKeys : Mails → Type 0
UniqueKeys mails =
    (i j : String) (a b : MailDelivery)
    → get i mails ≡ some a
    → get j mails ≡ some b
    → a.idempotency_key ≡ b.idempotency_key
    → i ≡ j

-- One row for an id and for an idempotency key, and every row has a property.
abbrev pub IsTable : (MailDelivery → Type 0) → Mails → Type 0
IsTable Q mails = IsMap mails × UniqueKeys mails × Every Q mails

abbrev pub IsSound : Mails → Type 0
IsSound = IsTable IsValid

abbrev pub IsWellFormed : Mails → Type 0
IsWellFormed = IsTable IsLockedInWork

pub empty-IsTable : (Q : MailDelivery → Type 0) → IsTable Q []
unfolding get
empty-IsTable Q =
    (tt, λ i j a b ea eb e. absurd (none-ne-some ea), λ i row e. absurd (none-ne-some e))

-- A row of an updated table comes from a row with the same key.
key_before :
    (id : String) (change : MailDelivery → MailDelivery) (mails : Mails)
    → ((mail : MailDelivery) → (change mail).idempotency_key ≡ mail.idempotency_key)
    → (other : String) (row : MailDelivery) → get other (update_row id change mails) ≡ some row
    → (old : MailDelivery) × (get other mails ≡ some old)
      × (row.idempotency_key ≡ old.idempotency_key)
key_before id change mails same other row e =
    let (old, found, from) = row_before id change mails other row e in
    elim from [
      | inl kept ↦ (old, found, ap (λ m. m.idempotency_key) kept)
      | inr changed ↦ (old, found, ap (λ m. m.idempotency_key) changed ∙ same old)
    ]

pub update-IsTable :
    (Q : MailDelivery → Type 0) (id : String) (change : MailDelivery → MailDelivery) (mails : Mails)
    → ((mail : MailDelivery) → (change mail).idempotency_key ≡ mail.idempotency_key)
    → ((mail : MailDelivery) → get id mails ≡ some mail → Q mail → Q (change mail))
    → IsTable Q mails
    → IsTable Q (update_row id change mails)
update-IsTable Q id change mails same keeps (h, unique, valid) = (
  IsMap-update_row id change mails h,
  λ i j a b ea eb e.
      let (old_a, found_a, key_a) = key_before id change mails same i a ea in
      let (old_b, found_b, key_b) = key_before id change mails same j b eb in
      unique i j old_a old_b found_a found_b (sym key_a ∙ e ∙ key_b),
  Every-update_row Q id change mails keeps valid,
)

-- A free id and a free key differ from those of every row.
is_taken-differs :
    (id key : String) (mails : Mails)
    → is_taken id key mails ≡ false
    → NoKey id mails × Every (λ row. row.idempotency_key ≢ key) mails
unfolding is_taken get
is_taken-differs id key [] h = (tt, λ other row e. absurd (none-ne-some e))
is_taken-differs id key ((other_id, other) ∷ mails) h = elim (Bool-cases (str_eq other_id id)) [
  | inl same ↦ absurd (ground (arith, same, h))
  | inr fresh ↦ elim (Bool-cases (str_eq other.idempotency_key key)) [
    | inl same ↦ absurd (ground (arith, same, fresh, h))
    | inr new_key ↦
        let (no_id, no_key) = is_taken-differs id key mails (rw (fresh, new_key) at h) in
        (
          (λ e. absurd (ground (arith, eq_iff other_id id, e, fresh)), no_id),
          λ i row e k. elim (Bool-cases (str_eq other_id i)) [
            | inl here ↦ absurd (
                ground (
                  arith,
                  eq_iff other.idempotency_key key,
                  ap (λ m. m.idempotency_key) (some-inj (rw here at e)),
                  k,
                  new_key,
                ))
            | inr there ↦ no_key i row (rw there at e) k
          ],
        )
  ]
]

get-append_one :
    (id other : String) (row : MailDelivery) (mails : Mails)
    → (found : MailDelivery) → get other (mails ++ (id, row) ∷ []) ≡ some found
    → (get other mails ≡ some found) ⊎ ((id ≡ other) × (row ≡ found))
unfolding get
get-append_one id other row [] found e = elim (Bool-cases (str_eq id other)) [
  | inl same ↦ inr ((eq_iff id other).0 same, some-inj (rw same at e))
  | inr differs ↦ absurd (none-ne-some (rw differs at e))
]
get-append_one id other row ((first, mail) ∷ mails) found e =
    elim (Bool-cases (str_eq first other)) [
      | inl same ↦ inl (rw same (rw same at e))
      | inr differs ↦ rw differs (get-append_one id other row mails found (rw differs at e))
    ]

NoKey-append_one :
    (key id : String) (row : MailDelivery) (mails : Mails)
    → id ≢ key
    → NoKey key mails
    → NoKey key (mails ++ (id, row) ∷ [])
NoKey-append_one key id row [] ne h = (ne, tt)
NoKey-append_one key id row ((k, v) ∷ mails) ne (h, hs) =
    (h, NoKey-append_one key id row mails ne hs)

IsMap-append_one :
    (id : String) (row : MailDelivery) (mails : Mails)
    → NoKey id mails
    → IsMap mails
    → IsMap (mails ++ (id, row) ∷ [])
IsMap-append_one id row [] fresh h = (tt, tt)
IsMap-append_one id row ((k, v) ∷ mails) (ne, fresh) (h, hs) =
    (NoKey-append_one k id row mails (λ e. ne (sym e)) h, IsMap-append_one id row mails fresh hs)

pub enqueue-IsTable :
    (Q : MailDelivery → Type 0) (id : String) (fields : EnqueuePendingMailDeliveryData) (now : ℕ)
    (mails : Mails)
    → Q (new_delivery fields now)
    → IsTable Q mails
    → IsTable Q (enqueue_pending_mail_delivery id fields now mails).0
unfolding enqueue_pending_mail_delivery
enqueue-IsTable Q id fields now mails fresh (h, unique, valid) =
    elim (Bool-cases (is_taken id fields.idempotency_key mails)) [
      | inl taken ↦ rw taken (h, unique, valid)
      | inr free ↦
          let (no_id, no_key) = is_taken-differs id fields.idempotency_key mails free in
          rw free (
            IsMap-append_one id (new_delivery fields now) mails no_id h,
            λ i j a b ea eb e. elim (get-append_one id i (new_delivery fields now) mails a ea) [
              | inl old_a ↦ elim (get-append_one id j (new_delivery fields now) mails b eb) [
                | inl old_b ↦ unique i j a b old_a old_b e
                | inr (here, new_b) ↦
                    absurd (no_key i a old_a (e ∙ ap (λ m. m.idempotency_key) (sym new_b)))
              ]
              | inr (here, new_a) ↦
                  elim (get-append_one id j (new_delivery fields now) mails b eb) [
                    | inl old_b ↦
                        absurd (no_key j b old_b (sym e ∙ ap (λ m. m.idempotency_key) (sym new_a)))
                    | inr (there, new_b) ↦ sym here ∙ there
                  ]
            ],
            λ i row e. elim (get-append_one id i (new_delivery fields now) mails row e) [
              | inl old ↦ valid i row old
              | inr (here, new) ↦ subst Q new fresh
            ],
          )
    ]
