-- ===== src/Contracts/Notifications/Days.antt =====
-- On which days notifications are made, and that a run repeated on one day makes the same ones.
use mathlib.Core.Path.{subst}
use mathlib.Core.List.{map-append}
use senecial.Base.{
  ℕ, String, true, false, ◌≡◌, refl, sym, ◌⊎◌, inl, inr, none, some, List, map, All, All-append,
  arith, Bool-cases, Option-cases,
}
use senecial.Base.Int.{ℤ, pos, sub_ℕ, eq_ℤ, leb_ℤ, ltb_ℤ}
use senecial.Contracts.Status.{
  expiring, is_manual, ContractStatusInput, to_kst_day_index, days_remaining,
  get_computed_contract_status,
}
use senecial.Contracts.Notifications.{
  renewal_notice_due, Threshold, expiration_thresholds, find_threshold, ContractNotificationInput,
  ContractNotificationCandidate, expiration_candidates, renewal_candidates,
  build_contract_notifications,
}

abbrev pub status_input : ContractNotificationInput → ContractStatusInput
status_input contract = record { status = contract.status; end_date = contract.end_date }

find_threshold-le :
    (days : ℤ) (t : Threshold)
    → find_threshold days expiration_thresholds ≡ some t
    → (ltb_ℤ days (pos 0) ≡ false) × (leb_ℤ days (pos 30) ≡ true)
unfolding find_threshold
find_threshold-le days t e = (ground arith, ground arith)

module _ (to_kst_date_key : ℕ → String) where
  abbrev ShowsExpiring : ContractNotificationInput → ℕ → ContractNotificationCandidate → Type 0
  ShowsExpiring contract now c =
      (c.notification_type ≡ renewal_notice_due)
      ⊎ (get_computed_contract_status (status_input contract) now ≡ expiring)

  shows-expiring :
      (contract : ContractNotificationInput) (end_date now : ℕ)
      → is_manual contract.status ≡ false
      → contract.end_date ≡ some end_date
      → ltb_ℤ (days_remaining end_date now) (pos 0) ≡ false
      → leb_ℤ (days_remaining end_date now) (pos 30) ≡ true
      → get_computed_contract_status (status_input contract) now ≡ expiring
  unfolding get_computed_contract_status
  shows-expiring contract end_date now automatic e soon within =
      rw (automatic, e, soon, within) refl

  expiration_candidates-expiring :
      (contract : ContractNotificationInput) (end_date now : ℕ)
      → is_manual contract.status ≡ false
      → contract.end_date ≡ some end_date
      → All
          (ShowsExpiring contract now)
          (expiration_candidates to_kst_date_key contract end_date now)
  unfolding expiration_candidates
  expiration_candidates-expiring contract end_date now automatic e =
      elim (Option-cases (find_threshold (days_remaining end_date now) expiration_thresholds)) [
        | inl none_matches ↦ rw (none_matches, expiration_candidates) tt
        | inr (t, matches) ↦
            let (soon, within) = find_threshold-le (days_remaining end_date now) t matches in
            rw (matches, expiration_candidates)
              (inr (shows-expiring contract end_date now automatic e soon within), tt)
      ]

  renewal_candidates-renewal :
      (contract : ContractNotificationInput) (end_date now : ℕ)
      → All (ShowsExpiring contract now) (renewal_candidates to_kst_date_key contract end_date now)
  unfolding renewal_candidates
  renewal_candidates-renewal contract end_date now = elim (Bool-cases contract.auto_renewal) [
    | inl renews ↦ elim (Option-cases contract.notice_period_days) [
      | inl e ↦ rw (renews, e) tt
      | inr (notice, e) ↦
          elim (Bool-cases
            (eq_ℤ (sub_ℕ (to_kst_day_index end_date) notice) (pos (to_kst_day_index now)))) [
              | inl due ↦ rw (renews, e, due) (inl refl, tt)
              | inr not_due ↦ rw (renews, e, not_due) tt
            ]
    ]
    | inr ends ↦ rw ends tt
  ]

  -- A contract is notified of a coming expiration only while it shows EXPIRING: each candidate is the
  -- reminder of a renewal, or the contract shows EXPIRING at that moment.
  pub build_contract_notifications-expiring :
      (contract : ContractNotificationInput) (now : ℕ)
      → All
          (λ c.
            (c.notification_type ≡ renewal_notice_due)
            ⊎ (get_computed_contract_status (status_input contract) now ≡ expiring))
          (build_contract_notifications to_kst_date_key contract now)
  unfolding build_contract_notifications
  build_contract_notifications-expiring contract now =
      elim (Bool-cases (is_manual contract.status)) [
        | inl manual ↦ rw manual tt
        | inr automatic ↦ elim (Option-cases contract.end_date) [
          | inl e ↦ rw (automatic, e, build_contract_notifications) tt
          | inr (end_date, e) ↦
              subst (All (ShowsExpiring contract now))
                (sym (rw (automatic, e, build_contract_notifications) refl))
                (All-append (ShowsExpiring contract now)
                  (expiration_candidates to_kst_date_key contract end_date now)
                  (renewal_candidates to_kst_date_key contract end_date now)
                  (expiration_candidates-expiring contract end_date now automatic e)
                  (renewal_candidates-renewal contract end_date now))
        ]
      ]

  module _
      (keyed : (a b : ℕ)
        → to_kst_day_index a ≡ to_kst_day_index b
        → to_kst_date_key a ≡ to_kst_date_key b)
      (contract : ContractNotificationInput) (now later : ℕ)
      (same : to_kst_day_index now ≡ to_kst_day_index later) where
    abbrev keys : List ContractNotificationCandidate → List String
    keys = map (λ c. c.event_key)

    expiration_candidates-same_day :
        (end_date : ℕ)
        → keys (expiration_candidates to_kst_date_key contract end_date now)
          ≡ keys (expiration_candidates to_kst_date_key contract end_date later)
    unfolding expiration_candidates
    expiration_candidates-same_day end_date =
        let days : days_remaining end_date now ≡ days_remaining end_date later =
          unfold days_remaining in rw same refl in
        elim (Option-cases (find_threshold (days_remaining end_date now) expiration_thresholds)) [
          | inl e ↦
              let e' : find_threshold (days_remaining end_date later) expiration_thresholds ≡ none =
                rw (sym days) e in
              rw (e, e', expiration_candidates) refl
          | inr (t, e) ↦
              let e' : find_threshold (days_remaining end_date later) expiration_thresholds
                  ≡ some t =
                rw (sym days) e in
              rw (e, e', expiration_candidates, keyed now later same) refl
        ]

    renewal_candidates-same_day :
        (end_date : ℕ)
        → keys (renewal_candidates to_kst_date_key contract end_date now)
          ≡ keys (renewal_candidates to_kst_date_key contract end_date later)
    unfolding renewal_candidates
    renewal_candidates-same_day end_date = elim (Option-cases contract.notice_period_days) [
      | inl e ↦ rw (e, renewal_candidates) refl
      | inr (notice, e) ↦ rw (e, renewal_candidates, same, keyed now later same) (ground arith)
    ]

    -- Where the date key of an instant depends only on its day in Korea, two runs on one day make
    -- notifications with the same event keys, in the same order.
    build_contract_notifications-same_day :
        map (λ c. c.event_key) (build_contract_notifications to_kst_date_key contract now)
        ≡ map (λ c. c.event_key) (build_contract_notifications to_kst_date_key contract later)
    unfolding build_contract_notifications
    build_contract_notifications-same_day = elim (Bool-cases (is_manual contract.status)) [
      | inl manual ↦ rw manual refl
      | inr automatic ↦ elim (Option-cases contract.end_date) [
        | inl e ↦ rw (automatic, e, build_contract_notifications) refl
        | inr (end_date, e) ↦
            rw
              (
                automatic,
                e,
                build_contract_notifications,
                map-append,
                expiration_candidates-same_day end_date,
                renewal_candidates-same_day end_date,
                map-append,
              )
              refl
      ]
    ]
