-- ===== src/Contracts/Notifications.antt =====
-- src/domain/notifications/build-contract-notifications.ts. `toKstDateKey` is the runtime's
-- `Intl.DateTimeFormat`, a parameter; the two texts that are shown are left out.
pub mod Days
use Prim.Native.String.{◌++◌ as ◌<>◌}
use senecial.Base.{
  ℕ, ◌+◌, String, Bool, true, false, Option, none, some, List, [], ◌∷◌, ◌++◌, if◌then◌else◌,
}
use senecial.Base.Int.{ℤ, pos, sub_ℕ, eq_ℤ}
use senecial.Base.Decimal.{show_nat}
use senecial.Contracts.Status.{ContractStatus, is_manual, to_kst_day_index, days_remaining}

pub data NotificationType : Type 0 where
  expiration_30d expiration_14d expiration_7d expiration_1d expiration_today renewal_notice_due :
      NotificationType

pub record Threshold : Type 0 where
  pub notification_type : NotificationType
  pub days : ℕ

abbrev pub threshold : NotificationType → ℕ → Threshold
threshold t d = record { notification_type = t; days = d }

abbrev pub expiration_thresholds : List Threshold
expiration_thresholds =
    threshold expiration_30d 30
    ∷ threshold expiration_14d 14
    ∷ threshold expiration_7d 7
    ∷ threshold expiration_1d 1
    ∷ threshold expiration_today 0
    ∷ []

pub record ContractNotificationInput : Type 0 where
  pub id : String
  pub status : ContractStatus
  pub end_date : Option ℕ
  pub auto_renewal : Bool
  pub notice_period_days : Option ℕ

pub record ContractNotificationCandidate : Type 0 where
  pub notification_type : NotificationType
  pub event_key : String
  pub scheduled_for : ℕ

-- `EXPIRATION_THRESHOLDS.find((t) => t.days === daysRemaining)`
unfoldable pub find_threshold : ℤ → List Threshold → Option Threshold
find_threshold remaining [] = none
find_threshold remaining (t ∷ ts) =
    let later = find_threshold remaining ts in if eq_ℤ (pos t.days) remaining then some t else later

module _ (to_kst_date_key : ℕ → String) where
  abbrev pub candidate : NotificationType → String → ℕ → ContractNotificationCandidate
  candidate t key now = record { notification_type = t; event_key = key; scheduled_for = now }

  unfoldable pub expiration_candidates :
      ContractNotificationInput → ℕ → ℕ → List ContractNotificationCandidate
  unfolding find_threshold
  expiration_candidates contract end_date now =
      elim (find_threshold (days_remaining end_date now) expiration_thresholds) [
        | none ↦ []
        | some matched ↦
            candidate matched.notification_type
              ("contract:"
                <> contract.id
                <> ":expiration:"
                <> show_nat matched.days
                <> "d:"
                <> to_kst_date_key now)
              now
            ∷ []
      ]

  unfoldable pub renewal_candidates :
      ContractNotificationInput → ℕ → ℕ → List ContractNotificationCandidate
  unfolding to_kst_day_index
  renewal_candidates contract end_date now =
      if contract.auto_renewal
      then elim contract.notice_period_days [
        | none ↦ []
        | some notice ↦
            if eq_ℤ (sub_ℕ (to_kst_day_index end_date) notice) (pos (to_kst_day_index now))
            then candidate renewal_notice_due
                ("contract:" <> contract.id <> ":renewal-notice:" <> to_kst_date_key now) now
              ∷ []
            else []
      ]
      else []

  unfoldable pub build_contract_notifications :
      ContractNotificationInput → ℕ → List ContractNotificationCandidate
  unfolding is_manual expiration_candidates renewal_candidates
  build_contract_notifications contract now =
      if is_manual contract.status then [] else elim contract.end_date [
        | none ↦ []
        | some end_date ↦
            expiration_candidates contract end_date now ++ renewal_candidates contract end_date now
      ]
