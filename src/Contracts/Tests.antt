-- ===== src/Contracts/Tests.antt =====
-- Runs of the contract modules, and their theorems at concrete inputs.
use senecial.Base.{
  ℕ, ◌+◌, ◌-◌, String, true, ◌≡◌, refl, ◌⊎◌, some, [], ◌∷◌, map, All, ltb, if◌then◌else◌, arith,
}
use senecial.Base.Decimal.{show_nat}
use senecial.Contracts.Status.{
  active, expiring, expired, is_manual, days_remaining, to_kst_day_index,
  kst_day_index_to_utc_start, get_computed_contract_status,
}
use senecial.Contracts.Buckets.{
  days_8_30, status_in, expiration_bucket_for_end_date, get_computed_contract_status-bucket,
}
use senecial.Contracts.Timeline.{get_computed_contract_status-instants}
use senecial.Contracts.Notifications.{
  renewal_notice_due, ContractNotificationInput, build_contract_notifications,
}
use senecial.Contracts.Notifications.Days.{status_input, build_contract_notifications-expiring}
use senecial.Contracts.Processing.{ContractProcessingStateInput, some_in, in_flight}

-- 2026-08-06 06:00 in Korea, and half past two on that day
abbrev morning : ℕ
morning = 1786050000000

abbrev afternoon : ℕ
afternoon = 1786080600000

-- 14 days later
abbrev end_date : ℕ
end_date = 1787259600000

abbrev contract : ContractNotificationInput
contract = record {
  id = "c1";
  status = active;
  end_date = some end_date;
  auto_renewal = true;
  notice_period_days = some 14;
}

abbrev date_key : ℕ → String
date_key t = show_nat (to_kst_day_index t)

shows_expiring : get_computed_contract_status (status_input contract) morning ≡ expiring
unfolding get_computed_contract_status
shows_expiring = refl

bucket : expiration_bucket_for_end_date (some end_date) morning ≡ days_8_30
unfolding expiration_bucket_for_end_date days_remaining
bucket = refl

two_notifications :
    map (λ c. c.event_key) (build_contract_notifications date_key contract morning)
    ≡ "contract:c1:expiration:14d:20672" ∷ "contract:c1:renewal-notice:20672" ∷ []
unfolding build_contract_notifications to_kst_day_index days_remaining show_nat
two_notifications = refl

get_computed_contract_status-bucket_example :
    get_computed_contract_status (status_input contract) morning
    ≡ status_in (expiration_bucket_for_end_date (some end_date) morning) active
unfolding is_manual
get_computed_contract_status-bucket_example =
    get_computed_contract_status-bucket (status_input contract) morning refl

get_computed_contract_status-instants_example :
    let day = to_kst_day_index end_date in
    get_computed_contract_status (record { status = active; end_date = some end_date }) morning ≡ (
      if ltb morning (kst_day_index_to_utc_start (day - 30))
      then active
      else if ltb morning (kst_day_index_to_utc_start (day + 1))
      then expiring
      else expired)
unfolding to_kst_day_index
get_computed_contract_status-instants_example =
    get_computed_contract_status-instants end_date morning (omega arith)

build_contract_notifications-expiring_example :
    All
      (λ c.
        (c.notification_type ≡ renewal_notice_due)
        ⊎ (get_computed_contract_status (status_input contract) morning ≡ expiring))
      (build_contract_notifications date_key contract morning)
build_contract_notifications-expiring_example =
    build_contract_notifications-expiring date_key contract morning

same_day : to_kst_day_index morning ≡ to_kst_day_index afternoon
unfolding to_kst_day_index
same_day = refl

abbrev processing_input : ContractProcessingStateInput
processing_input = record {
  extraction_job_statuses = "FAILED" ∷ "PROCESSING" ∷ [];
  segmentation_job_statuses = "COMPLETED" ∷ [];
  chunk_count = 0;
}

in_flight_job : some_in in_flight ("FAILED" ∷ "PROCESSING" ∷ []) ≡ true
unfolding some_in
in_flight_job = refl
