-- ===== src/Contracts/Buckets.antt =====
-- The buckets of src/domain/analytics/date-buckets.ts, and that those of the end dates agree with the
-- status that a contract shows.
use senecial.Base.{
  ℕ, ◌≡◌, refl, false, Option, none, some, if◌then◌else◌, arith, Option-cases, inl, inr,
}
use senecial.Base.Int.{ℤ, pos, leb_ℤ, ltb_ℤ, eq_ℤ}
use senecial.Contracts.Status.{
  ContractStatus, expiring, expired, is_manual, ContractStatusInput, days_remaining,
  get_computed_contract_status,
}

pub data ExpirationBucket : Type 0 where
  expired_bucket today days_1_7 days_8_30 days_31_90 days_91_180 days_181_plus no_end_date :
      ExpirationBucket

unfoldable pub bucket_of_days : ℤ → ExpirationBucket
bucket_of_days days =
    if ltb_ℤ days (pos 0)
    then expired_bucket
    else if eq_ℤ days (pos 0)
    then today
    else if leb_ℤ days (pos 7)
    then days_1_7
    else if leb_ℤ days (pos 30)
    then days_8_30
    else if leb_ℤ days (pos 90)
    then days_31_90
    else if leb_ℤ days (pos 180)
    then days_91_180
    else days_181_plus

unfoldable pub expiration_bucket_for_end_date : Option ℕ → ℕ → ExpirationBucket
unfolding bucket_of_days
expiration_bucket_for_end_date none now = no_end_date
expiration_bucket_for_end_date (some end_date) now = bucket_of_days (days_remaining end_date now)

-- What the bucket of its end date says of the status that a contract shows.
abbrev pub status_in : ExpirationBucket → ContractStatus → ContractStatus
status_in expired_bucket status = expired
status_in today status = expiring
status_in days_1_7 status = expiring
status_in days_8_30 status = expiring
status_in _ status = status

status-bucket_of_days :
    (days : ℤ) (status : ContractStatus)
    → (if ltb_ℤ days (pos 0) then expired else if leb_ℤ days (pos 30) then expiring else status)
      ≡ status_in (bucket_of_days days) status
unfolding bucket_of_days
status-bucket_of_days days status = ground arith

-- A contract that is not in one of the manual statuses shows EXPIRED where its end date is in the bucket
-- EXPIRED, EXPIRING where it is in the buckets TODAY, 1-7 and 8-30 days, and its stored status, whichever
-- that is, in every other bucket.
pub get_computed_contract_status-bucket :
    (contract : ContractStatusInput) (now : ℕ)
    → is_manual contract.status ≡ false
    → get_computed_contract_status contract now
      ≡ status_in (expiration_bucket_for_end_date contract.end_date now) contract.status
unfolding get_computed_contract_status expiration_bucket_for_end_date
get_computed_contract_status-bucket contract now automatic = elim (Option-cases contract.end_date) [
  | inl open_ended ↦ rw (automatic, open_ended, expiration_bucket_for_end_date) refl
  | inr (end_date, e) ↦
      rw (automatic, e, expiration_bucket_for_end_date)
        (status-bucket_of_days (days_remaining end_date now) contract.status)
]
