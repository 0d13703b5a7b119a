-- ===== src/Contracts/Timeline.antt =====
-- The shown status as time passes.
use senecial.Base.{ℕ, ◌+◌, ◌-◌, ◌≤◌, ◌<◌, ◌≡◌, ltb, some, if◌then◌else◌, arith}
use senecial.Contracts.Status.{
  active, expiring, expired, is_manual, to_kst_day_index, kst_day_index_to_utc_start,
  days_remaining, get_computed_contract_status,
}

-- For every day after the first, the start of the day falls on that day, and an instant is at or after
-- it exactly where its day is that day or a later one.
kst_day_index_to_utc_start-to_kst_day_index :
    (day t : ℕ)
    → 0 < day
    → (to_kst_day_index (kst_day_index_to_utc_start day) ≡ day)
      × ((kst_day_index_to_utc_start day ≤ t → day ≤ to_kst_day_index t)
          × (day ≤ to_kst_day_index t → kst_day_index_to_utc_start day ≤ t))
unfolding to_kst_day_index kst_day_index_to_utc_start
kst_day_index_to_utc_start-to_kst_day_index day t positive =
    (omega arith, (λ h. omega arith, λ h. omega arith))

-- An active contract whose end date falls on a day after the thirtieth shows ACTIVE until the day thirty days before the one it ends on begins in Korea,
-- EXPIRING until the day after it ends begins, and EXPIRED from then on.
pub get_computed_contract_status-instants :
    (end_date now : ℕ)
    → 30 < to_kst_day_index end_date
    → let day = to_kst_day_index end_date in
      get_computed_contract_status (record { status = active; end_date = some end_date }) now ≡ (
        if ltb now (kst_day_index_to_utc_start (day - 30))
        then active
        else if ltb now (kst_day_index_to_utc_start (day + 1))
        then expiring
        else expired)
unfolding get_computed_contract_status is_manual days_remaining to_kst_day_index
    kst_day_index_to_utc_start
get_computed_contract_status-instants end_date now late = ground arith
