-- ===== src/Contracts/Status.antt =====
-- src/domain/contracts/get-computed-contract-status.ts. A `Date` is its milliseconds since the epoch; the
-- dates of contracts are not before it. The day on which an instant falls is that of UTC+9.
use senecial.Base.{ℕ, ◌+◌, ◌-◌, ◌*◌, ◌/◌, Bool, true, false, Option, none, some, if◌then◌else◌}
use senecial.Base.Int.{ℤ, pos, sub_ℕ, ltb_ℤ, leb_ℤ}

pub data ContractStatus : Type 0 where
  draft active expiring expired terminated archived : ContractStatus

-- `MANUAL_STATUSES.has(status)`
unfoldable pub is_manual : ContractStatus → Bool
is_manual draft = true
is_manual terminated = true
is_manual archived = true
is_manual _ = false

abbrev pub expiring_window_days : ℕ
expiring_window_days = 30

abbrev pub kst_offset_ms : ℕ
kst_offset_ms = 9 * 60 * 60 * 1000

abbrev pub ms_per_day : ℕ
ms_per_day = 24 * 60 * 60 * 1000

unfoldable pub to_kst_day_index : ℕ → ℕ
to_kst_day_index date = (date + kst_offset_ms) / ms_per_day

-- Of a day after the first one, whose start is not before the epoch.
unfoldable pub kst_day_index_to_utc_start : ℕ → ℕ
kst_day_index_to_utc_start day_index = day_index * ms_per_day - kst_offset_ms

pub record ContractStatusInput : Type 0 where
  pub status : ContractStatus
  pub end_date : Option ℕ

unfoldable pub days_remaining : ℕ → ℕ → ℤ
unfolding to_kst_day_index
days_remaining end_date now = sub_ℕ (to_kst_day_index end_date) (to_kst_day_index now)

unfoldable pub get_computed_contract_status : ContractStatusInput → ℕ → ContractStatus
unfolding is_manual days_remaining
get_computed_contract_status contract now =
    if is_manual contract.status then contract.status else elim contract.end_date [
      | none ↦ contract.status
      | some end_date ↦
          if ltb_ℤ (days_remaining end_date now) (pos 0)
          then expired
          else if leb_ℤ (days_remaining end_date now) (pos expiring_window_days)
          then expiring
          else contract.status
    ]
