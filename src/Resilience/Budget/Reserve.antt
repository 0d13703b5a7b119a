-- ===== src/Resilience/Budget/Reserve.antt =====
-- src/server/services/ai/budget/reserve-ai-budget.ts over any counter. The organization's limits are
-- what the database answers; `null` is `none`, unlimited. Amounts are micro-cents. The `Error` that
-- `toSafeAmount` throws is `none`.
use senecial.Base.{ℕ, ◌+◌, String, Option, none, some, ltb, if◌then◌else◌}
use senecial.Base.Int.{pos_part, neg_part, sub_ℕ}
use senecial.Resilience.Budget.Counter.{BudgetCounter}
use senecial.Resilience.Budget.Keys.{UtcDate, month_key, request_month_key, request_day_key}

abbrev pub month_ttl_seconds : ℕ
month_ttl_seconds = 2764800

abbrev pub day_ttl_seconds : ℕ
day_ttl_seconds = 90000

-- `Number.MAX_SAFE_INTEGER`
abbrev pub max_safe_integer : ℕ
max_safe_integer = 9007199254740991

unfoldable pub to_safe_amount : ℕ → Option ℕ
to_safe_amount minor = if ltb max_safe_integer minor then none else some minor

pub record Organization : Type 0 where
  pub monthly_ai_budget_minor : Option ℕ
  pub monthly_ai_request_limit : Option ℕ
  pub daily_ai_request_limit : Option ℕ

pub record AiBudgetReservation : Type 0 where
  pub organization_id : String
  pub cost_key : Option String
  pub reserved_cost_minor : Option ℕ
  pub request_month_key : Option String
  pub request_day_key : Option String

pub data AiBudgetReserveOutcome : Type 0 where
  allowed : AiBudgetReservation → AiBudgetReserveOutcome
  denied : AiBudgetReserveOutcome

abbrev pub no_reservation : String → AiBudgetReservation
no_reservation id = record {
  organization_id = id;
  cost_key = none;
  reserved_cost_minor = none;
  request_month_key = none;
  request_day_key = none;
}

infixl 5 ◌>>=◌
abbrev pub ◌>>=◌ {ℓ κ} : {A : Type ℓ} {B : Type κ} → Option A → (A → Option B) → Option B
none >>= k = none
some a >>= k = k a

module _ (c : BudgetCounter) where
  -- `if (key && amount) release(key, amount)`: an amount of 0 is not released.
  unfoldable pub release_cost : AiBudgetReservation → c.State → c.State
  release_cost r s = elim r.cost_key [
    | none ↦ s
    | some key ↦ elim r.reserved_cost_minor [
      | none ↦ s
      | some amount ↦ if ltb 0 amount then c.release key amount s else s
    ]
  ]

  unfoldable pub release_one : Option String → c.State → c.State
  release_one none s = s
  release_one (some key) s = c.release key 1 s

  -- `releaseAiBudget`, and the releases of `rollbackAndReject`.
  unfoldable pub release_ai_budget : AiBudgetReservation → c.State → c.State
  unfolding release_cost release_one
  release_ai_budget r s =
      release_one r.request_day_key (release_one r.request_month_key (release_cost r s))

  abbrev pub Outcome : Type 0
  Outcome = c.State × AiBudgetReserveOutcome

  unfoldable pub reserve_day : Option ℕ → UtcDate → AiBudgetReservation → c.State → Outcome
  unfolding release_ai_budget
  reserve_day none now r s = (s, allowed r)
  reserve_day (some limit) now r s =
      let key = request_day_key r.organization_id now in
      let (s', answer) = c.reserve key 1 limit day_ttl_seconds s in
      if answer.reserved
      then (s', allowed (record r { request_day_key = some key }))
      else (release_ai_budget r s', denied)

  unfoldable pub reserve_month : Organization → UtcDate → AiBudgetReservation → c.State → Outcome
  unfolding release_ai_budget reserve_day
  reserve_month org now r s = elim org.monthly_ai_request_limit [
    | none ↦ reserve_day org.daily_ai_request_limit now r s
    | some limit ↦
        let key = request_month_key r.organization_id now in
        let (s', answer) = c.reserve key 1 limit month_ttl_seconds s in
        if answer.reserved
        then reserve_day org.daily_ai_request_limit now (record r { request_month_key = some key })
            s'
        else (release_ai_budget r s', denied)
  ]

  unfoldable pub reserve_ai_budget : Organization → String → ℕ → UtcDate → c.State → Option Outcome
  unfolding release_ai_budget reserve_month to_safe_amount
  reserve_ai_budget org organization_id max_estimated_cost_minor now s =
      let r = no_reservation organization_id in
      elim org.monthly_ai_budget_minor [
        | none ↦ some (reserve_month org now r s)
        | some budget ↦ do
          let key = month_key organization_id now
          amount ← to_safe_amount max_estimated_cost_minor
          limit ← to_safe_amount budget
          let (s', answer) = c.reserve key amount limit month_ttl_seconds s
          some (
              if answer.reserved
              then reserve_month org now
                  (record r { cost_key = some key; reserved_cost_minor = some amount }) s'
              else (release_ai_budget r s', denied))
      ]

  -- `null` is a failed operation with no cost.
  unfoldable pub settle_ai_budget : AiBudgetReservation → Option ℕ → c.State → Option c.State
  unfolding to_safe_amount
  settle_ai_budget r actual_cost_minor s = elim r.cost_key [
    | none ↦ some s
    | some key ↦ elim r.reserved_cost_minor [
      | none ↦ some s
      | some reserved ↦ do
        actual ← (elim actual_cost_minor [ none ↦ some 0 | some cost ↦ to_safe_amount cost ])
        let delta = sub_ℕ actual reserved
        some (if ltb 0 (pos_part delta + neg_part delta) then c.adjust key delta s else s)
    ]
  ]
