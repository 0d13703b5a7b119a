-- ===== src/Resilience/Budget/Tests.antt =====
-- The budget over the in-process counter on concrete inputs.
use senecial.Base.{ℕ, ◌+◌, ◌≤◌, ◌≡◌, ◌≢◌, refl, String, none, some, [], ◌∷◌, Dict, arith}
use senecial.Resilience.Budget.Counter.{IsBudgetCounter}
use senecial.Resilience.Budget.InMemory.{
  CounterEntry, get_value, reserve, release, in_memory, in_memory-IsBudgetCounter,
}
use senecial.Resilience.Budget.Keys.{UtcDate, month_key, request_month_key, request_day_key}
use senecial.Resilience.Budget.Reserve.{
  Organization, AiBudgetReservation, allowed, denied, release_ai_budget, reserve_ai_budget,
  settle_ai_budget,
}
use senecial.Resilience.Budget.Whole.{IsWhole, reserve_ai_budget-IsWhole, release-reserve_ai_budget}
use senecial.Resilience.Budget.Limits.{reserve_ai_budget-within}
use senecial.Resilience.Budget.Settle.{settle_ai_budget-value}

abbrev day : UtcDate
day = record { year = 2026; month = 7; date = 5 }

abbrev org : Organization
org = record {
  monthly_ai_budget_minor = some 1000;
  monthly_ai_request_limit = none;
  daily_ai_request_limit = some 1;
}

abbrev cost : String
cost = "cost:o1:2026-08"

abbrev counted : Dict CounterEntry
counted =
    (cost, record { value = 300; expires_at = 900000 })
    ∷ ("req-day:o1:2026-08-05", record { value = 1; expires_at = 900000 })
    ∷ []

abbrev idle : Dict CounterEntry
idle = (cost, record { value = 300; expires_at = 900000 }) ∷ []

abbrev made : AiBudgetReservation
made = record {
  organization_id = "o1";
  cost_key = some cost;
  reserved_cost_minor = some 200;
  request_month_key = none;
  request_day_key = some "req-day:o1:2026-08-05";
}

abbrev reserved : Dict CounterEntry
reserved =
    (cost, record { value = 500; expires_at = 900000 })
    ∷ ("req-day:o1:2026-08-05", record { value = 1; expires_at = 90001000 })
    ∷ []

key_texts :
    (month_key "o1" day ≡ cost)
    × (request_month_key "o1" day ≡ "req-month:o1:2026-08")
    × (request_day_key "o1" day ≡ "req-day:o1:2026-08-05")
unfolding month_key request_month_key request_day_key
key_texts = (refl, refl, refl)

-- The daily limit of one request is used up, so the reserved cost is given back.
rolled_back : reserve_ai_budget (in_memory 1000) org "o1" 200 day counted ≡ some (counted, denied)
unfolding reserve_ai_budget month_key request_day_key reserve release
rolled_back = refl

goes_through :
    reserve_ai_budget (in_memory 1000) org "o1" 200 day idle ≡ some (reserved, allowed made)
unfolding reserve_ai_budget month_key request_day_key reserve release
goes_through = refl

in_memory-IsBudgetCounter_example : IsBudgetCounter (in_memory 1000)
in_memory-IsBudgetCounter_example = in_memory-IsBudgetCounter 1000

reserve_ai_budget-IsWhole_example :
    IsWhole (in_memory 1000) (in_memory-IsBudgetCounter 1000) counted (counted, denied)
reserve_ai_budget-IsWhole_example =
    reserve_ai_budget-IsWhole (in_memory 1000) (in_memory-IsBudgetCounter 1000) org "o1" 200 day
      counted (counted, denied) rolled_back

release-reserve_ai_budget_example :
    get_value 1000 cost (release_ai_budget (in_memory 1000) made reserved)
    ≡ get_value 1000 cost idle
release-reserve_ai_budget_example =
    release-reserve_ai_budget (in_memory 1000) (in_memory-IsBudgetCounter 1000) org "o1" 200 day
      idle reserved made goes_through cost

reserve_ai_budget-within_example :
    ((b : ℕ) → some 1000 ≡ some b → get_value 1000 (month_key "o1" day) reserved ≤ b)
    × ((l : ℕ) → none ≡ some l → get_value 1000 (request_month_key "o1" day) reserved ≤ l)
    × ((l : ℕ) → some 1 ≡ some l → get_value 1000 (request_day_key "o1" day) reserved ≤ l)
reserve_ai_budget-within_example =
    reserve_ai_budget-within (in_memory 1000) (in_memory-IsBudgetCounter 1000) org "o1" 200 day idle
      reserved made goes_through

cost_reserved : get_value 1000 cost reserved ≡ 300 + 200
unfolding get_value
cost_reserved = refl

settle_ai_budget-value_example :
    (s' : Dict CounterEntry) × (settle_ai_budget (in_memory 1000) made (some 150) reserved
      ≡ some s')
    × (get_value 1000 cost s' ≡ 300 + 150)
    × ((other : String) → cost ≢ other → get_value 1000 other s' ≡ get_value 1000 other reserved)
settle_ai_budget-value_example =
    settle_ai_budget-value (in_memory 1000) (in_memory-IsBudgetCounter 1000) made cost 200 300
      (some 150) reserved refl refl cost_reserved (omega arith)
