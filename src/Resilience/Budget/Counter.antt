-- ===== src/Resilience/Budget/Counter.antt =====
-- src/domain/ai/budget-counter.ts: the operations of a counter, and the laws that its comments promise.
-- `value` is what an observer reads of a key; the effects of the clock are the implementation's.
use senecial.Base.{ℕ, ◌+◌, ◌-◌, ◌≡◌, String, Bool, leb, str_eq, if◌then◌else◌}
use senecial.Base.Int.{ℤ, pos, pos_part, ◌+ℤ◌}

pub record BudgetCounterReserveResult : Type 0 where
  pub reserved : Bool
  pub current_value : ℕ

pub record BudgetCounter : Type 1 where
  pub State : Type 0
  pub value : String → State → ℕ
  pub reserve : String → ℕ → ℕ → ℕ → State → State × BudgetCounterReserveResult
  pub adjust : String → ℤ → State → State
  pub release : String → ℕ → State → State

-- Never below zero: `Math.max(0, n + delta)`.
abbrev pub add_clamped : ℕ → ℤ → ℕ
add_clamped n delta = pos_part (pos n +ℤ delta)

pub record IsBudgetCounter (c : BudgetCounter) : Type 0 where
  pub reserve_value :
      (key other : String) (amount limit ttl : ℕ) (s : c.State)
      → c.value other (c.reserve key amount limit ttl s).0 ≡ (
          if str_eq key other
          then (if leb (c.value other s + amount) limit
              then c.value other s + amount
              else c.value other s)
          else c.value other s)
  pub reserve_answer :
      (key : String) (amount limit ttl : ℕ) (s : c.State)
      → (c.reserve key amount limit ttl s).1.reserved ≡ leb (c.value key s + amount) limit
  pub adjust_value :
      (key other : String) (delta : ℤ) (s : c.State)
      → c.value other (c.adjust key delta s)
        ≡ (if str_eq key other then add_clamped (c.value other s) delta else c.value other s)
  pub release_value :
      (key other : String) (amount : ℕ) (s : c.State)
      → c.value other (c.release key amount s)
        ≡ (if str_eq key other then c.value other s - amount else c.value other s)
