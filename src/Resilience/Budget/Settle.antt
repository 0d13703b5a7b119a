-- ===== src/Resilience/Budget/Settle.antt =====
-- Settling a reservation replaces the estimate by the cost.
use senecial.Base.{
  ℕ, ◌+◌, ◌≤◌, ◌≡◌, refl, ◌≢◌, String, Option, none, some, ltb, eq_iff, eq_refl, if◌then◌else◌,
  arith,
}
use senecial.Base.Int.{pos_part, neg_part, sub_ℕ}
use senecial.Resilience.Budget.Counter.{BudgetCounter, IsBudgetCounter}
use senecial.Resilience.Budget.Reserve.{
  to_safe_amount, AiBudgetReservation, settle_ai_budget, max_safe_integer,
}

abbrev pub or_zero : Option ℕ → ℕ
or_zero none = 0
or_zero (some n) = n

module _ (c : BudgetCounter) (laws : IsBudgetCounter c) where
  abbrev settled : String → ℕ → Option ℕ → c.State → c.State
  settled key reserved actual s =
      let delta = sub_ℕ (or_zero actual) reserved in
      if ltb 0 (pos_part delta + neg_part delta) then c.adjust key delta s else s

  settle-eq :
      (r : AiBudgetReservation) (key : String) (reserved : ℕ) (actual : Option ℕ) (s : c.State)
      → r.cost_key ≡ some key
      → r.reserved_cost_minor ≡ some reserved
      → or_zero actual ≤ max_safe_integer
      → settle_ai_budget c r actual s ≡ some (settled key reserved actual s)
  unfolding settle_ai_budget
  settle-eq r key reserved none s is_key is_reserved safe =
      rw (is_key, is_reserved, settle_ai_budget) refl
  settle-eq r key reserved (some cost) s is_key is_reserved safe =
      let fits : to_safe_amount cost ≡ some cost = unfold to_safe_amount in ground arith in
      rw (is_key, is_reserved, settle_ai_budget) (rw fits refl)

  settled-value :
      (key : String) (reserved before : ℕ) (actual : Option ℕ) (s : c.State)
      → c.value key s ≡ before + reserved
      → c.value key (settled key reserved actual s) ≡ before + or_zero actual
  settled-value key reserved before actual s holds =
      let n = or_zero actual in
      ground (arith, laws.adjust_value key key (sub_ℕ n reserved) s, eq_refl key)

  settled-other :
      (key other : String) (reserved : ℕ) (actual : Option ℕ) (s : c.State)
      → key ≢ other
      → c.value other (settled key reserved actual s) ≡ c.value other s
  settled-other key other reserved actual s ne =
      ground
        (arith, laws.adjust_value key other (sub_ℕ (or_zero actual) reserved) s, eq_iff key other)

  -- Settling: the reservation's cost key holds the actual cost (0 for a failed operation) in place of
  -- the estimate, and no other key moves. It fails only for a cost beyond the safe integers.
  pub settle_ai_budget-value :
      (r : AiBudgetReservation) (key : String) (reserved before : ℕ) (actual : Option ℕ)
      (s : c.State)
      → r.cost_key ≡ some key
      → r.reserved_cost_minor ≡ some reserved
      → c.value key s ≡ before + reserved
      → or_zero actual ≤ max_safe_integer
      → (s' : c.State) × (settle_ai_budget c r actual s ≡ some s')
        × (c.value key s' ≡ before + or_zero actual)
        × ((other : String) → key ≢ other → c.value other s' ≡ c.value other s)
  settle_ai_budget-value r key reserved before actual s is_key is_reserved holds safe = (
    settled key reserved actual s,
    settle-eq r key reserved actual s is_key is_reserved safe,
    settled-value key reserved before actual s holds,
    λ other ne. settled-other key other reserved actual s ne,
  )
