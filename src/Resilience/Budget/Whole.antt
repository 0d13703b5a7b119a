-- ===== src/Resilience/Budget/Whole.antt =====
-- A reservation is made whole or not at all, and releasing it gives everything back.
use mathlib.Core.Path.{subst}
use senecial.Base.{
  none-ne-some, some-inj, ℕ, ◌+◌, ◌-◌, ◌≡◌, refl, String, Option, none, some, str_eq, eq_iff,
  if◌then◌else◌, arith, Bool-cases, Option-cases, inl, inr,
}
use senecial.Resilience.Budget.Counter.{BudgetCounter, IsBudgetCounter}
use senecial.Resilience.Budget.Keys.{UtcDate, month_key, request_month_key, request_day_key}
use senecial.Resilience.Budget.Reserve.{
  to_safe_amount, Organization, AiBudgetReservation, allowed, denied, no_reservation, release_cost,
  release_one, release_ai_budget, Outcome, reserve_day, reserve_month, reserve_ai_budget,
  month_ttl_seconds, day_ttl_seconds,
}

abbrev at : Option String → ℕ → String → ℕ
at none n key = 0
at (some k) n key = if str_eq k key then n else 0

abbrev or_zero : Option ℕ → ℕ
or_zero none = 0
or_zero (some n) = n

-- What a reservation holds of a key.
abbrev pub held : AiBudgetReservation → String → ℕ
held r key =
    at r.cost_key (or_zero r.reserved_cost_minor) key
    + at r.request_month_key 1 key
    + at r.request_day_key 1 key

module _ (c : BudgetCounter) (laws : IsBudgetCounter c) where
  -- `s` has, over `s0`, what `r` holds.
  abbrev pub Holds : c.State → AiBudgetReservation → c.State → Type 0
  Holds s0 r s = (key : String) → c.value key s ≡ c.value key s0 + held r key

  abbrev pub Unchanged : c.State → c.State → Type 0
  Unchanged s0 s = (key : String) → c.value key s ≡ c.value key s0

  abbrev pub IsWhole : c.State → Outcome c → Type 0
  IsWhole s0 (s, allowed r) = Holds s0 r s
  IsWhole s0 (s, denied) = Unchanged s0 s

  release_cost-value :
      (r : AiBudgetReservation) (s : c.State) (key : String)
      → c.value key (release_cost c r s)
        ≡ c.value key s - at r.cost_key (or_zero r.reserved_cost_minor) key
  unfolding release_cost
  release_cost-value r s key = elim (Option-cases r.cost_key) [
    | inl e ↦ ground arith
    | inr (k, e) ↦ elim (Option-cases r.reserved_cost_minor) [
      | inl e' ↦ ground arith
      | inr (n, e') ↦ ground (arith, laws.release_value k key n s)
    ]
  ]

  release_one-value :
      (o : Option String) (s : c.State) (key : String)
      → c.value key (release_one c o s) ≡ c.value key s - at o 1 key
  unfolding release_one
  release_one-value none s key = omega arith
  release_one-value (some k) s key = ground (arith, laws.release_value k key 1 s)

  -- Releasing what a reservation holds brings every key back to its value.
  release-Unchanged :
      (s0 : c.State) (r : AiBudgetReservation) (s : c.State)
      → Holds s0 r s
      → Unchanged s0 (release_ai_budget c r s)
  unfolding release_ai_budget
  release-Unchanged s0 r s h key = omega (
    arith,
    h key,
    release_cost-value r s key,
    release_one-value r.request_month_key (release_cost c r s) key,
    release_one-value r.request_day_key (release_one c r.request_month_key (release_cost c r s))
        key,
  )

  reserve-step :
      (key : String) (amount limit ttl : ℕ) (s : c.State) (other : String)
      → let (s', answer) = c.reserve key amount limit ttl s in
        c.value other s' ≡ (
          if answer.reserved then c.value other s + at (some key) amount other else c.value other s)
  reserve-step key amount limit ttl s other = ground (
    arith,
    laws.reserve_value key other amount limit ttl s,
    laws.reserve_answer key amount limit ttl s,
    eq_iff key other,
  )

  reserve_day-IsWhole :
      (s0 : c.State) (limit : Option ℕ) (now : UtcDate) (r : AiBudgetReservation) (s : c.State)
      → r.request_day_key ≡ none
      → Holds s0 r s
      → IsWhole s0 (reserve_day c limit now r s)
  unfolding reserve_day
  reserve_day-IsWhole s0 none now r s fresh h = h
  reserve_day-IsWhole s0 (some limit) now r s fresh h =
      let key = request_day_key r.organization_id now in
      let (s', answer) = c.reserve key 1 limit day_ttl_seconds s in
      elim (Bool-cases answer.reserved) [
        | inl made ↦
            rw made
              λ other. ground (arith, h other, reserve-step key 1 limit day_ttl_seconds s other)
        | inr refused ↦ rw refused (
            release-Unchanged s0 r s'
              λ other. ground (arith, h other, reserve-step key 1 limit day_ttl_seconds s other))
      ]

  reserve_month-IsWhole :
      (s0 : c.State) (org : Organization) (now : UtcDate) (r : AiBudgetReservation) (s : c.State)
      → r.request_day_key ≡ none
      → r.request_month_key ≡ none
      → Holds s0 r s
      → IsWhole s0 (reserve_month c org now r s)
  unfolding reserve_month
  reserve_month-IsWhole s0 org now r s fresh fresh' h =
      elim (Option-cases org.monthly_ai_request_limit) [
        | inl unlimited ↦
            rw (unlimited, reserve_month)
              (reserve_day-IsWhole s0 org.daily_ai_request_limit now r s fresh h)
        | inr (limit, limited) ↦
            let key = request_month_key r.organization_id now in
            let (s', answer) = c.reserve key 1 limit month_ttl_seconds s in
            rw (limited, reserve_month)
              (elim (Bool-cases answer.reserved) [
                | inl made ↦ rw made (
                    reserve_day-IsWhole s0 org.daily_ai_request_limit now
                      (record r { request_month_key = some key }) s' fresh
                      λ other.
                        ground (arith, h other, reserve-step key 1 limit month_ttl_seconds s other))
                | inr refused ↦ rw refused (
                    release-Unchanged s0 r s' λ other.
                      ground (arith, h other, reserve-step key 1 limit month_ttl_seconds s other))
              ])
      ]

  -- The reservation of the cost, once its amounts are safe.
  reserve_cost-IsWhole :
      (org : Organization) (id : String) (amount limit : ℕ) (now : UtcDate) (s : c.State)
      → let key = month_key id now in
        let (s', answer) = c.reserve key amount limit month_ttl_seconds s in
        IsWhole s (
          if answer.reserved
          then reserve_month c org now
              (record (no_reservation id) {
                cost_key = some key;
                reserved_cost_minor = some amount;
              })
              s'
          else (release_ai_budget c (no_reservation id) s', denied))
  reserve_cost-IsWhole org id amount limit now s =
      let key = month_key id now in
      let (s', answer) = c.reserve key amount limit month_ttl_seconds s in
      elim (Bool-cases answer.reserved) [
        | inl made ↦ rw made (
            reserve_month-IsWhole s org now
              (record (no_reservation id) {
                cost_key = some key;
                reserved_cost_minor = some amount;
              })
              s' refl refl
              λ other. ground (arith, reserve-step key amount limit month_ttl_seconds s other))
        | inr refused ↦ rw refused (
            release-Unchanged s (no_reservation id) s'
              λ other. ground (arith, reserve-step key amount limit month_ttl_seconds s other))
      ]

  -- Whatever limits an organization has, a reservation is made whole or not at all: where it is
  -- denied, the value of every key is what it was before; where it is allowed, every key has grown by
  -- exactly what the reservation holds of it.
  pub reserve_ai_budget-IsWhole :
      (org : Organization) (id : String) (estimate : ℕ) (now : UtcDate) (s : c.State)
      (outcome : Outcome c)
      → reserve_ai_budget c org id estimate now s ≡ some outcome
      → IsWhole s outcome
  unfolding reserve_ai_budget
  reserve_ai_budget-IsWhole org id estimate now s outcome e =
      elim (Option-cases org.monthly_ai_budget_minor) [
        | inl unlimited ↦
            subst (IsWhole s) (some-inj (rw (unlimited, reserve_ai_budget) at e))
              (reserve_month-IsWhole s org now (no_reservation id) s refl refl λ key. omega arith)
        | inr (budget, limited) ↦ elim (Option-cases (to_safe_amount estimate)) [
          | inl unsafe ↦ absurd (none-ne-some (rw (limited, unsafe, reserve_ai_budget) at e))
          | inr (amount, safe) ↦ elim (Option-cases (to_safe_amount budget)) [
            | inl unsafe ↦
                absurd (none-ne-some (rw (limited, safe, unsafe, reserve_ai_budget) at e))
            | inr (limit, safe') ↦
                subst (IsWhole s) (some-inj (rw (limited, safe, safe', reserve_ai_budget) at e))
                  (reserve_cost-IsWhole org id amount limit now s)
          ]
        ]
      ]

  -- An allowed reservation that is released leaves the value of every key as it was before.
  pub release-reserve_ai_budget :
      (org : Organization) (id : String) (estimate : ℕ) (now : UtcDate) (s s' : c.State)
      (r : AiBudgetReservation)
      → reserve_ai_budget c org id estimate now s ≡ some (s', allowed r)
      → (key : String) → c.value key (release_ai_budget c r s') ≡ c.value key s
  release-reserve_ai_budget org id estimate now s s' r e key =
      release-Unchanged s r s' (reserve_ai_budget-IsWhole org id estimate now s (s', allowed r) e)
        key
