-- ===== src/Resilience/Budget/InMemory.antt =====
-- src/server/services/ai/budget/in-memory-budget-counter.ts. The readings of `Date.now()` within one
-- operation, which awaits nothing, are the one argument `now`, in milliseconds.
use senecial.Base.{
  ℕ, ◌+◌, ◌-◌, ◌*◌, ◌≡◌, ◌∙◌, ap, String, true, false, Option, none, some, Dict, get, put, get-put,
  leb, ltb, str_eq, eq_iff, if◌then◌else◌, ap-if, arith,
}
use senecial.Base.Int.{ℤ, pos, pos_part, ◌+ℤ◌}
use senecial.Resilience.Budget.Counter.{
  BudgetCounterReserveResult, BudgetCounter, IsBudgetCounter, add_clamped,
}

pub record CounterEntry : Type 0 where
  pub value : ℕ
  pub expires_at : ℕ

-- `!entry || entry.expiresAt < Date.now()`
abbrev pub value_of : ℕ → Option CounterEntry → ℕ
value_of now none = 0
value_of now (some e) = if ltb e.expires_at now then 0 else e.value

unfoldable pub get_value : ℕ → String → Dict CounterEntry → ℕ
unfolding get
get_value now key counters = value_of now (get key counters)

abbrev pub expiry : ℕ → ℕ → Option CounterEntry → ℕ
expiry now ttl none = now + ttl * 1000
expiry now ttl (some e) = if leb now e.expires_at then e.expires_at else now + ttl * 1000

-- A counter that has not expired keeps its expiry.
unfoldable pub set_value : ℕ → String → ℕ → ℕ → Dict CounterEntry → Dict CounterEntry
unfolding get put
set_value now key value ttl_seconds counters =
    put key (record { value = value; expires_at = expiry now ttl_seconds (get key counters) })
      counters

unfoldable pub reserve :
    ℕ → String → ℕ → ℕ → ℕ → Dict CounterEntry → Dict CounterEntry × BudgetCounterReserveResult
unfolding get_value set_value
reserve now key amount limit ttl_seconds counters =
    let current = get_value now key counters + amount in
    if ltb limit current
    then (
      set_value now key (current - amount) ttl_seconds counters,
      record { reserved = false; current_value = current - amount },
    )
    else (
      set_value now key current ttl_seconds counters,
      record { reserved = true; current_value = current },
    )

abbrev pub forty_days : ℕ
forty_days = 60 * 60 * 24 * 40

unfoldable pub adjust : ℕ → String → ℤ → Dict CounterEntry → Dict CounterEntry
unfolding get_value set_value
adjust now key delta_amount counters =
    set_value now key (pos_part (pos (get_value now key counters) +ℤ delta_amount)) forty_days
      counters

-- `Math.max(0, value - amount)` is the truncated difference.
unfoldable pub release : ℕ → String → ℕ → Dict CounterEntry → Dict CounterEntry
unfolding get_value set_value
release now key amount counters =
    set_value now key (get_value now key counters - amount) forty_days counters

-- The class at one time.
abbrev pub in_memory : ℕ → BudgetCounter
in_memory now = record {
  State = Dict CounterEntry;
  value = get_value now;
  reserve = reserve now;
  adjust = adjust now;
  release = release now;
}

value_of-expiry :
    (now value ttl : ℕ) (found : Option CounterEntry)
    → value_of now (some (record { value = value; expires_at = expiry now ttl found })) ≡ value
value_of-expiry now value ttl found = ground arith

get_value-set_value :
    (now : ℕ) (key other : String) (value ttl : ℕ) (m : Dict CounterEntry)
    → get_value now other (set_value now key value ttl m)
      ≡ (if str_eq key other then value else get_value now other m)
unfolding get_value set_value
get_value-set_value now key other value ttl m =
    ap (value_of now) (get-put key other _ m)
    ∙ ap-if (value_of now) (str_eq key other) _ _
    ∙ ap (λ v. if str_eq key other then v else value_of now (get other m))
        (value_of-expiry now value ttl (get key m))

reserve_lem :
    (now : ℕ) (key other : String) (amount limit ttl : ℕ) (m : Dict CounterEntry)
    → get_value now other (reserve now key amount limit ttl m).0 ≡ (
        if str_eq key other
        then (if leb (get_value now other m + amount) limit
            then get_value now other m + amount
            else get_value now other m)
        else get_value now other m)
unfolding reserve
reserve_lem now key other amount limit ttl m = ground (
  arith,
  eq_iff key other,
  get_value-set_value now key other (get_value now key m + amount) ttl m,
  get_value-set_value now key other (get_value now key m + amount - amount) ttl m,
)

reserved_lem :
    (now : ℕ) (key : String) (amount limit ttl : ℕ) (m : Dict CounterEntry)
    → (reserve now key amount limit ttl m).1.reserved ≡ leb (get_value now key m + amount) limit
unfolding reserve
reserved_lem now key amount limit ttl m = ground arith

adjust_lem :
    (now : ℕ) (key other : String) (delta : ℤ) (m : Dict CounterEntry)
    → get_value now other (adjust now key delta m) ≡ (
        if str_eq key other
        then add_clamped (get_value now other m) delta
        else get_value now other m)
unfolding adjust
adjust_lem now key other delta m = ground (
  arith,
  eq_iff key other,
  get_value-set_value now key other (add_clamped (get_value now key m) delta) forty_days m,
)

release_lem :
    (now : ℕ) (key other : String) (amount : ℕ) (m : Dict CounterEntry)
    → get_value now other (release now key amount m)
      ≡ (if str_eq key other then get_value now other m - amount else get_value now other m)
unfolding release
release_lem now key other amount m = ground (
  arith,
  eq_iff key other,
  get_value-set_value now key other (get_value now key m - amount) forty_days m,
)

-- At any one time the in-process counter keeps the laws of the interface: a reservation is made
-- exactly where it stays within the limit and otherwise leaves the value, adjusting and releasing
-- stop at zero, and no operation changes the value of another key.
pub in_memory-IsBudgetCounter : (now : ℕ) → IsBudgetCounter (in_memory now)
in_memory-IsBudgetCounter now = record {
  reserve_value = reserve_lem now;
  reserve_answer = reserved_lem now;
  adjust_value = adjust_lem now;
  release_value = release_lem now;
}
