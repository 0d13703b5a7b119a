-- ===== src/Resilience/ConcurrencyLimiter.antt =====
-- src/server/services/ai/concurrency/in-memory-concurrency-limiter.ts.
pub mod Slots
pub mod Tests
use senecial.Base.{
  ℕ, ◌+◌, ◌-◌, String, Bool, true, false, Option, none, some, leb, if◌then◌else◌, Dict, get, put,
  delete,
}

pub record ConcurrencyAcquireResult : Type 0 where
  pub acquired : Bool
  pub current_count : ℕ

abbrev pub or_zero : Option ℕ → ℕ
or_zero none = 0
or_zero (some n) = n

-- `this.counts.get(key) ?? 0`
unfoldable pub count : String → Dict ℕ → ℕ
unfolding get
count key counts = or_zero (get key counts)

unfoldable pub acquire : String → ℕ → Dict ℕ → Dict ℕ × ConcurrencyAcquireResult
unfolding count put
acquire key max_concurrent counts =
    let current = count key counts in
    if leb max_concurrent current
    then (counts, record { acquired = false; current_count = current })
    else (put key (current + 1) counts, record { acquired = true; current_count = current + 1 })

-- `current - 1` is taken only above 1, so the truncated difference is exact.
unfoldable pub release : String → Dict ℕ → Dict ℕ
unfolding count put delete
release key counts =
    let current = count key counts in
    if leb current 1 then delete key counts else put key (current - 1) counts
