-- ===== src/Resilience/RateLimiter.antt =====
-- src/server/services/rate-limit/in-memory-rate-limiter.ts and the interface of
-- src/domain/rate-limit/rate-limiter.ts. Times are milliseconds; `now - t >= d` is written
-- `t + d <= now`. `remaining` is an integer: with a limit of 0 it is negative.
pub mod Windows
pub mod Limit
pub mod Tests
use senecial.Base.{
  ℕ, ◌+◌, ◌*◌, String, Bool, true, false, Option, none, some, List, [], ◌∷◌, ltb, leb,
  if◌then◌else◌, Dict, get, put,
}
use senecial.Base.Int.{ℤ, pos, sub_ℕ}

pub record RateLimiterConsumeInput : Type 0 where
  pub key : String
  pub limit : ℕ
  pub window_seconds : ℕ

pub record RateLimiterConsumeResult : Type 0 where
  pub allowed : Bool
  pub remaining : ℤ
  pub reset_at : ℕ

pub record Bucket : Type 0 where
  pub count : ℕ
  pub window_start : ℕ

pub record RateLimiter : Type 0 where
  pub buckets : Dict Bucket
  pub last_sweep : ℕ

abbrev pub sweep_interval_ms : ℕ
sweep_interval_ms = 60000

abbrev pub new : RateLimiter
new = record { buckets = []; last_sweep = 0 }

-- The loop over the map in `sweepIfDue`: `now - bucket.windowStart > 60 * 60 * 1000`.
unfoldable pub drop_stale : ℕ → Dict Bucket → Dict Bucket
drop_stale now [] = []
drop_stale now ((key, bucket) ∷ rest) =
    let kept = drop_stale now rest in
    if ltb (bucket.window_start + 60 * 60 * 1000) now then kept else (key, bucket) ∷ kept

unfoldable pub sweep_if_due : ℕ → RateLimiter → RateLimiter
unfolding drop_stale
sweep_if_due now s =
    if ltb now (s.last_sweep + sweep_interval_ms)
    then s
    else record { buckets = drop_stale now s.buckets; last_sweep = now }

abbrev pub result : Bool → ℤ → ℕ → RateLimiterConsumeResult
result a r t = record { allowed = a; remaining = r; reset_at = t }

-- The body of `consume` after the sweep: the bucket to store, if any, and the answer.
unfoldable pub decide_bucket :
    RateLimiterConsumeInput → ℕ → Option Bucket → Option Bucket × RateLimiterConsumeResult
decide_bucket input now existing =
    let window_ms = input.window_seconds * 1000 in
    let fresh : Option Bucket × RateLimiterConsumeResult = (
      some (record { count = 1; window_start = now }),
      result true (sub_ℕ input.limit 1) (now + window_ms),
    ) in
    elim existing [
      | none ↦ fresh
      | some b ↦
          let reset_at = b.window_start + window_ms in
          if leb reset_at now
          then fresh
          else if leb input.limit b.count
          then (none, result false (pos 0) reset_at)
          else (
            some (record b { count = b.count + 1 }),
            result true (sub_ℕ input.limit (b.count + 1)) reset_at,
          )
    ]

abbrev pub store : String → Option Bucket → Dict Bucket → Dict Bucket
store key none m = m
store key (some b) m = put key b m

unfoldable pub consume :
    RateLimiterConsumeInput → ℕ → RateLimiter → RateLimiter × RateLimiterConsumeResult
unfolding sweep_if_due decide_bucket get put
consume input now s =
    let swept = sweep_if_due now s in
    let (next, answer) = decide_bucket input now (get input.key swept.buckets) in
    (record swept { buckets = store input.key next swept.buckets }, answer)
