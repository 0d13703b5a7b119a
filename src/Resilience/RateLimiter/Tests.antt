-- ===== src/Resilience/RateLimiter/Tests.antt =====
-- The rate limiter on concrete inputs.
use senecial.Base.{◌*◌, ◌≡◌, refl, none, some, [], ◌∷◌, arith, IsMap, str_eq, if◌then◌else◌}
use senecial.Base.Int.{pos}
use senecial.Resilience.RateLimiter.{RateLimiterConsumeInput, RateLimiter, consume}
use senecial.Resilience.RateLimiter.Windows.{active, open_at, admits, advance, consume-active}
use senecial.Resilience.RateLimiter.Limit.{consume_all, consume_all-limit}

abbrev login : RateLimiterConsumeInput
login = record { key = "login:a"; limit = 2; window_seconds = 60 }

abbrev other : RateLimiterConsumeInput
other = record { key = "login:b"; limit = 2; window_seconds = 60 }

abbrev busy : RateLimiter
busy = record {
  buckets = ("login:b", record { count = 1; window_start = 90000 }) ∷ [];
  last_sweep = 90000;
}

window_life :
    ((consume_all login (100000 ∷ 100001 ∷ 159999 ∷ []) busy).1 ≡ 2)
    × ((consume_all login (100000 ∷ 100001 ∷ 160000 ∷ []) busy).1 ≡ 3)
    × ((consume login 100000 busy).1.remaining ≡ pos 1)
    × ((consume login 5000000 busy).0.last_sweep ≡ 5000000)
unfolding consume_all consume
window_life = (refl, refl, refl, refl)

consume-active_example :
    let w = 60 * 1000 in
    let mine = active w 100000 "login:b" busy in
    let (s', answer) = consume other 100000 busy in
    (answer.allowed ≡ admits 2 mine)
    × (active w 120000 "login:b" s' ≡ (
        if str_eq "login:b" "login:b"
        then open_at w 120000 (some (advance 2 100000 mine))
        else active w 120000 "login:b" busy))
    × IsMap s'.buckets
consume-active_example =
    consume-active other 100000 120000 "login:b" busy (omega arith) (omega arith) (omega arith)

idle_login : active 60000 100000 "login:a" busy ≡ none
unfolding active consume
idle_login = refl

consume_all-limit_example : (consume_all login (100000 ∷ 100001 ∷ 159999 ∷ []) busy).1 ≡ 2
consume_all-limit_example =
    consume_all-limit login 100000 (100001 ∷ 159999 ∷ []) busy (omega arith) (omega arith)
      (omega arith) idle_login (omega arith) (omega arith)
