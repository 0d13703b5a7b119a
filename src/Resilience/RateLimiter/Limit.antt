-- ===== src/Resilience/RateLimiter/Limit.antt =====
-- How many requests of a key one window of the rate limiter allows.
use senecial.Base.{
  ℕ, ◌+◌, ◌-◌, ◌*◌, ◌≤◌, ◌<◌, ◌≡◌, refl, true, none, some, List, [], ◌∷◌, All, length, arith, ◌∙◌,
  ap, if◌then◌else◌, ltb, min, eq_refl, IsMap,
}
use senecial.Resilience.RateLimiter.{RateLimiterConsumeInput, Bucket, RateLimiter, consume}
use senecial.Resilience.RateLimiter.Windows.{active, admits, advance, consume-active}

-- The requests of one key at these clock readings, and how many of them are allowed.
unfoldable pub consume_all : RateLimiterConsumeInput → List ℕ → RateLimiter → RateLimiter × ℕ
consume_all input [] s = (s, 0)
consume_all input (t ∷ ts) s =
    let (s', answer) = consume input t s in
    let (s'', n) = consume_all input ts s' in (s'', if answer.allowed then n + 1 else n)

-- The requests that fall into a bucket's window.
abbrev pub InWindow : RateLimiterConsumeInput → ℕ → ℕ → Type 0
InWindow input start t = t < start + input.window_seconds * 1000

-- The clock does not go backwards.
abbrev pub Rising : ℕ → List ℕ → Type 0
Rising now [] = Unit
Rising now (t ∷ ts) = (now ≤ t) × Rising t ts

abbrev bucket : ℕ → ℕ → Bucket
bucket c start = record { count = c; window_start = start }

-- From `now` on, and inside its window, the key's bucket is this one.
abbrev Holds : RateLimiterConsumeInput → ℕ → ℕ → ℕ → RateLimiter → Type 0
Holds input now c start s =
    (t : ℕ)
    → now ≤ t
    → InWindow input start t
    → active (input.window_seconds * 1000) t input.key s ≡ some (bucket c start)

consume-Holds :
    (input : RateLimiterConsumeInput) (now c start : ℕ) (s : RateLimiter)
    → IsMap s.buckets
    → input.window_seconds ≤ 3600
    → InWindow input start now
    → active (input.window_seconds * 1000) now input.key s ≡ some (bucket c start)
    → let (s', answer) = consume input now s in
      (answer.allowed ≡ ltb c input.limit)
      × Holds input now (if ltb c input.limit then c + 1 else c) start s'
      × IsMap s'.buckets
consume-Holds input now c start s h le inside at =
    let w = input.window_seconds * 1000 in
    let done = consume-active input now now input.key s h le (omega arith) in
    (
      done.0 ∙ ap (admits input.limit) at ∙ unfold admits in refl,
      λ t later within.
          (consume-active input now t input.key s h le later).1
          ∙ rw (at, eq_refl input.key) (unfold advance in ground arith),
      done.2,
    )

consume_all-Holds :
    (input : RateLimiterConsumeInput) (ts : List ℕ) (now c start : ℕ) (s : RateLimiter)
    → IsMap s.buckets
    → input.window_seconds ≤ 3600
    → Rising now ts
    → All (InWindow input start) ts
    → Holds input now c start s
    → (consume_all input ts s).1 ≡ min (length ts) (input.limit - c)
unfolding consume_all
consume_all-Holds input [] now c start s h le rising inside holds = omega arith
consume_all-Holds input (t ∷ ts) now c start s h le (later, rising) (inside, insides) holds =
    let (allowed, holds', h') =
      consume-Holds input t c start s h le inside (holds t later inside) in
    let ih =
      consume_all-Holds input ts t (if ltb c input.limit then c + 1 else c) start
        (consume input t s).0 h' le rising insides holds' in
    ground (arith, allowed, ih)

-- Of the requests of a key that fall into one window of at most an hour, in the order of a clock
-- that does not go backwards, exactly the first `limit` are allowed, where the limit is positive
-- and the key had no open window before.
pub consume_all-limit :
    (input : RateLimiterConsumeInput) (first : ℕ) (ts : List ℕ) (s : RateLimiter)
    → IsMap s.buckets
    → input.window_seconds ≤ 3600
    → 0 < input.limit
    → active (input.window_seconds * 1000) first input.key s ≡ none
    → Rising first ts
    → All (InWindow input first) ts
    → (consume_all input (first ∷ ts) s).1 ≡ min (length (first ∷ ts)) input.limit
unfolding consume_all
consume_all-limit input first ts s h le pos_limit idle rising inside =
    let done = consume-active input first first input.key s h le (omega arith) in
    let allowed : (consume input first s).1.allowed ≡ true =
      done.0 ∙ ap (admits input.limit) idle ∙ unfold admits in refl in
    let holds : Holds input first 1 first (consume input first s).0 = λ t later within.
      (consume-active input first t input.key s h le later).1
      ∙ rw (idle, eq_refl input.key) (unfold advance in ground arith) in
    let ih =
      consume_all-Holds input ts first 1 first (consume input first s).0 done.2 le rising inside
        holds in
    ground (arith, allowed, ih)
