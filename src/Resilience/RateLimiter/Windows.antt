-- ===== src/Resilience/RateLimiter/Windows.antt =====
-- The rate limiter as one fixed window for each key.
use senecial.Base.{
  ℕ, ◌+◌, ◌*◌, ◌≤◌, ◌≡◌, refl, String, Bool, true, Option, none, some, [], ◌∷◌, arith, get, get-put,
  ◌⊎◌, str_eq, eq_iff, ◌∙◌, ap, ap₂, if◌then◌else◌, Dict, ltb, ap-if, NoKey, IsMap, get_of_NoKey,
  IsMap-put,
}
use senecial.Resilience.RateLimiter.{
  RateLimiterConsumeInput, Bucket, RateLimiter, drop_stale, sweep_if_due, decide_bucket, store,
  consume,
}

-- A bucket's window is still open at time `t`.
abbrev pub open_at : ℕ → ℕ → Option Bucket → Option Bucket
open_at window_ms t none = none
open_at window_ms t (some b) = if ltb t (b.window_start + window_ms) then some b else none

unfoldable pub active : ℕ → ℕ → String → RateLimiter → Option Bucket
active window_ms t key s = open_at window_ms t (get key s.buckets)

-- The window of one key, with no map and no sweep: whether it admits a request, and what it is then.
unfoldable pub admits : ℕ → Option Bucket → Bool
admits limit none = true
admits limit (some b) = ltb b.count limit

unfoldable pub advance : ℕ → ℕ → Option Bucket → Bucket
advance limit now none = record { count = 1; window_start = now }
advance limit now (some b) = if ltb b.count limit then record b { count = b.count + 1 } else b

NoKey-drop_stale :
    (key : String) (now : ℕ) (m : Dict Bucket) → NoKey key m → NoKey key (drop_stale now m)
unfolding drop_stale
NoKey-drop_stale key now [] h = tt
NoKey-drop_stale key now ((k, b) ∷ m) (h, hs) = ground (arith, NoKey-drop_stale key now m hs)

IsMap-drop_stale : (now : ℕ) (m : Dict Bucket) → IsMap m → IsMap (drop_stale now m)
unfolding drop_stale
IsMap-drop_stale now [] h = tt
IsMap-drop_stale now ((k, b) ∷ m) (h, hs) =
    ground (arith, IsMap-drop_stale now m hs, NoKey-drop_stale k now m h)

abbrev fresh_enough : ℕ → Option Bucket → Option Bucket
fresh_enough now none = none
fresh_enough now (some b) = if ltb (b.window_start + 60 * 60 * 1000) now then none else some b

get-drop_stale :
    (key : String) (now : ℕ) (m : Dict Bucket)
    → IsMap m
    → get key (drop_stale now m) ≡ fresh_enough now (get key m)
unfolding drop_stale get
get-drop_stale key now [] h = refl
get-drop_stale key now ((k, b) ∷ m) (h, hs) = ground (
  arith,
  eq_iff k key,
  get-drop_stale key now m hs,
  get_of_NoKey k (drop_stale now m) (NoKey-drop_stale k now m h),
)

swept : (key : String) (now : ℕ) (s : RateLimiter) → Option Bucket
swept key now s = get key (sweep_if_due now s).buckets

sweep-cases :
    (key : String) (now : ℕ) (s : RateLimiter)
    → IsMap s.buckets
    → (get key (sweep_if_due now s).buckets ≡ get key s.buckets)
      ⊎ (get key (sweep_if_due now s).buckets ≡ fresh_enough now (get key s.buckets))
unfolding sweep_if_due
sweep-cases key now s h = ground (arith, get-drop_stale key now s.buckets h)

sweep-IsMap : (now : ℕ) (s : RateLimiter) → IsMap s.buckets → IsMap (sweep_if_due now s).buckets
unfolding sweep_if_due
sweep-IsMap now s h = ground (arith, IsMap-drop_stale now s.buckets h)

-- The sweep drops only what is over for a window of at most an hour.
active-sweep :
    (w now t : ℕ) (key : String) (s : RateLimiter)
    → IsMap s.buckets
    → w ≤ 3600000
    → now ≤ t
    → active w t key (sweep_if_due now s) ≡ active w t key s
unfolding active
active-sweep w now t key s h le later = ground (arith, sweep-cases key now s h)

decide-allowed :
    (input : RateLimiterConsumeInput) (now : ℕ) (found : Option Bucket)
    → (decide_bucket input now found).1.allowed
      ≡ admits input.limit (open_at (input.window_seconds * 1000) now found)
unfolding decide_bucket admits
decide-allowed input now found = ground arith

or_else : Option Bucket → Option Bucket → Option Bucket
or_else none old = old
or_else (some b) old = some b

get-store :
    (key other : String) (next : Option Bucket) (m : Dict Bucket)
    → get other (store key next m)
      ≡ (if str_eq key other then or_else next (get key m) else get other m)
unfolding or_else
get-store key other none m = ground (arith, eq_iff key other)
get-store key other (some b) m = get-put key other b m

decide-next :
    (input : RateLimiterConsumeInput) (now : ℕ) (found : Option Bucket)
    → or_else (decide_bucket input now found).0 found
      ≡ some (advance input.limit now (open_at (input.window_seconds * 1000) now found))
unfolding decide_bucket or_else advance
decide-next input now found = ground arith

IsMap-store :
    (key : String) (next : Option Bucket) (m : Dict Bucket) → IsMap m → IsMap (store key next m)
IsMap-store key none m h = h
IsMap-store key (some b) m h = IsMap-put key b m h

active-store :
    (input : RateLimiterConsumeInput) (now t : ℕ) (other : String) (s : RateLimiter)
    → let w = input.window_seconds * 1000 in
      open_at w t (
        get other (store input.key (decide_bucket input now (get input.key s.buckets)).0 s.buckets))
      ≡ (if str_eq input.key other
          then open_at w t (some (advance input.limit now (active w now input.key s)))
          else active w t other s)
unfolding active
active-store input now t other s =
    let w = input.window_seconds * 1000 in
    let found = get input.key s.buckets in
    ap (open_at w t) (get-store input.key other (decide_bucket input now found).0 s.buckets)
    ∙ ap-if (open_at w t) (str_eq input.key other) _ _
    ∙ ap (λ o. if str_eq input.key other then open_at w t o else open_at w t (get other s.buckets))
        (decide-next input now found)

-- For windows of at most an hour the limiter keeps one fixed window for each key, and its sweep is
-- not observable: `consume` allows a request exactly where the key's open window admits it. Then,
-- at every later time, the key's window has advanced by the request, and that of any other key is
-- what it was.
pub consume-active :
    (input : RateLimiterConsumeInput) (now t : ℕ) (other : String) (s : RateLimiter)
    → IsMap s.buckets
    → input.window_seconds ≤ 3600
    → now ≤ t
    → let w = input.window_seconds * 1000 in
      let mine = active w now input.key s in
      let (s', answer) = consume input now s in
      (answer.allowed ≡ admits input.limit mine)
      × (active w t other s' ≡ (
          if str_eq input.key other
          then open_at w t (some (advance input.limit now mine))
          else active w t other s))
      × IsMap s'.buckets
unfolding consume active
consume-active input now t other s h le later =
    let w = input.window_seconds * 1000 in
    let rest = sweep_if_due now s in
    let mine = active-sweep w now now input.key s h (omega arith) (omega arith) in
    (
      decide-allowed input now (get input.key rest.buckets)
          ∙ ap (admits input.limit) (unfold active in mine),
      active-store input now t other rest
          ∙ ap₂
              (λ (o p : Option Bucket).
                if str_eq input.key other
                then open_at w t (some (advance input.limit now o))
                else p)
              mine (active-sweep w now t other s h (omega arith) later),
      IsMap-store input.key _ rest.buckets (sweep-IsMap now s h),
    )
