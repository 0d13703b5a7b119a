-- ===== src/Resilience/ConcurrencyLimiter/Tests.antt =====
-- The concurrency limiter on concrete inputs.
use senecial.Base.{ℕ, ◌≡◌, refl, false, List, [], ◌∷◌, Dict}
use senecial.Resilience.ConcurrencyLimiter.{count, acquire, release}
use senecial.Resilience.ConcurrencyLimiter.Slots.{
  Event, taking, giving_back, slots_after, run, count-run,
}

abbrev burst : List Event
burst = taking "u1" ∷ taking "u1" ∷ taking "u2" ∷ taking "u1" ∷ giving_back "u1" ∷ []

abbrev full : Dict ℕ
full = ("u1", 2) ∷ ("u2", 1) ∷ []

burst_counts :
    (run 2 burst [] ≡ ("u1", 1) ∷ ("u2", 1) ∷ []) × ((acquire "u1" 2 full).1.acquired ≡ false)
unfolding run acquire release
burst_counts = (refl, refl)

count-run_example : count "u1" (run 2 burst full) ≡ slots_after 2 "u1" burst (count "u1" full)
count-run_example = count-run 2 burst "u1" full
