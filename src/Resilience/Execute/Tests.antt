-- ===== src/Resilience/Execute/Tests.antt =====
-- The retry loop with the default policies on concrete inputs.
use senecial.Base.{ℕ, ◌+◌, ◌≡◌, refl, true, false, none, some, [], ◌∷◌, arith, ◌==◌, if◌then◌else◌}
use senecial.Resilience.CircuitBreaker.{
  circuit_breaker_config, empty_entry, get_entry, before_call, on_success, on_failure, get_state,
  closed,
}
use senecial.Resilience.ProviderError.{provider_timeout, Thrown, js_error}
use senecial.Resilience.RetryPolicy.{Random, default_retry_policy}
use senecial.Resilience.Execute.{
  in_memory, ok, threw, Environment, returned, execute_with_resilience, paid_provider_call_allowed,
}
use senecial.Resilience.Execute.Attempts.{IsBounded}
use senecial.Resilience.Execute.Circuit.{
  execute_with_resilience-IsBounded, execute_with_resilience-closed,
}

half_of : Random
half_of = record { numerator = 1; denominator = 2; below_one = omega arith }

-- The first attempt fails with this value, the second one succeeds.
abbrev second_works : Thrown → Environment ℕ
second_works raw = record {
  node_env = some "production";
  test_real_ai_provider = none;
  started_at = 1000;
  attempt = λ i. if i == 0 then threw raw else ok 7;
  aborted_before = λ i. false;
  aborted_after = λ i. false;
  failed_at = λ i. 2000 + i;
  is_retry_allowed = λ i. true;
  random = λ i. half_of;
}

abbrev flaky : Environment ℕ
flaky = second_works (js_error "Error" "connect timeout")

runs :
    let run =
      execute_with_resilience
        (in_memory circuit_breaker_config)
        default_retry_policy
        "openai"
        flaky
        [] in
    (run.outcome ≡ returned 7)
    × (run.recorded ≡ some provider_timeout ∷ none ∷ [])
    × (run.slept ≡ 375 ∷ [])
    × (run.breaker ≡ [])
unfolding execute_with_resilience before_call on_success on_failure half_of
runs = (refl, refl, refl, refl)

paid_gate :
    (paid_provider_call_allowed (some "test") none ≡ false)
    × (paid_provider_call_allowed (some "test") (some "true") ≡ true)
    × (paid_provider_call_allowed none none ≡ true)
unfolding paid_provider_call_allowed
paid_gate = (refl, refl, refl)

execute_with_resilience-IsBounded_example :
    IsBounded (in_memory circuit_breaker_config) default_retry_policy "openai" flaky 3 2 (
      execute_with_resilience
        (in_memory circuit_breaker_config)
        default_retry_policy
        "openai"
        flaky
        [])
execute_with_resilience-IsBounded_example =
    execute_with_resilience-IsBounded (in_memory circuit_breaker_config) default_retry_policy
      "openai" flaky []

fresh_entry : get_entry "openai" [] ≡ empty_entry
unfolding get_entry
fresh_entry = refl

execute_with_resilience-closed_example :
    get_state circuit_breaker_config 9000 "openai"
      (execute_with_resilience
        (in_memory circuit_breaker_config)
        default_retry_policy
        "openai"
        flaky
        []).breaker
    ≡ closed
execute_with_resilience-closed_example =
    execute_with_resilience-closed circuit_breaker_config default_retry_policy "openai" flaky []
      9000 fresh_entry (omega arith)
