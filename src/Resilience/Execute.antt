-- ===== src/Resilience/Execute.antt =====
-- src/server/services/ai/providers/execute-with-resilience.ts over any circuit breaker (the interface of
-- src/domain/ai/circuit-breaker.ts), with the guard of src/domain/ai/paid-provider-guard.ts. What each attempt
-- meets (its result, the abort signal, the clock, the random number) is a function of its index; the
-- timeout only aborts the signal that the attempt is given, so it is part of the attempt's result.
-- Logging is left out; of the metrics the calls of `recordProviderCall` are kept.
pub mod Attempts
pub mod Outcomes
pub mod Circuit
pub mod Tests
use senecial.Base.{
  ℕ, zero, suc, ◌+◌, String, Bool, true, false, not, ◌&&◌, Option, none, some, List, [], ◌∷◌, ltb,
  str_eq, if◌then◌else◌,
}
use senecial.Resilience.CircuitBreaker.{
  CircuitState, CircuitCallToken, CircuitBreakerConfig, Entries, before_call, on_success,
  on_failure, get_state,
}
use senecial.Resilience.ProviderError.{
  ProviderErrorCode, provider_unavailable, provider_aborted, provider_unknown, ProviderError, new,
  Thrown, normalize_provider_error,
}
use senecial.Resilience.RetryPolicy.{RetryPolicyConfig, Random, compute_backoff_ms}

-- The interface `CircuitBreaker`; the first argument is the clock's reading.
pub record Breaker : Type 1 where
  pub State : Type 0
  pub before_call : ℕ → String → State → State × CircuitCallToken
  pub on_success : String → State → State
  pub on_failure : ℕ → String → State → State

abbrev pub in_memory : CircuitBreakerConfig → Breaker
in_memory config = record {
  State = Entries;
  before_call = before_call config;
  on_success = on_success config;
  on_failure = on_failure config;
}

abbrev pub equals : Option String → String → Bool
equals none s = false
equals (some t) s = str_eq t s

-- `assertPaidProviderCallAllowed` lets the call through.
unfoldable pub paid_provider_call_allowed : Option String → Option String → Bool
paid_provider_call_allowed node_env test_real_ai_provider =
    not (equals node_env "test" && not (equals test_real_ai_provider "true"))

pub data Attempt (T : Type 0) : Type 0 where
  ok : T → Attempt T
  threw : Thrown → Attempt T

pub record Environment (T : Type 0) : Type 0 where
  pub node_env : Option String
  pub test_real_ai_provider : Option String
  pub started_at : ℕ
  pub attempt : ℕ → Attempt T
  pub aborted_before : ℕ → Bool
  pub aborted_after : ℕ → Bool
  pub failed_at : ℕ → ℕ
  pub is_retry_allowed : ℕ → Bool
  pub random : ℕ → Random

pub data Outcome (T : Type 0) : Type 0 where
  returned : T → Outcome T
  raised : ProviderError → Outcome T
  blocked : Outcome T

-- What a run leaves behind: the breaker, the recorded calls (`none` is a success), the waits.
pub record Run (T : Type 0) (S : Type 0) : Type 0 where
  pub outcome : Outcome T
  pub breaker : S
  pub recorded : List (Option ProviderErrorCode)
  pub slept : List ℕ

module _ {T : Type 0} (b : Breaker) (policy : RetryPolicyConfig) (name : String)
    (env : Environment T) where
  abbrev pub stop : Outcome T → b.State → Run T b.State
  stop o s = record { outcome = o; breaker = s; recorded = []; slept = [] }

  abbrev pub after_call : Option ProviderErrorCode → Run T b.State → Run T b.State
  after_call code r = record r { recorded = code ∷ r.recorded }

  abbrev pub after_sleep : ℕ → Run T b.State → Run T b.State
  after_sleep ms r = record r { slept = ms ∷ r.slept }

  abbrev pub last_or_unknown : Option ProviderError → ProviderError
  last_or_unknown none = new provider_unknown name none
  last_or_unknown (some e) = e

  unfoldable pub can_retry : ℕ → ProviderError → Bool
  can_retry i error =
      error.retryable
      && (ltb i policy.max_retries && (env.is_retry_allowed i && not (env.aborted_after i)))

  -- The loop, with the rounds that are left and the index of the next attempt.
  unfoldable pub attempts : ℕ → ℕ → Option ProviderError → b.State → Run T b.State
  unfolding can_retry normalize_provider_error new compute_backoff_ms
  attempts zero i last_error s = stop (raised (last_or_unknown last_error)) s
  attempts (suc rounds) i last_error s =
      if env.aborted_before i
      then stop (raised (new provider_aborted name none)) s
      else elim (env.attempt i) [
        | ok result ↦ after_call none (stop (returned result) (b.on_success name s))
        | threw raw_error ↦
            let error = normalize_provider_error raw_error name in
            let failed = b.on_failure (env.failed_at i) name s in
            let retried = attempts rounds (suc i) (some error) failed in
            after_call (some error.error_code) (
              if can_retry i error
              then after_sleep (compute_backoff_ms i policy (env.random i)) retried
              else stop (raised error) failed)
      ]

  unfoldable pub execute_with_resilience : b.State → Run T b.State
  unfolding attempts paid_provider_call_allowed
  execute_with_resilience s =
      if paid_provider_call_allowed env.node_env env.test_real_ai_provider
      then (let (s', token) = b.before_call env.started_at name s in
          if token.allowed
          then attempts (policy.max_retries + 1) 0 none s'
          else after_call (some provider_unavailable)
              (stop (raised (new provider_unavailable name none)) s'))
      else stop blocked s
