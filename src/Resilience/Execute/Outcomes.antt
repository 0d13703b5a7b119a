-- ===== src/Resilience/Execute/Outcomes.antt =====
-- When a run returns a result, when it raises an error, and what the breaker was told.
use senecial.Base.{ℕ, suc, ◌+◌, ◌≤◌, ◌<◌, ◌≡◌, String, length}
use senecial.Resilience.ProviderError.{ProviderError}
use senecial.Resilience.RetryPolicy.{RetryPolicyConfig}
use senecial.Resilience.Execute.{Breaker, Environment, returned, Run}
use senecial.Resilience.Execute.Attempts.{Retries, failures}

module _ {T : Type 0} (b : Breaker) (policy : RetryPolicyConfig) (name : String)
    (env : Environment T) where
  abbrev RetriedFrom : ℕ → ℕ → Type 0
  RetriedFrom i k = (j : ℕ) → i ≤ j → j < i + k → Retries b policy name env j

  -- A run that ends with the success of attempt `k`.
  pub record EndsWell (t : T) (s : b.State) (i k : ℕ) (r : Run T b.State) : Type 0 where
    pub outcome : r.outcome ≡ returned t
    pub breaker : r.breaker ≡ b.on_success name (failures b policy name env i k s)
    pub recorded : length r.recorded ≡ suc k
    pub slept : length r.slept ≡ k
