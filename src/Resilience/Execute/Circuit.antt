-- ===== src/Resilience/Execute/Circuit.antt =====
-- One run over the in-process circuit breaker, and the bounds of a whole run.
use senecial.Base.{
  ℕ, zero, suc, ◌+◌, ◌≤◌, ◌<◌, ◌≡◌, refl, ap, ◌∙◌, ◌⊎◌, String, true, Option, none, some, List, [],
  ◌∷◌, length, arith, Bool-cases, inl, inr, get-delete_self,
}
use senecial.Resilience.CircuitBreaker.{
  CircuitBreakerConfig, Entries, empty_entry, get_entry, gate, before_call, on_success, on_failure,
  get_state, closed,
}
use senecial.Resilience.CircuitBreaker.Tripping.{fail_all, fail_all-closed, get_entry-before_call}
use senecial.Resilience.ProviderError.{ProviderError, normalize_provider_error}
use senecial.Resilience.RetryPolicy.{RetryPolicyConfig}
use senecial.Resilience.Execute.{
  Breaker, in_memory, Environment, attempts, execute_with_resilience, paid_provider_call_allowed,
}
use senecial.Resilience.Execute.Attempts.{
  failures, attempts_over, attempts_aborted, attempts_ok, attempts_retry, attempts_fail, aborts,
  succeeds, retries, gives_up, ending, IsBounded, attempts-IsBounded,
}

module _ {T : Type 0} (b : Breaker) (policy : RetryPolicyConfig) (name : String)
    (env : Environment T) where
  -- A whole run records at most one call more than the policy has retries, sleeps at most as often as
  -- it records calls and as the policy has retries, and never longer than the cap at once.
  pub execute_with_resilience-IsBounded :
      (s : b.State)
      → IsBounded b policy name env
          (policy.max_retries + 1)
          policy.max_retries
          (execute_with_resilience b policy name env s)
  unfolding execute_with_resilience
  execute_with_resilience-IsBounded s =
      elim (Bool-cases (paid_provider_call_allowed env.node_env env.test_real_ai_provider)) [
        | inl paid ↦ elim (Bool-cases (b.before_call env.started_at name s).1.allowed) [
          | inl through ↦
              let start = (b.before_call env.started_at name s).0 in
              let (made, waits, few, capped) =
                attempts-IsBounded b policy name env (policy.max_retries + 1) 0 none start in
              rw (paid, through) (made, waits, omega (arith, few), capped)
          | inr refused ↦ rw (paid, refused) (omega arith, omega arith, omega arith, tt)
        ]
        | inr unpaid ↦ rw unpaid (omega arith, omega arith, omega arith, tt)
      ]

  -- The breaker was told of some failures in a row, or of a success last.
  abbrev Told : ℕ → ℕ → b.State → b.State → Type 0
  Told rounds i s after =
      ((k : ℕ) × (k ≤ rounds) × (after ≡ failures b policy name env i k s))
      ⊎ ((before : b.State) × (after ≡ b.on_success name before))

  Told-later :
      (rounds i : ℕ) (s after : b.State)
      → Told rounds (suc i) (b.on_failure (env.failed_at i) name s) after
      → Told (suc rounds) i s after
  unfolding failures
  Told-later rounds i s after (inl (k, le, e)) = inl (suc k, omega arith, e)
  Told-later rounds i s after (inr h) = inr h

  pub attempts-Told :
      (rounds i : ℕ) (last : Option ProviderError) (s : b.State)
      → Told rounds i s (attempts b policy name env rounds i last s).breaker
  unfolding failures
  attempts-Told zero i last s =
      rw (attempts_over b policy name env i last s) (inl (0, omega arith, refl))
  attempts-Told (suc rounds) i last s = elim (ending b policy name env i) [
    | aborts h ↦
        rw (attempts_aborted b policy name env rounds i last s h) (inl (0, omega arith, refl))
    | succeeds t h ↦ rw (attempts_ok b policy name env rounds i last s h) (inr (s, refl))
    | retries r ↦ rw (attempts_retry b policy name env rounds i last s r) (
        Told-later rounds i s _ (
          attempts-Told rounds (suc i) (some (normalize_provider_error r.raw name))
            (b.on_failure (env.failed_at i) name s)))
    | gives_up raw started failed final ↦
        rw (attempts_fail b policy name env rounds i last s raw started failed final)
          (inl (1, omega arith, refl))
  ]

module _ {T : Type 0} (config : CircuitBreakerConfig) (policy : RetryPolicyConfig) (name : String)
    (env : Environment T) where
  times : ℕ → ℕ → List ℕ
  times i zero = []
  times i (suc k) = env.failed_at i ∷ times (suc i) k

  length-times : (i k : ℕ) → length (times i k) ≡ k
  unfolding times
  length-times i zero = refl
  length-times i (suc k) = ap suc (length-times (suc i) k)

  failures-fail_all :
      (i k : ℕ) (m : Entries)
      → failures (in_memory config) policy name env i k m ≡ fail_all config name (times i k) m
  unfolding failures times fail_all
  failures-fail_all i zero m = refl
  failures-fail_all i (suc k) m =
      failures-fail_all (suc i) k (on_failure config (env.failed_at i) name m)

  success-closed :
      (now : ℕ) (m : Entries) → get_state config now name (on_success config name m) ≡ closed
  unfolding get_state on_success
  success-closed now m = rw (get-delete_self name m) refl

  before_call-empty :
      (now : ℕ) (m : Entries)
      → get_entry name m ≡ empty_entry
      → (get_entry name (before_call config now name m).0 ≡ empty_entry)
        × ((before_call config now name m).1.allowed ≡ true)
  unfolding before_call
  before_call-empty now m h = (
    get_entry-before_call config now name m
        ∙ ap (λ e. (gate config now e).0) h
        ∙ unfold gate in refl,
    ap (λ e. (gate config now e).1.allowed) h ∙ unfold gate in refl,
  )

  Told-closed :
      (rounds now : ℕ) (m after : Entries)
      → get_entry name m ≡ empty_entry
      → rounds < config.failure_threshold
      → ((k : ℕ) × (k ≤ rounds) × (after ≡ failures (in_memory config) policy name env 0 k m))
        ⊎ ((before : Entries) × (after ≡ on_success config name before))
      → get_state config now name after ≡ closed
  Told-closed rounds now m after h lt (inl (k, le, e)) =
      rw (e, failures-fail_all 0 k m)
        (fail_all-closed config name (times 0 k) m now h (omega (arith, length-times 0 k)))
  Told-closed rounds now m after h lt (inr (before, e)) = rw e (success-closed now before)

  -- From the empty entry of a provider, one whole run whose attempts are fewer than the breaker's
  -- threshold leaves the circuit closed, however its attempts end.
  pub execute_with_resilience-closed :
      (m : Entries) (now : ℕ)
      → get_entry name m ≡ empty_entry
      → policy.max_retries + 1 < config.failure_threshold
      → get_state config now name
          (execute_with_resilience (in_memory config) policy name env m).breaker
        ≡ closed
  unfolding execute_with_resilience fail_all
  execute_with_resilience-closed m now h lt =
      let rounds = policy.max_retries + 1 in
      let (fresh, through) = before_call-empty env.started_at m h in
      elim (Bool-cases (paid_provider_call_allowed env.node_env env.test_real_ai_provider)) [
        | inl paid ↦
            rw (paid, through)
              (Told-closed rounds now (before_call config env.started_at name m).0 _ fresh lt
                (attempts-Told (in_memory config) policy name env rounds 0 none _))
        | inr unpaid ↦ rw unpaid (fail_all-closed config name [] m now h (omega arith))
      ]
