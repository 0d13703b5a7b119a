-- ===== src/Resilience/Execute/Attempts.antt =====
-- What a run of the retry loop returns, how many attempts it makes and how long it waits.
use senecial.Base.{
  ℕ, zero, suc, ◌-◌, ◌≤◌, ◌<◌, ◌≡◌, refl, ◌⊎◌, String, true, false, Option, none, some, All, length,
  arith, Bool-cases, inl, inr,
}
use senecial.Resilience.ProviderError.{
  provider_aborted, ProviderError, new, Thrown, normalize_provider_error,
}
use senecial.Resilience.RetryPolicy.{
  RetryPolicyConfig, compute_backoff_ms, compute_backoff_ms_bounds,
}
use senecial.Resilience.Execute.{
  Breaker, Attempt, ok, threw, Environment, returned, raised, Run, stop, after_call, after_sleep,
  last_or_unknown, can_retry, attempts,
}

pub Attempt-cases :
    {T : Type 0} (a : Attempt T) → ((t : T) × (a ≡ ok t)) ⊎ ((raw : Thrown) × (a ≡ threw raw))
Attempt-cases (ok t) = inl (t, refl)
Attempt-cases (threw raw) = inr (raw, refl)

module _ {T : Type 0} (b : Breaker) (policy : RetryPolicyConfig) (name : String)
    (env : Environment T) where
  -- The attempt with this index fails and is retried.
  pub record Retries (i : ℕ) : Type 0 where
    pub raw : Thrown
    pub started : env.aborted_before i ≡ false
    pub failed : env.attempt i ≡ threw raw
    pub again : can_retry b policy name env i (normalize_provider_error raw name) ≡ true

  -- The attempt with this index succeeds with `t`.
  pub record Succeeds (i : ℕ) (t : T) : Type 0 where
    pub started : env.aborted_before i ≡ false
    pub done : env.attempt i ≡ ok t

  -- The breaker after the failures of `k` attempts from index `i` on.
  unfoldable pub failures : ℕ → ℕ → b.State → b.State
  failures i zero s = s
  failures i (suc k) s = failures (suc i) k (b.on_failure (env.failed_at i) name s)

  pub attempts_over :
      (i : ℕ) (last : Option ProviderError) (s : b.State)
      → attempts b policy name env zero i last s
        ≡ stop b policy name env (raised (last_or_unknown b policy name env last)) s
  unfolding attempts
  attempts_over i last s = refl

  pub attempts_aborted :
      (rounds i : ℕ) (last : Option ProviderError) (s : b.State)
      → env.aborted_before i ≡ true
      → attempts b policy name env (suc rounds) i last s
        ≡ stop b policy name env (raised (new provider_aborted name none)) s
  unfolding attempts
  attempts_aborted rounds i last s h = rw h refl

  pub attempts_ok :
      (rounds i : ℕ) (last : Option ProviderError) (s : b.State) {t : T}
      → Succeeds i t
      → attempts b policy name env (suc rounds) i last s
        ≡ after_call b policy name env none
            (stop b policy name env (returned t) (b.on_success name s))
  unfolding attempts
  attempts_ok rounds i last s h = rw (h.started, h.done) refl

  pub attempts_retry :
      (rounds i : ℕ) (last : Option ProviderError) (s : b.State) (r : Retries i)
      → let error = normalize_provider_error r.raw name in
        attempts b policy name env (suc rounds) i last s
        ≡ after_call b policy name env (some error.error_code) (
            after_sleep b policy name env (compute_backoff_ms i policy (env.random i)) (
              attempts b policy name env rounds
                (suc i)
                (some error)
                (b.on_failure (env.failed_at i) name s)))
  unfolding attempts
  attempts_retry rounds i last s r = rw (r.started, r.failed) (rw r.again refl)

  pub attempts_fail :
      (rounds i : ℕ) (last : Option ProviderError) (s : b.State) (raw : Thrown)
      → env.aborted_before i ≡ false
      → env.attempt i ≡ threw raw
      → can_retry b policy name env i (normalize_provider_error raw name) ≡ false
      → let error = normalize_provider_error raw name in
        attempts b policy name env (suc rounds) i last s
        ≡ after_call b policy name env
            (some error.error_code)
            (stop b policy name env (raised error) (b.on_failure (env.failed_at i) name s))
  unfolding attempts
  attempts_fail rounds i last s raw started failed final = rw (started, failed) (rw final refl)

  -- One attempt of the loop: it is aborted, it succeeds, it is retried, or it is the last.
  pub data Ending (i : ℕ) : Type 0 where
    aborts : env.aborted_before i ≡ true → Ending i
    succeeds : (t : T) → Succeeds i t → Ending i
    retries : Retries i → Ending i
    gives_up :
        (raw : Thrown)
        → env.aborted_before i ≡ false
        → env.attempt i ≡ threw raw
        → can_retry b policy name env i (normalize_provider_error raw name) ≡ false
        → Ending i

  pub ending : (i : ℕ) → Ending i
  ending i = elim (Bool-cases (env.aborted_before i)) [
    | inl h ↦ aborts h
    | inr started ↦ elim (Attempt-cases (env.attempt i)) [
      | inl (t, done) ↦ succeeds t (record { started = started; done = done })
      | inr (raw, failed) ↦
          elim (Bool-cases (can_retry b policy name env i (normalize_provider_error raw name))) [
            | inl again ↦
                retries (record { raw = raw; started = started; failed = failed; again = again })
            | inr final ↦ gives_up raw started failed final
          ]
    ]
  ]

  -- A run records at most as many calls as it has rounds and waits at most as often as it records
  -- calls and as the policy has retries left; no wait is longer than the policy's cap.
  abbrev pub IsBounded : ℕ → ℕ → Run T b.State → Type 0
  IsBounded rounds retries_left r =
      (length r.recorded ≤ rounds)
      × (length r.slept ≤ length r.recorded)
      × (length r.slept ≤ retries_left)
      × All (λ ms. ms ≤ policy.max_delay_ms) r.slept

  can_retry-lt :
      (i : ℕ) (error : ProviderError)
      → can_retry b policy name env i error ≡ true
      → i < policy.max_retries
  unfolding can_retry
  can_retry-lt i error h = ground (arith, h)

  pub attempts-IsBounded :
      (rounds i : ℕ) (last : Option ProviderError) (s : b.State)
      → IsBounded rounds (policy.max_retries - i) (attempts b policy name env rounds i last s)
  attempts-IsBounded zero i last s = unfold attempts in (omega arith, omega arith, omega arith, tt)
  attempts-IsBounded (suc rounds) i last s = elim (ending i) [
    | aborts h ↦ rw (attempts_aborted rounds i last s h) (omega arith, omega arith, omega arith, tt)
    | succeeds t h ↦ rw (attempts_ok rounds i last s h) (omega arith, omega arith, omega arith, tt)
    | retries r ↦
        let error = normalize_provider_error r.raw name in
        let left = can_retry-lt i error r.again in
        let (made, waits, few, capped) =
          attempts-IsBounded rounds (suc i) (some error) (b.on_failure (env.failed_at i) name s) in
        rw (attempts_retry rounds i last s r) (
          omega (arith, made),
          omega (arith, waits),
          omega (arith, few, left),
          ((compute_backoff_ms_bounds i policy (env.random i)).2, capped),
        )
    | gives_up raw started failed final ↦
        rw (attempts_fail rounds i last s raw started failed final)
          (omega arith, omega arith, omega arith, tt)
  ]
