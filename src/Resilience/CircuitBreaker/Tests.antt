-- ===== src/Resilience/CircuitBreaker/Tests.antt =====
-- The circuit breaker with its default policy on concrete inputs.
use senecial.Base.{◌≡◌, refl, String, true, false, List, [], ◌∷◌, arith, ◌≢◌, eq_iff}
use senecial.Resilience.CircuitBreaker.{
  closed, open_circuit, half_open, circuit_breaker_config, Entries, token, before_call, on_success,
  on_failure, get_state, get_entry,
}
use senecial.Resilience.CircuitBreaker.Invariant.{
  Event, call, success, failure, handle, run, IsValid, run-IsValid,
}
use senecial.Resilience.CircuitBreaker.Tripping.{fail_all, fail_all-opens, before_call-one_probe}

abbrev tripping : List Event
tripping =
    failure 1000 "openai"
    ∷ failure 2000 "openai"
    ∷ failure 3000 "openai"
    ∷ failure 4000 "openai"
    ∷ failure 5000 "openai"
    ∷ []

abbrev tripped : Entries
tripped = run circuit_breaker_config tripping []

life :
    (get_state circuit_breaker_config 5000 "openai" tripped ≡ open_circuit)
    × (get_state circuit_breaker_config 35000 "openai" tripped ≡ half_open)
    × ((before_call circuit_breaker_config 34999 "openai" tripped).1 ≡ token false open_circuit)
    × ((before_call circuit_breaker_config 35000 "openai" tripped).1 ≡ token true half_open)
    × (get_state circuit_breaker_config 9 "openai"
          (on_success circuit_breaker_config "openai" tripped)
        ≡ closed)
unfolding run handle get_state before_call on_success on_failure
life = (refl, refl, refl, refl, refl)

run-IsValid_example : IsValid circuit_breaker_config (get_entry "openai" tripped)
run-IsValid_example = run-IsValid circuit_breaker_config tripping "openai" (omega arith)

fail_all-opens_example :
    (before_call circuit_breaker_config 20000 "openai" (
      on_failure circuit_breaker_config 5000 "openai"
        (fail_all circuit_breaker_config "openai" (1000 ∷ 2000 ∷ 3000 ∷ 4000 ∷ []) []))).1
    ≡ token false open_circuit
fail_all-opens_example =
    fail_all-opens circuit_breaker_config "openai" 1000 5000 (2000 ∷ 3000 ∷ 4000 ∷ []) [] 20000
      (unfold get_entry in refl) (omega arith) (omega arith) (omega arith) (omega arith)

azure_other : ◌≢◌ {A = String} "azure" "openai"
azure_other = ground (arith, eq_iff "azure" "openai")

before_call-one_probe_example :
    (before_call circuit_breaker_config 50000 "openai" (
      run circuit_breaker_config
        (call 40000 "openai" ∷ success "azure" ∷ [])
        (before_call circuit_breaker_config 35000 "openai" tripped).0)).1.allowed
    ≡ false
before_call-one_probe_example =
    before_call-one_probe circuit_breaker_config "openai" tripped 35000 50000
      (call 40000 "openai" ∷ success "azure" ∷ []) life.3 (omega arith, (azure_other, tt))
      (omega arith)
