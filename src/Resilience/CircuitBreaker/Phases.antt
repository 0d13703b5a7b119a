-- ===== src/Resilience/CircuitBreaker/Phases.antt =====
-- What a caller of the circuit breaker may rely on: the answer of `beforeCall` is the phase that
-- `getState` reports, a half-open circuit lets one probe through, and no circuit stays shut.
use senecial.Base.{
  ℕ, ◌+◌, ◌*◌, ◌≤◌, ◌≡◌, refl, String, true, Option, none, some, if◌then◌else◌, arith, get, get-put,
  Bool-cases, inl, inr, max, str_eq, eq_iff, ◌∙◌, ap,
}
use senecial.Resilience.CircuitBreaker.{
  CircuitBreakerConfig, BreakerEntry, Entries, or_empty, get_entry, gate, before_call, phase_of,
  get_state,
}

module _ (config : CircuitBreakerConfig) where
  gate-phase :
      (now t : ℕ) (found : Option BreakerEntry)
      → ((gate config now (or_empty found)).1.state ≡ phase_of config now found)
        × (phase_of config t (some (gate config now (or_empty found)).0) ≡ phase_of config t found)
  unfolding gate
  gate-phase now t none = (refl, refl)
  gate-phase now t (some e) = (ground arith, ground arith)

  get-before_call :
      (now : ℕ) (key other : String) (m : Entries)
      → get other (before_call config now key m).0
        ≡ (if str_eq key other then some (gate config now (get_entry key m)).0 else get other m)
  unfolding before_call
  get-before_call now key other m = get-put key other _ m

  -- `beforeCall` answers with the phase that `getState` reports at that moment, and it changes the
  -- phase of no key, at no time: not of its own key and not of another.
  before_call-get_state :
      (now t : ℕ) (key other : String) (m : Entries)
      → ((before_call config now key m).1.state ≡ get_state config now key m)
        × (get_state config t other (before_call config now key m).0 ≡ get_state config t other m)
  unfolding get_state get_entry
  before_call-get_state now t key other m = (
    unfold before_call in (gate-phase now t (get key m)).0,
    elim (Bool-cases (str_eq key other)) [
      | inl same ↦
          rw (get-before_call now key other m, same)
            (let e : key ≡ other = (eq_iff key other).0 same in
              (gate-phase now t (get key m)).1 ∙ ap (λ k. phase_of config t (get k m)) e)
      | inr differs ↦ rw (get-before_call now key other m, differs) refl
    ],
  )

  -- How long a key's own entry can refuse: until the open time and the probe's time are over.
  abbrev ends_at : Option ℕ → ℕ → ℕ
  ends_at none d = 0
  ends_at (some t) d = t + d

  abbrev refusal_end : BreakerEntry → ℕ
  refusal_end e =
      max (ends_at e.opened_at (config.open_duration_seconds * 1000))
        (ends_at e.half_open_probe_at config.probe_timeout_ms)

  gate-allows :
      (now : ℕ) (e : BreakerEntry) → refusal_end e ≤ now → (gate config now e).1.allowed ≡ true
  unfolding gate
  gate-allows now e h = ground arith

  -- No circuit stays shut: whatever the map holds, a probe that never came back included, there is
  -- a moment from which on the next `beforeCall` of the key is allowed.
  before_call_reopens :
      (key : String) (m : Entries)
      → (end : ℕ) × ((now : ℕ) → end ≤ now → (before_call config now key m).1.allowed ≡ true)
  unfolding before_call
  before_call_reopens key m =
      (refusal_end (get_entry key m), λ now h. gate-allows now (get_entry key m) h)
