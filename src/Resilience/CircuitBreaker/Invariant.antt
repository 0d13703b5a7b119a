-- ===== src/Resilience/CircuitBreaker/Invariant.antt =====
-- The circuit breaker over sequences of calls, successes and failures of any keys: the invariant
-- of an entry, when failures open the circuit, and that a half-open circuit has one probe.
use senecial.Base.{
  ℕ, ◌<◌, ◌≡◌, String, none, List, [], ◌∷◌, arith, get-put, get-delete, Bool-cases, inl, inr,
  str_eq,
}
use senecial.Resilience.CircuitBreaker.{
  CircuitBreakerConfig, BreakerEntry, Entries, empty_entry, get_entry, gate, before_call,
  on_success, fail, on_failure,
}

-- What happens to a breaker, with the clock's reading where the code takes one.
pub data Event : Type 0 where
  call : ℕ → String → Event
  success : String → Event
  failure : ℕ → String → Event

module _ (config : CircuitBreakerConfig) where
  unfoldable pub handle : Event → Entries → Entries
  handle (call now key) m = (before_call config now key m).0
  handle (success key) m = on_success config key m
  handle (failure now key) m = on_failure config now key m

  unfoldable pub run : List Event → Entries → Entries
  run [] m = m
  run (e ∷ es) m = run es (handle e m)

  -- The circuit is open only by its threshold, a probe is under way only in an open circuit, and
  -- only a started window has counted failures.
  pub record IsValid (e : BreakerEntry) : Type 0 where
    pub below : e.opened_at ≡ none → e.failures < config.failure_threshold
    pub no_probe : e.opened_at ≡ none → e.half_open_probe_at ≡ none
    pub windowed : e.failure_window_started_at ≡ none → e.failures ≡ 0

  empty-IsValid : 0 < config.failure_threshold → IsValid empty_entry
  empty-IsValid h = ground arith

  gate-IsValid : (now : ℕ) (e : BreakerEntry) → IsValid e → IsValid (gate config now e).0
  unfolding gate
  gate-IsValid now e v = ground arith

  fail-IsValid : (now : ℕ) (e : BreakerEntry) → IsValid e → IsValid (fail config now e)
  unfolding fail
  fail-IsValid now e v = ground arith

  get_entry-handle :
      (event : Event) (key : String) (m : Entries)
      → 0 < config.failure_threshold
      → IsValid (get_entry key m)
      → ((other : String) → IsValid (get_entry other m))
      → IsValid (get_entry key (handle event m))
  unfolding handle before_call on_success on_failure get_entry
  get_entry-handle (call now k) key m pos v all = elim (Bool-cases (str_eq k key)) [
    | inl same ↦ rw (get-put k key _ m, same) (gate-IsValid now _ (all k))
    | inr differs ↦ rw (get-put k key _ m, differs) v
  ]
  get_entry-handle (success k) key m pos v all = elim (Bool-cases (str_eq k key)) [
    | inl same ↦ rw (get-delete k key m, same) (empty-IsValid pos)
    | inr differs ↦ rw (get-delete k key m, differs) v
  ]
  get_entry-handle (failure now k) key m pos v all = elim (Bool-cases (str_eq k key)) [
    | inl same ↦ rw (get-put k key _ m, same) (fail-IsValid now _ (all k))
    | inr differs ↦ rw (get-put k key _ m, differs) v
  ]

  run-IsValid_from :
      (events : List Event) (m : Entries)
      → 0 < config.failure_threshold
      → ((key : String) → IsValid (get_entry key m))
      → (key : String) → IsValid (get_entry key (run events m))
  unfolding run
  run-IsValid_from [] m pos all key = all key
  run-IsValid_from (e ∷ es) m pos all key =
      run-IsValid_from es (handle e m) pos (λ k. get_entry-handle e k m pos (all k) all) key

  -- With a positive threshold, every entry of a breaker that started empty is valid after any
  -- sequence of events, at any clock readings.
  pub run-IsValid :
      (events : List Event) (key : String)
      → 0 < config.failure_threshold
      → IsValid (get_entry key (run events []))
  run-IsValid events key pos =
      run-IsValid_from events [] pos (λ k. unfold get_entry in empty-IsValid pos) key
