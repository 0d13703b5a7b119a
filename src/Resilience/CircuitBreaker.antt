-- ===== src/Resilience/CircuitBreaker.antt =====
-- src/server/services/ai/circuit-breaker/in-memory-circuit-breaker.ts, and the types and the default
-- policy of src/domain/ai/circuit-breaker.ts. Times are milliseconds since the epoch; each call of
-- `Date.now()` is the argument `now`. `now - t < d` is written `now < t + d`, which is the same
-- on integers also where the clock went backwards.
pub mod Invariant
pub mod Phases
pub mod Tripping
pub mod Tests
use senecial.Base.{
  ℕ, ◌+◌, ◌*◌, String, Bool, true, false, Option, none, some, ltb, leb, if◌then◌else◌, Dict, get,
  put, delete,
}

pub data CircuitState : Type 0 where
  closed open_circuit half_open : CircuitState

pub record CircuitCallToken : Type 0 where
  pub allowed : Bool
  pub state : CircuitState

pub record CircuitBreakerConfig : Type 0 where
  pub failure_threshold : ℕ
  pub failure_window_seconds : ℕ
  pub open_duration_seconds : ℕ
  pub probe_timeout_ms : ℕ

abbrev pub circuit_breaker_config : CircuitBreakerConfig
circuit_breaker_config = record {
  failure_threshold = 5;
  failure_window_seconds = 60;
  open_duration_seconds = 30;
  probe_timeout_ms = 30000;
}

pub record BreakerEntry : Type 0 where
  pub failures : ℕ
  pub failure_window_started_at : Option ℕ
  pub opened_at : Option ℕ
  pub half_open_probe_at : Option ℕ

abbrev pub Entries : Type 0
Entries = Dict BreakerEntry

abbrev pub empty_entry : BreakerEntry
empty_entry = record {
  failures = 0;
  failure_window_started_at = none;
  opened_at = none;
  half_open_probe_at = none;
}

abbrev pub or_empty : Option BreakerEntry → BreakerEntry
or_empty none = empty_entry
or_empty (some e) = e

-- `getEntry`: the entry is the map's own object, so a caller that changes it puts it back.
unfoldable pub get_entry : String → Entries → BreakerEntry
unfolding get
get_entry key entries = or_empty (get key entries)

abbrev pub token : Bool → CircuitState → CircuitCallToken
token a s = record { allowed = a; state = s }

-- `t !== undefined && now - t < d`
abbrev pub within : Option ℕ → ℕ → ℕ → Bool
within none now d = false
within (some t) now d = ltb now (t + d)

module _ (config : CircuitBreakerConfig) where
  -- The body of `beforeCall` on the entry.
  unfoldable pub gate : ℕ → BreakerEntry → BreakerEntry × CircuitCallToken
  gate now entry = elim entry.opened_at [
    | none ↦ (entry, token true closed)
    | some opened ↦
        if ltb now (opened + config.open_duration_seconds * 1000)
        then (entry, token false open_circuit)
        else if within entry.half_open_probe_at now config.probe_timeout_ms
        then (entry, token false half_open)
        else (record entry { half_open_probe_at = some now }, token true half_open)
  ]

  unfoldable pub before_call : ℕ → String → Entries → Entries × CircuitCallToken
  unfolding get_entry gate put
  before_call now key entries =
      let (next, answer) = gate now (get_entry key entries) in (put key next entries, answer)

  unfoldable pub on_success : String → Entries → Entries
  unfolding delete
  on_success key entries = delete key entries

  -- The window of the failure counter: it starts anew where it is unset or over.
  unfoldable pub roll_window : ℕ → BreakerEntry → BreakerEntry
  roll_window now entry = elim entry.failure_window_started_at [
    | none ↦ record entry { failure_window_started_at = some now; failures = 0 }
    | some start ↦
        if ltb (start + config.failure_window_seconds * 1000) now
        then record entry { failure_window_started_at = some now; failures = 0 }
        else entry
  ]

  unfoldable pub count_failure : ℕ → BreakerEntry → BreakerEntry
  unfolding roll_window
  count_failure now entry =
      let rolled = roll_window now entry in
      let counted = record rolled { failures = rolled.failures + 1 } in
      if leb config.failure_threshold counted.failures
      then record counted { opened_at = some now }
      else counted

  -- The body of `onFailure` on the entry.
  unfoldable pub fail : ℕ → BreakerEntry → BreakerEntry
  unfolding count_failure
  fail now entry = elim entry.opened_at [
    | none ↦ count_failure now entry
    | some _ ↦ record entry { opened_at = some now; half_open_probe_at = none }
  ]

  unfoldable pub on_failure : ℕ → String → Entries → Entries
  unfolding get_entry fail put
  on_failure now key entries = put key (fail now (get_entry key entries)) entries

  abbrev pub phase_of : ℕ → Option BreakerEntry → CircuitState
  phase_of now none = closed
  phase_of now (some entry) = elim entry.opened_at [
    | none ↦ closed
    | some opened ↦
        if ltb now (opened + config.open_duration_seconds * 1000) then open_circuit else half_open
  ]

  unfoldable pub get_state : ℕ → String → Entries → CircuitState
  unfolding get
  get_state now key entries = phase_of now (get key entries)
