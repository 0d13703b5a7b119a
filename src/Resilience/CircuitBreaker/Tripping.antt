-- ===== src/Resilience/CircuitBreaker/Tripping.antt =====
-- When failures open the circuit of a key, and that a half-open circuit has one probe at a time.
use senecial.Base.{
  ℕ, suc, ◌+◌, ◌*◌, ◌≤◌, ◌<◌, ◌≡◌, refl, ◌≢◌, String, true, false, Option, none, some, List, [],
  ◌∷◌, All, length, arith, get, get-put, get-put_self, get-put_other, get-delete_other, Bool-cases,
  Option-cases, inl, inr, str_eq, eq_iff, ◌∙◌, ap,
}
use senecial.Resilience.CircuitBreaker.{
  closed, open_circuit, half_open, CircuitBreakerConfig, BreakerEntry, Entries, empty_entry,
  or_empty, get_entry, token, gate, before_call, on_success, fail, on_failure, get_state, phase_of,
}
use senecial.Resilience.CircuitBreaker.Invariant.{Event, call, success, failure, handle, run}

module _ (config : CircuitBreakerConfig) where
  -- The failures of one key at these clock readings.
  unfoldable pub fail_all : String → List ℕ → Entries → Entries
  fail_all key [] m = m
  fail_all key (t ∷ ts) m = fail_all key ts (on_failure config t key m)

  fails : List ℕ → BreakerEntry → BreakerEntry
  fails [] e = e
  fails (t ∷ ts) e = fails ts (fail config t e)

  get_entry-on_failure :
      (t : ℕ) (key : String) (m : Entries)
      → get_entry key (on_failure config t key m) ≡ fail config t (get_entry key m)
  unfolding on_failure get_entry
  get_entry-on_failure t key m = rw (get-put_self key _ m) refl

  get_entry-fail_all :
      (key : String) (ts : List ℕ) (m : Entries)
      → get_entry key (fail_all key ts m) ≡ fails ts (get_entry key m)
  unfolding fail_all fails
  get_entry-fail_all key [] m = refl
  get_entry-fail_all key (t ∷ ts) m =
      get_entry-fail_all key ts (on_failure config t key m)
      ∙ ap (fails ts) (get_entry-on_failure t key m)

  fail_closed :
      (t : ℕ) (e : BreakerEntry)
      → e.opened_at ≡ none
      → e.failures + 1 < config.failure_threshold
      → 1 < config.failure_threshold
      → ((fail config t e).opened_at ≡ none) × ((fail config t e).failures ≤ e.failures + 1)
  unfolding fail
  fail_closed t e o h k = ground arith

  fails_closed :
      (ts : List ℕ) (e : BreakerEntry)
      → e.opened_at ≡ none
      → e.failures + length ts < config.failure_threshold
      → (fails ts e).opened_at ≡ none
  unfolding fails
  fails_closed [] e o h = o
  fails_closed (t ∷ ts) e o h =
      let (o', le) = fail_closed t e o (omega arith) (omega arith) in
      fails_closed ts (fail config t e) o' (omega arith)

  phase-closed :
      (now : ℕ) (found : Option BreakerEntry)
      → (or_empty found).opened_at ≡ none
      → phase_of config now found ≡ closed
  phase-closed now none h = refl
  phase-closed now (some e) h = ground arith

  -- Fewer failures than the threshold, at any clock readings, leave the circuit of a key
  -- closed whose entry is the empty one.
  pub fail_all-closed :
      (key : String) (ts : List ℕ) (m : Entries) (now : ℕ)
      → get_entry key m ≡ empty_entry
      → length ts < config.failure_threshold
      → get_state config now key (fail_all key ts m) ≡ closed
  unfolding get_state
  fail_all-closed key ts m now fresh h = phase-closed now (get key (fail_all key ts m)) (
      unfold get_entry in
      ap (λ e. e.opened_at) (get_entry-fail_all key ts m ∙ ap (fails ts) fresh)
      ∙ fails_closed ts empty_entry refl (omega arith))

  abbrev counting : ℕ → ℕ → BreakerEntry
  counting n start = record {
    failures = n;
    failure_window_started_at = some start;
    opened_at = none;
    half_open_probe_at = none;
  }

  abbrev pub window : ℕ
  window = config.failure_window_seconds * 1000

  fail-counting :
      (t n start : ℕ)
      → t ≤ start + window
      → n + 1 < config.failure_threshold
      → fail config t (counting n start) ≡ counting (suc n) start
  unfolding fail
  fail-counting t n start h k = ground arith

  fails-counting :
      (ts : List ℕ) (n start : ℕ)
      → All (λ t. t ≤ start + window) ts
      → n + length ts < config.failure_threshold
      → fails ts (counting n start) ≡ counting (n + length ts) start
  unfolding fails
  fails-counting [] n start h k = ap (λ c. counting c start) (omega arith)
  fails-counting (t ∷ ts) n start (h, hs) k =
      ap (fails ts) (fail-counting t n start h (omega arith))
      ∙ fails-counting ts (suc n) start hs (omega arith)
      ∙ ap (λ c. counting c start) (omega arith)

  fail_last :
      (t n start : ℕ)
      → t ≤ start + window
      → n + 1 ≡ config.failure_threshold
      → (fail config t (counting n start)).opened_at ≡ some t
  unfolding fail
  fail_last t n start h k = ground arith

  fail_first : (t : ℕ) → 1 < config.failure_threshold → fail config t empty_entry ≡ counting 1 t
  unfolding fail
  fail_first t h = ground arith

  fails-first :
      (first : ℕ) (ts : List ℕ)
      → All (λ t. t ≤ first + window) ts
      → 1 + length ts < config.failure_threshold
      → fails (first ∷ ts) empty_entry ≡ counting (1 + length ts) first
  unfolding fails
  fails-first first ts h k =
      ap (fails ts) (fail_first first (omega arith)) ∙ fails-counting ts 1 first h k

  gate-refuses :
      (now opened : ℕ) (e : BreakerEntry)
      → e.opened_at ≡ some opened
      → now < opened + config.open_duration_seconds * 1000
      → (gate config now e).1 ≡ token false open_circuit
  unfolding gate
  gate-refuses now opened e o h = ground arith

  -- From the empty entry of a key, as many failures as the threshold says (two or more), none later
  -- than one window after the first, open the circuit: for the open duration after the last one every call is refused.
  pub fail_all-opens :
      (key : String) (first last : ℕ) (ts : List ℕ) (m : Entries) (now : ℕ)
      → get_entry key m ≡ empty_entry
      → All (λ t. t ≤ first + window) ts
      → last ≤ first + window
      → 2 + length ts ≡ config.failure_threshold
      → now < last + config.open_duration_seconds * 1000
      → (before_call config now key (on_failure config last key (fail_all key (first ∷ ts) m))).1
        ≡ token false open_circuit
  unfolding before_call
  fail_all-opens key first last ts m now fresh h l k n =
      gate-refuses now last _
        (ap (λ e. e.opened_at)
            (get_entry-on_failure last key (fail_all key (first ∷ ts) m)
              ∙ ap (fail config last) (
                  get_entry-fail_all key (first ∷ ts) m
                  ∙ ap (fails (first ∷ ts)) fresh
                  ∙ fails-first first ts h (omega arith)))
          ∙ fail_last last (1 + length ts) first l (omega arith))
        n

  -- What may happen while the probe of `key` is out: calls before `end`, and the ends of calls of
  -- other keys.
  abbrev pub Spares : String → ℕ → Event → Type 0
  Spares key end (call now k) = now < end
  Spares key end (success k) = k ≢ key
  Spares key end (failure now k) = k ≢ key

  abbrev Probing : ℕ → BreakerEntry → Type 0
  Probing end e =
      (opened : ℕ) × (probe : ℕ) × (e.opened_at ≡ some opened)
      × (e.half_open_probe_at ≡ some probe)
      × (probe + config.probe_timeout_ms ≡ end)

  gate-Probing :
      (now end : ℕ) (e : BreakerEntry)
      → Probing end e
      → now < end
      → ((gate config now e).0 ≡ e) × ((gate config now e).1.allowed ≡ false)
  unfolding gate
  gate-Probing now end e (o, p, ho, hp, he) h = (ground arith, ground arith)

  gate-probe :
      (now : ℕ) (e : BreakerEntry)
      → (gate config now e).1 ≡ token true half_open
      → Probing (now + config.probe_timeout_ms) (gate config now e).0
  unfolding gate
  gate-probe now e h = elim (Option-cases e.opened_at) [
    | inl shut ↦ absurd (ground arith)
    | inr (opened, at) ↦ (opened, now, ground arith, ground arith, refl)
  ]

  handle-Spares :
      (event : Event) (key : String) (end : ℕ) (m : Entries)
      → Spares key end event
      → Probing end (get_entry key m)
      → get_entry key (handle config event m) ≡ get_entry key m
  unfolding handle before_call on_success on_failure get_entry
  handle-Spares (call now k) key end m h p = elim (Bool-cases (str_eq k key)) [
    | inl same ↦
        let e : k ≡ key = (eq_iff k key).0 same in
        rw (get-put k key _ m, same)
          (ap (λ j. (gate config now (or_empty (get j m))).0) e ∙ (gate-Probing now end _ p h).0)
    | inr differs ↦ rw (get-put k key _ m, differs) refl
  ]
  handle-Spares (success k) key end m h p = ap or_empty (get-delete_other k key m h)
  handle-Spares (failure now k) key end m h p = ap or_empty (get-put_other k key _ m h)

  run-Spares :
      (events : List Event) (key : String) (end : ℕ) (m : Entries)
      → All (Spares key end) events
      → Probing end (get_entry key m)
      → get_entry key (run config events m) ≡ get_entry key m
  unfolding run
  run-Spares [] key end m h p = refl
  run-Spares (e ∷ es) key end m (h, hs) p =
      let same = handle-Spares e key end m h p in
      run-Spares es key end (handle config e m) hs (rw same p) ∙ same

  pub get_entry-before_call :
      (now : ℕ) (key : String) (m : Entries)
      → get_entry key (before_call config now key m).0 ≡ (gate config now (get_entry key m)).0
  unfolding before_call get_entry
  get_entry-before_call now key m = rw (get-put_self key _ m) refl

  -- After a call that was let through as the probe of a half-open circuit, and until the probe's
  -- time is over, no further call of the key is let through, whatever calls were made in between
  -- and however the calls of other keys ended.
  pub before_call-one_probe :
      (key : String) (m : Entries) (asked now : ℕ) (events : List Event)
      → (before_call config asked key m).1 ≡ token true half_open
      → All (Spares key (asked + config.probe_timeout_ms)) events
      → now < asked + config.probe_timeout_ms
      → (before_call config now key
          (run config events (before_call config asked key m).0)).1.allowed
        ≡ false
  before_call-one_probe key m asked now events let_through spared soon =
      let end = asked + config.probe_timeout_ms in
      let after = (before_call config asked key m).0 in
      let probing : Probing end (get_entry key after) =
        rw (get_entry-before_call asked key m)
          (gate-probe asked (get_entry key m) (unfold before_call in let_through)) in
      unfold before_call in
      (gate-Probing now end (get_entry key (run config events after))
        (rw (run-Spares events key end after spared probing) probing) soon).1
