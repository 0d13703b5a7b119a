-- ===== src/Resilience/Fallback.antt =====
-- src/server/services/ai/providers/fallback-llm-provider.ts, with the events of src/domain/ai/llm-provider.ts.
-- A provider's call is its result; its stream is the events that it yields and how it ends. The
-- messages and options that the wrapper hands on unchanged are left out, and so is its logging.
pub mod Streams
pub mod Tests
use senecial.Base.{
  ℕ, String, Bool, true, false, Option, none, some, List, [], ◌∷◌, ◌++◌, map, ◌||◌, if◌then◌else◌,
}
use senecial.Resilience.CircuitBreaker.{CircuitState, open_circuit}
use senecial.Resilience.ProviderError.{
  ProviderError, Thrown, classified, is_fallback_eligible_provider_error_code,
  normalize_provider_error,
}
use senecial.Resilience.Execute.{Attempt, ok, threw}

pub record Identity : Type 0 where
  pub provider_name : String
  pub model_name : String

pub record LlmCompletionResult : Type 0 where
  pub text : String
  pub input_tokens : ℕ
  pub output_tokens : ℕ
  pub provider_request_id : Option String
  pub served_by_provider_name : Option String
  pub served_by_model_name : Option String

pub data AiStreamEvent : Type 0 where
  text_delta : String → AiStreamEvent
  usage : ℕ → ℕ → AiStreamEvent
  provider_request_id : String → AiStreamEvent
  -- the finish reason, and the provider and the model that served the stream
  done : Option String → Option String → Option String → AiStreamEvent

pub record Stream : Type 0 where
  pub events : List AiStreamEvent
  -- what it throws after its last event, if anything
  pub failure : Option Thrown

-- `peekEffectiveIdentity`; the state is the breaker's for the primary provider.
unfoldable pub peek_effective_identity : CircuitState → Identity → Identity → Identity
peek_effective_identity open_circuit primary secondary = secondary
peek_effective_identity _ primary secondary = primary

abbrev pub served_by : Identity → LlmCompletionResult → LlmCompletionResult
served_by p r = record r {
  served_by_provider_name = some p.provider_name;
  served_by_model_name = some p.model_name;
}

unfoldable pub generate_completion :
    Identity
    → Identity
    → Attempt LlmCompletionResult
    → Attempt LlmCompletionResult
    → Attempt LlmCompletionResult
unfolding is_fallback_eligible_provider_error_code normalize_provider_error
generate_completion primary secondary (ok result) second = ok result
generate_completion primary secondary (threw raw_error) second =
    let error = normalize_provider_error raw_error primary.provider_name in
    if is_fallback_eligible_provider_error_code error.error_code
    then elim second [ ok result ↦ ok (served_by secondary result) | threw e ↦ threw e ]
    else threw (classified error)

abbrev pub is_text : AiStreamEvent → Bool
is_text (text_delta _) = true
is_text _ = false

-- The flag `yieldedAnyText` after the events.
unfoldable pub yielded_any_text : List AiStreamEvent → Bool
yielded_any_text [] = false
yielded_any_text (e ∷ es) = is_text e || yielded_any_text es

unfoldable pub tag : Identity → AiStreamEvent → AiStreamEvent
tag p (done reason _ _) = done reason (some p.provider_name) (some p.model_name)
tag p e = e

unfoldable pub stream : Identity → Identity → Stream → Stream → Stream
unfolding yielded_any_text tag is_fallback_eligible_provider_error_code normalize_provider_error
stream primary secondary first second = elim first.failure [
  | none ↦ record { events = first.events; failure = none }
  | some raw_error ↦
      let error = normalize_provider_error raw_error primary.provider_name in
      if yielded_any_text first.events
      then record { events = first.events; failure = some raw_error }
      else if is_fallback_eligible_provider_error_code error.error_code
      then record {
        events = first.events ++ map (tag secondary) second.events;
        failure = second.failure;
      }
      else record { events = first.events; failure = some (classified error) }
]
