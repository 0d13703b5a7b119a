-- ===== src/Resilience/Fallback/Tests.antt =====
-- The fallback provider on concrete inputs.
use senecial.Base.{◌≡◌, refl, ◌⊎◌, true, false, none, some, [], ◌∷◌}
use senecial.Resilience.CircuitBreaker.{open_circuit, half_open}
use senecial.Resilience.ProviderError.{
  Thrown, classified, js_error, new, provider_unavailable, normalize_provider_error,
  is_fallback_eligible_provider_error_code,
}
use senecial.Resilience.Fallback.{
  Identity, LlmCompletionResult, text_delta, usage, done, Stream, yielded_any_text, stream,
  peek_effective_identity,
}
use senecial.Resilience.Fallback.Streams.{texts, stream-texts}

abbrev openai : Identity
openai = record { provider_name = "openai"; model_name = "gpt-4.1-mini" }

abbrev azure : Identity
azure = record { provider_name = "azure-openai"; model_name = "gpt-4o" }

abbrev down : Stream
down = record {
  events = usage 3 0 ∷ [];
  failure = some (classified (new provider_unavailable "openai" none));
}

abbrev cut : Stream
cut = record { events = text_delta "a" ∷ []; failure = some (js_error "Error" "Request TimeOut") }

abbrev healthy : Stream
healthy = record { events = text_delta "b" ∷ done (some "stop") none none ∷ []; failure = none }

streams :
    ((stream openai azure down healthy).events
      ≡ usage 3 0 ∷ text_delta "b" ∷ done (some "stop") (some "azure-openai") (some "gpt-4o") ∷ [])
    × (stream openai azure cut healthy ≡ cut)
    × (peek_effective_identity open_circuit openai azure ≡ azure)
    × (peek_effective_identity half_open openai azure ≡ openai)
unfolding stream new peek_effective_identity
streams = (refl, refl, refl, refl)

stream-texts_example :
    (texts (stream openai azure down healthy).events ≡ texts down.events)
    ⊎ ((texts (stream openai azure down healthy).events ≡ texts healthy.events)
        × (yielded_any_text down.events ≡ false)
        × ((raw : Thrown) × (down.failure ≡ some raw)
            × (is_fallback_eligible_provider_error_code
                  (normalize_provider_error raw "openai").error_code
                ≡ true)))
stream-texts_example = stream-texts openai azure down healthy

abbrev answer : LlmCompletionResult
answer = record {
  text = "x";
  input_tokens = 1;
  output_tokens = 1;
  provider_request_id = none;
  served_by_provider_name = none;
  served_by_model_name = none;
}

abbrev late : Thrown
late = js_error "Error" "socket TIMEOUT"
