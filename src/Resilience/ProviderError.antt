-- ===== src/Resilience/ProviderError.antt =====
-- src/domain/ai/provider-error.ts. The texts of the errors depend on the code alone and are left out,
-- and so is `cause`, which nothing reads.
pub mod Classes
use Prim.Native.Char.{code}
use senecial.Base.{
  ℕ, ◌+◌, String, Bool, true, false, Option, none, some, List, [], ◌∷◌, leb, ◌==◌, ◌&&◌, ◌||◌,
  str_eq, if◌then◌else◌,
}

pub data ProviderErrorCode : Type 0 where
  provider_timeout provider_rate_limited provider_unavailable : ProviderErrorCode
  provider_auth_failed provider_invalid_request provider_content_blocked : ProviderErrorCode
  provider_context_too_large provider_response_invalid provider_aborted : ProviderErrorCode
  provider_unknown : ProviderErrorCode

unfoldable pub is_retryable_provider_error_code : ProviderErrorCode → Bool
is_retryable_provider_error_code provider_timeout = true
is_retryable_provider_error_code provider_rate_limited = true
is_retryable_provider_error_code provider_unavailable = true
is_retryable_provider_error_code _ = false

unfoldable pub is_fallback_eligible_provider_error_code : ProviderErrorCode → Bool
is_fallback_eligible_provider_error_code provider_timeout = true
is_fallback_eligible_provider_error_code provider_rate_limited = true
is_fallback_eligible_provider_error_code provider_unavailable = true
is_fallback_eligible_provider_error_code _ = false

pub record ProviderError : Type 0 where
  pub error_code : ProviderErrorCode
  pub provider_name : String
  pub http_status : Option ℕ
  pub retryable : Bool

-- The constructor.
unfoldable pub new : ProviderErrorCode → String → Option ℕ → ProviderError
unfolding is_retryable_provider_error_code
new error_code provider_name http_status = record {
  error_code = error_code;
  provider_name = provider_name;
  http_status = http_status;
  retryable = is_retryable_provider_error_code error_code;
}

unfoldable pub classify_provider_http_status : ℕ → ProviderErrorCode
classify_provider_http_status status =
    if status == 401 || status == 403
    then provider_auth_failed
    else if status == 429
    then provider_rate_limited
    else if status == 413
    then provider_context_too_large
    else if status == 408
    then provider_timeout
    else if status == 400 || (status == 404 || status == 422)
    then provider_invalid_request
    else if status == 502 || (status == 503 || status == 504)
    then provider_unavailable
    else if leb 500 status
    then provider_unavailable
    else provider_unknown

-- A thrown value: a `ProviderError`, another `Error` with its name and message, or anything else.
pub data Thrown : Type 0 where
  classified : ProviderError → Thrown
  js_error : String → String → Thrown
  other : Thrown

-- `/timeout/i`: the letters of the pattern are ASCII, so only ASCII letters fold.
fold_case : ℕ → ℕ
fold_case c = if leb b'A' c && leb c b'Z' then c + 32 else c

has_prefix : List ℕ → String → Bool
has_prefix [] s = true
has_prefix (p ∷ ps) String.[] = false
has_prefix (p ∷ ps) (String.◌∷◌ c s) = (fold_case (code c) == p) && has_prefix ps s

abbrev timeout_text : List ℕ
timeout_text = b't' ∷ b'i' ∷ b'm' ∷ b'e' ∷ b'o' ∷ b'u' ∷ b't' ∷ []

unfoldable pub mentions_timeout : String → Bool
unfolding has_prefix fold_case
mentions_timeout String.[] = false
mentions_timeout (String.◌∷◌ c s) = has_prefix timeout_text (String.◌∷◌ c s) || mentions_timeout s

unfoldable pub normalize_provider_error : Thrown → String → ProviderError
unfolding new mentions_timeout
normalize_provider_error (classified error) provider_name = error
normalize_provider_error (js_error name message) provider_name =
    if str_eq name "AbortError"
    then new provider_aborted provider_name none
    else if mentions_timeout message
    then new provider_timeout provider_name none
    else new provider_unknown provider_name none
normalize_provider_error other provider_name = new provider_unknown provider_name none
