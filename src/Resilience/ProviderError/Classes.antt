-- ===== src/Resilience/ProviderError/Classes.antt =====
-- Which failures are retried, and that a normalised error is classified consistently.
use senecial.Base.{ℕ, ◌≤◌, ◌≡◌, ◌↔◌, ◌⊎◌, String, true, arith, ◌≢◌, eq_iff}
use senecial.Resilience.ProviderError.{
  ProviderErrorCode, provider_timeout, provider_rate_limited, provider_unavailable, new,
  is_retryable_provider_error_code, is_fallback_eligible_provider_error_code,
  classify_provider_http_status, Thrown, classified, js_error, other, normalize_provider_error,
  mentions_timeout,
}

-- An HTTP status is retried exactly where it is 408, 429 or at least 500, and these are the ones
-- for which the secondary provider is asked.
pub classify_provider_http_status-retryable :
    (status : ℕ)
    → let code = classify_provider_http_status status in
      ((is_retryable_provider_error_code code ≡ true)
        ↔ ((status ≡ 408) ⊎ (status ≡ 429) ⊎ (500 ≤ status)))
      × (is_fallback_eligible_provider_error_code code ≡ is_retryable_provider_error_code code)
unfolding classify_provider_http_status is_retryable_provider_error_code
    is_fallback_eligible_provider_error_code
classify_provider_http_status-retryable status = ground arith

-- The flag of a classified error is that of its code.
abbrev pub IsConsistent : Thrown → Type 0
IsConsistent (classified e) = e.retryable ≡ is_retryable_provider_error_code e.error_code
IsConsistent _ = Unit {0}

-- What makes a thrown value worth a second attempt.
abbrev pub IsTransient : Thrown → Type 0
IsTransient (classified e) =
    (e.error_code ≡ provider_timeout)
    ⊎ (e.error_code ≡ provider_rate_limited)
    ⊎ (e.error_code ≡ provider_unavailable)
IsTransient (js_error name message) = (name ≢ "AbortError") × (mentions_timeout message ≡ true)
IsTransient other = ⊥

-- A thrown value is normalised to a retryable error exactly where it is a timeout, a rate limit or an
-- outage by its code, or an error other than an abort whose message mentions a timeout; the result's
-- flag is that of its code.
pub normalize_provider_error-retryable :
    (thrown : Thrown) (provider_name : String)
    → IsConsistent thrown
    → let error = normalize_provider_error thrown provider_name in
      ((error.retryable ≡ true) ↔ IsTransient thrown)
      × (error.retryable ≡ is_retryable_provider_error_code error.error_code)
unfolding normalize_provider_error new is_retryable_provider_error_code
normalize_provider_error-retryable (classified e) provider_name h = (ground arith, h)
normalize_provider_error-retryable (js_error name message) provider_name h =
    ground (arith, eq_iff name "AbortError")
normalize_provider_error-retryable other provider_name h = ground arith

-- The two classes of codes are one: a failure is handed to the secondary provider exactly where it
-- is retried.
pub fallback-retryable :
    (code : ProviderErrorCode)
    → is_fallback_eligible_provider_error_code code ≡ is_retryable_provider_error_code code
unfolding is_fallback_eligible_provider_error_code is_retryable_provider_error_code
fallback-retryable code = ground arith
