-- ===== src/Extraction/Policies.antt =====
-- src/domain/extraction: job-state-machine.ts, extraction-error-codes.ts, stale-job-policy.ts and
-- optimistic-concurrency.ts.
use senecial.Base.{
  ℕ, ◌+◌, ◌*◌, Bool, true, false, not, Option, none, some, List, [], ◌∷◌, leb, ◌==◌, if◌then◌else◌,
}

pub data ExtractionJobStatus : Type 0 where
  pending processing review_required completed failed cancelled : ExtractionJobStatus

pub data ExtractionStage : Type 0 where
  file_text_extraction contract_field_extraction ready_for_review : ExtractionStage

abbrev pub allowed_transitions : ExtractionJobStatus → List ExtractionJobStatus
allowed_transitions pending = processing ∷ cancelled ∷ []
allowed_transitions processing = review_required ∷ failed ∷ []
allowed_transitions review_required = completed ∷ processing ∷ []
allowed_transitions failed = pending ∷ cancelled ∷ []
allowed_transitions completed = []
allowed_transitions cancelled = []

abbrev rank : ExtractionJobStatus → ℕ
rank pending = 0
rank processing = 1
rank review_required = 2
rank completed = 3
rank failed = 4
rank cancelled = 5

abbrev pub same_status : ExtractionJobStatus → ExtractionJobStatus → Bool
same_status a b = rank a == rank b

abbrev pub includes : List ExtractionJobStatus → ExtractionJobStatus → Bool
includes [] s = false
includes (t ∷ ts) s = if same_status t s then true else includes ts s

unfoldable pub can_transition_extraction_job_status :
    ExtractionJobStatus → ExtractionJobStatus → Bool
can_transition_extraction_job_status from_status to_status =
    includes (allowed_transitions from_status) to_status

-- `no_code` is the empty text that callers pass where a job has no code.
pub data ExtractionErrorCode : Type 0 where
  file_not_found checksum_mismatch unsupported_format ocr_required text_extraction_failed :
      ExtractionErrorCode
  field_extraction_failed invalid_provider_response max_attempts_reached no_code :
      ExtractionErrorCode

-- `NON_RETRYABLE_ERROR_CODES.has(errorCode)`
unfoldable pub is_non_retryable : ExtractionErrorCode → Bool
is_non_retryable checksum_mismatch = true
is_non_retryable unsupported_format = true
is_non_retryable ocr_required = true
is_non_retryable max_attempts_reached = true
is_non_retryable _ = false

unfoldable pub is_retryable_extraction_error : ExtractionErrorCode → ℕ → ℕ → Bool
unfolding is_non_retryable
is_retryable_extraction_error error_code attempt max_attempts =
    if leb max_attempts attempt then false else not (is_non_retryable error_code)

abbrev pub default_extraction_stale_minutes : ℕ
default_extraction_stale_minutes = 15

-- `now - lockedAt >= staleMs`
unfoldable pub is_extraction_job_stale : Option ℕ → ℕ → ℕ → Bool
is_extraction_job_stale none now stale_minutes = false
is_extraction_job_stale (some locked_at) now stale_minutes =
    leb (locked_at + stale_minutes * 60 * 1000) now

unfoldable pub has_contract_changed_since_extraction : ℕ → Option ℕ → Bool
has_contract_changed_since_extraction contract_updated_at none = false
has_contract_changed_since_extraction contract_updated_at (some snapshot) =
    not (contract_updated_at == snapshot)
