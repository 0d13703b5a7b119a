-- ===== src/Extraction/Requests.antt =====
-- The other writers of the table of jobs in src/features/extraction/server: create-extraction-job.ts,
-- recover-stale-extraction-jobs.ts, and apply-approved-suggestions.ts up to what it writes to the
-- contract. Who may call them, and whether the contract and the file exist, is checked before.
use senecial.Base.{
  ℕ, suc, String, Bool, Option, none, some, List, [], ◌∷◌, length, get, if◌then◌else◌,
}
use senecial.Extraction.Policies.{
  ExtractionJobStatus, review_required, completed, failed, ExtractionErrorCode, no_code,
  max_attempts_reached, is_retryable_extraction_error, has_contract_changed_since_extraction,
  same_status,
}
use senecial.Extraction.Repository.{
  ExtractionJob, Jobs, CreateExtractionJobData, create_extraction_job,
  find_extraction_job_by_dedup_key, update_extraction_job, reset_extraction_job_to_pending,
  find_stale_processing_jobs,
}
use senecial.Extraction.Process.{
  extraction_job_created, extraction_retry_requested, extraction_job_failed, extraction_applied,
  Database, log_action, mark_failed,
}

-- The key of the job, a `ConflictError`, or the error of a violated index.
pub data CreateResult : Type 0 where
  job_id : String → CreateResult
  conflict unexpected : CreateResult

abbrev pub code_of : Option ExtractionErrorCode → ExtractionErrorCode
code_of none = no_code
code_of (some code) = code

-- The `switch` on the status of the job that has the key.
unfoldable pub retry_existing :
    ExtractionJobStatus → String → ExtractionJob → Database → Database × CreateResult
unfolding is_retryable_extraction_error reset_extraction_job_to_pending
retry_existing failed id existing db =
    if is_retryable_extraction_error (code_of existing.error_code) existing.attempt
      existing.max_attempts
    then (
      log_action id extraction_retry_requested
          (record db { jobs = reset_extraction_job_to_pending id db.jobs }),
      job_id id,
    )
    else (db, conflict)
retry_existing _ id existing db = (db, conflict)

-- The request reads the jobs `seen`; its transaction runs later, on `db`.
unfoldable pub create_job :
    String → CreateExtractionJobData → ℕ → Jobs → Database → Database × CreateResult
unfolding find_extraction_job_by_dedup_key create_extraction_job retry_existing
create_job new_id request now seen db =
    elim (find_extraction_job_by_dedup_key request.organization_id request.contract_file_id
      request.input_checksum request.extractor_version seen) [
        | none ↦ elim (create_extraction_job new_id request now db.jobs) [
          | none ↦ (db, unexpected)
          | some jobs ↦
              (log_action new_id extraction_job_created (record db { jobs = jobs }), job_id new_id)
        ]
        | some (id, existing) ↦ retry_existing existing.status id existing db
      ]

pub record RecoverResult : Type 0 where
  pub scanned : ℕ
  pub recovered_to_pending : ℕ
  pub failed_count : ℕ

unfoldable pub recover_job : ℕ → String × ExtractionJob → Database → Database
unfolding is_retryable_extraction_error reset_extraction_job_to_pending update_extraction_job
recover_job now (id, job) db =
    if is_retryable_extraction_error no_code job.attempt job.max_attempts
    then log_action id extraction_retry_requested
        (record db { jobs = reset_extraction_job_to_pending id db.jobs })
    else log_action id extraction_job_failed (record db {
      jobs = update_extraction_job id (mark_failed max_attempts_reached now) db.jobs;
    })

-- The loop over the stale jobs.
unfoldable pub recover_all : ℕ → List (String × ExtractionJob) → Database → Database
unfolding recover_job
recover_all now [] db = db
recover_all now (stale ∷ rest) db = recover_all now rest (recover_job now stale db)

unfoldable pub count_recovered : List (String × ExtractionJob) → RecoverResult
unfolding is_retryable_extraction_error
count_recovered [] = record { scanned = 0; recovered_to_pending = 0; failed_count = 0 }
count_recovered ((id, job) ∷ rest) =
    let counts = count_recovered rest in
    if is_retryable_extraction_error no_code job.attempt job.max_attempts
    then record counts { recovered_to_pending = suc counts.recovered_to_pending }
    else record counts { failed_count = suc counts.failed_count }

unfoldable pub recover_stale_extraction_jobs : ℕ → ℕ → Database → Database × RecoverResult
unfolding find_stale_processing_jobs recover_all count_recovered
recover_stale_extraction_jobs stale_minutes now db =
    let stale = find_stale_processing_jobs stale_minutes now db.jobs in
    (recover_all now stale db, record (count_recovered stale) { scanned = length stale })

abbrev pub mark_completed : ℕ → ExtractionJob → ExtractionJob
mark_completed now job = record job { status = completed; completed_at = some now }

-- The guards of `applyApprovedSuggestions` on the job, and what it writes of the job; `applicable`
-- says that a suggestion is approved and that its value is a valid one. `none` is an error.
unfoldable pub apply_approved_suggestions : String → ℕ → Bool → ℕ → Database → Option Database
unfolding get has_contract_changed_since_extraction update_extraction_job
apply_approved_suggestions id contract_updated_at applicable now db = elim (get id db.jobs) [
  | none ↦ none
  | some job ↦
      if same_status job.status review_required
      then if has_contract_changed_since_extraction contract_updated_at
          job.contract_updated_at_snapshot
        then none
        else if applicable
        then some (
            log_action id extraction_applied
              (record db { jobs = update_extraction_job id (mark_completed now) db.jobs }))
        else none
      else none
]
