-- ===== src/Extraction/Lifecycle.antt =====
-- Requests keep the table well-formed.
use mathlib.Core.Path.{subst}
use senecial.Base.{
  ℕ, ◌<◌, String, Bool, true, ◌≡◌, refl, sym, ◌∙◌, Option, none, some, get, IsMap, IsMap-put, arith,
  Bool-cases, Option-cases, none-ne-some, some-inj, inl, inr,
}
use senecial.Extraction.{
  ExtractionJobStatus, pending, processing, review_required, completed, failed, cancelled,
  is_retryable_extraction_error, has_contract_changed_since_extraction, ExtractionJob, Jobs,
  CreateExtractionJobData, new_job, create_extraction_job, find_unique,
  find_extraction_job_by_dedup_key, same_status,
}
use senecial.Extraction.Process.{Database}
use senecial.Extraction.Requests.{
  code_of, retry_existing, create_job, mark_completed, apply_approved_suggestions,
}
use senecial.Extraction.Table.{Every, Every-put}
use senecial.Extraction.Validity.{IsValid, IsWellFormed, update-IsWellFormed}
use senecial.Extraction.Recovery.{Reads-of_Stands, reset-IsWellFormed}

retry_existing-IsWellFormed :
    (status : ExtractionJobStatus) (id : String) (existing : ExtractionJob) (db : Database)
    → get id db.jobs ≡ some existing
    → IsWellFormed db
    → IsWellFormed ((retry_existing status id existing db).0)
unfolding retry_existing
retry_existing-IsWellFormed failed id existing db there h =
    let code = code_of existing.error_code in
    elim (Bool-cases (is_retryable_extraction_error code existing.attempt existing.max_attempts)) [
      | inl again ↦ rw again (
          reset-IsWellFormed id existing code db.jobs again
            (Reads-of_Stands db.jobs (id, existing) there) h)
      | inr over ↦ rw over h
    ]
retry_existing-IsWellFormed pending id existing db there h = h
retry_existing-IsWellFormed processing id existing db there h = h
retry_existing-IsWellFormed review_required id existing db there h = h
retry_existing-IsWellFormed completed id existing db there h = h
retry_existing-IsWellFormed cancelled id existing db there h = h

create_extraction_job-IsWellFormed :
    (new_id : String) (request : CreateExtractionJobData) (now : ℕ) (jobs after : Jobs)
    → 0 < request.max_attempts
    → create_extraction_job new_id request now jobs ≡ some after
    → IsMap jobs × Every IsValid jobs
    → IsMap after × Every IsValid after
unfolding create_extraction_job
create_extraction_job-IsWellFormed new_id request now jobs after positive e h =
    elim (Option-cases (
      find_unique request.contract_file_id request.input_checksum request.extractor_version jobs)) [
        | inr (old, taken) ↦ absurd (none-ne-some (rw (taken, create_extraction_job) at e))
        | inl free ↦ elim (Option-cases (get new_id jobs)) [
          | inr (old, taken) ↦ absurd (none-ne-some (rw (free, taken, create_extraction_job) at e))
          | inl new ↦
              subst (λ rows. IsMap rows × Every IsValid rows)
                (some-inj (rw (free, new, create_extraction_job) at e))
                (
                  IsMap-put new_id (new_job request now) jobs h.0,
                  Every-put IsValid new_id (new_job request now) jobs
                      (omega arith, λ p. positive, refl) h.1,
                )
        ]
      ]

-- A job that a request has found is still as it has read it.
abbrev pub StillReads : Option (String × ExtractionJob) → Jobs → Type 0
StillReads none jobs = Unit
StillReads (some (id, existing)) jobs = get id jobs ≡ some existing

pub create_job-IsWellFormed :
    (new_id : String) (request : CreateExtractionJobData) (now : ℕ) (seen : Jobs) (db : Database)
    → 0 < request.max_attempts
    → StillReads
        (find_extraction_job_by_dedup_key request.organization_id request.contract_file_id
          request.input_checksum request.extractor_version seen)
        db.jobs
    → IsWellFormed db
    → IsWellFormed ((create_job new_id request now seen db).0)
unfolding create_job
create_job-IsWellFormed new_id request now seen db positive reads h =
    elim (Option-cases (
      find_extraction_job_by_dedup_key request.organization_id request.contract_file_id
        request.input_checksum request.extractor_version seen)) [
          | inl new ↦ elim (Option-cases (create_extraction_job new_id request now db.jobs)) [
            | inl clash ↦ rw (new, clash, create_job) h
            | inr (jobs, made) ↦
                rw (new, made, create_job)
                  (create_extraction_job-IsWellFormed new_id request now db.jobs jobs positive made
                    h)
          ]
          | inr ((id, existing), e) ↦
              rw (e, create_job)
                (retry_existing-IsWellFormed existing.status id existing db (rw e at reads) h)
        ]

-- A completed row is a reviewed one, which was not locked.
pub completed-IsValid :
    (now : ℕ) (job : ExtractionJob)
    → same_status job.status review_required ≡ true
    → IsValid job
    → IsValid (mark_completed now job)
completed-IsValid now job reviewed v = (v.0, λ p. ground (arith, p), ground (arith, v.2, reviewed))

pub apply_approved_suggestions-IsWellFormed :
    (id : String) (updated : ℕ) (applicable : Bool) (now : ℕ) (db applied : Database)
    → apply_approved_suggestions id updated applicable now db ≡ some applied
    → IsWellFormed db
    → IsWellFormed applied
unfolding apply_approved_suggestions
apply_approved_suggestions-IsWellFormed id updated applicable now db applied e h =
    elim (Option-cases (get id db.jobs)) [
      | inl gone ↦ absurd (none-ne-some (rw (gone, apply_approved_suggestions) at e))
      | inr (job, there) ↦ elim (Bool-cases (same_status job.status review_required)) [
        | inr other ↦ absurd (none-ne-some (rw (there, other, apply_approved_suggestions) at e))
        | inl reviewed ↦
            elim (Bool-cases
              (has_contract_changed_since_extraction updated job.contract_updated_at_snapshot)) [
                | inl changed ↦
                    absurd (
                      none-ne-some (rw (there, reviewed, changed, apply_approved_suggestions) at e))
                | inr same ↦ elim (Bool-cases applicable) [
                  | inr nothing ↦ absurd (
                      none-ne-some
                        (rw (there, reviewed, same, nothing, apply_approved_suggestions) at e))
                  | inl some_value ↦
                      subst IsWellFormed
                        (some-inj
                          (rw (there, reviewed, same, some_value, apply_approved_suggestions) at e))
                        (update-IsWellFormed id (mark_completed now) db.jobs
                          (λ row found v.
                            completed-IsValid now row
                              (subst (λ j. same_status j.status review_required ≡ true)
                                (some-inj (sym there ∙ found)) reviewed)
                              v)
                          h)
                ]
              ]
      ]
    ]
