-- ===== src/Extraction/Recovery.antt =====
-- The recovery of stale jobs, and the reset of a job for another attempt.
use mathlib.Core.Path.{subst}
use senecial.Base.{
  ℕ, ◌<◌, String, true, ◌≡◌, refl, sym, ◌∙◌, some, List, [], ◌∷◌, get, IsMap, str_eq, All, All-mono,
  arith, Bool-cases, Option-cases, some-inj, inl, inr,
}
use senecial.Extraction.{
  ExtractionErrorCode, no_code, max_attempts_reached, is_retryable_extraction_error, ExtractionJob,
  Jobs, update_extraction_job, back_to_pending, reset_extraction_job_to_pending,
  find_stale_processing_jobs, is_stale_processing,
}
use senecial.Extraction.Process.{Database, mark_failed}
use senecial.Extraction.Requests.{recover_job, recover_all, recover_stale_extraction_jobs}
use senecial.Extraction.Table.{Every, get-update_extraction_job}
use senecial.Extraction.Claims.{get-cons_here, get-cons_later}
use senecial.Extraction.Validity.{IsValid, IsWellFormed, update-IsWellFormed}

-- A retryable job has attempts left.
retryable-lt :
    (code : ExtractionErrorCode) (attempt max_attempts : ℕ)
    → is_retryable_extraction_error code attempt max_attempts ≡ true
    → attempt < max_attempts
unfolding is_retryable_extraction_error
retryable-lt code attempt max_attempts h = ground arith

-- The counters of a row are those that were read.
abbrev pub SameAttempts : ExtractionJob → ExtractionJob → Type 0
SameAttempts read row = (row.attempt ≡ read.attempt) × (row.max_attempts ≡ read.max_attempts)

abbrev pub Reads : Jobs → String × ExtractionJob → Type 0
Reads jobs (id, read) = (row : ExtractionJob) → get id jobs ≡ some row → SameAttempts read row

pub reset-IsWellFormed :
    (id : String) (read : ExtractionJob) (code : ExtractionErrorCode) (jobs : Jobs)
    → is_retryable_extraction_error code read.attempt read.max_attempts ≡ true
    → Reads jobs (id, read)
    → IsMap jobs × Every IsValid jobs
    → IsMap (reset_extraction_job_to_pending id jobs)
      × Every IsValid (reset_extraction_job_to_pending id jobs)
unfolding reset_extraction_job_to_pending
reset-IsWellFormed id read code jobs retryable reads h =
    let below = retryable-lt code read.attempt read.max_attempts retryable in
    update-IsWellFormed id back_to_pending jobs
      (λ row found v.
        (v.0, λ p. omega (arith, below, (reads row found).0, (reads row found).1), refl))
      h

update-Reads :
    (id : String) (change : ExtractionJob → ExtractionJob) (jobs : Jobs)
    (one : String × ExtractionJob)
    → ((job : ExtractionJob) → SameAttempts job (change job))
    → Reads jobs one
    → Reads (update_extraction_job id change jobs) one
update-Reads id change jobs (other, read) keeps h row e = elim (Option-cases (get other jobs)) [
  | inl nothing ↦
      absurd (ground (arith, get-update_extraction_job id other change jobs, nothing, e))
  | inr (old, there) ↦ elim (Bool-cases (str_eq id other)) [
    | inl same ↦
        let changed : change old ≡ row =
          some-inj (rw (get-update_extraction_job, same, there) at e) in
        let kept = subst (SameAttempts old) changed (keeps old) in
        let reads = h old there in (omega (arith, kept.0, reads.0), omega (arith, kept.1, reads.1))
    | inr differs ↦ h row (rw (get-update_extraction_job, differs) at e)
  ]
]

recover_job-Reads :
    (now : ℕ) (stale one : String × ExtractionJob) (db : Database)
    → Reads db.jobs one
    → Reads (recover_job now stale db).jobs one
unfolding recover_job reset_extraction_job_to_pending
recover_job-Reads now (id, job) one db h =
    elim (Bool-cases (is_retryable_extraction_error no_code job.attempt job.max_attempts)) [
      | inl again ↦ rw again (update-Reads id back_to_pending db.jobs one (λ j. (refl, refl)) h)
      | inr over ↦
          rw over (
            update-Reads id (mark_failed max_attempts_reached now) db.jobs one (λ j. (refl, refl))
              h)
    ]

pub recover_job-IsWellFormed :
    (now : ℕ) (stale : String × ExtractionJob) (db : Database)
    → Reads db.jobs stale
    → IsWellFormed db
    → IsWellFormed (recover_job now stale db)
unfolding recover_job
recover_job-IsWellFormed now (id, job) db reads h =
    elim (Bool-cases (is_retryable_extraction_error no_code job.attempt job.max_attempts)) [
      | inl again ↦ rw again (reset-IsWellFormed id job no_code db.jobs again reads h)
      | inr over ↦ rw over (
          update-IsWellFormed id (mark_failed max_attempts_reached now) db.jobs
            (λ j e v. (v.0, λ p. ground (arith, p), refl)) h)
    ]

recover_all-IsWellFormed :
    (now : ℕ) (stale : List (String × ExtractionJob)) (db : Database)
    → All (Reads db.jobs) stale
    → IsWellFormed db
    → IsWellFormed (recover_all now stale db)
unfolding recover_all
recover_all-IsWellFormed now [] db reads h = h
recover_all-IsWellFormed now (one ∷ stale) db (read, reads) h =
    recover_all-IsWellFormed now stale (recover_job now one db)
      (All-mono (Reads db.jobs) (Reads (recover_job now one db).jobs) stale
        (λ x r. recover_job-Reads now one x db r) reads)
      (recover_job-IsWellFormed now one db read h)

abbrev pub Stands : Jobs → String × ExtractionJob → Type 0
Stands jobs (id, job) = get id jobs ≡ some job

pub find_stale_processing_jobs-Stands :
    (stale_minutes now : ℕ) (jobs : Jobs)
    → IsMap jobs
    → All (Stands jobs) (find_stale_processing_jobs stale_minutes now jobs)
unfolding find_stale_processing_jobs
find_stale_processing_jobs-Stands stale_minutes now [] h = tt
find_stale_processing_jobs-Stands stale_minutes now ((id, job) ∷ jobs) (fresh, h) =
    let later =
      All-mono (Stands jobs) (Stands ((id, job) ∷ jobs))
        (find_stale_processing_jobs stale_minutes now jobs)
        (λ x there. get-cons_later id x.0 job x.1 jobs fresh there)
        (find_stale_processing_jobs-Stands stale_minutes now jobs h) in
    elim (Bool-cases (is_stale_processing stale_minutes now job)) [
      | inl stale ↦ rw stale (get-cons_here id job jobs, later)
      | inr busy ↦ rw busy later
    ]

pub Reads-of_Stands :
    (jobs : Jobs) (one : String × ExtractionJob) → Stands jobs one → Reads jobs one
Reads-of_Stands jobs (id, job) there row found =
    let same = some-inj (sym there ∙ found) in subst (SameAttempts job) same (refl, refl)

pub recover_stale_extraction_jobs-IsWellFormed :
    (stale_minutes now : ℕ) (db : Database)
    → IsWellFormed db
    → IsWellFormed ((recover_stale_extraction_jobs stale_minutes now db).0)
unfolding recover_stale_extraction_jobs
recover_stale_extraction_jobs-IsWellFormed stale_minutes now db h =
    let stale = find_stale_processing_jobs stale_minutes now db.jobs in
    recover_all-IsWellFormed now stale db
      (All-mono (Stands db.jobs) (Reads db.jobs) stale (Reads-of_Stands db.jobs)
        (find_stale_processing_jobs-Stands stale_minutes now db.jobs h.0))
      h
