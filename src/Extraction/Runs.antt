-- ===== src/Extraction/Runs.antt =====
-- Any sequence of the operations that write the table of jobs. A worker's turn is several of them, its claim
-- and its later writes, and others can come between; so are the write of a request that tries a job again
-- and each write of a recovery. `max_attempts` is the configured EXTRACTION_MAX_ATTEMPTS, a positive number.
use mathlib.Core.Path.{subst}
use senecial.Base.{
  ℕ, ◌<◌, String, Bool, true, ◌≡◌, refl, sym, ◌∙◌, some-inj, Option, none, some, List, [], ◌∷◌, get,
  Option-cases, inl, inr,
}
use senecial.Extraction.{
  Jobs, CreateExtractionJobData, find_extraction_job_by_dedup_key, ExtractionJob, review_required,
  same_status, update_extraction_job, claim_next_pending_job,
}
use senecial.Extraction.Process.{Services, Database, set_stage, run_claimed_job}
use senecial.Extraction.Requests.{
  mark_completed, create_job, recover_job, recover_stale_extraction_jobs,
  apply_approved_suggestions,
}
use senecial.Extraction.Validity.{
  IsWellFormed, update-IsWellFormed, claim-IsWellFormed, run_claimed_job-IsWellFormed,
}
use senecial.Extraction.Recovery.{
  recover_stale_extraction_jobs-IsWellFormed, recover_job-IsWellFormed, Reads-of_Stands,
}
use senecial.Extraction.Lifecycle.{
  completed-IsValid, StillReads, create_job-IsWellFormed, apply_approved_suggestions-IsWellFormed,
}

pub data Operation : Type 0 where
  -- the claim of a worker
  claim : String → ℕ → Operation
  -- a worker that has read the text
  stage : String → Operation
  -- the rest of a worker's turn, at whatever time, with the row that its claim returned
  finish : String → ExtractionJob → Services → ℕ → Operation
  -- the new key, the organization, the contract, its file, the version, the checksum, the time, and the
  -- jobs that the request has read before its write
  create : String → String → String → String → String → String → ℕ → Jobs → Operation
  recover : ℕ → ℕ → Operation
  -- one write of a recovery, at whatever time, with the row that it has read
  recover_one : ℕ → String → ExtractionJob → Operation
  apply : String → ℕ → Bool → ℕ → Operation
  -- the last write of an application, at whatever time, with the row that it has read
  complete : String → ExtractionJob → ℕ → Operation

-- An error of `apply` leaves the database as it was.
abbrev pub applied_or : Database → Option Database → Database
applied_or db none = db
applied_or db (some applied) = applied

module _ (max_attempts : ℕ) where
  abbrev request_of : String → String → String → String → String → CreateExtractionJobData
  request_of organization contract file version checksum = record {
    organization_id = organization;
    contract_id = contract;
    contract_file_id = file;
    extractor_version = version;
    input_checksum = checksum;
    max_attempts = max_attempts;
  }

  unfoldable pub run : Operation → Database → Database
  unfolding claim_next_pending_job run_claimed_job create_job recover_stale_extraction_jobs
      recover_job apply_approved_suggestions
  run (claim worker_id now) db = record db {
    jobs = (claim_next_pending_job worker_id now db.jobs).0;
  }
  run (stage id) db = record db { jobs = update_extraction_job id set_stage db.jobs }
  run (finish id job services now) db = run_claimed_job id job services now db
  run (create new_id organization contract file version checksum now seen) db =
      (create_job new_id (request_of organization contract file version checksum) now seen db).0
  run (recover stale_minutes now) db = (recover_stale_extraction_jobs stale_minutes now db).0
  run (recover_one now id job) db = recover_job now (id, job) db
  run (apply id updated applicable now) db =
      applied_or db (apply_approved_suggestions id updated applicable now db)
  run (complete id job now) db = record db {
    jobs = update_extraction_job id (mark_completed now) db.jobs;
  }

  unfoldable pub run_all : List Operation → Database → Database
  unfolding run
  run_all [] db = db
  run_all (o ∷ operations) db = run_all operations (run o db)

  -- A request, a recovery or an application writes while the row is as it has read it.
  abbrev pub IsTimelyStep : Operation → Database → Type 0
  unfolding find_extraction_job_by_dedup_key
  IsTimelyStep (create new_id organization contract file version checksum now seen) db =
      StillReads (find_extraction_job_by_dedup_key organization file checksum version seen) db.jobs
  IsTimelyStep (recover_one now id job) db = get id db.jobs ≡ some job
  IsTimelyStep (complete id job now) db =
      (get id db.jobs ≡ some job) × (job.status ≡ review_required)
  IsTimelyStep _ db = Unit

  abbrev pub IsTimely : List Operation → Database → Type 0
  unfolding run
  IsTimely [] db = Unit
  IsTimely (o ∷ operations) db = IsTimelyStep o db × IsTimely operations (run o db)

  run-IsWellFormed :
      0 < max_attempts
      → (o : Operation) (db : Database) → IsTimelyStep o db
      → IsWellFormed db
      → IsWellFormed (run o db)
  unfolding run
  run-IsWellFormed positive (claim worker_id now) db timely h =
      claim-IsWellFormed worker_id now db.jobs h
  run-IsWellFormed positive (stage id) db timely h =
      update-IsWellFormed id set_stage db.jobs (λ job e v. v) h
  run-IsWellFormed positive (finish id job services now) db timely h =
      run_claimed_job-IsWellFormed id job services now db h
  run-IsWellFormed positive (create new_id organization contract file version checksum now seen) db
        reads h =
      create_job-IsWellFormed new_id (request_of organization contract file version checksum) now
        seen db positive reads h
  run-IsWellFormed positive (recover stale_minutes now) db timely h =
      recover_stale_extraction_jobs-IsWellFormed stale_minutes now db h
  run-IsWellFormed positive (recover_one now id job) db there h =
      recover_job-IsWellFormed now (id, job) db (Reads-of_Stands db.jobs (id, job) there) h
  run-IsWellFormed positive (apply id updated applicable now) db timely h =
      elim (Option-cases (apply_approved_suggestions id updated applicable now db)) [
        | inl error ↦ rw error h
        | inr (applied, e) ↦
            rw e (apply_approved_suggestions-IsWellFormed id updated applicable now db applied e h)
      ]
  run-IsWellFormed positive (complete id job now) db (there, reviewed) h =
      update-IsWellFormed id (mark_completed now) db.jobs
        (λ row found v.
          completed-IsValid now row
            (subst (λ r. same_status r.status review_required ≡ true) (some-inj (sym there ∙ found))
              (rw reviewed refl))
            v)
        h

  -- With a positive limit, any sequence of operations, in which each request that tries a job again, each
  -- single write of a recovery and each completion of a reviewed job comes while the job is as it was
  -- read, keeps the table well-formed, one row for a key: no job has been attempted more often than its limit, a pending job has
  -- an attempt left, and a job holds a lock exactly while it is PROCESSING. Workers may stop between their
  -- claim and its end, and end late, after others have changed the job.
  pub run_all-IsWellFormed :
      0 < max_attempts
      → (operations : List Operation) (db : Database) → IsTimely operations db
      → IsWellFormed db
      → IsWellFormed (run_all operations db)
  unfolding run_all
  run_all-IsWellFormed positive [] db timely h = h
  run_all-IsWellFormed positive (o ∷ operations) db (timely, later) h =
      run_all-IsWellFormed positive operations (run o db) later
        (run-IsWellFormed positive o db timely h)
