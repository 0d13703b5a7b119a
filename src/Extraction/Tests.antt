-- ===== src/Extraction/Tests.antt =====
-- The life of one job: claimed, failed, tried again, reviewed.
use senecial.Base.{
  ℕ, ◌+◌, List, String, Bool, true, false, ◌≡◌, refl, Option, none, some, [], ◌∷◌, get, length,
  none-ne-some, arith,
}
use senecial.Extraction.{
  pending, processing, review_required, failed, field_extraction_failed,
  can_transition_extraction_job_status, CreateExtractionJobData, ExtractionJob, new_job, claimed,
  back_to_pending, claim_next_pending_job, is_stale_processing, find_stale_processing_jobs,
  same_status,
}
use senecial.Extraction.Process.{
  Services, Database, extracted, validated, field_error, process_next_extraction_job,
}
use senecial.Extraction.Requests.{unexpected, create_job, recover_stale_extraction_jobs}
use senecial.Extraction.Claims.{IsClaim, claim_next_pending_job-IsClaim}
use senecial.Extraction.Outcomes.{IsTurn, process_next_extraction_job-IsTurn}
use senecial.Extraction.Stale.{recover_stale_extraction_jobs-stale}
use senecial.Extraction.Validity.{IsWellFormed}
use senecial.Extraction.Runs.{
  Operation, claim, stage, finish, create, recover, apply, run, run_all, IsTimely,
  run_all-IsWellFormed,
}

abbrev request : CreateExtractionJobData
request = record {
  organization_id = "o1";
  contract_id = "c1";
  contract_file_id = "f1";
  extractor_version = "v1";
  input_checksum = "abc";
  max_attempts = 3;
}

abbrev empty_database : Database
empty_database = record { jobs = []; documents = []; suggestions = []; audit_logs = [] }

abbrev one_job : Database
one_job = record empty_database { jobs = ("j1", new_job request 1000) ∷ [] }

abbrev services : Services
services = record {
  contract_updated_at = some 500;
  file_found = true;
  checksum = some "abc";
  text = extracted "text";
  field_result = validated (("title", true) ∷ ("amount", false) ∷ []);
}

abbrev broken : Services
broken = record services { field_result = field_error }

abbrev status_of : Option ExtractionJob → Bool
status_of none = false
status_of (some job) = same_status job.status review_required

created : (create_job "j1" request 1000 [] empty_database).0.jobs ≡ one_job.jobs
unfolding create_job
created = refl

-- Of two first requests that have both read no job, the second violates the unique key.
created_twice : (create_job "j2" request 1000 [] one_job).1 ≡ unexpected
unfolding create_job
created_twice = refl

abbrev after_failure : Database
unfolding run_all get
after_failure =
    run_all 3
      (claim "w1" 2000 ∷ finish "j1" (claimed "w1" 2000 (new_job request 1000)) broken 3000 ∷ [])
      one_job

-- The first attempt fails, the same request starts a second one, and that is reviewed.
reviewed :
    status_of (
      get "j1"
        (run_all 3
          (create "j2" "o1" "c1" "f1" "v1" "abc" 4000 after_failure.jobs
            ∷ claim "w1" 5000
            ∷ stage "j1"
            ∷ finish "j1" (claimed "w1" 2000 (new_job request 1000)) services 6000
            ∷ [])
          after_failure).jobs)
    ≡ true
unfolding run_all get
reviewed = refl

-- A stale job goes back from PROCESSING to PENDING, a step that the state machine does not have.
recovery_is_no_transition : can_transition_extraction_job_status processing pending ≡ false
unfolding can_transition_extraction_job_status
recovery_is_no_transition = refl

abbrev running : Database
running = record one_job { jobs = ("j1", claimed "w1" 2000 (new_job request 1000)) ∷ [] }

recovered :
    (recover_stale_extraction_jobs 15 1000000 running).0.jobs
    ≡ ("j1", back_to_pending (claimed "w1" 2000 (new_job request 1000))) ∷ []
unfolding recover_stale_extraction_jobs
recovered = refl

no_rows :
    (P : ExtractionJob → Type 0) (id : String) (row : ExtractionJob)
    → get id empty_database.jobs ≡ some row
    → P row
unfolding get
no_rows P id row e = absurd (none-ne-some e)

-- A worker that stops after its claim, whose job is recovered and claimed by another one, and that ends
-- late.
abbrev interleaved : List Operation
interleaved =
    create "j1" "o1" "c1" "f1" "v1" "abc" 1000 []
    ∷ claim "w1" 2000
    ∷ recover 15 1000000
    ∷ claim "w2" 1000001
    ∷ finish "j1" (claimed "w1" 2000 (new_job request 1000)) broken 1000002
    ∷ finish "j1" (claimed "w1" 2000 (new_job request 1000)) services 1000003
    ∷ apply "j1" 500 true 1000004
    ∷ []

interleaved-IsTimely : IsTimely 3 interleaved empty_database
unfolding run get
interleaved-IsTimely = (tt, (tt, (tt, (tt, (tt, (tt, (tt, tt)))))))

run_all-IsWellFormed_example : IsWellFormed (run_all 3 interleaved empty_database)
run_all-IsWellFormed_example =
    run_all-IsWellFormed 3 (omega arith) interleaved empty_database interleaved-IsTimely
      (tt, no_rows _)

-- A job with one attempt left has failed, and two requests have read it.
abbrev failed_row : ExtractionJob
failed_row = record (new_job request 1000) {
  status = failed;
  attempt = 2;
  error_code = some field_extraction_failed;
}

abbrev attempts_of : Option ExtractionJob → ℕ
attempts_of none = 0
attempts_of (some job) = job.attempt

abbrev second_request : Operation
second_request = create "j2" "o1" "c1" "f1" "v1" "abc" 1500 (("j1", failed_row) ∷ [])

-- The second request writes late, after the last attempt has failed too: there is one attempt too many.
late_retry :
    attempts_of (
      get "j1"
        (run_all 3
          (second_request
            ∷ claim "w1" 2000
            ∷ finish "j1" failed_row broken 3000
            ∷ second_request
            ∷ claim "w1" 4000
            ∷ [])
          (record empty_database { jobs = ("j1", failed_row) ∷ [] })).jobs)
    ≡ 4
unfolding run_all get
late_retry = refl

claim_next_pending_job-IsClaim_example : IsClaim "w1" 2000 one_job.jobs (running.jobs, some "j1")
unfolding claim_next_pending_job
claim_next_pending_job-IsClaim_example =
    claim_next_pending_job-IsClaim "w1" 2000 one_job.jobs (tt, tt)

process_next_extraction_job-IsTurn_example :
    IsTurn one_job (process_next_extraction_job "w1" services 2000 3000 one_job)
process_next_extraction_job-IsTurn_example =
    process_next_extraction_job-IsTurn "w1" services 2000 3000 one_job (tt, tt)

recover_stale_extraction_jobs-stale_example :
    let (after, counts) = recover_stale_extraction_jobs 15 1000000 running in
    ((id : String) (row : ExtractionJob)
      → get id after.jobs ≡ some row
      → is_stale_processing 15 1000000 row ≡ false)
    × ((id : String) (row : ExtractionJob)
        → get id running.jobs ≡ some row
        → is_stale_processing 15 1000000 row ≡ false
        → get id after.jobs ≡ some row)
    × (counts.scanned ≡ length (find_stale_processing_jobs 15 1000000 running.jobs))
    × (counts.recovered_to_pending + counts.failed_count ≡ counts.scanned)
recover_stale_extraction_jobs-stale_example =
    recover_stale_extraction_jobs-stale 15 1000000 running (tt, tt)
