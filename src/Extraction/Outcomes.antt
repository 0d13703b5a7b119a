-- ===== src/Extraction/Outcomes.antt =====
-- How the run of a claimed job can end.
use mathlib.Core.Path.{subst}
use senecial.Base.{
  ℕ, ◌+◌, ◌≢◌, String, Bool, true, false, ◌≡◌, refl, ◌∙◌, ◌⊎◌, Option, none, some, List, get, IsMap,
  str_eq, eq_iff, eq_refl, arith, Bool-cases, Option-cases, inl, inr,
}
use senecial.Extraction.{
  failed, review_required, ExtractionErrorCode, ExtractionJob, Jobs, update_extraction_job,
  claim_next_pending_job, claimed, is_pending,
}
use senecial.Extraction.Process.{
  Services, TextResult, needs_ocr, unsupported, text_error, extracted, FieldResult, validated,
  invalid_response, field_error, Database, fail_job, set_stage, save_extraction, save_fields,
  run_text, run_claimed_job, process_next_extraction_job, mark_failed, mark_ready,
}
use senecial.Extraction.Table.{Every, get-update_extraction_job}
use senecial.Extraction.Claims.{Takes, claim_next_pending_job-Takes}

abbrev pub staged : String → Database → Database
staged id db = record db { jobs = update_extraction_job id set_stage db.jobs }

module _ (P : Database → Type 0) (id : String) (now : ℕ) (db : Database)
    (failing : (code : ExtractionErrorCode) → P (fail_job id code now db))
    (failing_late : (code : ExtractionErrorCode) → P (fail_job id code now (staged id db)))
    (saving : (updated : ℕ) (text : String) (list : List (String × Bool))
      → P (save_extraction id updated text list now (staged id db))) where
  run_text-cases :
      (updated : ℕ) (text : TextResult) (answer : FieldResult)
      → P (run_text id updated text answer now db)
  unfolding run_text save_fields
  run_text-cases updated needs_ocr answer = failing _
  run_text-cases updated unsupported answer = failing _
  run_text-cases updated text_error answer = failing _
  run_text-cases updated (extracted text) field_error = failing_late _
  run_text-cases updated (extracted text) invalid_response = failing_late _
  run_text-cases updated (extracted text) (validated list) = saving updated text list

  -- Every run fails the job, at once or after its text was read, or saves what it extracted.
  pub run_claimed_job-cases :
      (job : ExtractionJob) (services : Services) → P (run_claimed_job id job services now db)
  unfolding run_claimed_job
  run_claimed_job-cases job services = elim (Option-cases services.contract_updated_at) [
    | inl e ↦ rw (e, run_claimed_job) (failing _)
    | inr (updated, e) ↦ elim (Bool-cases services.file_found) [
      | inr missing ↦ rw (e, missing, run_claimed_job) (failing _)
      | inl found ↦ elim (Option-cases services.checksum) [
        | inl unreadable ↦ rw (e, found, unreadable, run_claimed_job) (failing _)
        | inr (checksum, readable) ↦ elim (Bool-cases (str_eq checksum job.input_checksum)) [
          | inl equal ↦
              rw (e, found, readable, equal, run_claimed_job)
                (run_text-cases updated services.text services.field_result)
          | inr changed ↦ rw (e, found, readable, changed, run_claimed_job) (failing _)
        ]
      ]
    ]
  ]

abbrev pub IsOver : ExtractionJob → Type 0
IsOver row = ((row.status ≡ failed) ⊎ (row.status ≡ review_required)) × (row.locked_at ≡ none)

-- The job `id`, which was in its row `before`, is over after that one attempt, and no other job changed.
abbrev pub Ended : String → ExtractionJob → Jobs → Jobs → Type 0
Ended id before jobs after =
    ((row : ExtractionJob) × (get id after ≡ some row)
      × IsOver row
      × (row.attempt ≡ before.attempt))
    × ((other : String) → id ≢ other → get other after ≡ get other jobs)

update-Ended :
    (id : String) (before : ExtractionJob) (jobs : Jobs) (change : ExtractionJob → ExtractionJob)
    → get id jobs ≡ some before
    → IsOver (change before)
    → (change before).attempt ≡ before.attempt
    → Ended id before jobs (update_extraction_job id change jobs)
update-Ended id before jobs change there over kept = (
  (change before, rw (get-update_extraction_job, eq_refl id, there) refl, over, kept),
  λ other differs. ground (arith, eq_iff id other, get-update_extraction_job id other change jobs),
)

late-Ended :
    (id : String) (before : ExtractionJob) (jobs : Jobs) (change : ExtractionJob → ExtractionJob)
    → get id jobs ≡ some before
    → IsOver (change (set_stage before))
    → (change (set_stage before)).attempt ≡ before.attempt
    → Ended id before jobs
        (update_extraction_job id change (update_extraction_job id set_stage jobs))
late-Ended id before jobs change there over kept =
    let staged_row : get id (update_extraction_job id set_stage jobs) ≡ some (set_stage before) =
      rw (get-update_extraction_job, eq_refl id, there) refl in
    (
      (
        change (set_stage before),
        rw (get-update_extraction_job, eq_refl id, staged_row) refl,
        over,
        kept,
      ),
      λ other differs. ground (
        arith,
        eq_iff id other,
        get-update_extraction_job id other change (update_extraction_job id set_stage jobs),
        get-update_extraction_job id other set_stage jobs,
      ),
    )

run_claimed_job-Ended :
    (id : String) (job : ExtractionJob) (services : Services) (now : ℕ) (db : Database)
    → get id db.jobs ≡ some job
    → Ended id job db.jobs (run_claimed_job id job services now db).jobs
run_claimed_job-Ended id job services now db there =
    run_claimed_job-cases (λ after. Ended id job db.jobs after.jobs) id now db
      (λ code.
        unfold fail_job in
        update-Ended id job db.jobs (mark_failed code now) there (inl refl, refl) refl)
      (λ code.
        unfold fail_job in
        late-Ended id job db.jobs (mark_failed code now) there (inl refl, refl) refl)
      (λ updated text list.
        unfold save_extraction in
        late-Ended id job db.jobs (mark_ready updated now) there (inr refl, refl) refl)
      job services

-- What a worker's turn does, by its answer.
abbrev pub IsTurn : Database → Database × Option String → Type 0
IsTurn db (after, none) = (after.jobs ≡ db.jobs) × Every (λ job. is_pending job ≡ false) db.jobs
IsTurn db (after, some id) =
    (before : ExtractionJob) × (get id db.jobs ≡ some before)
    × (is_pending before ≡ true)
    × ((row : ExtractionJob) × (get id after.jobs ≡ some row)
        × IsOver row
        × (row.attempt ≡ before.attempt + 1))
    × ((other : String) → id ≢ other → get other after.jobs ≡ get other db.jobs)

-- In a table with one row for a key, and whatever the services answer, a worker's turn brings one
-- pending job to FAILED or REVIEW_REQUIRED, unlocked and with one more attempt, and changes no other; or
-- there is no pending job, and it changes none.
pub process_next_extraction_job-IsTurn :
    (worker_id : String) (services : Services) (claimed_at now : ℕ) (db : Database)
    → IsMap db.jobs
    → IsTurn db (process_next_extraction_job worker_id services claimed_at now db)
unfolding process_next_extraction_job
process_next_extraction_job-IsTurn worker_id services claimed_at now db h =
    let (jobs, answer) = claim_next_pending_job worker_id claimed_at db.jobs in
    let by_answer : (a : Option String)
        → answer ≡ a
        → Takes worker_id claimed_at db.jobs (jobs, a) =
      λ b e.
        subst (λ a. Takes worker_id claimed_at db.jobs (jobs, a)) e
          (claim_next_pending_job-Takes worker_id claimed_at db.jobs h) in
    elim (Option-cases answer) [
      | inl e ↦ rw (e, process_next_extraction_job) (by_answer none e)
      | inr (id, e) ↦
          let (before, there, waits, first, here, others) = by_answer (some id) e in
          let ended =
            run_claimed_job-Ended id (claimed worker_id claimed_at before) services now
              (record db { jobs = jobs }) here in
          let ((row, found, over, kept), same) = ended in
          rw (e, here, process_next_extraction_job)
            (
              before,
              there,
              waits,
              (row, found, over, kept),
              λ other differs. same other differs ∙ others other differs,
            )
    ]
