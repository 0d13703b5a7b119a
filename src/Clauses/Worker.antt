-- ===== src/Clauses/Worker.antt =====
-- src/features/clauses/server/process-clause-segmentation-job.ts: the guards are `judge`, and the
-- transaction is `store`. `none` is a check for cycles that ran out of fuel. The audit log keeps the job and
-- the action; the embedding jobs that are enqueued at the end are left out.
pub mod Rows
pub mod Verdicts
pub mod Endings
pub mod Turns
pub mod Tests
use mathlib.Core.Option
use senecial.Base.{
  ℕ, zero, suc, ◌+◌, String, Bool, true, false, Option, none, some, List, [], ◌∷◌, ◌++◌, ◌==◌, ◌||◌,
  ◌&&◌, not, str_eq, length, if◌then◌else◌, Dict, get, put,
}
use senecial.Base.Tables.{update_row, first_by}
use senecial.Clauses.StoredRows.{Services, rows_of}
use senecial.Clauses.JobTable.{
  ClauseSegmentationJobStatus, ClauseSegmentationJob, ExtractedDocument, ContractSection,
  is_pending, claimed, claim_next_pending_clause_segmentation_job, find_extracted_document_by_id,
  Classification, ContractClause, clause_segmentation_failed, clause_segmentation_review_required,
  Database, as_failed, as_review_required, section_key, clause_key, create_many,
}
use senecial.Clauses.Segmenter.{
  SegmentedSection, SegmentedClause, SegmentationWarning, ClauseSegmentationResult,
}
use senecial.Clauses.Checks.{
  SegmentationErrorCode, extracted_document_not_found, document_checksum_mismatch,
  segmentation_failed, invalid_segmentation_result, classification_failed, check_result,
}

unfoldable pub fail_job : String → SegmentationErrorCode → ℕ → Database → Database
unfolding update_row
fail_job id code now db = record db {
  jobs = update_row id (as_failed code now) db.jobs;
  audit_logs = db.audit_logs ++ (id, clause_segmentation_failed) ∷ [];
}

unfoldable pub classify_all :
    (SegmentedClause → Option Classification)
    → List SegmentedClause
    → Option (List (ℕ × Classification))
classify_all classify [] = some []
classify_all classify (clause ∷ clauses) =
    let rest = classify_all classify clauses in
    elim (classify clause) [
      | none ↦ none
      | some classification ↦
          Option.map (λ entries. (clause.order_index, classification) ∷ entries) rest
    ]

pub data Verdict : Type 0 where
  rejected : SegmentationErrorCode → Verdict
  accepted : ClauseSegmentationResult → List (ℕ × Classification) → Verdict

-- The guards before the transaction, each of which fails the job.
abbrev pub judge_result : Services → List ℕ → ClauseSegmentationResult → Option Verdict
unfolding check_result classify_all
judge_result services text result = elim (check_result text result) [
  | none ↦ none
  | some (some code) ↦ some (rejected code)
  | some none ↦ elim (classify_all services.classify result.clauses) [
    | none ↦ some (rejected classification_failed)
    | some entries ↦ some (accepted result entries)
  ]
]

abbrev pub judge_text : Services → List ℕ → Option Verdict
unfolding judge_result
judge_text services text = elim (services.segmenter text) [
  | none ↦ some (rejected segmentation_failed)
  | some raw_result ↦ elim (services.parse raw_result) [
    | none ↦ some (rejected invalid_segmentation_result)
    | some result ↦ judge_result services text result
  ]
]

abbrev pub judge_document : Services → ClauseSegmentationJob → ExtractedDocument → Option Verdict
unfolding judge_text
judge_document services job document =
    let actual_checksum = services.compute_checksum document.text in
    if not (str_eq actual_checksum document.content_checksum)
      || not (str_eq actual_checksum job.input_checksum)
    then some (rejected document_checksum_mismatch)
    else judge_text services document.text

unfoldable pub judge : Services → ClauseSegmentationJob → Database → Option Verdict
unfolding find_extracted_document_by_id judge_document
judge services job db =
    elim (find_extracted_document_by_id job.organization_id job.contract_id
      job.extracted_document_id db.documents) [
        | none ↦ some (rejected extracted_document_not_found)
        | some document ↦ judge_document services job document
      ]

-- The transaction: `none` where it is rolled back and the exception leaves the worker.
unfoldable pub store :
    Services
    → String
    → ClauseSegmentationResult
    → List (ℕ × Classification)
    → ℕ
    → Database
    → Option Database
unfolding rows_of create_many update_row
store services id result entries now db =
    let (new_sections, new_clauses) = rows_of services id result entries in
    elim (create_many section_key new_sections db.sections) [
      | none ↦ none
      | some sections ↦
          Option.map
            (λ clauses. record db {
              sections = sections;
              clauses = clauses;
              jobs = update_row id (as_review_required result.warnings now) db.jobs;
              audit_logs = db.audit_logs ++ (id, clause_segmentation_review_required) ∷ [];
            })
            (create_many clause_key new_clauses db.clauses)
    ]

abbrev pub keep_or : Database → Option Database → Database
keep_or db none = db
keep_or db (some stored) = stored

unfoldable pub run_claimed_job :
    Services → String → ClauseSegmentationJob → ℕ → Database → Option Database
unfolding judge store fail_job
run_claimed_job services id job now db = elim (judge services job db) [
  | none ↦ none
  | some (rejected code) ↦ some (fail_job id code now db)
  | some (accepted result entries) ↦ some (keep_or db (store services id result entries now db))
]

abbrev pub run_next :
    Services
    → ℕ
    → Database
    → Dict ClauseSegmentationJob × Option (String × ClauseSegmentationJob)
    → Option Database
unfolding run_claimed_job
run_next services now db (jobs, none) = some db
run_next services now db (jobs, some (id, job)) =
    run_claimed_job services id job now (record db { jobs = jobs })

unfoldable pub process_next_clause_segmentation_job :
    Services → String → ℕ → Database → Option Database
unfolding claim_next_pending_clause_segmentation_job run_next
process_next_clause_segmentation_job services worker_id now db =
    run_next services now db (claim_next_pending_clause_segmentation_job worker_id now db.jobs)
