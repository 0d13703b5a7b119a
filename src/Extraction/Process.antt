-- ===== src/Extraction/Process.antt =====
-- src/features/extraction/server/process-extraction-job.ts over the tables it writes. What the contract's
-- and the file's rows, the storage, the text extractor and the field extractor answer is the argument
-- `services`; the chunks that are made after the transaction belong to another table.
use senecial.Base.{
  ℕ, String, Bool, Option, none, some, List, [], ◌∷◌, ◌++◌, get, str_eq, if◌then◌else◌,
}
use senecial.Extraction.Policies.{
  failed, review_required, contract_field_extraction, ready_for_review, ExtractionErrorCode,
  file_not_found, checksum_mismatch, unsupported_format, ocr_required, text_extraction_failed,
  field_extraction_failed, invalid_provider_response,
}
use senecial.Extraction.Repository.{
  ExtractionJob, Jobs, update_extraction_job, claim_next_pending_job,
}

pub data AuditAction : Type 0 where
  extraction_job_created extraction_retry_requested extraction_job_failed : AuditAction
  extraction_review_required extraction_applied : AuditAction

pub record Document : Type 0 where
  pub extraction_job_id : String
  pub text : String

pub record Suggestion : Type 0 where
  pub extraction_job_id : String
  pub field_key : String

pub record Database : Type 0 where
  pub jobs : Jobs
  pub documents : List Document
  pub suggestions : List Suggestion
  pub audit_logs : List (String × AuditAction)

pub data TextResult : Type 0 where
  extracted : String → TextResult
  needs_ocr unsupported text_error : TextResult

-- A field, and whether its value is a valid one.
pub data FieldResult : Type 0 where
  validated : List (String × Bool) → FieldResult
  invalid_response field_error : FieldResult

pub record Services : Type 0 where
  pub contract_updated_at : Option ℕ
  pub file_found : Bool
  pub checksum : Option String
  pub text : TextResult
  pub field_result : FieldResult

abbrev pub log_action : String → AuditAction → Database → Database
log_action id action db = record db { audit_logs = db.audit_logs ++ (id, action) ∷ [] }

abbrev pub mark_failed : ExtractionErrorCode → ℕ → ExtractionJob → ExtractionJob
mark_failed code now job = record job {
  status = failed;
  failed_at = some now;
  error_code = some code;
  locked_at = none;
  locked_by = none;
}

unfoldable pub fail_job : String → ExtractionErrorCode → ℕ → Database → Database
unfolding update_extraction_job
fail_job id code now db =
    log_action id extraction_job_failed
      (record db { jobs = update_extraction_job id (mark_failed code now) db.jobs })

unfoldable pub delete_suggestions_by_job_id : String → List Suggestion → List Suggestion
delete_suggestions_by_job_id id [] = []
delete_suggestions_by_job_id id (s ∷ suggestions) =
    let rest = delete_suggestions_by_job_id id suggestions in
    if str_eq s.extraction_job_id id then rest else s ∷ rest

-- The document of a job is unique, and deleted where there is one.
unfoldable pub delete_document : String → List Document → List Document
delete_document id [] = []
delete_document id (d ∷ documents) =
    let rest = delete_document id documents in
    if str_eq d.extraction_job_id id then rest else d ∷ rest

unfoldable pub suggestion_rows : String → List (String × Bool) → List Suggestion
suggestion_rows id [] = []
suggestion_rows id ((key, is_valid) ∷ fields) =
    let rest = suggestion_rows id fields in
    if is_valid then record { extraction_job_id = id; field_key = key } ∷ rest else rest

abbrev pub mark_ready : ℕ → ℕ → ExtractionJob → ExtractionJob
mark_ready contract_updated_at now job = record job {
  status = review_required;
  stage = some ready_for_review;
  completed_at = some now;
  contract_updated_at_snapshot = some contract_updated_at;
  locked_at = none;
  locked_by = none;
}

-- The transaction that saves what was extracted.
unfoldable pub save_extraction :
    String → ℕ → String → List (String × Bool) → ℕ → Database → Database
unfolding update_extraction_job delete_suggestions_by_job_id delete_document suggestion_rows
save_extraction id contract_updated_at text fields now db =
    log_action id extraction_review_required (record db {
      jobs = update_extraction_job id (mark_ready contract_updated_at now) db.jobs;
      documents =
          delete_document id db.documents ++ record { extraction_job_id = id; text = text } ∷ [];
      suggestions = delete_suggestions_by_job_id id db.suggestions ++ suggestion_rows id fields;
    })

abbrev pub set_stage : ExtractionJob → ExtractionJob
set_stage job = record job { stage = some contract_field_extraction }

unfoldable pub save_fields : String → ℕ → String → FieldResult → ℕ → Database → Database
unfolding fail_job save_extraction
save_fields id contract_updated_at text field_error now db =
    fail_job id field_extraction_failed now db
save_fields id contract_updated_at text invalid_response now db =
    fail_job id invalid_provider_response now db
save_fields id contract_updated_at text (validated list) now db =
    save_extraction id contract_updated_at text list now db

unfoldable pub run_text : String → ℕ → TextResult → FieldResult → ℕ → Database → Database
unfolding fail_job save_fields update_extraction_job
run_text id contract_updated_at needs_ocr answer now db = fail_job id ocr_required now db
run_text id contract_updated_at unsupported answer now db = fail_job id unsupported_format now db
run_text id contract_updated_at text_error answer now db = fail_job id text_extraction_failed now db
run_text id contract_updated_at (extracted text) answer now db =
    save_fields id contract_updated_at text answer now
      (record db { jobs = update_extraction_job id set_stage db.jobs })

unfoldable pub run_claimed_job : String → ExtractionJob → Services → ℕ → Database → Database
unfolding fail_job run_text
run_claimed_job id job services now db = elim services.contract_updated_at [
  | none ↦ fail_job id file_not_found now db
  | some contract_updated_at ↦
      if services.file_found
      then elim services.checksum [
        | none ↦ fail_job id file_not_found now db
        | some actual_checksum ↦
            if str_eq actual_checksum job.input_checksum
            then run_text id contract_updated_at services.text services.field_result now db
            else fail_job id checksum_mismatch now db
      ]
      else fail_job id file_not_found now db
]

-- `claimed_at` and `now` are when the job is claimed and when it ends, where no other step comes between;
-- Runs has the claim and the later writes as steps of their own. The answer is the job's key.
unfoldable pub process_next_extraction_job :
    String → Services → ℕ → ℕ → Database → Database × Option String
unfolding claim_next_pending_job run_claimed_job get
process_next_extraction_job worker_id services claimed_at now db =
    let (jobs, claimed) = claim_next_pending_job worker_id claimed_at db.jobs in
    let after_claim = record db { jobs = jobs } in
    elim claimed [
      | none ↦ (after_claim, none)
      | some id ↦ elim (get id jobs) [
        | none ↦ (after_claim, none)
        | some job ↦ (run_claimed_job id job services now after_claim, some id)
      ]
    ]
