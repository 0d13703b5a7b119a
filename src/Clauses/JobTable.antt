-- ===== src/Clauses/JobTable.antt =====
-- What the worker of src/features/clauses/server/process-clause-segmentation-job.ts uses of
-- src/server/repositories/clause-segmentation-job-repository.ts, extracted-document-repository.ts,
-- contract-section-repository.ts and contract-clause-repository.ts beside it, over the tables that it reads
-- and writes. Columns that no operation of it reads and that repeat those of the job are left out, and so
-- are the messages.
use senecial.Base.{
  ℕ, ◌+◌, String, Bool, true, false, Option, none, some, List, [], ◌∷◌, ◌&&◌, ◌||◌, ◌==◌, str_eq,
  if◌then◌else◌, Dict, get,
}
use senecial.Base.Tables.{update_row, first_by}
use senecial.Clauses.Segmenter.{SegmentationWarning}
use senecial.Clauses.Checks.{SegmentationErrorCode}

pub data ClauseSegmentationJobStatus : Type 0 where
  pending processing review_required completed failed cancelled : ClauseSegmentationJobStatus

pub record ClauseSegmentationJob : Type 0 where
  pub organization_id : String
  pub contract_id : String
  pub extracted_document_id : String
  pub input_checksum : String
  pub status : ClauseSegmentationJobStatus
  pub attempt : ℕ
  pub max_attempts : ℕ
  pub locked_at : Option ℕ
  pub locked_by : Option String
  pub started_at : Option ℕ
  pub completed_at : Option ℕ
  pub failed_at : Option ℕ
  pub error_code : Option SegmentationErrorCode
  pub warnings : List SegmentationWarning
  pub created_at : ℕ

pub record ExtractedDocument : Type 0 where
  pub organization_id : String
  pub contract_id : String
  pub text : List ℕ
  pub content_checksum : String

pub record ContractSection : Type 0 where
  pub segmentation_job_id : String
  pub title : Option (List ℕ)
  pub section_type : Option (List ℕ)
  pub text : List ℕ
  pub order_index : ℕ
  pub start_offset : ℕ
  pub end_offset : ℕ

abbrev pub is_pending : ClauseSegmentationJob → Bool
is_pending job = elim job.status [ pending ↦ true | _ ↦ false ]

abbrev pub claimed : String → ℕ → ClauseSegmentationJob → ClauseSegmentationJob
claimed worker_id now job = record job {
  status = processing;
  started_at = some now;
  attempt = job.attempt + 1;
  locked_at = some now;
  locked_by = some worker_id;
}

unfoldable pub claim_next_pending_clause_segmentation_job :
    String
    → ℕ
    → Dict ClauseSegmentationJob
    → Dict ClauseSegmentationJob × Option (String × ClauseSegmentationJob)
unfolding first_by update_row
claim_next_pending_clause_segmentation_job worker_id now jobs =
    elim (first_by is_pending (λ job. job.created_at) jobs) [
      | none ↦ (jobs, none)
      | some (id, job) ↦
          (update_row id (claimed worker_id now) jobs, some (id, claimed worker_id now job))
    ]

unfoldable pub find_extracted_document_by_id :
    String → String → String → Dict ExtractedDocument → Option ExtractedDocument
unfolding get
find_extracted_document_by_id organization_id contract_id id documents = elim (get id documents) [
  | none ↦ none
  | some document ↦
      if str_eq document.organization_id organization_id && str_eq document.contract_id contract_id
      then some document
      else none
]

-- What the classifier answers, the confidence as its text.
pub record Classification : Type 0 where
  pub suggested_type : String
  pub confidence : Option String
  pub matched_signals : List String

pub record ContractClause : Type 0 where
  pub segmentation_job_id : String
  pub section_id : Option String
  pub parent_clause_id : Option String
  pub clause_number : Option (List ℕ)
  pub title : Option (List ℕ)
  pub text : List ℕ
  pub normalized_text : List ℕ
  pub order_index : ℕ
  pub depth : ℕ
  pub start_offset : ℕ
  pub end_offset : ℕ
  pub classification : Option Classification

pub data AuditAction : Type 0 where
  clause_segmentation_failed clause_segmentation_review_required : AuditAction

pub record Database : Type 0 where
  pub documents : Dict ExtractedDocument
  pub jobs : Dict ClauseSegmentationJob
  pub sections : Dict ContractSection
  pub clauses : Dict ContractClause
  pub audit_logs : List (String × AuditAction)

abbrev pub as_failed : SegmentationErrorCode → ℕ → ClauseSegmentationJob → ClauseSegmentationJob
as_failed code now job = record job {
  status = failed;
  failed_at = some now;
  error_code = some code;
  locked_at = none;
  locked_by = none;
}

abbrev pub as_review_required :
    List SegmentationWarning → ℕ → ClauseSegmentationJob → ClauseSegmentationJob
as_review_required warnings now job = record job {
  status = review_required;
  completed_at = some now;
  warnings = warnings;
  locked_at = none;
  locked_by = none;
}

-- `@@unique([segmentationJobId, orderIndex])`
abbrev pub section_key : ContractSection → String × ℕ
section_key section = (section.segmentation_job_id, section.order_index)

abbrev pub clause_key : ContractClause → String × ℕ
clause_key clause = (clause.segmentation_job_id, clause.order_index)

module _ {A : Type 0} (key : A → String × ℕ) where
  unfoldable pub is_key_taken : A → Dict A → Bool
  is_key_taken row [] = false
  is_key_taken row ((id, old) ∷ rows) =
      str_eq (key old).0 (key row).0 && (key old).1 == (key row).1 || is_key_taken row rows

  -- `createMany`, which fails where an id or a key is taken.
  unfoldable pub create_many : List (String × A) → Dict A → Option (Dict A)
  unfolding get is_key_taken
  create_many [] rows = some rows
  create_many ((id, row) ∷ new) rows =
      let rest = create_many new ((id, row) ∷ rows) in
      elim (get id rows) [ some old ↦ none | none ↦ if is_key_taken row rows then none else rest ]
