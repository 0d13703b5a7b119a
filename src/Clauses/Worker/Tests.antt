-- ===== src/Clauses/Worker/Tests.antt =====
-- A worker's turns at a concrete database.
use senecial.Base.{ℕ, zero, suc, String, ◌≡◌, refl, Option, none, some, List, [], ◌∷◌, Dict, IsMap}
use senecial.Clauses.Segmenter.{segment}
use senecial.Clauses.Segmenter.Tests.{lease}
use senecial.Clauses.JobTable.{pending, ClauseSegmentationJob, ContractClause, Database}
use senecial.Clauses.StoredRows.{Services}
use senecial.Clauses.Worker.{process_next_clause_segmentation_job}
use senecial.Clauses.Worker.Turns.{IsTurn, process_next_clause_segmentation_job-IsTurn}

abbrev job : ClauseSegmentationJob
job = record {
  organization_id = "o";
  contract_id = "c";
  extracted_document_id = "d";
  input_checksum = "sum";
  status = pending;
  attempt = 0;
  max_attempts = 3;
  locked_at = none;
  locked_by = none;
  started_at = none;
  completed_at = none;
  failed_at = none;
  error_code = none;
  warnings = [];
  created_at = 1;
}

abbrev database : List ℕ → Database
database text = record {
  documents =
      (
        "d",
        record { organization_id = "o"; contract_id = "c"; text = text; content_checksum = "sum" },
      )
      ∷ [];
  jobs = ("j", job) ∷ [];
  sections = [];
  clauses = [];
  audit_logs = [];
}

abbrev uuid : ℕ → String
uuid zero = "s"
uuid (suc zero) = "c1"
uuid (suc (suc zero)) = "c2"
uuid (suc (suc (suc n))) = "c3"

abbrev services : Services
services = record {
  compute_checksum = λ text. "sum";
  segmenter = λ text. some (segment text);
  parse = λ result. some result;
  classify =
      λ clause. some (record { suggested_type = "TERM"; confidence = none; matched_signals = [] });
  normalize_clause_text = λ text. text;
  random_uuid = uuid;
}

abbrev parents_of : Dict ContractClause → List (String × Option String)
parents_of [] = []
parents_of ((id, row) ∷ rows) = (id, row.parent_clause_id) ∷ parents_of rows

abbrev parents : Option Database → List (String × Option String)
parents none = []
parents (some db) = parents_of db.clauses

lease_stored :
    parents (process_next_clause_segmentation_job services "w" 5 (database lease))
    ≡ ("c3", some "c2") ∷ ("c2", none) ∷ ("c1", none) ∷ []
unfolding process_next_clause_segmentation_job segment
lease_stored = refl

one_row : IsMap (database lease).jobs
one_row = (tt, tt)

process_next_clause_segmentation_job-IsTurn_example :
    (after : Database) × (process_next_clause_segmentation_job services "w" 5 (database lease)
      ≡ some after)
    × IsTurn services "w" 5 (database lease) after
process_next_clause_segmentation_job-IsTurn_example =
    process_next_clause_segmentation_job-IsTurn services "w" 5 (database lease) one_row
