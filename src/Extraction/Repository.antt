-- ===== src/Extraction/Repository.antt =====
-- src/server/repositories/extraction-job-repository.ts over the table of jobs. The columns that no
-- operation reads are left out: the creator, the provider, the message of an error and the warnings. Where rows are created at
-- one instant the first in the table is claimed, which the database leaves open.
use senecial.Base.{
  ℕ, ◌+◌, ◌*◌, String, Bool, false, Option, none, some, List, [], ◌∷◌, leb, str_eq, ◌&&◌,
  if◌then◌else◌, Dict, get, put,
}
use senecial.Extraction.Policies.{
  ExtractionJobStatus, pending, processing, ExtractionStage, file_text_extraction,
  ExtractionErrorCode, same_status,
}

pub record ExtractionJob : Type 0 where
  pub organization_id : String
  pub contract_id : String
  pub contract_file_id : String
  pub extractor_version : String
  pub input_checksum : String
  pub created_at : ℕ
  pub status : ExtractionJobStatus
  pub stage : Option ExtractionStage
  pub attempt : ℕ
  pub max_attempts : ℕ
  pub locked_at : Option ℕ
  pub locked_by : Option String
  pub started_at : Option ℕ
  pub completed_at : Option ℕ
  pub failed_at : Option ℕ
  pub error_code : Option ExtractionErrorCode
  pub contract_updated_at_snapshot : Option ℕ

abbrev pub Jobs : Type 0
Jobs = Dict ExtractionJob

pub record CreateExtractionJobData : Type 0 where
  pub organization_id : String
  pub contract_id : String
  pub contract_file_id : String
  pub extractor_version : String
  pub input_checksum : String
  pub max_attempts : ℕ

abbrev pub new_job : CreateExtractionJobData → ℕ → ExtractionJob
new_job data_of now = record {
  organization_id = data_of.organization_id;
  contract_id = data_of.contract_id;
  contract_file_id = data_of.contract_file_id;
  extractor_version = data_of.extractor_version;
  input_checksum = data_of.input_checksum;
  created_at = now;
  status = pending;
  stage = none;
  attempt = 0;
  max_attempts = data_of.max_attempts;
  locked_at = none;
  locked_by = none;
  started_at = none;
  completed_at = none;
  failed_at = none;
  error_code = none;
  contract_updated_at_snapshot = none;
}

-- `update({ where: { id }, data })`
unfoldable pub update_extraction_job : String → (ExtractionJob → ExtractionJob) → Jobs → Jobs
unfolding get put
update_extraction_job id change jobs = elim (get id jobs) [
  | none ↦ jobs
  | some job ↦ put id (change job) jobs
]

-- The unique key of a job, and the check of the organization after it.
abbrev pub has_key : String → String → String → ExtractionJob → Bool
has_key contract_file_id input_checksum extractor_version job =
    str_eq job.contract_file_id contract_file_id
    && str_eq job.input_checksum input_checksum
    && str_eq job.extractor_version extractor_version

unfoldable pub find_unique : String → String → String → Jobs → Option (String × ExtractionJob)
find_unique file checksum version [] = none
find_unique file checksum version ((id, job) ∷ jobs) =
    let rest = find_unique file checksum version jobs in
    if has_key file checksum version job then some (id, job) else rest

-- `create`, where `id` is the key that the database makes: `none` where it, or the unique key, is taken.
unfoldable pub create_extraction_job : String → CreateExtractionJobData → ℕ → Jobs → Option Jobs
unfolding find_unique get put
create_extraction_job id data_of now jobs =
    elim (find_unique data_of.contract_file_id data_of.input_checksum data_of.extractor_version
      jobs) [
        | some old ↦ none
        | none ↦ elim (get id jobs) [
          | some old ↦ none
          | none ↦ some (put id (new_job data_of now) jobs)
        ]
      ]

unfoldable pub find_extraction_job_by_dedup_key :
    String → String → String → String → Jobs → Option (String × ExtractionJob)
unfolding find_unique
find_extraction_job_by_dedup_key organization_id file checksum version jobs =
    elim (find_unique file checksum version jobs) [
      | none ↦ none
      | some (id, job) ↦ if str_eq job.organization_id organization_id then some (id, job) else none
    ]

abbrev pub is_pending : ExtractionJob → Bool
is_pending job = same_status job.status pending

-- `WHERE "status" = 'PENDING' ORDER BY "createdAt" ASC LIMIT 1`
unfoldable pub oldest_pending : Jobs → Option (String × ExtractionJob)
oldest_pending [] = none
oldest_pending ((id, job) ∷ jobs) =
    let rest = oldest_pending jobs in
    if is_pending job
    then elim rest [
      | none ↦ some (id, job)
      | some (other_id, other) ↦
          if leb job.created_at other.created_at then some (id, job) else some (other_id, other)
    ]
    else rest

abbrev pub claimed : String → ℕ → ExtractionJob → ExtractionJob
claimed worker_id now job = record job {
  status = processing;
  stage = some file_text_extraction;
  started_at = some now;
  attempt = job.attempt + 1;
  locked_at = some now;
  locked_by = some worker_id;
}

-- The claim, and the claimed job's key.
unfoldable pub claim_next_pending_job : String → ℕ → Jobs → Jobs × Option String
unfolding oldest_pending update_extraction_job
claim_next_pending_job worker_id now jobs = elim (oldest_pending jobs) [
  | none ↦ (jobs, none)
  | some (id, _) ↦ (update_extraction_job id (claimed worker_id now) jobs, some id)
]

abbrev pub back_to_pending : ExtractionJob → ExtractionJob
back_to_pending job = record job {
  status = pending;
  stage = none;
  error_code = none;
  failed_at = none;
  locked_at = none;
  locked_by = none;
}

unfoldable pub reset_extraction_job_to_pending : String → Jobs → Jobs
unfolding update_extraction_job
reset_extraction_job_to_pending id jobs = update_extraction_job id back_to_pending jobs

-- `lockedAt: { lte: staleBefore }` on the jobs in work, `staleBefore` being `now` less the threshold
abbrev pub is_stale_processing : ℕ → ℕ → ExtractionJob → Bool
is_stale_processing stale_minutes now job = elim job.locked_at [
  | none ↦ false
  | some locked_at ↦
      same_status job.status processing && leb (locked_at + stale_minutes * 60 * 1000) now
]

unfoldable pub find_stale_processing_jobs : ℕ → ℕ → Jobs → List (String × ExtractionJob)
find_stale_processing_jobs stale_minutes now [] = []
find_stale_processing_jobs stale_minutes now ((id, job) ∷ jobs) =
    let rest = find_stale_processing_jobs stale_minutes now jobs in
    if is_stale_processing stale_minutes now job then (id, job) ∷ rest else rest
