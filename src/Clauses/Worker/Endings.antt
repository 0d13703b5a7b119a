-- ===== src/Clauses/Worker/Endings.antt =====
-- How the work of a worker on a claimed job ends.
use senecial.Base.{
  ℕ, ◌+◌, String, ◌≡◌, ◌≢◌, ◌⊎◌, refl, ◌∙◌, Option, none, some, List, [], ◌∷◌, ◌++◌, Dict, get,
  length, Option-cases, inl, inr,
}
use senecial.Base.Tables.{update_row, get-update_row_here, get-update_row_other}
use senecial.Clauses.Segmenter.{ClauseSegmentationResult}
use senecial.Clauses.Checks.{SegmentationErrorCode}
use senecial.Clauses.Checks.Passed.{check_result-passed}
use senecial.Clauses.JobTable.{
  processing, review_required, failed, ClauseSegmentationJob, ExtractedDocument, ContractSection,
  ContractClause, Classification, claimed, clause_segmentation_review_required, Database, as_failed,
  as_review_required, section_key, clause_key, create_many,
}
use senecial.Clauses.StoredRows.{Services, section_ids, default_section_id, rows_of}
use senecial.Clauses.Worker.{
  Verdict, rejected, accepted, judge, fail_job, store, keep_or, run_claimed_job,
}
use senecial.Clauses.Worker.Verdicts.{Rejects, Accepts, Judged, judge-Judged}
use senecial.Clauses.Worker.Rows.{
  AreSections, AreFaithful, section_rows-AreSections, clause_rows-AreFaithful,
}

-- How the work on a claimed job ends, by the row of the job.
module _ (services : Services) (worker_id id : String) (job : ClauseSegmentationJob) (now : ℕ)
    (db after : Database) (row : ClauseSegmentationJob) where
  abbrev KeepsRows : Type 0
  KeepsRows = (after.sections ≡ db.sections) × (after.clauses ≡ db.clauses)

  -- A guard refuses the job with the code that the row has, and nothing is stored.
  abbrev pub IsFailed : Type 0
  IsFailed =
      (code : SegmentationErrorCode) × Rejects services job db code
      × (row.status ≡ failed)
      × (row.failed_at ≡ some now)
      × (row.error_code ≡ some code)
      × (row.locked_at ≡ none)
      × (row.locked_by ≡ none)
      × KeepsRows

  -- The rows of the segmenter's answer to the text of the job's document.
  abbrev pub AreRows :
      ExtractedDocument
      → ClauseSegmentationResult
      → List (String × ContractSection)
      → List (String × ContractClause)
      → Type 0
  AreRows document result sections rows =
      Accepts services job db document result
      × AreSections id result.sections sections
      × AreFaithful services id document.text rows result.clauses rows

  -- An id or a key of the new rows is taken, and the job stays as it was claimed.
  abbrev pub IsRolledBack : Type 0
  IsRolledBack =
      (document : ExtractedDocument) × (result : ClauseSegmentationResult) × (sections : List
        (String × ContractSection))
      × (rows : List (String × ContractClause)) × AreRows document result sections rows
      × ((create_many section_key sections db.sections ≡ none)
          ⊎ (create_many clause_key rows db.clauses ≡ none))
      × (row.status ≡ processing)
      × (row.locked_at ≡ some now)
      × (row.locked_by ≡ some worker_id)
      × KeepsRows

  abbrev pub IsStored : Type 0
  IsStored =
      (document : ExtractedDocument) × (result : ClauseSegmentationResult) × (sections : List
        (String × ContractSection))
      × (rows : List (String × ContractClause)) × AreRows document result sections rows
      × (create_many section_key sections db.sections ≡ some after.sections)
      × (create_many clause_key rows db.clauses ≡ some after.clauses)
      × (row.status ≡ review_required)
      × (row.completed_at ≡ some now)
      × (row.warnings ≡ result.warnings)
      × (row.locked_at ≡ none)
      × (row.locked_by ≡ none)

  abbrev pub IsEnding : Type 0
  IsEnding =
      (get id after.jobs ≡ some row)
      × (row.attempt ≡ job.attempt + 1)
      × ((other : String) → id ≢ other → get other after.jobs ≡ get other db.jobs)
      × (IsFailed ⊎ IsRolledBack ⊎ IsStored)

store-cases :
    (P : Database → Type 0) (services : Services) (id : String) (result : ClauseSegmentationResult)
    (entries : List (ℕ × Classification)) (now : ℕ) (db : Database)
    → ((create_many section_key (rows_of services id result entries).0 db.sections ≡ none)
          ⊎ (create_many clause_key (rows_of services id result entries).1 db.clauses ≡ none)
        → P db)
    → ((sections : Dict ContractSection) (clauses : Dict ContractClause)
        → create_many section_key (rows_of services id result entries).0 db.sections ≡ some sections
        → create_many clause_key (rows_of services id result entries).1 db.clauses ≡ some clauses
        → P (record db {
          sections = sections;
          clauses = clauses;
          jobs = update_row id (as_review_required result.warnings now) db.jobs;
          audit_logs = db.audit_logs ++ (id, clause_segmentation_review_required) ∷ [];
        }))
    → P (keep_or db (store services id result entries now db))
unfolding store
store-cases P services id result entries now db rolled_back stored =
    elim (Option-cases
      (create_many section_key (rows_of services id result entries).0 db.sections)) [
        | inl taken ↦ rw (taken, store) (rolled_back (inl taken))
        | inr (sections, e) ↦
            elim (Option-cases
              (create_many clause_key (rows_of services id result entries).1 db.clauses)) [
                | inl taken ↦ rw (e, taken, store) (rolled_back (inr taken))
                | inr (clauses, e') ↦ rw (e, e', store) (stored sections clauses e e')
              ]
      ]

abbrev pub claim : String → String → ℕ → Database → Database
unfolding update_row
claim worker_id id now db = record db { jobs = update_row id (claimed worker_id now) db.jobs }

-- The row of a claimed job after one more update, and the other rows.
twice_updated :
    (id : String) (first second : ClauseSegmentationJob → ClauseSegmentationJob)
    (jobs : Dict ClauseSegmentationJob) (job : ClauseSegmentationJob)
    → get id jobs ≡ some job
    → let after = update_row id second (update_row id first jobs) in
      (get id after ≡ some (second (first job)))
      × ((other : String) → id ≢ other → get other after ≡ get other jobs)
twice_updated id first second jobs job e = (
  get-update_row_here id second (update_row id first jobs) (first job)
      (get-update_row_here id first jobs job e),
  λ other ne.
      get-update_row_other id other second (update_row id first jobs) ne
      ∙ get-update_row_other id other first jobs ne,
)

abbrev Ends : Services → String → String → ClauseSegmentationJob → ℕ → Database → Database → Type 0
Ends services worker_id id job now db after =
    (row : ClauseSegmentationJob) × IsEnding services worker_id id job now db after row

pub run_claimed_job-IsEnding :
    (services : Services) (worker_id id : String) (job : ClauseSegmentationJob) (now : ℕ)
    (db : Database)
    → get id db.jobs ≡ some job
    → (after : Database) × (row : ClauseSegmentationJob) × (run_claimed_job services id
          (claimed worker_id now job)
          now
          (claim worker_id id now db)
        ≡ some after)
      × IsEnding services worker_id id job now db after row
unfolding run_claimed_job fail_job rows_of claim
run_claimed_job-IsEnding services worker_id id job now db there =
    go (judge services (claimed worker_id now job) (claim worker_id id now db)) refl
      (judge-Judged services (claimed worker_id now job) (claim worker_id id now db))
  where
    go :
        (verdict : Option Verdict)
        → judge services (claimed worker_id now job) (claim worker_id id now db) ≡ verdict
        → Judged services (claim worker_id id now db) (claimed worker_id now job) verdict
        → (after : Database) × (row : ClauseSegmentationJob) × (run_claimed_job services id
              (claimed worker_id now job)
              now
              (claim worker_id id now db)
            ≡ some after)
          × IsEnding services worker_id id job now db after row
    go none e h = absurd h
    go (some (rejected code)) e h =
        let (here, others) =
          twice_updated id (claimed worker_id now) (as_failed code now) db.jobs job there in
        (
          fail_job id code now (claim worker_id id now db),
          as_failed code now (claimed worker_id now job),
          rw (e, run_claimed_job) refl,
          (here, refl, others, inl (code, h, refl, refl, refl, refl, refl, (refl, refl))),
        )
    go (some (accepted result entries)) e (document, h) =
        let (found, sums, answer) = h in
        let (raw, answered, parsed, passed) = answer in
        let (offsets, parents) = check_result-passed document.text result passed in
        let ids = section_ids services.random_uuid 0 result.sections in
        let (sections, rows) = rows_of services id result entries in
        let ready : AreRows services worker_id id job now db db job document result sections rows =
          (
            h,
            section_rows-AreSections id ids result.sections,
            clause_rows-AreFaithful services id (default_section_id ids result.sections)
                (length result.sections) result.clauses entries document.text result.clauses offsets
                parents,
          ) in
        let (row, ending) : (Ends services worker_id id job now db) (
            keep_or (claim worker_id id now db)
              (store services id result entries now (claim worker_id id now db))) =
          store-cases (Ends services worker_id id job now db) services id result entries now
            (claim worker_id id now db)
            (λ taken. (
              claimed worker_id now job,
              (
                get-update_row_here id (claimed worker_id now) db.jobs job there,
                refl,
                λ other ne. get-update_row_other id other (claimed worker_id now) db.jobs ne,
                inr (
                    inl (
                      document,
                      result,
                      sections,
                      rows,
                      ready,
                      taken,
                      refl,
                      refl,
                      refl,
                      (refl, refl),
                    )),
              ),
            ))
            (λ new_sections new_clauses e' e''.
              let (here, others) =
                twice_updated id (claimed worker_id now) (as_review_required result.warnings now)
                  db.jobs job there in
              (
                as_review_required result.warnings now (claimed worker_id now job),
                (
                  here,
                  refl,
                  others,
                  inr (
                      inr (
                        document, result, sections, rows, ready, e', e'', refl, refl, refl, refl,
                        refl,
                      )),
                ),
              )) in
        (
          keep_or (claim worker_id id now db)
              (store services id result entries now (claim worker_id id now db)),
          row,
          rw (e, run_claimed_job) refl,
          ending,
        )
