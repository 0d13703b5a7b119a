-- ===== src/Clauses/Worker/Turns.antt =====
-- What a worker's turn does.
use mathlib.Core.Bool.{false≢true}
use senecial.Base.{
  ℕ, ◌≤◌, String, true, ◌≡◌, ◌⊎◌, refl, sym, ap, ◌∙◌, Option, none, some, Dict, get, IsMap, arith,
  Option-cases, inl, inr,
}
use senecial.Base.Tables.{update_row, first_by, first_by-IsFirst, Every}
use senecial.Clauses.JobTable.{
  ClauseSegmentationJobStatus, pending, processing, review_required, completed, failed, cancelled,
  ClauseSegmentationJob, is_pending, claimed, claim_next_pending_clause_segmentation_job, Database,
}
use senecial.Clauses.StoredRows.{Services}
use senecial.Clauses.Worker.{run_next, process_next_clause_segmentation_job}
use senecial.Clauses.Worker.Endings.{IsEnding, run_claimed_job-IsEnding}

abbrev pub IsTurn : Services → String → ℕ → Database → Database → Type 0
IsTurn services worker_id now db after =
    (Every (λ job. (job.status ≡ pending) → ⊥) db.jobs × (after ≡ db))
    ⊎ ((id : String) × (job : ClauseSegmentationJob) × (row : ClauseSegmentationJob) × (get id
            db.jobs
          ≡ some job)
        × (job.status ≡ pending)
        × Every (λ other. other.status ≡ pending → job.created_at ≤ other.created_at) db.jobs
        × IsEnding services worker_id id job now db after row)

pending-status : (job : ClauseSegmentationJob) → is_pending job ≡ true → job.status ≡ pending
pending-status job = go job.status
  where
    go :
        (s : ClauseSegmentationJobStatus)
        → is_pending (record job { status = s }) ≡ true
        → s ≡ pending
    go pending h = refl
    go processing h = absurd (ground (arith, h))
    go review_required h = absurd (ground (arith, h))
    go completed h = absurd (ground (arith, h))
    go failed h = absurd (ground (arith, h))
    go cancelled h = absurd (ground (arith, h))

status-pending : (job : ClauseSegmentationJob) → job.status ≡ pending → is_pending job ≡ true
status-pending job e = rw e refl

claim_next_pending_clause_segmentation_job-first :
    (worker_id : String) (now : ℕ) (jobs : Dict ClauseSegmentationJob)
    → (first : Option (String × ClauseSegmentationJob))
    → first_by is_pending (λ job. job.created_at) jobs ≡ first
    → claim_next_pending_clause_segmentation_job worker_id now jobs ≡ elim first [
      | none ↦ (jobs, none)
      | some (id, job) ↦
          (update_row id (claimed worker_id now) jobs, some (id, claimed worker_id now job))
    ]
unfolding claim_next_pending_clause_segmentation_job
claim_next_pending_clause_segmentation_job-first worker_id now jobs first e =
    rw (claim_next_pending_clause_segmentation_job, e) refl

-- In a table with one row for a key, and whatever the services answer, a worker's turn comes to an end. It
-- does nothing where no job is pending. Else it claims an oldest pending job, which counts one more attempt,
-- and no other job changes. If a guard refuses the job, it is FAILED with the guard's code and nothing is
-- stored. Else there are rows for the segmenter's answer to the text of the job's document: one for each
-- section, and one for each clause, which repeats the clause, is the slice of the text at its offsets and
-- has the row of the clause's parent, if it has one, as its parent. If an id or an index of them is taken,
-- nothing is stored and the job stays PROCESSING under the worker's lock; else they are stored and the job
-- is REVIEW_REQUIRED with the warnings of the answer.
pub process_next_clause_segmentation_job-IsTurn :
    (services : Services) (worker_id : String) (now : ℕ) (db : Database)
    → IsMap db.jobs
    → (after : Database) × (process_next_clause_segmentation_job services worker_id now db
        ≡ some after)
      × IsTurn services worker_id now db after
unfolding process_next_clause_segmentation_job run_next
process_next_clause_segmentation_job-IsTurn services worker_id now db h =
    let first = first_by-IsFirst is_pending (λ job. job.created_at) db.jobs h in
    let claiming = claim_next_pending_clause_segmentation_job-first worker_id now db.jobs in
    elim (Option-cases (first_by is_pending (λ job. job.created_at) db.jobs)) [
      | inl e ↦ (
        db,
        ap (run_next services now db) (claiming none e),
        inl (
          λ id job there p. false≢true (sym ((rw e at first) id job there) ∙ status-pending job p),
          refl,
        ),
      )
      | inr ((id, job), e) ↦
          let (found, waits, oldest) = rw e at first in
          let (after, row, ran, ending) =
            run_claimed_job-IsEnding services worker_id id job now db found in
          (
            after,
            ap (run_next services now db) (claiming (some (id, job)) e) ∙ ran,
            inr (
              id,
              job,
              row,
              found,
              pending-status job waits,
              λ key other there p. oldest key other there (status-pending other p),
              ending,
            ),
          )
    ]
