-- ===== src/Extraction/Validity.antt =====
-- Well-formed tables, and that a worker's run keeps them so.
use mathlib.Core.Path.{subst}
use senecial.Base.{
  ◌∙◌, some-inj, ℕ, ◌+◌, ◌≤◌, ◌<◌, String, Bool, true, false, ◌≡◌, refl, sym, Option, none, some,
  List, get, IsMap, arith, Option-cases, inl, inr,
}
use senecial.Extraction.{
  processing, ExtractionErrorCode, ExtractionJob, Jobs, update_extraction_job, same_status, claimed,
  claim_next_pending_job, is_pending, oldest_pending,
}
use senecial.Extraction.Process.{
  Services, Database, fail_job, mark_failed, set_stage, mark_ready, save_extraction,
  run_claimed_job,
}
use senecial.Extraction.Claims.{oldest_pending-Oldest}
use senecial.Extraction.Outcomes.{staged, run_claimed_job-cases}
use senecial.Extraction.Table.{Every, Every-update_extraction_job, IsMap-update_extraction_job}

abbrev pub is_set : Option ℕ → Bool
is_set none = false
is_set (some t) = true

abbrev pub IsValid : ExtractionJob → Type 0
IsValid job =
    (job.attempt ≤ job.max_attempts)
    × (is_pending job ≡ true → job.attempt < job.max_attempts)
    × (is_set job.locked_at ≡ same_status job.status processing)

abbrev pub IsWellFormed : Database → Type 0
IsWellFormed db = IsMap db.jobs × Every IsValid db.jobs

-- An update keeps the table well-formed where it keeps the row valid.
pub update-IsWellFormed :
    (id : String) (change : ExtractionJob → ExtractionJob) (jobs : Jobs)
    → ((job : ExtractionJob) → get id jobs ≡ some job → IsValid job → IsValid (change job))
    → IsMap jobs × Every IsValid jobs
    → IsMap (update_extraction_job id change jobs)
      × Every IsValid (update_extraction_job id change jobs)
update-IsWellFormed id change jobs keeps (h, hs) = (
  IsMap-update_extraction_job id change jobs h,
  Every-update_extraction_job IsValid id change jobs keeps hs,
)

fail_job-IsWellFormed :
    (id : String) (code : ExtractionErrorCode) (now : ℕ) (db : Database)
    → IsWellFormed db
    → IsWellFormed (fail_job id code now db)
unfolding fail_job
fail_job-IsWellFormed id code now db h =
    update-IsWellFormed id (mark_failed code now) db.jobs
      (λ job e v. (omega (arith, v.0), λ p. ground (arith, p), refl)) h

save_extraction-IsWellFormed :
    (id : String) (updated : ℕ) (text : String) (list : List (String × Bool)) (now : ℕ)
    (db : Database)
    → IsWellFormed db
    → IsWellFormed (save_extraction id updated text list now db)
unfolding save_extraction
save_extraction-IsWellFormed id updated text list now db h =
    update-IsWellFormed id (mark_ready updated now) db.jobs
      (λ job e v. (omega (arith, v.0), λ p. ground (arith, p), refl)) h

pub run_claimed_job-IsWellFormed :
    (id : String) (job : ExtractionJob) (services : Services) (now : ℕ) (db : Database)
    → IsWellFormed db
    → IsWellFormed (run_claimed_job id job services now db)
run_claimed_job-IsWellFormed id job services now db h =
    let late = update-IsWellFormed id set_stage db.jobs (λ job e v. v) h in
    run_claimed_job-cases IsWellFormed id now db (λ code. fail_job-IsWellFormed id code now db h)
      (λ code. fail_job-IsWellFormed id code now (staged id db) late)
      (λ updated text list.
        save_extraction-IsWellFormed id updated text list now (staged id db) late)
      job services

claim-le :
    (job row : ExtractionJob)
    → job ≡ row
    → is_pending job ≡ true
    → (is_pending row ≡ true → row.attempt < row.max_attempts)
    → row.attempt + 1 ≤ row.max_attempts
claim-le job row e waits below = omega (arith, below (subst (λ j. is_pending j ≡ true) e waits))

pub claim-IsWellFormed :
    (worker_id : String) (now : ℕ) (jobs : Jobs)
    → IsMap jobs × Every IsValid jobs
    → let after = (claim_next_pending_job worker_id now jobs).0 in IsMap after × Every IsValid after
unfolding claim_next_pending_job
claim-IsWellFormed worker_id now jobs (h, hs) = elim (Option-cases (oldest_pending jobs)) [
  | inl e ↦ rw (e, claim_next_pending_job) (h, hs)
  | inr ((id, job), e) ↦
      let (there, waits, first) = rw e at (oldest_pending-Oldest jobs h) in
      rw (e, claim_next_pending_job)
        (update-IsWellFormed id (claimed worker_id now) jobs
          (λ row found v. (
            claim-le job row (some-inj (sym there ∙ found)) waits v.1,
            λ p. ground (arith, p),
            refl,
          ))
          (h, hs))
]
