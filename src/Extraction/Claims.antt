-- ===== src/Extraction/Claims.antt =====
-- A worker claims an oldest pending job, or there is none.
use mathlib.Core.Path.{subst}
use mathlib.Core.Bool.{false≢true}
use senecial.Base.{
  ℕ, ◌+◌, ◌≤◌, String, true, false, ◌≡◌, ◌≢◌, refl, sym, ap, ◌∙◌, Option, none, some, [], ◌∷◌, get,
  IsMap, NoKey, get_of_NoKey, str_eq, eq_iff, eq_refl, none-ne-some, some-inj, leb, arith,
  Bool-cases, Option-cases, inl, inr,
}
use senecial.Extraction.{
  ExtractionJobStatus, pending, processing, review_required, completed, failed, cancelled,
  ExtractionJob, Jobs, is_pending, oldest_pending, claimed, claim_next_pending_job,
}
use senecial.Extraction.Table.{Every, get-update_extraction_job}

abbrev pub Oldest : Jobs → Option (String × ExtractionJob) → Type 0
Oldest jobs none = Every (λ job. is_pending job ≡ false) jobs
Oldest jobs (some (id, job)) =
    (get id jobs ≡ some job)
    × (is_pending job ≡ true)
    × Every (λ other. is_pending other ≡ true → job.created_at ≤ other.created_at) jobs

Every-cons :
    (P : ExtractionJob → Type 0) (id : String) (job : ExtractionJob) (jobs : Jobs)
    → P job
    → Every P jobs
    → Every P ((id, job) ∷ jobs)
unfolding get
Every-cons P id job jobs here h other row e = elim (Bool-cases (str_eq id other)) [
  | inl same ↦ subst P (some-inj (rw same at e)) here
  | inr differs ↦ h other row (rw differs at e)
]

pub get-cons_later :
    (id other : String) (job row : ExtractionJob) (jobs : Jobs)
    → NoKey id jobs
    → get other jobs ≡ some row
    → get other ((id, job) ∷ jobs) ≡ some row
unfolding get
get-cons_later id other job row jobs fresh e = elim (Bool-cases (str_eq id other)) [
  | inl same ↦ absurd (
      none-ne-some
        (sym (get_of_NoKey id jobs fresh) ∙ ap (λ k. get k jobs) ((eq_iff id other).0 same) ∙ e))
  | inr differs ↦ rw differs e
]

pub get-cons_here :
    (id : String) (job : ExtractionJob) (jobs : Jobs) → get id ((id, job) ∷ jobs) ≡ some job
unfolding get
get-cons_here id job jobs = rw (eq_refl id) refl

no_jobs : (P : ExtractionJob → Type 0) → Every P []
unfolding get
no_jobs P id job e = absurd (none-ne-some e)

pub oldest_pending-Oldest : (jobs : Jobs) → IsMap jobs → Oldest jobs (oldest_pending jobs)
unfolding oldest_pending
oldest_pending-Oldest [] h = no_jobs (λ job. is_pending job ≡ false)
oldest_pending-Oldest ((id, job) ∷ jobs) (fresh, h) =
    let ih = oldest_pending-Oldest jobs h in
    elim (Bool-cases (is_pending job)) [
      | inr busy ↦ elim (Option-cases (oldest_pending jobs)) [
        | inl e ↦
            rw (busy, e) (Every-cons (λ j. is_pending j ≡ false) id job jobs busy (rw e at ih))
        | inr ((other_id, other), e) ↦
            let (found, waits, first) = rw e at ih in
            rw (busy, e)
              (
                get-cons_later id other_id job other jobs fresh found,
                waits,
                Every-cons (λ j. is_pending j ≡ true → other.created_at ≤ j.created_at) id job jobs
                    (λ p. ground (arith, p, busy)) first,
              )
      ]
      | inl here ↦ elim (Option-cases (oldest_pending jobs)) [
        | inl e ↦
            rw (here, e)
              (
                get-cons_here id job jobs,
                here,
                Every-cons (λ j. is_pending j ≡ true → job.created_at ≤ j.created_at) id job jobs
                    (λ p. omega arith) (λ k j found p. ground (arith, p, (rw e at ih) k j found)),
              )
        | inr ((other_id, other), e) ↦
            let (found, waits, first) = rw e at ih in
            elim (Bool-cases (leb job.created_at other.created_at)) [
              | inl older ↦
                  rw (here, e, older)
                    (
                      get-cons_here id job jobs,
                      here,
                      Every-cons (λ j. is_pending j ≡ true → job.created_at ≤ j.created_at) id job
                          jobs (λ p. omega arith)
                          (λ k j there p. ground (arith, older, first k j there p)),
                    )
              | inr newer ↦
                  rw (here, e, newer)
                    (
                      get-cons_later id other_id job other jobs fresh found,
                      waits,
                      Every-cons (λ j. is_pending j ≡ true → other.created_at ≤ j.created_at) id job
                          jobs (λ p. ground (arith, newer)) first,
                    )
            ]
      ]
    ]

-- The row of a job whose next attempt has begun under the worker's lock.
abbrev pub HasBegun : String → ℕ → ExtractionJob → ExtractionJob → Type 0
HasBegun worker_id now job row =
    (row.status ≡ processing)
    × (row.attempt ≡ job.attempt + 1)
    × (row.max_attempts ≡ job.max_attempts)
    × (row.locked_at ≡ some now)
    × (row.locked_by ≡ some worker_id)
    × (row.started_at ≡ some now)
    × (row.created_at ≡ job.created_at)

-- What a claim does, by its answer.
abbrev pub IsClaim : String → ℕ → Jobs → Jobs × Option String → Type 0
IsClaim worker_id now jobs (after, none) =
    (after ≡ jobs) × Every (λ job. (job.status ≡ pending) → ⊥) jobs
IsClaim worker_id now jobs (after, some id) =
    (job : ExtractionJob) × (row : ExtractionJob) × (get id jobs ≡ some job)
    × (job.status ≡ pending)
    × Every (λ other. other.status ≡ pending → job.created_at ≤ other.created_at) jobs
    × (get id after ≡ some row)
    × HasBegun worker_id now job row
    × ((other : String) → id ≢ other → get other after ≡ get other jobs)

-- The same with the row that the claim writes.
abbrev pub Takes : String → ℕ → Jobs → Jobs × Option String → Type 0
Takes worker_id now jobs (after, none) = (after ≡ jobs) × Every (λ job. is_pending job ≡ false) jobs
Takes worker_id now jobs (after, some id) =
    (job : ExtractionJob) × (get id jobs ≡ some job)
    × (is_pending job ≡ true)
    × Every (λ other. is_pending other ≡ true → job.created_at ≤ other.created_at) jobs
    × (get id after ≡ some (claimed worker_id now job))
    × ((other : String) → id ≢ other → get other after ≡ get other jobs)

pub claim_next_pending_job-Takes :
    (worker_id : String) (now : ℕ) (jobs : Jobs)
    → IsMap jobs
    → Takes worker_id now jobs (claim_next_pending_job worker_id now jobs)
unfolding claim_next_pending_job
claim_next_pending_job-Takes worker_id now jobs h =
    let oldest = oldest_pending-Oldest jobs h in
    elim (Option-cases (oldest_pending jobs)) [
      | inl e ↦ rw (e, claim_next_pending_job) (refl, rw e at oldest)
      | inr ((id, job), e) ↦
          let (found, waits, first) = rw e at oldest in
          rw (e, claim_next_pending_job)
            (
              job,
              found,
              waits,
              first,
              rw (get-update_extraction_job, eq_refl id, found) refl,
              λ other differs. ground (
                arith,
                eq_iff id other,
                get-update_extraction_job id other (claimed worker_id now) jobs,
              ),
            )
    ]

pending-status : (job : ExtractionJob) → is_pending job ≡ true → job.status ≡ pending
pending-status job = go job.status
  where
    go : (s : ExtractionJobStatus) → is_pending (record job { status = s }) ≡ true → s ≡ pending
    go pending h = refl
    go processing h = absurd (ground (arith, h))
    go review_required h = absurd (ground (arith, h))
    go completed h = absurd (ground (arith, h))
    go failed h = absurd (ground (arith, h))
    go cancelled h = absurd (ground (arith, h))

status-pending : (job : ExtractionJob) → job.status ≡ pending → is_pending job ≡ true
status-pending job e = rw e refl

-- In a table with one row for a key, a claim takes a pending job than which no pending job was created
-- earlier: it is PROCESSING, one more of its attempts has begun now, and the worker holds its lock; no
-- other job changes. Without an answer there is no pending job and nothing changes.
pub claim_next_pending_job-IsClaim :
    (worker_id : String) (now : ℕ) (jobs : Jobs)
    → IsMap jobs
    → IsClaim worker_id now jobs (claim_next_pending_job worker_id now jobs)
claim_next_pending_job-IsClaim worker_id now jobs h =
    go (claim_next_pending_job worker_id now jobs)
      (claim_next_pending_job-Takes worker_id now jobs h)
  where
    go : (r : Jobs × Option String) → Takes worker_id now jobs r → IsClaim worker_id now jobs r
    go (after, none) (same, idle) =
        (same, λ id job there e. false≢true (sym (idle id job there) ∙ status-pending job e))
    go (after, some id) (job, found, waits, first, there, others) = (
      job,
      claimed worker_id now job,
      found,
      pending-status job waits,
      λ key other e p. first key other e (status-pending other p),
      there,
      (refl, refl, refl, refl, refl, refl, refl),
      others,
    )
