-- ===== src/Extraction/Stale.antt =====
-- After a recovery no job is stale, and the jobs that were not are as they were.
use mathlib.Core.Path.{subst}
use senecial.Base.{
  ℕ, ◌+◌, String, Bool, true, false, ◌≡◌, ◌≢◌, refl, sym, ap, ◌∙◌, ◌⊎◌, some, List, [], ◌∷◌, get,
  length, IsMap, str_eq, eq_iff, All, All-mono_two, arith, Bool-cases, Option-cases, none-ne-some,
  some-inj, inl, inr,
}
use senecial.Extraction.{
  processing, same_status, is_extraction_job_stale, no_code, max_attempts_reached,
  is_retryable_extraction_error, ExtractionJob, Jobs, update_extraction_job, back_to_pending,
  reset_extraction_job_to_pending, find_stale_processing_jobs, is_stale_processing,
}
use senecial.Extraction.Process.{Database, mark_failed}
use senecial.Extraction.Requests.{
  recover_job, recover_all, count_recovered, recover_stale_extraction_jobs,
}
use senecial.Extraction.Table.{get-update_extraction_job}
use senecial.Extraction.Recovery.{Stands, find_stale_processing_jobs-Stands}

-- Of a job in work the query and the policy say the same.
pub is_stale_processing-is_extraction_job_stale :
    (stale_minutes now : ℕ) (job : ExtractionJob)
    → same_status job.status processing ≡ true
    → is_stale_processing stale_minutes now job
      ≡ is_extraction_job_stale job.locked_at now stale_minutes
unfolding is_extraction_job_stale
is_stale_processing-is_extraction_job_stale stale_minutes now job working =
    elim (Option-cases job.locked_at) [
      | inl e ↦ rw (e, is_stale_processing) refl
      | inr (locked_at, e) ↦ rw (e, is_stale_processing, working) refl
    ]

module _ (stale_minutes now : ℕ) where
  abbrev is_stale : ExtractionJob → Bool
  is_stale = is_stale_processing stale_minutes now

  abbrev Quiet : String → Jobs → Type 0
  Quiet id jobs = (row : ExtractionJob) → get id jobs ≡ some row → is_stale row ≡ false

  update-Quiet :
      (id other : String) (change : ExtractionJob → ExtractionJob) (jobs : Jobs)
      → ((job : ExtractionJob) → is_stale (change job) ≡ false)
      → (id ≡ other) ⊎ Quiet other jobs
      → Quiet other (update_extraction_job id change jobs)
  update-Quiet id other change jobs quiets h row e = elim (Bool-cases (str_eq id other)) [
    | inl same ↦ elim (Option-cases (get other jobs)) [
      | inl gone ↦ absurd (none-ne-some (rw (get-update_extraction_job, same, gone) at e))
      | inr (old, there) ↦
          subst (λ j. is_stale j ≡ false)
            (some-inj (rw (get-update_extraction_job, same, there) at e)) (quiets old)
    ]
    | inr differs ↦ elim h [
      | inl equal ↦ absurd (ground (arith, eq_iff id other, equal, differs))
      | inr quiet ↦ quiet row (rw (get-update_extraction_job, differs) at e)
    ]
  ]

  recover_job-Quiet :
      (one : String × ExtractionJob) (id : String) (db : Database)
      → (one.0 ≡ id) ⊎ Quiet id db.jobs
      → Quiet id (recover_job now one db).jobs
  unfolding recover_job reset_extraction_job_to_pending
  recover_job-Quiet (key, job) id db h =
      elim (Bool-cases (is_retryable_extraction_error no_code job.attempt job.max_attempts)) [
        | inl again ↦ rw again (update-Quiet key id back_to_pending db.jobs (λ j. refl) h)
        | inr over ↦
            rw over
              (update-Quiet key id (mark_failed max_attempts_reached now) db.jobs (λ j. refl) h)
      ]

  recover_job-other :
      (one : String × ExtractionJob) (id : String) (db : Database)
      → one.0 ≢ id
      → get id (recover_job now one db).jobs ≡ get id db.jobs
  unfolding recover_job reset_extraction_job_to_pending
  recover_job-other (key, job) id db differs =
      elim (Bool-cases (is_retryable_extraction_error no_code job.attempt job.max_attempts)) [
        | inl again ↦ rw again (
            ground (
              arith,
              differs,
              eq_iff key id,
              get-update_extraction_job key id back_to_pending db.jobs,
            ))
        | inr over ↦ rw over (
            ground (
              arith,
              differs,
              eq_iff key id,
              get-update_extraction_job key id (mark_failed max_attempts_reached now) db.jobs,
            ))
      ]

  abbrev Listed : String → List (String × ExtractionJob) → Type 0
  Listed id [] = ⊥
  Listed id (one ∷ rest) = (one.0 ≡ id) ⊎ Listed id rest

  recover_all-Quiet :
      (stale : List (String × ExtractionJob)) (id : String) (db : Database)
      → Listed id stale ⊎ Quiet id db.jobs
      → Quiet id (recover_all now stale db).jobs
  unfolding recover_all
  recover_all-Quiet [] id db (inl none_listed) = absurd none_listed
  recover_all-Quiet [] id db (inr quiet) = quiet
  recover_all-Quiet (one ∷ stale) id db (inl (inl here)) =
      recover_all-Quiet stale id (recover_job now one db)
        (inr (recover_job-Quiet one id db (inl here)))
  recover_all-Quiet (one ∷ stale) id db (inl (inr later)) =
      recover_all-Quiet stale id (recover_job now one db) (inl later)
  recover_all-Quiet (one ∷ stale) id db (inr quiet) =
      recover_all-Quiet stale id (recover_job now one db)
        (inr (recover_job-Quiet one id db (inr quiet)))

  recover_all-other :
      (stale : List (String × ExtractionJob)) (id : String) (db : Database)
      → All (λ one. one.0 ≢ id) stale
      → get id (recover_all now stale db).jobs ≡ get id db.jobs
  unfolding recover_all
  recover_all-other [] id db h = refl
  recover_all-other (one ∷ stale) id db (h, hs) =
      recover_all-other stale id (recover_job now one db) hs ∙ recover_job-other one id db h

  stale-Listed :
      (jobs : Jobs) (id : String) (row : ExtractionJob)
      → get id jobs ≡ some row
      → is_stale row ≡ true
      → Listed id (find_stale_processing_jobs stale_minutes now jobs)
  unfolding find_stale_processing_jobs get
  stale-Listed [] id row e h = absurd (none-ne-some e)
  stale-Listed ((key, job) ∷ jobs) id row e h = elim (Bool-cases (str_eq key id)) [
    | inl same ↦
        let stale : is_stale job ≡ true =
          subst (λ j. is_stale j ≡ true) (sym (some-inj (rw same at e))) h in
        rw stale (inl ((eq_iff key id).0 same))
    | inr differs ↦
        let later = stale-Listed jobs id row (rw differs at e) h in
        elim (Bool-cases (is_stale job)) [
          | inl stale ↦ rw stale (inr later)
          | inr quiet ↦ rw quiet later
        ]
  ]

  find_stale_processing_jobs-stale :
      (jobs : Jobs)
      → All (λ one. is_stale one.1 ≡ true) (find_stale_processing_jobs stale_minutes now jobs)
  unfolding find_stale_processing_jobs
  find_stale_processing_jobs-stale [] = tt
  find_stale_processing_jobs-stale ((key, job) ∷ jobs) = elim (Bool-cases (is_stale job)) [
    | inl stale ↦ rw stale (stale, find_stale_processing_jobs-stale jobs)
    | inr quiet ↦ rw quiet (find_stale_processing_jobs-stale jobs)
  ]

  Listed-or_Quiet :
      (jobs : Jobs) (id : String)
      → Listed id (find_stale_processing_jobs stale_minutes now jobs) ⊎ Quiet id jobs
  Listed-or_Quiet jobs id = elim (Option-cases (get id jobs)) [
    | inl gone ↦ inr λ row e. absurd (none-ne-some (sym gone ∙ e))
    | inr (row, there) ↦ elim (Bool-cases (is_stale row)) [
      | inl stale ↦ inl (stale-Listed jobs id row there stale)
      | inr quiet ↦ inr λ other e. subst (λ j. is_stale j ≡ false) (some-inj (sym there ∙ e)) quiet
    ]
  ]

  -- The row of a key is stale or not.
  stale_row :
      (jobs : Jobs) (id : String) (row : ExtractionJob) (one : String × ExtractionJob)
      → get id jobs ≡ some row
      → is_stale row ≡ false
      → Stands jobs one
      → is_stale one.1 ≡ true
      → one.0 ≡ id
      → ⊥
  stale_row jobs id row (key, job) there quiet stands stale same =
      let equal : job ≡ row = some-inj (sym stands ∙ ap (λ k. get k jobs) same ∙ there) in
      ground (arith, stale, subst (λ j. is_stale j ≡ false) (sym equal) quiet)

  count_recovered-length :
      (stale : List (String × ExtractionJob))
      → let counts = count_recovered stale in
        counts.recovered_to_pending + counts.failed_count ≡ length stale
  unfolding count_recovered
  count_recovered-length [] = refl
  count_recovered-length ((id, job) ∷ stale) = ground (arith, count_recovered-length stale)

  -- In a table with one row for a key, a recovery leaves no stale job behind, changes no job that was
  -- not stale, and reports how many were stale, each once as recovered or as failed.
  pub recover_stale_extraction_jobs-stale :
      (db : Database)
      → IsMap db.jobs
      → let (after, counts) = recover_stale_extraction_jobs stale_minutes now db in
        ((id : String) (row : ExtractionJob)
          → get id after.jobs ≡ some row
          → is_stale_processing stale_minutes now row ≡ false)
        × ((id : String) (row : ExtractionJob)
            → get id db.jobs ≡ some row
            → is_stale_processing stale_minutes now row ≡ false
            → get id after.jobs ≡ some row)
        × (counts.scanned ≡ length (find_stale_processing_jobs stale_minutes now db.jobs))
        × (counts.recovered_to_pending + counts.failed_count ≡ counts.scanned)
  unfolding recover_stale_extraction_jobs
  recover_stale_extraction_jobs-stale db h =
      let stale = find_stale_processing_jobs stale_minutes now db.jobs in
      (
        λ id. recover_all-Quiet stale id db (Listed-or_Quiet db.jobs id),
        λ id row there quiet.
            recover_all-other stale id db (
              All-mono_two (Stands db.jobs) (λ one. is_stale one.1 ≡ true) (λ one. one.0 ≢ id) stale
                (λ one stands old same.
                  absurd (stale_row db.jobs id row one there quiet stands old same))
                (find_stale_processing_jobs-Stands stale_minutes now db.jobs h)
                (find_stale_processing_jobs-stale db.jobs))
            ∙ there,
        refl,
        count_recovered-length stale,
      )
