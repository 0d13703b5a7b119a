-- ===== src/Extraction/Table.antt =====
-- The table of jobs: what an update does to each row, and predicates on every row.
use mathlib.Core.Path.{subst}
use senecial.Base.{
  String, ◌≡◌, refl, sym, Option, none, some, get, put, get-put, IsMap, IsMap-put, str_eq, eq_iff,
  none-ne-some, some-inj, if◌then◌else◌, Bool-cases, Option-cases, inl, inr,
}
use senecial.Extraction.{ExtractionJob, Jobs, update_extraction_job}

abbrev pub map_option :
    (ExtractionJob → ExtractionJob) → Option ExtractionJob → Option ExtractionJob
map_option f none = none
map_option f (some job) = some (f job)

pub get-update_extraction_job :
    (id other : String) (change : ExtractionJob → ExtractionJob) (jobs : Jobs)
    → get other (update_extraction_job id change jobs)
      ≡ (if str_eq id other then map_option change (get other jobs) else get other jobs)
unfolding update_extraction_job
get-update_extraction_job id other change jobs = elim (Bool-cases (str_eq id other)) [
  | inl here ↦ elim (Option-cases (get id jobs)) [
    | inl e ↦
        let e' : get other jobs ≡ none =
          subst (λ k. get k jobs ≡ none) ((eq_iff id other).0 here) e in
        rw (e, here, update_extraction_job, e') refl
    | inr (job, e) ↦
        let e' : get other jobs ≡ some job =
          subst (λ k. get k jobs ≡ some job) ((eq_iff id other).0 here) e in
        rw (e, update_extraction_job, get-put, here, e') refl
  ]
  | inr there ↦ elim (Option-cases (get id jobs)) [
    | inl e ↦ rw (e, there, update_extraction_job) refl
    | inr (job, e) ↦ rw (e, update_extraction_job, get-put, there) refl
  ]
]

pub IsMap-update_extraction_job :
    (id : String) (change : ExtractionJob → ExtractionJob) (jobs : Jobs)
    → IsMap jobs
    → IsMap (update_extraction_job id change jobs)
unfolding update_extraction_job
IsMap-update_extraction_job id change jobs h = elim (Option-cases (get id jobs)) [
  | inl e ↦ rw (e, update_extraction_job) h
  | inr (job, e) ↦ rw (e, update_extraction_job) (IsMap-put id (change job) jobs h)
]

abbrev pub Every : (ExtractionJob → Type 0) → Jobs → Type 0
Every P jobs = (id : String) (job : ExtractionJob) → get id jobs ≡ some job → P job

pub Every-update_extraction_job :
    (P : ExtractionJob → Type 0) (id : String) (change : ExtractionJob → ExtractionJob)
    (jobs : Jobs)
    → ((job : ExtractionJob) → get id jobs ≡ some job → P job → P (change job))
    → Every P jobs
    → Every P (update_extraction_job id change jobs)
Every-update_extraction_job P id change jobs keeps h other job e =
    elim (Bool-cases (str_eq id other)) [
      | inl here ↦ elim (Option-cases (get id jobs)) [
        | inl empty ↦ absurd (
            none-ne-some
              (rw (get-update_extraction_job, here, sym ((eq_iff id other).0 here), empty) at e))
        | inr (row, e') ↦
            subst P
              (some-inj
                (rw (get-update_extraction_job, here, sym ((eq_iff id other).0 here), e') at e))
              (keeps row e' (h id row e'))
      ]
      | inr there ↦ h other job (rw (get-update_extraction_job, there) at e)
    ]

pub Every-put :
    (P : ExtractionJob → Type 0) (id : String) (job : ExtractionJob) (jobs : Jobs)
    → P job
    → Every P jobs
    → Every P (put id job jobs)
Every-put P id job jobs here h other row e = elim (Bool-cases (str_eq id other)) [
  | inl same ↦ subst P (some-inj (rw (get-put, same) at e)) here
  | inr differs ↦ h other row (rw (get-put, differs) at e)
]
