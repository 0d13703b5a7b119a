-- ===== src/Contracts/Processing.antt =====
-- src/domain/contracts/processing-state.ts. The statuses of jobs are texts, as there.
use mathlib.Core.Path.{subst}
use senecial.Base.{
  ℕ, String, Bool, true, false, ◌≡◌, refl, ◌&&◌, ◌||◌, inl, inr, List, [], ◌∷◌, length, ltb, str_eq,
  eq_iff, if◌then◌else◌, arith, Bool-cases,
}

pub data ContractProcessingState : Type 0 where
  uploaded processing partially_ready ready review_required failed : ContractProcessingState

pub record ContractProcessingStateInput : Type 0 where
  pub extraction_job_statuses : List String
  pub segmentation_job_statuses : List String
  pub chunk_count : ℕ

pub record ContractProcessingStateResult : Type 0 where
  pub state : ContractProcessingState
  pub ai_available : Bool
  pub clause_data_available : Bool
  pub is_polling : Bool

-- `set.has(status)` and `list.includes(status)`
unfoldable pub has : List String → String → Bool
has [] status = false
has (s ∷ set) status = str_eq s status || has set status

unfoldable pub some_in : List String → List String → Bool
unfolding has
some_in set [] = false
some_in set (s ∷ statuses) = has set s || some_in set statuses

unfoldable pub every_in : List String → List String → Bool
unfolding has
every_in set [] = true
every_in set (s ∷ statuses) = has set s && every_in set statuses

abbrev pub in_flight : List String
in_flight = "PENDING" ∷ "PROCESSING" ∷ []

abbrev pub segmentation_clauses_ready : List String
segmentation_clauses_ready = "REVIEW_REQUIRED" ∷ "COMPLETED" ∷ []

abbrev pub extraction_terminal_failure : List String
extraction_terminal_failure = "FAILED" ∷ "CANCELLED" ∷ []

abbrev pub result : ContractProcessingState → Bool → Bool → Bool → ContractProcessingStateResult
result s ai clauses polling = record {
  state = s;
  ai_available = ai;
  clause_data_available = clauses;
  is_polling = polling;
}

unfoldable pub derive_contract_processing_state :
    ContractProcessingStateInput → ContractProcessingStateResult
unfolding has some_in every_in
derive_contract_processing_state input =
    let ai_available = ltb 0 input.chunk_count in
    let clause_data_available =
      some_in segmentation_clauses_ready input.segmentation_job_statuses in
    let extraction_in_flight = some_in in_flight input.extraction_job_statuses in
    let segmentation_in_flight = some_in in_flight input.segmentation_job_statuses in
    let is_polling = extraction_in_flight || segmentation_in_flight in
    let all_extraction_attempts_failed =
      ltb 0 (length input.extraction_job_statuses)
      && every_in extraction_terminal_failure input.extraction_job_statuses in
    if ai_available && clause_data_available
    then result ready ai_available clause_data_available is_polling
    else if ai_available
    then result partially_ready ai_available clause_data_available is_polling
    else if has input.extraction_job_statuses "REVIEW_REQUIRED"
    then result review_required ai_available clause_data_available true
    else if all_extraction_attempts_failed
    then result failed ai_available clause_data_available false
    else if ltb 0 (length input.extraction_job_statuses)
    then result processing ai_available clause_data_available is_polling
    else result uploaded ai_available clause_data_available false

abbrev pub is_ready : ContractProcessingState → Bool
is_ready ready = true
is_ready partially_ready = true
is_ready _ = false

-- The AI is available exactly where chunks exist, whatever the statuses of the jobs, and the state is
-- READY or PARTIALLY_READY exactly then; clause data is available exactly where a segmentation job is
-- in review or completed.
derive_contract_processing_state-ai_available :
    (input : ContractProcessingStateInput)
    → let r = derive_contract_processing_state input in
      (r.ai_available ≡ ltb 0 input.chunk_count)
      × ((is_ready r.state ≡ r.ai_available)
          × (r.clause_data_available
              ≡ some_in segmentation_clauses_ready input.segmentation_job_statuses))
unfolding derive_contract_processing_state
derive_contract_processing_state-ai_available input = (ground arith, (ground arith, ground arith))

in_flight-not_failed :
    (s : String) → has in_flight s ≡ true → has extraction_terminal_failure s ≡ false
unfolding has
in_flight-not_failed s h = elim (Bool-cases (str_eq "PENDING" s)) [
  | inl pending ↦
      subst (λ t. has extraction_terminal_failure t ≡ false) ((eq_iff "PENDING" s).0 pending) refl
  | inr not_pending ↦ elim (Bool-cases (str_eq "PROCESSING" s)) [
    | inl running ↦
        subst (λ t. has extraction_terminal_failure t ≡ false) ((eq_iff "PROCESSING" s).0 running)
          refl
    | inr not_running ↦ ground (arith, h, not_pending, not_running)
  ]
]

some_in_flight :
    (statuses : List String)
    → some_in in_flight statuses ≡ true
    → every_in extraction_terminal_failure statuses ≡ false
unfolding some_in every_in
some_in_flight [] h = ground (arith, h)
some_in_flight (s ∷ statuses) h = elim (Bool-cases (has in_flight s)) [
  | inl here ↦ rw (in_flight-not_failed s here) refl
  | inr later ↦ ground (arith, some_in_flight statuses, h, later)
]

some_in-length :
    (statuses : List String) → some_in in_flight statuses ≡ true → ltb 0 (length statuses) ≡ true
unfolding some_in
some_in-length [] h = ground (arith, h)
some_in-length (s ∷ statuses) h = ground arith

-- The page goes on refreshing itself while a job of extraction is pending or running, whatever the
-- chunks and the other jobs.
derive_contract_processing_state-polls :
    (input : ContractProcessingStateInput)
    → some_in in_flight input.extraction_job_statuses ≡ true
    → (derive_contract_processing_state input).is_polling ≡ true
unfolding derive_contract_processing_state
derive_contract_processing_state-polls input h = ground (
  arith,
  h,
  some_in_flight input.extraction_job_statuses h,
  some_in-length input.extraction_job_statuses h,
)
