-- ===== src/Answers/ContextTokenBudget.antt =====
-- src/domain/ai/context-token-budget.ts for any type of citations. The tokenizer, the messages of the
-- prompt for the question at hand and the normalized text of a citation's evidence are parameters.
pub mod Packing
pub mod Distinct
pub mod Tests
use senecial.Base.{
  ℕ, ◌+◌, ◌-◌, String, Bool, true, false, ◌||◌, Option, none, some, List, [], ◌∷◌, ◌++◌, length,
  take, ltb, str_eq, if◌then◌else◌,
}

pub data QuestionComplexity : Type 0 where
  focused comprehensive : QuestionComplexity

abbrev pub max_citations_focused : ℕ
max_citations_focused = 5

-- `seen.has(key)`
unfoldable pub has : String → List String → Bool
has key [] = false
has key (k ∷ seen) = str_eq k key || has key seen

pub record ContextTokenBudgetResult (Citation : Type 0) : Type 0 where
  pub kept : List Citation
  pub truncated : Bool
  pub dropped_count : ℕ
  pub total_context_tokens : ℕ

module _ {Citation : Type 0} (normalized_evidence : Citation → String) where
  unfoldable pub deduplicate_from : List String → List Citation → List Citation
  unfolding has
  deduplicate_from seen [] = []
  deduplicate_from seen (c ∷ citations) =
      let key = normalized_evidence c in
      let skipped = deduplicate_from seen citations in
      let kept = deduplicate_from (key ∷ seen) citations in
      if has key seen then skipped else c ∷ kept

  unfoldable pub deduplicate_citations_by_evidence_text : List Citation → List Citation
  unfolding deduplicate_from
  deduplicate_citations_by_evidence_text citations = deduplicate_from [] citations

module _ {Citation : Type 0} (build_prompt_messages : List Citation → List String)
    (count_tokens : String → ℕ) where
  unfoldable pub sum_tokens : List String → ℕ
  sum_tokens [] = 0
  sum_tokens (m ∷ messages) = count_tokens m + sum_tokens messages

  unfoldable pub total_prompt_tokens : List Citation → ℕ
  unfolding sum_tokens
  total_prompt_tokens citations = sum_tokens (build_prompt_messages citations)

  -- The loop over the candidates, with `kept` and `currentTokens`.
  unfoldable pub pack_from : ℕ → List Citation → ℕ → List Citation → List Citation × ℕ
  unfolding total_prompt_tokens
  pack_from budget kept current_tokens [] = (kept, current_tokens)
  pack_from budget kept current_tokens (c ∷ citations) =
      let candidate = kept ++ c ∷ [] in
      let candidate_tokens = total_prompt_tokens candidate in
      let skipped = pack_from budget kept current_tokens citations in
      let packed = pack_from budget candidate candidate_tokens citations in
      if ltb budget candidate_tokens then skipped else packed

abbrev pub count_capped : {Citation : Type 0} → QuestionComplexity → List Citation → List Citation
count_capped focused deduped = take max_citations_focused deduped
count_capped comprehensive deduped = deduped

module _ {Citation : Type 0} (normalized_evidence : Citation → String)
    (build_prompt_messages : List Citation → List String) (count_tokens : String → ℕ) where
  -- `budget` is the override, or what the context window leaves.
  unfoldable pub pack_citations_within_token_budget :
      List Citation → ℕ → QuestionComplexity → ContextTokenBudgetResult Citation
  unfolding deduplicate_citations_by_evidence_text pack_from total_prompt_tokens
  pack_citations_within_token_budget citations budget complexity =
      let deduped = deduplicate_citations_by_evidence_text normalized_evidence citations in
      let (kept, current_tokens) =
        pack_from build_prompt_messages count_tokens budget []
          (total_prompt_tokens build_prompt_messages count_tokens [])
          (count_capped complexity deduped) in
      record {
        kept = kept;
        truncated = ltb (length kept) (length deduped);
        dropped_count = length deduped - length kept;
        total_context_tokens = current_tokens;
      }
