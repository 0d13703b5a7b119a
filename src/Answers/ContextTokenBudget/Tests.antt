-- ===== src/Answers/ContextTokenBudget/Tests.antt =====
-- The packing of four citations, one of them a duplicate and one too long.
use Prim.Native.String.{len}
use senecial.Base.{◌+◌, ◌≤◌, String, ◌≡◌, refl, ◌⊎◌, List, [], ◌∷◌, length}
use senecial.Answers.ContextTokenBudget.{
  focused, ContextTokenBudgetResult, deduplicate_citations_by_evidence_text, total_prompt_tokens,
  pack_citations_within_token_budget,
}
use senecial.Answers.ContextTokenBudget.Packing.{pack_citations_within_token_budget-le}
use senecial.Answers.ContextTokenBudget.Distinct.{
  Distinct, pack_citations_within_token_budget-Distinct,
}

abbrev evidence : String → String
evidence text = text

abbrev messages : List String → List String
messages citations = "question" ∷ citations

abbrev citations : List String
citations = "fee" ∷ "a very long clause of the contract" ∷ "fee" ∷ "term" ∷ []

abbrev packed : ContextTokenBudgetResult String
packed = pack_citations_within_token_budget evidence messages len citations 20 focused

two_kept : packed.kept ≡ "fee" ∷ "term" ∷ []
unfolding pack_citations_within_token_budget
two_kept = refl

pack_citations_within_token_budget-le_example :
    ((packed.kept ≡ []) ⊎ (packed.total_context_tokens ≤ 20))
    × (packed.total_context_tokens ≡ total_prompt_tokens messages len packed.kept)
    × (length packed.kept + packed.dropped_count
        ≡ length (deduplicate_citations_by_evidence_text evidence citations))
    × (focused ≡ focused → length packed.kept ≤ 5)
pack_citations_within_token_budget-le_example =
    pack_citations_within_token_budget-le messages len evidence citations 20 focused

pack_citations_within_token_budget-Distinct_example : Distinct evidence packed.kept
pack_citations_within_token_budget-Distinct_example =
    pack_citations_within_token_budget-Distinct evidence messages len citations 20 focused
