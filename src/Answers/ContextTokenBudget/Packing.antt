-- ===== src/Answers/ContextTokenBudget/Packing.antt =====
-- The packed citations fit the budget, are counted right, and are different from each other.
use senecial.Base.{
  ℕ, zero, suc, ◌+◌, ◌≤◌, String, ◌≡◌, refl, ◌⊎◌, inl, inr, List, [], ◌∷◌, ◌++◌, length, take,
  length-append, length-take-le, ltb, arith, Bool-cases,
}
use senecial.Answers.ContextTokenBudget.{
  focused, comprehensive, QuestionComplexity, deduplicate_citations_by_evidence_text,
  total_prompt_tokens, pack_from, count_capped, pack_citations_within_token_budget,
}

length-take-le_whole : {A : Type 0} (n : ℕ) (xs : List A) → length (take n xs) ≤ length xs
length-take-le_whole zero xs = omega arith
length-take-le_whole (suc n) [] = omega arith
length-take-le_whole (suc n) (x ∷ xs) = omega (arith, length-take-le_whole n xs)

capped-length :
    {A : Type 0} (complexity : QuestionComplexity) (xs : List A)
    → (length (count_capped complexity xs) ≤ length xs)
      × (complexity ≡ focused → length (count_capped complexity xs) ≤ 5)
capped-length focused xs = (length-take-le_whole 5 xs, λ e. length-take-le 5 xs)
capped-length comprehensive xs = (omega arith, λ e. cc)

module _ {Citation : Type 0} (build_prompt_messages : List Citation → List String)
    (count_tokens : String → ℕ) where
  abbrev tokens : List Citation → ℕ
  tokens = total_prompt_tokens build_prompt_messages count_tokens

  abbrev loop : ℕ → List Citation → ℕ → List Citation → List Citation × ℕ
  loop = pack_from build_prompt_messages count_tokens

  abbrev Fits : ℕ → List Citation × ℕ → Type 0
  Fits budget (kept, current) = ((kept ≡ []) ⊎ (current ≤ budget)) × (current ≡ tokens kept)

  pack_from-Fits :
      (budget : ℕ) (kept : List Citation) (current : ℕ) (citations : List Citation)
      → Fits budget (kept, current)
      → Fits budget (loop budget kept current citations)
  unfolding pack_from
  pack_from-Fits budget kept current [] h = h
  pack_from-Fits budget kept current (c ∷ citations) h =
      let candidate = kept ++ c ∷ [] in
      elim (Bool-cases (ltb budget (tokens candidate))) [
        | inl over ↦ rw over (pack_from-Fits budget kept current citations h)
        | inr fits ↦ rw fits (
            pack_from-Fits budget candidate (tokens candidate) citations
              (inr (ground (arith, fits)), refl))
      ]

  pack_from-length :
      (budget : ℕ) (kept : List Citation) (current : ℕ) (citations : List Citation)
      → length ((loop budget kept current citations).0) ≤ length kept + length citations
  unfolding pack_from
  pack_from-length budget kept current [] = omega arith
  pack_from-length budget kept current (c ∷ citations) =
      let candidate = kept ++ c ∷ [] in
      elim (Bool-cases (ltb budget (tokens candidate))) [
        | inl over ↦ rw over (omega (arith, pack_from-length budget kept current citations))
        | inr fits ↦ rw fits (
            omega (
              arith,
              pack_from-length budget candidate (tokens candidate) citations,
              length-append kept (c ∷ []),
            ))
      ]

  -- The citations that are kept are given to the prompt within the budget, or none is kept; the number
  -- of tokens that is reported is that of the prompt with them; those that are kept and those that are
  -- reported as dropped are together the citations of different evidence; and for a focused question
  -- at most five are kept.
  pub pack_citations_within_token_budget-le :
      (normalized_evidence : Citation → String) (citations : List Citation) (budget : ℕ)
      (complexity : QuestionComplexity)
      → let r =
          pack_citations_within_token_budget normalized_evidence build_prompt_messages count_tokens
            citations budget complexity in
        ((r.kept ≡ []) ⊎ (r.total_context_tokens ≤ budget))
        × (r.total_context_tokens ≡ total_prompt_tokens build_prompt_messages count_tokens r.kept)
        × (length r.kept + r.dropped_count
            ≡ length (deduplicate_citations_by_evidence_text normalized_evidence citations))
        × (complexity ≡ focused → length r.kept ≤ 5)
  unfolding pack_citations_within_token_budget
  pack_citations_within_token_budget-le normalized_evidence citations budget complexity =
      let deduped = deduplicate_citations_by_evidence_text normalized_evidence citations in
      let capped = count_capped complexity deduped in
      let (fits, counted) = pack_from-Fits budget [] (tokens []) capped (inl refl, refl) in
      let (below, five) = capped-length complexity deduped in
      let packed = pack_from-length budget [] (tokens []) capped in
      (fits, counted, omega (arith, below, packed), λ e. omega (arith, five e, packed))
