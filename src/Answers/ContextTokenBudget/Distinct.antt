-- ===== src/Answers/ContextTokenBudget/Distinct.antt =====
-- No two packed citations have the same evidence.
use mathlib.Core.Path.{subst}
use senecial.Base.{
  ℕ, zero, suc, String, false, ◌≡◌, ◌≢◌, refl, List, [], ◌∷◌, ◌++◌, take, All, All-mono, ltb,
  eq_iff, arith, Bool-cases, inl, inr,
}
use senecial.Answers.ContextTokenBudget.{
  focused, comprehensive, QuestionComplexity, has, deduplicate_from,
  deduplicate_citations_by_evidence_text, total_prompt_tokens, pack_from, count_capped,
  pack_citations_within_token_budget,
}

module _ {Citation : Type 0} (key : Citation → String) where
  abbrev pub Differs : Citation → List Citation → Type 0
  Differs c = All (λ d. key c ≢ key d)

  abbrev pub Distinct : List Citation → Type 0
  Distinct [] = Unit
  Distinct (c ∷ citations) = Differs c citations × Distinct citations

  All-remove :
      (P : Citation → Type 0) (xs ys : List Citation) (c : Citation)
      → All P (xs ++ c ∷ ys)
      → All P (xs ++ ys)
  All-remove P [] ys c (h, hs) = hs
  All-remove P (x ∷ xs) ys c (h, hs) = (h, All-remove P xs ys c hs)

  Distinct-remove :
      (xs ys : List Citation) (c : Citation) → Distinct (xs ++ c ∷ ys) → Distinct (xs ++ ys)
  Distinct-remove [] ys c (h, hs) = hs
  Distinct-remove (x ∷ xs) ys c (h, hs) =
      (All-remove (λ d. key x ≢ key d) xs ys c h, Distinct-remove xs ys c hs)

  append_nil : (xs : List Citation) → xs ++ [] ≡ xs
  append_nil [] = refl
  append_nil (x ∷ xs) = rw (append_nil xs) refl

  append-cons : (xs ys : List Citation) (c : Citation) → xs ++ c ∷ ys ≡ (xs ++ c ∷ []) ++ ys
  append-cons [] ys c = refl
  append-cons (x ∷ xs) ys c = rw (append-cons xs ys c) refl

  take-All : (P : Citation → Type 0) (n : ℕ) (xs : List Citation) → All P xs → All P (take n xs)
  take-All P zero xs h = tt
  take-All P (suc n) [] h = tt
  take-All P (suc n) (x ∷ xs) (h, hs) = (h, take-All P n xs hs)

  take-Distinct : (n : ℕ) (xs : List Citation) → Distinct xs → Distinct (take n xs)
  take-Distinct zero xs h = tt
  take-Distinct (suc n) [] h = tt
  take-Distinct (suc n) (x ∷ xs) (h, hs) =
      (take-All (λ d. key x ≢ key d) n xs h, take-Distinct n xs hs)

  -- What is kept has no key that was seen, and no key twice.
  deduplicate_from-Distinct :
      (seen : List String) (citations : List Citation)
      → All (λ d. has (key d) seen ≡ false) (deduplicate_from key seen citations)
        × Distinct (deduplicate_from key seen citations)
  unfolding deduplicate_from has
  deduplicate_from-Distinct seen [] = (tt, tt)
  deduplicate_from-Distinct seen (c ∷ citations) = elim (Bool-cases (has (key c) seen)) [
    | inl old ↦ rw old (deduplicate_from-Distinct seen citations)
    | inr new ↦
        let rest = deduplicate_from key (key c ∷ seen) citations in
        let (fresh, distinct) = deduplicate_from-Distinct (key c ∷ seen) citations in
        rw new (
          (
            new,
            All-mono (λ d. has (key d) (key c ∷ seen) ≡ false) (λ d. has (key d) seen ≡ false) rest
                (λ d h. ground (arith, h)) fresh,
          ),
          (
            All-mono (λ d. has (key d) (key c ∷ seen) ≡ false) (λ d. key c ≢ key d) rest
                (λ d h e. absurd (ground (arith, h, e, eq_iff (key c) (key d)))) fresh,
            distinct,
          ),
        )
  ]

  module _ (build_prompt_messages : List Citation → List String) (count_tokens : String → ℕ) where
    pack_from-Distinct :
        (budget : ℕ) (kept : List Citation) (current : ℕ) (citations : List Citation)
        → Distinct (kept ++ citations)
        → Distinct ((pack_from build_prompt_messages count_tokens budget kept current citations).0)
    unfolding pack_from
    pack_from-Distinct budget kept current [] h = subst Distinct (append_nil kept) h
    pack_from-Distinct budget kept current (c ∷ citations) h =
        let candidate = kept ++ c ∷ [] in
        let tokens = total_prompt_tokens build_prompt_messages count_tokens candidate in
        elim (Bool-cases (ltb budget tokens)) [
          | inl over ↦ rw over (
              pack_from-Distinct budget kept current citations (Distinct-remove kept citations c h))
          | inr fits ↦ rw fits (
              pack_from-Distinct budget candidate tokens citations
                (subst Distinct (append-cons kept citations c) h))
        ]

    capped-Distinct :
        (complexity : QuestionComplexity) (xs : List Citation)
        → Distinct xs
        → Distinct (count_capped complexity xs)
    capped-Distinct focused xs h = take-Distinct 5 xs h
    capped-Distinct comprehensive xs h = h

    -- No two of the citations that are kept have the same normalized evidence.
    pub pack_citations_within_token_budget-Distinct :
        (citations : List Citation) (budget : ℕ) (complexity : QuestionComplexity)
        → Distinct (
            (pack_citations_within_token_budget key build_prompt_messages count_tokens citations
              budget complexity).kept)
    unfolding pack_citations_within_token_budget deduplicate_citations_by_evidence_text
    pack_citations_within_token_budget-Distinct citations budget complexity =
        let deduped = deduplicate_from key [] citations in
        pack_from-Distinct budget [] _ (count_capped complexity deduped)
          (capped-Distinct complexity deduped ((deduplicate_from-Distinct [] citations).1))
