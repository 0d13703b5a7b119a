-- ===== src/Answers/Grounding/Blocks.antt =====
-- Which answers pass the check of their citations.
use senecial.Base.{
  ℕ, ◌≤◌, ◌<◌, String, true, ◌&&◌, ◌≡◌, refl, List, [], ◌∷◌, length, ltb, ◌==◌, All, arith,
  Bool-cases, inl, inr, ◌⊎◌,
}
use senecial.Answers.Grounding.{
  ParsedAnswerBlock, Checked, passed, rejected, GroundingError, in_range, valid_markers,
  is_evidence, assert_answer_block_grounded,
}

valid_markers-le : (n : ℕ) (markers : List ℕ) → length (valid_markers n markers) ≤ length markers
unfolding valid_markers
valid_markers-le n [] = omega arith
valid_markers-le n (m ∷ markers) = ground (arith, valid_markers-le n markers)

-- Where no marker is dropped every marker is in range.
valid_markers-All :
    (n : ℕ) (markers : List ℕ)
    → length markers ≤ length (valid_markers n markers)
    → All (λ m. in_range n m ≡ true) markers
unfolding valid_markers
valid_markers-All n [] h = tt
valid_markers-All n (m ∷ markers) h = elim (Bool-cases (in_range n m)) [
  | inl inside ↦ (inside, valid_markers-All n markers (omega (arith, rw inside at h)))
  | inr outside ↦ absurd (omega (arith, rw outside at h, valid_markers-le n markers))
]

valid_markers_of_All :
    (n : ℕ) (markers : List ℕ)
    → All (λ m. in_range n m ≡ true) markers
    → valid_markers n markers ≡ markers
unfolding valid_markers
valid_markers_of_All n [] h = refl
valid_markers_of_All n (m ∷ markers) (inside, h) =
    rw (inside, valid_markers_of_All n markers h) refl

pub Checked-cases :
    {A : Type 0} (c : Checked A)
    → ((e : GroundingError) × (c ≡ rejected e)) ⊎ ((a : A) × (c ≡ passed a))
Checked-cases (rejected e) = inl (e, refl)
Checked-cases (passed a) = inr (a, refl)

pub rejected-ne-passed :
    {A : Type 0} {e : GroundingError} {a : A} → ◌≡◌ {A = Checked A} (rejected e) (passed a) → ⊥
rejected-ne-passed e = cc

pub passed-inj : {A : Type 0} {a b : A} → ◌≡◌ {A = Checked A} (passed a) (passed b) → a ≡ b
passed-inj e = cc

module _ (find_citation_markers : String → List ℕ) where
  -- Every marker of the block is the number of a citation, and evidence has a marker.
  abbrev pub IsGrounded : ℕ → ParsedAnswerBlock → Type 0
  IsGrounded n b =
      All (λ m. in_range n m ≡ true) (find_citation_markers b.text)
      × (is_evidence b.block_type ≡ true → 0 < length (find_citation_markers b.text))

  pub assert_answer_block_grounded-IsGrounded :
      (b : ParsedAnswerBlock) (n : ℕ) (text : String)
      → assert_answer_block_grounded find_citation_markers b n ≡ passed text
      → IsGrounded n b × (b.text ≡ text)
  unfolding assert_answer_block_grounded
  assert_answer_block_grounded-IsGrounded b n text e =
      let markers = find_citation_markers b.text in
      let valid = valid_markers n markers in
      elim (Bool-cases (ltb (length valid) (length markers))) [
        | inl dropped ↦ absurd (rejected-ne-passed (rw dropped at e))
        | inr all ↦ elim (Bool-cases (is_evidence b.block_type && length valid == 0)) [
          | inl missing ↦ absurd (rejected-ne-passed (rw (all, missing) at e))
          | inr cited ↦ (
            (
              valid_markers-All n markers (ground (arith, all)),
              λ is. ground (arith, is, all, cited, valid_markers-le n markers),
            ),
            passed-inj (rw (all, cited) at e),
          )
        ]
      ]

  pub assert_answer_block_grounded_of_IsGrounded :
      (b : ParsedAnswerBlock) (n : ℕ)
      → IsGrounded n b
      → assert_answer_block_grounded find_citation_markers b n ≡ passed b.text
  unfolding assert_answer_block_grounded
  assert_answer_block_grounded_of_IsGrounded b n (inside, cited) =
      rw (valid_markers_of_All n (find_citation_markers b.text) inside) (ground (arith, cited))
