-- ===== src/Answers/Grounding/Whole.antt =====
-- Which answers are let through.
use Prim.Native.String.{slice, len}
use text.Mathlib.Text.{starts_with}
use mathlib.Core.Path.{subst}
use senecial.Base.{
  ℕ, ◌<◌, String, Bool, true, false, ◌&&◌, ◌||◌, not, ◌≡◌, ◌↔◌, refl, sym, ap, ap₂, ◌∙◌, List, [],
  ◌∷◌, map, length, ◌==◌, All, if◌then◌else◌, arith, Bool-cases, inl, inr,
}
use senecial.Answers.Grounding.{
  in_range, is_evidence, Checked, passed, parse_answer_block, assert_answer_block_grounded,
  strip_paragraphs, join, assert_answer_grounded,
}
use senecial.Answers.Grounding.Blocks.{
  Checked-cases, rejected-ne-passed, passed-inj, IsGrounded,
  assert_answer_block_grounded-IsGrounded, assert_answer_block_grounded_of_IsGrounded,
}

-- A paragraph needs a marker unless it starts with the tag of a conclusion or of an action; the order in
-- which the tags are tried matters only to texts that start with two of them.
abbrev pub needs_marker : String → Bool
needs_marker p =
    not (starts_with p "[결론]") && (starts_with p "[근거]" || not (starts_with p "[확인사항]"))

module _ (find_citation_markers : String → List ℕ) (skip_blanks : String → String) where
  abbrev strip : List String → ℕ → Checked (List String)
  strip = strip_paragraphs find_citation_markers skip_blanks

  abbrev Passes : ℕ → String → Type 0
  Passes n p = IsGrounded find_citation_markers n (parse_answer_block skip_blanks p)

  abbrev parsed_text : String → String
  parsed_text p = (parse_answer_block skip_blanks p).text

  strip_paragraphs-Passes :
      (paragraphs : List String) (n : ℕ) (texts : List String)
      → strip paragraphs n ≡ passed texts
      → All (Passes n) paragraphs × (map parsed_text paragraphs ≡ texts)
  unfolding strip_paragraphs
  strip_paragraphs-Passes [] n texts e = (tt, passed-inj e)
  strip_paragraphs-Passes (p ∷ paragraphs) n texts e =
      let b = parse_answer_block skip_blanks p in
      elim (Checked-cases (assert_answer_block_grounded find_citation_markers b n)) [
        | inl (error, e') ↦ absurd (rejected-ne-passed (rw (e', strip_paragraphs) at e))
        | inr (text, e') ↦ elim (Checked-cases (strip paragraphs n)) [
          | inl (error, e'') ↦ absurd (rejected-ne-passed (rw (e', e'', strip_paragraphs) at e))
          | inr (rest, e'') ↦
              let (grounded, same) =
                assert_answer_block_grounded-IsGrounded find_citation_markers b n text e' in
              let (all, others) = strip_paragraphs-Passes paragraphs n rest e'' in
              (
                (grounded, all),
                rw (same, others) (passed-inj (rw (e', e'', strip_paragraphs) at e)),
              )
        ]
      ]

  strip_paragraphs_of_Passes :
      (paragraphs : List String) (n : ℕ)
      → All (Passes n) paragraphs
      → strip paragraphs n ≡ passed (map parsed_text paragraphs)
  unfolding strip_paragraphs
  strip_paragraphs_of_Passes [] n h = refl
  strip_paragraphs_of_Passes (p ∷ paragraphs) n (grounded, all) =
      rw
        (
          assert_answer_block_grounded_of_IsGrounded find_citation_markers
              (parse_answer_block skip_blanks p) n grounded,
          strip_paragraphs_of_Passes paragraphs n all,
          strip_paragraphs,
        )
        refl

  -- The text of a paragraph after the first of these tags that it starts with, if any.
  abbrev without_tag : List String → String → String
  without_tag [] p = p
  without_tag (tag ∷ tags) p =
      let rest = without_tag tags p in
      if starts_with p tag then skip_blanks (slice p (len tag) (len p)) else rest

  abbrev pub text_of : String → String
  text_of = without_tag ("[결론]" ∷ "[근거]" ∷ "[확인사항]" ∷ [])

  abbrev IsCited : ℕ → String → Bool → Type 0
  IsCited n text needs =
      All (λ m. in_range n m ≡ true) (find_citation_markers text)
      × (needs ≡ true → 0 < length (find_citation_markers text))

  -- Every marker of the paragraph is the number of a citation, and there is one where it needs one.
  abbrev pub Grounded : ℕ → String → Type 0
  Grounded n p = IsCited n (text_of p) (needs_marker p)

  parse_answer_block-tags :
      (p : String)
      → ((parse_answer_block skip_blanks p).text ≡ text_of p)
        × (is_evidence (parse_answer_block skip_blanks p).block_type ≡ needs_marker p)
  unfolding parse_answer_block
  parse_answer_block-tags p = elim (Bool-cases (starts_with p "[결론]")) [
    | inl h ↦ rw (h, parse_answer_block) (refl, refl)
    | inr h ↦ elim (Bool-cases (starts_with p "[근거]")) [
      | inl h' ↦ rw (h, h', parse_answer_block) (refl, refl)
      | inr h' ↦ elim (Bool-cases (starts_with p "[확인사항]")) [
        | inl h'' ↦ rw (h, h', h'', parse_answer_block) (refl, refl)
        | inr h'' ↦ rw (h, h', h'', parse_answer_block) (refl, refl)
      ]
    ]
  ]

  to_paragraphs :
      (n : ℕ) (paragraphs : List String) → All (Passes n) paragraphs → All (Grounded n) paragraphs
  to_paragraphs n [] h = tt
  to_paragraphs n (p ∷ paragraphs) (h, hs) =
      let (text, needs) = parse_answer_block-tags p in
      let b = parse_answer_block skip_blanks p in
      (
        subst (λ t. IsCited n t (needs_marker p)) text (subst (λ e. IsCited n b.text e) needs h),
        to_paragraphs n paragraphs hs,
      )

  from_paragraphs :
      (n : ℕ) (paragraphs : List String) → All (Grounded n) paragraphs → All (Passes n) paragraphs
  from_paragraphs n [] h = tt
  from_paragraphs n (p ∷ paragraphs) (h, hs) =
      let (text, needs) = parse_answer_block-tags p in
      let b = parse_answer_block skip_blanks p in
      (
        subst (λ t. IsCited n t (is_evidence b.block_type)) (sym text)
            (subst (λ e. IsCited n (text_of p) e) (sym needs) h),
        from_paragraphs n paragraphs hs,
      )

  same_texts : (paragraphs : List String) → map parsed_text paragraphs ≡ map text_of paragraphs
  same_texts [] = refl
  same_texts (p ∷ paragraphs) =
      ap₂ (λ t ts. t ∷ ts) (parse_answer_block-tags p).0 (same_texts paragraphs)

  -- An answer is let through, as the text `out`, exactly where there is a citation and a paragraph,
  -- every marker of every paragraph is the number of a citation, each paragraph has a marker that has no
  -- tag or starts with the tag of evidence, and `out` is the paragraphs without their tags, joined by
  -- blank lines.
  pub assert_answer_grounded_iff :
      (paragraphs_of : String → List String) (answer_text : String) (citation_count : ℕ)
      (out : String)
      → (assert_answer_grounded find_citation_markers skip_blanks paragraphs_of answer_text
            citation_count
          ≡ passed out)
        ↔ ((0 < citation_count)
            × (0 < length (paragraphs_of answer_text))
            × All (Grounded citation_count) (paragraphs_of answer_text)
            × (join (map text_of (paragraphs_of answer_text)) ≡ out))
  unfolding assert_answer_grounded
  assert_answer_grounded_iff paragraphs_of answer_text citation_count out =
      let paragraphs = paragraphs_of answer_text in
      (
        λ e. elim (Bool-cases (citation_count == 0)) [
          | inl none_given ↦ absurd (rejected-ne-passed (rw none_given at e))
          | inr some_given ↦ elim (Bool-cases (length paragraphs == 0)) [
            | inl empty ↦ absurd (rejected-ne-passed (rw (some_given, empty) at e))
            | inr full ↦ elim (Checked-cases (strip paragraphs citation_count)) [
              | inl (error, e') ↦
                  absurd
                    (rejected-ne-passed (rw (some_given, full, e', assert_answer_grounded) at e))
              | inr (texts, e') ↦
                  let (all, same) = strip_paragraphs-Passes paragraphs citation_count texts e' in
                  (
                    ground (arith, some_given),
                    ground (arith, full),
                    to_paragraphs citation_count paragraphs all,
                    ap join (sym (same_texts paragraphs))
                        ∙ ap join same
                        ∙ passed-inj (rw (some_given, full, e', assert_answer_grounded) at e),
                  )
            ]
          ]
        ],
        λ (given, full, all, same).
            let some_given : (citation_count == 0) ≡ false = ground (arith, given) in
            let not_empty : (length paragraphs == 0) ≡ false = ground (arith, full) in
            rw
              (
                some_given,
                not_empty,
                strip_paragraphs_of_Passes paragraphs citation_count
                    (from_paragraphs citation_count paragraphs all),
                assert_answer_grounded,
              )
              (ap (λ t. passed t) (ap join (same_texts paragraphs) ∙ same)),
      )
