-- ===== src/Answers/Grounding.antt =====
-- src/domain/ai/citation-required.ts. The regular expressions are the runtime's: the paragraphs of a
-- text, the numbers of the markers in it and the text after leading blanks are parameters. Of the
-- citations only their number matters.
pub mod Blocks
pub mod Whole
pub mod Tests
use Prim.Native.String.{slice, len, ◌++◌}
use text.Mathlib.Text.{starts_with}
use senecial.Base.{
  ℕ, suc, String, Bool, true, false, ◌&&◌, List, [], ◌∷◌, length, ltb, leb, ◌==◌, if◌then◌else◌,
}

pub data AnswerBlockType : Type 0 where
  conclusion evidence action : AnswerBlockType

pub record ParsedAnswerBlock : Type 0 where
  pub block_type : AnswerBlockType
  pub text : String

-- The message and the reason of an `AiGroundingError`.
pub data GroundingError : Type 0 where
  no_citations empty_answer unknown_citation_marker missing_required_citation : GroundingError

pub data Checked (A : Type 0) : Type 0 where
  passed : A → Checked A
  rejected : GroundingError → Checked A

abbrev pub conclusion_tag : String
conclusion_tag = "[결론]"

abbrev pub evidence_tag : String
evidence_tag = "[근거]"

abbrev pub action_tag : String
action_tag = "[확인사항]"

abbrev pub block : AnswerBlockType → String → ParsedAnswerBlock
block t text = record { block_type = t; text = text }

abbrev pub after_tag : String → String → String
after_tag tag paragraph = slice paragraph (len tag) (len paragraph)

module _ (skip_blanks : String → String) where
  unfoldable pub parse_answer_block : String → ParsedAnswerBlock
  parse_answer_block paragraph =
      if starts_with paragraph conclusion_tag
      then block conclusion (skip_blanks (after_tag conclusion_tag paragraph))
      else if starts_with paragraph evidence_tag
      then block evidence (skip_blanks (after_tag evidence_tag paragraph))
      else if starts_with paragraph action_tag
      then block action (skip_blanks (after_tag action_tag paragraph))
      else block evidence paragraph

abbrev pub in_range : ℕ → ℕ → Bool
in_range citation_count index = leb 1 index && leb index citation_count

-- `markers.filter((marker) => marker.index >= 1 && marker.index <= citations.length)`
unfoldable pub valid_markers : ℕ → List ℕ → List ℕ
valid_markers citation_count [] = []
valid_markers citation_count (m ∷ markers) =
    let rest = valid_markers citation_count markers in
    if in_range citation_count m then m ∷ rest else rest

abbrev pub is_evidence : AnswerBlockType → Bool
is_evidence evidence = true
is_evidence _ = false

-- `join("\n\n")`
unfoldable pub join : List String → String
join [] = ""
join (t ∷ []) = t
join (t ∷ u ∷ texts) = t ++ "\n\n" ++ join (u ∷ texts)

module _ (find_citation_markers : String → List ℕ) where
  -- `passed` carries the text of the block.
  unfoldable pub assert_answer_block_grounded : ParsedAnswerBlock → ℕ → Checked String
  unfolding valid_markers
  assert_answer_block_grounded b citation_count =
      let markers = find_citation_markers b.text in
      let valid = valid_markers citation_count markers in
      if ltb (length valid) (length markers)
      then rejected unknown_citation_marker
      else if is_evidence b.block_type && length valid == 0
      then rejected missing_required_citation
      else passed b.text

  module _ (skip_blanks : String → String) where
    -- The loop over the paragraphs, which stops at the first that is rejected.
    unfoldable pub strip_paragraphs : List String → ℕ → Checked (List String)
    unfolding parse_answer_block assert_answer_block_grounded
    strip_paragraphs [] citation_count = passed []
    strip_paragraphs (p ∷ paragraphs) citation_count =
        let rest = strip_paragraphs paragraphs citation_count in
        elim (assert_answer_block_grounded (parse_answer_block skip_blanks p) citation_count) [
          | rejected e ↦ rejected e
          | passed text ↦ elim rest [
            | rejected e ↦ rejected e
            | passed texts ↦ passed (text ∷ texts)
          ]
        ]

    module _ (paragraphs_of : String → List String) where
      unfoldable pub assert_answer_grounded : String → ℕ → Checked String
      unfolding strip_paragraphs join
      assert_answer_grounded answer_text citation_count =
          let paragraphs = paragraphs_of answer_text in
          if citation_count == 0
          then rejected no_citations
          else if length paragraphs == 0
          then rejected empty_answer
          else elim (strip_paragraphs paragraphs citation_count) [
            | rejected e ↦ rejected e
            | passed texts ↦ passed (join texts)
          ]
