-- ===== src/Answers/Grounding/Tests.antt =====
-- An answer of two paragraphs.
use senecial.Base.{
  ℕ, ◌<◌, String, ◌≡◌, ◌↔◌, refl, List, [], ◌∷◌, map, length, All, str_eq, if◌then◌else◌,
}
use senecial.Answers.Grounding.{
  passed, rejected, unknown_citation_marker, missing_required_citation, assert_answer_grounded,
  join,
}
use senecial.Answers.Grounding.Whole.{Grounded, text_of, assert_answer_grounded_iff}

-- The markers of the texts below.
abbrev markers : String → List ℕ
markers text = if str_eq text "fee [출처: 1]" then 1 ∷ [] else []

-- No blanks follow the tags below.
abbrev blanks : String → String
blanks text = text

abbrev split : String → List String
split text = if str_eq text "answer" then "[결론]yes" ∷ "[근거]fee [출처: 1]" ∷ [] else text ∷ []

let_through : assert_answer_grounded markers blanks split "answer" 2 ≡ passed "yes\n\nfee [출처: 1]"
unfolding assert_answer_grounded
let_through = refl

uncited :
    assert_answer_grounded markers blanks split "no source" 2 ≡ rejected missing_required_citation
unfolding assert_answer_grounded
uncited = refl

unknown :
    assert_answer_grounded (λ text. 3 ∷ []) blanks split "[결론]yes" 2
    ≡ rejected unknown_citation_marker
unfolding assert_answer_grounded
unknown = refl

assert_answer_grounded_iff_example :
    (assert_answer_grounded markers blanks split "answer" 2 ≡ passed "yes\n\nfee [출처: 1]") ↔ (
      (0 < 2)
      × (0 < length (split "answer"))
      × All (Grounded markers blanks 2) (split "answer")
      × (join (map (text_of markers blanks) (split "answer")) ≡ "yes\n\nfee [출처: 1]"))
assert_answer_grounded_iff_example =
    assert_answer_grounded_iff markers blanks split "answer" 2 "yes\n\nfee [출처: 1]"
