-- ===== src/Clauses/Patterns.antt =====
-- src/domain/clauses/clause-number-patterns.ts. A line is the list of its UTF-16 units.
pub mod Bounds
use mathlib.Core.Option
use senecial.Base.{
  ℕ, Bool, false, Option, none, some, List, [], ◌∷◌, ◌++◌, leb, ◌==◌, ◌&&◌, ◌||◌, not,
  if◌then◌else◌, take, is_white, trim,
}
use senecial.Clauses.Expressions.{
  je, jo, hang, date_like_line, amount_like_line, contract_number_like_line, article_pattern,
  paragraph_pattern, circled_number_pattern, numbered_item_pattern, korean_letter_item_pattern,
}
use senecial.Base.Regex.{
  Regex, chars, group, both, or, optional, edge, Match, matches, exec, test, group_at,
}

pub record ClauseNumberMatch : Type 0 where
  pub clause_number : List ℕ
  pub title : Option (List ℕ)
  pub depth : ℕ
  pub matched_length : ℕ

unfoldable pub is_false_positive_line : List ℕ → Bool
unfolding matches
is_false_positive_line trimmed =
    test date_like_line trimmed
    || test amount_like_line trimmed
    || test contract_number_like_line trimmed

-- A text that is not empty.
abbrev truthy : Option (List ℕ) → Option (List ℕ)
truthy none = none
truthy (some []) = none
truthy (some (c ∷ s)) = some (c ∷ s)

abbrev trimmed_title : Option (List ℕ) → Option (List ℕ)
unfolding trim
trimmed_title none = none
trimmed_title (some title) = truthy (some (trim title))

abbrev pub or_else : Option ClauseNumberMatch → Option ClauseNumberMatch → Option ClauseNumberMatch
or_else none later = later
or_else (some found) later = some found

-- `match?.[1]` is the number.
abbrev pub by_number : (Match → List ℕ → ClauseNumberMatch) → Match → Option ClauseNumberMatch
unfolding group_at
by_number f m = Option.map (f m) (truthy (group_at 1 m.groups))

abbrev pub article_of : Match → List ℕ → ClauseNumberMatch
unfolding group_at trimmed_title
article_of article number = record {
  clause_number = je ∷ number ++ jo ∷ [];
  title = trimmed_title (group_at 2 article.groups);
  depth = 0;
  matched_length = article.size;
}

abbrev pub paragraph_of : Match → List ℕ → ClauseNumberMatch
paragraph_of paragraph number = record {
  clause_number = je ∷ number ++ hang ∷ [];
  title = none;
  depth = 1;
  matched_length = paragraph.size;
}

abbrev pub circled_of : Match → List ℕ → ClauseNumberMatch
circled_of circled number = record {
  clause_number = number;
  title = none;
  depth = 1;
  matched_length = circled.size;
}

abbrev pub letter_of : Match → List ℕ → ClauseNumberMatch
letter_of letter number = record {
  clause_number = number ++ b'.' ∷ [];
  title = none;
  depth = 2;
  matched_length = letter.size;
}

unfoldable ends_with : ℕ → List ℕ → Bool
ends_with c [] = false
ends_with c (d ∷ []) = d == c
ends_with c (d ∷ e ∷ s) = ends_with c (e ∷ s)

-- "undefined", which a template shows for a group that took no part; one of the two always does.
abbrev digits_text : Option (List ℕ) → List ℕ
digits_text none = b'u' ∷ b'n' ∷ b'd' ∷ b'e' ∷ b'f' ∷ b'i' ∷ b'n' ∷ b'e' ∷ b'd' ∷ []
digits_text (some text) = text

abbrev pub numbered_of : List ℕ → Match → Option ClauseNumberMatch
unfolding group_at ends_with
numbered_of trimmed numbered = some (record {
  clause_number = elim (truthy (group_at 1 numbered.groups)) [
    | some number ↦ b'(' ∷ number ++ b')' ∷ []
    | none ↦
        digits_text (group_at 2 numbered.groups)
        ++ (if ends_with b')' (take numbered.size trimmed) then b')' else b'.') ∷ []
  ];
  title = none;
  depth = 1;
  matched_length = numbered.size;
})

abbrev pub of_exec : (Match → Option ClauseNumberMatch) → Regex → List ℕ → Option ClauseNumberMatch
unfolding matches
of_exec f r s = elim (exec r s) [ none ↦ none | some m ↦ f m ]

abbrev pub detect_trimmed : List ℕ → Option ClauseNumberMatch
unfolding is_false_positive_line
detect_trimmed [] = none
detect_trimmed (c ∷ s) =
    let trimmed = c ∷ s in
    if is_false_positive_line trimmed
    then none
    else or_else (of_exec (by_number article_of) article_pattern trimmed) (
        or_else (of_exec (by_number paragraph_of) paragraph_pattern trimmed) (
          or_else (of_exec (by_number circled_of) circled_number_pattern trimmed) (
            or_else (of_exec (numbered_of trimmed) numbered_item_pattern trimmed)
              (of_exec (by_number letter_of) korean_letter_item_pattern trimmed))))

unfoldable pub detect_clause_number_line : List ℕ → Option ClauseNumberMatch
unfolding trim is_false_positive_line matches group_at ends_with
detect_clause_number_line line = detect_trimmed (trim line)
