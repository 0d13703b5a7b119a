-- ===== src/Clauses/Diff/Tests.antt =====
-- The line diff on two short clauses.
use senecial.Base.{◌≤◌, ◌≡◌, refl, String, List, [], ◌∷◌, length}
use senecial.Clauses.Diff.{same, added, removed, segment, diff_lines, compute_line_similarity}
use senecial.Clauses.Diff.Table.{nothing, skip, keep}
use senecial.Clauses.Diff.Walk.{
  standard_lines, clause_lines, same_lines, diff_lines-texts, diff_lines-smallest,
}

abbrev standard : List String
standard = "term" ∷ "notice" ∷ "liability" ∷ []

abbrev clause : List String
clause = "notice" ∷ "fee" ∷ "liability" ∷ "term" ∷ []

abbrev common : List String
common = "notice" ∷ "liability" ∷ []

shown :
    diff_lines clause standard
    ≡ segment removed "term"
      ∷ segment same "notice"
      ∷ segment added "fee"
      ∷ segment same "liability"
      ∷ segment added "term"
      ∷ []
unfolding diff_lines
shown = refl

ratio : compute_line_similarity clause standard ≡ (2, 5)
unfolding compute_line_similarity
ratio = refl

diff_lines-texts_example :
    (standard_lines (diff_lines clause standard) ≡ standard)
    × (clause_lines (diff_lines clause standard) ≡ clause)
diff_lines-texts_example = diff_lines-texts clause standard

diff_lines-smallest_example : length common ≤ length (same_lines (diff_lines clause standard))
diff_lines-smallest_example =
    diff_lines-smallest clause standard common (skip (keep (keep nothing)))
      (keep (skip (keep (skip nothing))))
