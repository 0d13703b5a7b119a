-- ===== src/Clauses/Diff/Similarity.antt =====
-- The ratio that the line diff gives: at most one, and one for equal texts only.
use mathlib.Core.Path.{subst}
use senecial.Base.{
  ℕ, suc, ◌+◌, ◌-◌, ◌≤◌, String, ◌≡◌, refl, sym, ap, ◌∙◌, ◌↔◌, List, [], ◌∷◌, length, eq_refl, ◌==◌,
  ◌&&◌, arith, Bool-cases, ◌⊎◌, inl, inr,
}
use senecial.Clauses.Diff.{
  SegmentType, same, added, removed, LineDiffSegment, rows_below, lcs_table, walk, diff_lines,
  same_count, compute_line_similarity,
}
use senecial.Clauses.Diff.Walk.{standard_lines, clause_lines, diff_lines-texts}

type-cases : (t : SegmentType) → (t ≡ same) ⊎ ((t ≡ added) ⊎ (t ≡ removed))
type-cases same = inl refl
type-cases added = inr (inl refl)
type-cases removed = inr (inr refl)

same_count-le :
    (s : List LineDiffSegment)
    → (same_count s ≤ length (standard_lines s)) × (same_count s ≤ length (clause_lines s))
unfolding same_count
same_count-le [] = (omega arith, omega arith)
same_count-le (s ∷ segments) = ground (arith, same_count-le segments)

-- Where every line of both sides is shown as the same, the sides are equal.
same_count-all :
    (s : List LineDiffSegment)
    → same_count s ≡ length (standard_lines s)
    → same_count s ≡ length (clause_lines s)
    → standard_lines s ≡ clause_lines s
unfolding same_count
same_count-all [] e f = refl
same_count-all (s ∷ segments) e f = elim (type-cases s.segment_type) [
  | inl is_same ↦ rw is_same (
      ap (λ l. s.text ∷ l)
        (same_count-all segments (omega (arith, rw is_same at e)) (omega (arith, rw is_same at f))))
  | inr (inl is_added) ↦
      absurd (ground (arith, rw is_added at f, rw is_added at e, same_count-le segments))
  | inr (inr is_removed) ↦
      absurd (ground (arith, rw is_removed at f, rw is_removed at e, same_count-le segments))
]

walk_self : (a : List String) (j : ℕ) (lcs : List (List ℕ)) → same_count (walk a a j lcs) ≡ length a
unfolding walk same_count
walk_self [] j lcs = refl
walk_self (x ∷ a) j lcs =
    rw (eq_refl x, walk) (ap (λ n. suc n) (walk_self a (suc j) (rows_below lcs)))

no_lines : (a : List String) → length a ≡ 0 → a ≡ []
no_lines [] e = refl
no_lines (x ∷ a) e = absurd (ground arith)

module _ (clause standard : List String) where
  segments : List LineDiffSegment
  segments = diff_lines clause standard

  counts : (same_count segments ≤ length standard) × (same_count segments ≤ length clause)
  unfolding segments
  counts =
      let (olds, news) = diff_lines-texts clause standard in
      let (below, above) = same_count-le segments in
      (
        subst (λ l. same_count segments ≤ length l) olds below,
        subst (λ l. same_count segments ≤ length l) news above,
      )

  all_same :
      same_count segments ≡ length standard
      → same_count segments ≡ length clause
      → clause ≡ standard
  unfolding segments
  all_same e f =
      let (olds, news) = diff_lines-texts clause standard in
      sym news
      ∙ sym (same_count-all segments (e ∙ ap length (sym olds)) (f ∙ ap length (sym news)))
      ∙ olds

  self : clause ≡ standard → same_count segments ≡ length standard
  unfolding segments diff_lines
  self e =
      subst (λ c. same_count (diff_lines c standard) ≡ length standard) (sym e)
        (walk_self standard 0 (lcs_table standard standard))

  -- The similarity of two texts is a ratio of at most one, and it is one exactly for equal lines.
  compute_line_similarity-le :
      let (count, total) = compute_line_similarity clause standard in
      (count ≤ total) × ((count ≡ total) ↔ (clause ≡ standard))
  unfolding compute_line_similarity segments
  compute_line_similarity-le = elim (Bool-cases (length standard == 0 && length clause == 0)) [
    | inl empty ↦ rw empty (
      omega arith,
      (
        λ e.
            no_lines clause (ground (arith, empty))
            ∙ sym (no_lines standard (ground (arith, empty))),
        λ e. refl,
      ),
    )
    | inr lines ↦ elim (Bool-cases (length standard + length clause - same_count segments == 0)) [
      | inl none_left ↦ absurd (ground (arith, counts, lines, none_left))
      | inr total ↦
          rw (lines, total)
            (
              omega (arith, counts.0, counts.1),
              (
                λ e.
                    all_same (omega (arith, counts.0, counts.1, e))
                      (omega (arith, counts.0, counts.1, e)),
                λ e. omega (arith, self e, ap length e, counts.0),
              ),
            )
    ]
  ]
