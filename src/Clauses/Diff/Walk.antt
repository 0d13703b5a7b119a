-- ===== src/Clauses/Diff/Walk.antt =====
-- The segments of the line diff: they spell both texts, and no diff keeps more lines.
use senecial.Base.{
  ℕ, suc, ◌≤◌, String, ◌≡◌, refl, ap, ◌∙◌, List, [], ◌∷◌, map, length, leb, str_eq, eq_iff, arith,
  Bool-cases, inl, inr,
}
use senecial.Clauses.Diff.{
  same, added, removed, LineDiffSegment, segment, cell, row_of, rows_below, lcs_table, walk,
  diff_lines,
}
use senecial.Clauses.Diff.Table.{
  lcs_length, Subsequence, drop, drop-suc, cell-lengths-drop, lcs_table-lengths, lcs_length-max,
}

-- The lines of the standard text that segments show, those of the clause, and those of both.
abbrev pub standard_lines : List LineDiffSegment → List String
standard_lines [] = []
standard_lines (s ∷ segments) = elim s.segment_type [
  | same ↦ s.text ∷ standard_lines segments
  | added ↦ standard_lines segments
  | removed ↦ s.text ∷ standard_lines segments
]

abbrev pub clause_lines : List LineDiffSegment → List String
clause_lines [] = []
clause_lines (s ∷ segments) = elim s.segment_type [
  | same ↦ s.text ∷ clause_lines segments
  | added ↦ s.text ∷ clause_lines segments
  | removed ↦ clause_lines segments
]

abbrev pub same_lines : List LineDiffSegment → List String
same_lines [] = []
same_lines (s ∷ segments) = elim s.segment_type [
  | same ↦ s.text ∷ same_lines segments
  | added ↦ same_lines segments
  | removed ↦ same_lines segments
]

standard-added : (b : List String) → standard_lines (map (segment added) b) ≡ []
standard-added [] = refl
standard-added (y ∷ b) = standard-added b

clause-added : (b : List String) → clause_lines (map (segment added) b) ≡ b
clause-added [] = refl
clause-added (y ∷ b) = rw (clause-added b) refl

same-added : (b : List String) → same_lines (map (segment added) b) ≡ []
same-added [] = refl
same-added (y ∷ b) = same-added b

standard-removed : (a : List String) → standard_lines (map (segment removed) a) ≡ a
standard-removed [] = refl
standard-removed (x ∷ a) = rw (standard-removed a) refl

clause-removed : (a : List String) → clause_lines (map (segment removed) a) ≡ []
clause-removed [] = refl
clause-removed (x ∷ a) = clause-removed a

same-removed : (a : List String) → same_lines (map (segment removed) a) ≡ []
same-removed [] = refl
same-removed (x ∷ a) = same-removed a

-- Whatever the table holds, the segments spell both texts.
walk-texts :
    (a b : List String) (j : ℕ) (lcs : List (List ℕ))
    → (standard_lines (walk a b j lcs) ≡ a) × (clause_lines (walk a b j lcs) ≡ b)
unfolding walk
walk-texts [] b j lcs = (standard-added b, clause-added b)
walk-texts (x ∷ a) [] j lcs = (standard-removed (x ∷ a), clause-removed a)
walk-texts (x ∷ a) (y ∷ b) j lcs = elim (Bool-cases (str_eq x y)) [
  | inl e ↦
      let (olds, news) = walk-texts a b (suc j) (rows_below lcs) in
      rw (e, walk) (ap (λ l. x ∷ l) olds, rw (news, (eq_iff x y).0 e) refl)
  | inr ne ↦
      elim (Bool-cases (leb (cell (row_of lcs) (suc j)) (cell (row_of (rows_below lcs)) j))) [
        | inl down ↦
            let (olds, news) = walk-texts a (y ∷ b) j (rows_below lcs) in
            rw (ne, down, walk) (ap (λ l. x ∷ l) olds, news)
        | inr right ↦
            let (olds, news) = walk-texts (x ∷ a) b (suc j) lcs in
            rw (ne, right, walk) (olds, ap (λ l. y ∷ l) news)
      ]
]

lcs_length-here :
    (a whole : List String) (j : ℕ) {b : List String}
    → drop j whole ≡ b
    → cell (row_of (lcs_table a whole)) j ≡ lcs_length a b
lcs_length-here a whole j e =
    rw (lcs_table-lengths a whole) (cell-lengths-drop a whole j ∙ ap (lcs_length a) e)

lcs_length-next :
    (a whole : List String) (j : ℕ) {y : String} {b : List String}
    → drop j whole ≡ y ∷ b
    → cell (row_of (lcs_table a whole)) (suc j) ≡ lcs_length a b
lcs_length-next a whole j e = lcs_length-here a whole (suc j) (drop-suc j whole e)

-- As many lines are kept as the table says; `whole` is the clause and `b` what is left of it.
length-same-walk :
    (a b whole : List String) (j : ℕ)
    → drop j whole ≡ b
    → length (same_lines (walk a b j (lcs_table a whole))) ≡ lcs_length a b
unfolding walk lcs_table
length-same-walk [] b whole j e = rw (same-added b) refl
length-same-walk (x ∷ a) [] whole j e = rw (same-removed a) refl
length-same-walk (x ∷ a) (y ∷ b) whole j e = elim (Bool-cases (str_eq x y)) [
  | inl eq ↦ rw (eq, walk) (omega (arith, length-same-walk a b whole (suc j) (drop-suc j whole e)))
  | inr ne ↦
      let here = lcs_length-next (x ∷ a) whole j e in
      let below = lcs_length-here a whole j e in
      elim (Bool-cases (
        leb (cell (row_of (lcs_table (x ∷ a) whole)) (suc j))
          (cell (row_of (lcs_table a whole)) j))) [
            | inl down ↦
                rw (ne, down, walk)
                  (ground (arith, length-same-walk a (y ∷ b) whole j e, here, below, down))
            | inr right ↦
                rw (ne, right, walk)
                  (ground (
                    arith,
                    length-same-walk (x ∷ a) b whole (suc j) (drop-suc j whole e),
                    here,
                    below,
                    right,
                  ))
          ]
]

-- The segments spell the two texts: those that are not added are the lines of the standard text in
-- their order, and those that are not removed are the lines of the clause.
pub diff_lines-texts :
    (clause standard : List String)
    → (standard_lines (diff_lines clause standard) ≡ standard)
      × (clause_lines (diff_lines clause standard) ≡ clause)
unfolding diff_lines
diff_lines-texts clause standard = walk-texts standard clause 0 (lcs_table standard clause)

-- The diff keeps as much as can be kept: lines that stand in both texts, in their order, are never more than
-- the lines that it shows as the same.
pub diff_lines-smallest :
    (clause standard common : List String)
    → Subsequence common standard
    → Subsequence common clause
    → length common ≤ length (same_lines (diff_lines clause standard))
unfolding diff_lines
diff_lines-smallest clause standard common s t =
    rw (length-same-walk standard clause clause 0 refl) (lcs_length-max standard clause common s t)
