-- ===== src/Clauses/Diff.antt =====
-- src/domain/clauses/clause-diff.ts from the lines on: `a` are the lines of the standard text and `b` those
-- of the clause, as `splitLines` makes them. A pointer into a text is the lines that are left of it, a
-- row of the table is a list, and of the rows those from the pointer on are kept.
pub mod Table
pub mod Walk
pub mod Similarity
pub mod Tests
use senecial.Base.{
  ℕ, zero, suc, ◌+◌, ◌-◌, max, String, Bool, true, false, List, [], ◌∷◌, map, length, leb, ◌==◌,
  ◌&&◌, str_eq, if◌then◌else◌,
}

pub data SegmentType : Type 0 where
  same added removed : SegmentType

pub record LineDiffSegment : Type 0 where
  pub segment_type : SegmentType
  pub text : String

abbrev pub segment : SegmentType → String → LineDiffSegment
segment t text = record { segment_type = t; text = text }

-- `row[j]`, inside the row
abbrev pub cell : List ℕ → ℕ → ℕ
cell [] j = 0
cell (n ∷ row) zero = n
cell (n ∷ row) (suc j) = cell row j

abbrev pub later : List ℕ → List ℕ
later [] = []
later (n ∷ row) = row

-- The row of `lcs` for a line `x`, from the row below it, from right to left.
unfoldable pub lcs_row : String → List String → List ℕ → List ℕ
lcs_row x [] below = 0 ∷ []
lcs_row x (y ∷ b) below =
    let row = lcs_row x b (later below) in
    (if str_eq x y then cell below 1 + 1 else max (cell below 0) (cell row 0)) ∷ row

unfoldable pub zeros : List String → List ℕ
zeros [] = 0 ∷ []
zeros (y ∷ b) = 0 ∷ zeros b

abbrev pub row_of : List (List ℕ) → List ℕ
row_of [] = []
row_of (row ∷ rows) = row

abbrev pub rows_below : List (List ℕ) → List (List ℕ)
rows_below [] = []
rows_below (row ∷ rows) = rows

-- The table `lcs`, from the last row up.
unfoldable pub lcs_table : List String → List String → List (List ℕ)
unfolding lcs_row zeros
lcs_table [] b = zeros b ∷ []
lcs_table (x ∷ a) b = let rows = lcs_table a b in lcs_row x b (row_of rows) ∷ rows

-- The loops that make the segments; `j` and the first row are where the pointers stand.
unfoldable pub walk : List String → List String → ℕ → List (List ℕ) → List LineDiffSegment
walk [] b j lcs = map (segment added) b
walk (x ∷ a) [] j lcs = map (segment removed) (x ∷ a)
walk (x ∷ a) (y ∷ b) j lcs = elim (str_eq x y) [
  | true ↦ segment same x ∷ walk a b (suc j) (rows_below lcs)
  | false ↦ elim (leb (cell (row_of lcs) (suc j)) (cell (row_of (rows_below lcs)) j)) [
    | true ↦ segment removed x ∷ walk a (y ∷ b) j (rows_below lcs)
    | false ↦ segment added y ∷ walk (x ∷ a) b (suc j) lcs
  ]
]

unfoldable pub diff_lines : List String → List String → List LineDiffSegment
unfolding lcs_table walk
diff_lines b a = walk a b 0 (lcs_table a b)

-- `segments.filter((s) => s.type === "same").length`
unfoldable pub same_count : List LineDiffSegment → ℕ
same_count [] = 0
same_count (s ∷ segments) = elim s.segment_type [
  | same ↦ suc (same_count segments)
  | added ↦ same_count segments
  | removed ↦ same_count segments
]

-- `computeLineSimilarity`; the ratio is its two numbers.
unfoldable pub compute_line_similarity : List String → List String → ℕ × ℕ
unfolding diff_lines same_count
compute_line_similarity b a =
    if length a == 0 && length b == 0
    then (1, 1)
    else let count = same_count (diff_lines b a) in
      let total = length a + length b - count in if total == 0 then (1, 1) else (count, total)
