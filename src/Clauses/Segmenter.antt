-- ===== src/Clauses/Segmenter.antt =====
-- src/server/services/clauses/deterministic-korean-clause-segmenter.ts and
-- src/domain/clauses/offset-validation.ts. A text is the list of its UTF-16 units, and the loop over the
-- positions of "\n" runs over the lines. The method and the version
-- of the result are left out, and the texts of the warnings are constructors.
pub mod Slices
pub mod Lines
pub mod Offsets
pub mod Coverage
pub mod Parents
pub mod Tests
use senecial.Clauses.Patterns.{ClauseNumberMatch, detect_clause_number_line}
use senecial.Base.{
  is_white, leading_white, is_blank, trailing_white, ℕ, zero, suc, ◌+◌, ◌-◌, Bool, true, false,
  Option, none, some, List, [], ◌∷◌, ◌++◌, length, take, drop, slice, ltb, leb, ◌==◌, not, ◌&&◌,
  ◌||◌, map, if◌then◌else◌,
}

pub record OpenClause : Type 0 where
  pub clause_number : Option (List ℕ)
  pub title : Option (List ℕ)
  pub depth : ℕ
  pub start_offset : ℕ
  pub order_index : ℕ
  pub parent_order_index : Option ℕ

pub record SegmentedClause : Type 0 where
  pub clause_number : Option (List ℕ)
  pub title : Option (List ℕ)
  pub text : List ℕ
  pub order_index : ℕ
  pub depth : ℕ
  pub start_offset : ℕ
  pub end_offset : ℕ
  pub parent_order_index : Option ℕ

-- The variables of `segment`; the map by depth is an association list.
pub record Segmenter : Type 0 where
  pub clauses : List SegmentedClause
  pub open_by_depth : List (ℕ × OpenClause)
  pub current : Option OpenClause
  pub order_index : ℕ
  pub has_any_article : Bool

abbrev pub start : Segmenter
start = record {
  clauses = [];
  open_by_depth = [];
  current = none;
  order_index = 0;
  has_any_article = false;
}

unfoldable pub open_at : ℕ → List (ℕ × OpenClause) → Option OpenClause
open_at d [] = none
open_at d ((key, clause) ∷ rest) =
    let later = open_at d rest in if key == d then some clause else later

unfoldable pub find_parent_for_depth : List (ℕ × OpenClause) → ℕ → Option OpenClause
unfolding open_at
find_parent_for_depth open_by_depth zero = none
find_parent_for_depth open_by_depth (suc d) = elim (open_at d open_by_depth) [
  | some candidate ↦ some candidate
  | none ↦ find_parent_for_depth open_by_depth d
]

-- `openByDepth` without the depths from `depth` on.
unfoldable pub above : ℕ → List (ℕ × OpenClause) → List (ℕ × OpenClause)
above depth [] = []
above depth ((key, clause) ∷ rest) =
    let kept = above depth rest in if leb depth key then kept else (key, clause) ∷ kept

-- `openByDepth.set(depth, clause)`
unfoldable pub set_open : ℕ → OpenClause → List (ℕ × OpenClause) → List (ℕ × OpenClause)
set_open depth clause [] = (depth, clause) ∷ []
set_open depth clause ((key, other) ∷ rest) =
    let later = set_open depth clause rest in
    if key == depth then (key, clause) ∷ rest else (key, other) ∷ later

abbrev pub parent_index : Option OpenClause → Option ℕ
parent_index none = none
parent_index (some parent) = some parent.order_index

module _ (text : List ℕ) where
  abbrev pub closed : OpenClause → ℕ → SegmentedClause
  closed clause end_offset_raw =
      let raw_slice = slice text clause.start_offset end_offset_raw in
      let start_offset = clause.start_offset + leading_white raw_slice in
      let end_offset = end_offset_raw - trailing_white raw_slice in
      record {
        clause_number = clause.clause_number;
        title = clause.title;
        text = slice text start_offset end_offset;
        order_index = clause.order_index;
        depth = clause.depth;
        start_offset = start_offset;
        end_offset = end_offset;
        parent_order_index = clause.parent_order_index;
      }

  unfoldable pub close_current : ℕ → Segmenter → Segmenter
  unfolding is_blank leading_white trailing_white
  close_current end_offset_raw s = elim s.current [
    | none ↦ s
    | some clause ↦
        if is_blank (slice text clause.start_offset end_offset_raw)
        then record s { current = none }
        else record s { clauses = s.clauses ++ closed clause end_offset_raw ∷ []; current = none }
  ]

  -- A marker opens a clause behind its prefix.
  abbrev pub opened : ℕ → List ℕ → ClauseNumberMatch → Segmenter → OpenClause
  opened pos line found s = record {
    clause_number = some found.clause_number;
    title = found.title;
    depth = found.depth;
    start_offset = pos + leading_white line + found.matched_length;
    order_index = s.order_index;
    parent_order_index =
        if ltb 0 found.depth
        then parent_index (find_parent_for_depth s.open_by_depth found.depth)
        else none;
  }

  unfoldable pub open_clause : ℕ → List ℕ → ClauseNumberMatch → Segmenter → Segmenter
  unfolding find_parent_for_depth above set_open leading_white
  open_clause pos line found s = record s {
    has_any_article = found.depth == 0 || s.has_any_article;
    order_index = s.order_index + 1;
    open_by_depth =
        set_open found.depth (opened pos line found s) (above found.depth s.open_by_depth);
    current = some (opened pos line found s);
  }

  abbrev pub preamble : ℕ → Segmenter → OpenClause
  preamble pos s = record {
    clause_number = none;
    title = none;
    depth = 0;
    start_offset = pos;
    order_index = s.order_index;
    parent_order_index = none;
  }

  unfoldable pub open_preamble : ℕ → Segmenter → Segmenter
  unfolding set_open
  open_preamble pos s = record s {
    order_index = s.order_index + 1;
    open_by_depth = set_open 0 (preamble pos s) s.open_by_depth;
    current = some (preamble pos s);
  }

  module _ (detect : List ℕ → Option ClauseNumberMatch) where
    unfoldable pub scan_line : ℕ → List ℕ → Segmenter → Segmenter
    unfolding close_current open_clause open_preamble
    scan_line pos line s = elim (detect line) [
      | some found ↦ open_clause pos line found (close_current pos s)
      | none ↦ elim s.current [ none ↦ open_preamble pos s | some clause ↦ s ]
    ]

    unfoldable pub scan_lines : ℕ → List (List ℕ) → Segmenter → Segmenter
    unfolding scan_line
    scan_lines pos [] s = s
    scan_lines pos (line ∷ lines) s =
        scan_lines (pos + length line + 1) lines (scan_line pos line s)

-- The lines between the "\n".
unfoldable pub lines_of : List ℕ → List (List ℕ)
lines_of [] = [] ∷ []
lines_of (c ∷ s) = elim (lines_of s) [
  | [] ↦ []
  | line ∷ lines ↦ if c == 10 then [] ∷ line ∷ lines else (c ∷ line) ∷ lines
]

abbrev pub is_nested : SegmentedClause → Bool
is_nested clause = ltb 0 clause.depth

unfoldable pub some_nested : List SegmentedClause → Bool
some_nested [] = false
some_nested (clause ∷ clauses) = is_nested clause || some_nested clauses

abbrev pub flattened : SegmentedClause → SegmentedClause
flattened clause = record clause { depth = 0; parent_order_index = none }

pub record SegmentedSection : Type 0 where
  pub title : Option (List ℕ)
  pub section_type : Option (List ℕ)
  pub text : List ℕ
  pub order_index : ℕ
  pub start_offset : ℕ
  pub end_offset : ℕ

pub data SegmentationWarning : Type 0 where
  hierarchy_flattened no_clause_pattern : SegmentationWarning

pub record ClauseSegmentationResult : Type 0 where
  pub sections : List SegmentedSection
  pub clauses : List SegmentedClause
  pub warnings : List SegmentationWarning

-- The variables at the end of the loop, and whether the hierarchy is flattened.
abbrev pub scanned : List ℕ → Segmenter
unfolding scan_lines lines_of close_current detect_clause_number_line
scanned text =
    close_current text (length text)
      (scan_lines text detect_clause_number_line 0 (lines_of text) start)

abbrev pub is_flattened : Segmenter → Bool
unfolding some_nested
is_flattened s = not s.has_any_article && some_nested s.clauses

abbrev no_clause : List SegmentedClause → List SegmentationWarning
no_clause [] = no_clause_pattern ∷ []
no_clause (clause ∷ clauses) = []

unfoldable pub segment : List ℕ → ClauseSegmentationResult
unfolding scanned is_flattened
segment text =
    let s = scanned text in
    let final_clauses = if is_flattened s then map flattened s.clauses else s.clauses in
    record {
      sections =
          record {
            title = some (0xbcf8 ∷ 0xbb38 ∷ []);
            section_type = some (b'B' ∷ b'O' ∷ b'D' ∷ b'Y' ∷ []);
            text = text;
            order_index = 0;
            start_offset = 0;
            end_offset = length text;
          }
          ∷ [];
      clauses = final_clauses;
      warnings =
          (if is_flattened s then hierarchy_flattened ∷ [] else []) ++ no_clause final_clauses;
    }

-- The equality of two texts.
unfoldable pub same_text : List ℕ → List ℕ → Bool
same_text [] [] = true
same_text [] (d ∷ t) = false
same_text (c ∷ s) [] = false
same_text (c ∷ s) (d ∷ t) = c == d && same_text s t

-- Offsets are natural numbers.
unfoldable pub is_offset_range_valid : List ℕ → ℕ → ℕ → List ℕ → Bool
unfolding same_text
is_offset_range_valid document_text start_offset end_offset expected_text =
    not (ltb (length document_text) end_offset || leb end_offset start_offset)
    && same_text (slice document_text start_offset end_offset) expected_text
