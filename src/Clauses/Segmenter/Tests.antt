-- ===== src/Clauses/Segmenter/Tests.antt =====
-- Segmentations of concrete texts.
use senecial.Base.{
  ℕ, false, true, ◌≡◌, ◌⊎◌, refl, Option, none, some, List, [], ◌∷◌, map, length, All, arith,
  is_white,
}
use senecial.Clauses.Hierarchy.{HierarchyNode, is_valid_parent_reference}
use senecial.Clauses.Expressions.{je, jo}
use senecial.Clauses.Patterns.{detect_clause_number_line}
use senecial.Clauses.Segmenter.{SegmentedClause, lines_of, segment, is_offset_range_valid}
use senecial.Clauses.Segmenter.Slices.{Visible}
use senecial.Clauses.Segmenter.Offsets.{Chain, segment-Chain}
use senecial.Clauses.Segmenter.Coverage.{Within, InMarkers, segment-Within}

-- "x", then article 1 with a title and a text, then its first paragraph
abbrev pub lease : List ℕ
lease =
    b'x' ∷ 10 ∷ je ∷ b'1' ∷ jo ∷ b'(' ∷ b't' ∷ b')' ∷ b' ' ∷ b'y' ∷ 10 ∷ 0x2460 ∷ b' ' ∷ b'z' ∷ b'z'
    ∷ []

abbrev positions : SegmentedClause → ℕ × ℕ × Option ℕ
positions c = (c.start_offset, c.end_offset, c.parent_order_index)

lease_clauses :
    map positions (segment lease).clauses ≡ (0, 1, none) ∷ (9, 10, none) ∷ (13, 15, some 1) ∷ []
unfolding segment
lease_clauses = refl

-- An article that has nothing but paragraphs is dropped, and its paragraph refers to a clause that is not
-- there: the worker refuses the result.
abbrev pub bare : List ℕ
bare = je ∷ b'1' ∷ jo ∷ 10 ∷ 0x2460 ∷ b'z' ∷ []

abbrev node : SegmentedClause → HierarchyNode
node c = record { order_index = c.order_index; parent_order_index = c.parent_order_index }

bare_article :
    (map positions (segment bare).clauses ≡ (5, 6, some 0) ∷ [])
    × (map
          (λ c.
            is_valid_parent_reference (node c) (map (λ d. d.order_index) (segment bare).clauses))
          (segment bare).clauses
        ≡ false ∷ [])
unfolding segment is_valid_parent_reference
bare_article = (refl, refl)

segment-Chain_example :
    (n : ℕ) × Chain lease 0 0 (segment lease).clauses (length lease) n
    × All
        (λ c. is_offset_range_valid lease c.start_offset c.end_offset c.text ≡ true)
        (segment lease).clauses
segment-Chain_example = segment-Chain lease

visible : Visible lease 9
unfolding is_white
visible = (b'y', refl, refl)

segment-Within_example :
    Within 9 (segment lease).clauses ⊎ InMarkers detect_clause_number_line 9 0 (lines_of lease)
segment-Within_example = segment-Within lease 9 visible (omega arith)
