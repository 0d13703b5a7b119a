-- ===== src/Clauses/Checks.antt =====
-- The checks that src/features/clauses/server/process-clause-segmentation-job.ts makes of what the segmenter
-- answers, with the codes of src/domain/clauses/segmentation-error-codes.ts. `none` is a check for cycles
-- that ran out of fuel.
pub mod Segmented
pub mod Passed
pub mod Tests
use senecial.Base.{
  ℕ, Bool, true, false, Option, none, some, List, [], ◌∷◌, map, leb, not, ◌&&◌, length,
  if◌then◌else◌,
}
use senecial.Clauses.Hierarchy.{HierarchyNode, is_valid_parent_reference, has_hierarchy_cycle}
use senecial.Clauses.Segmenter.{
  SegmentedClause, SegmentedSection, ClauseSegmentationResult, is_offset_range_valid,
}

pub data SegmentationErrorCode : Type 0 where
  extracted_document_not_found : SegmentationErrorCode
  document_checksum_mismatch : SegmentationErrorCode
  segmentation_failed : SegmentationErrorCode
  invalid_segmentation_result : SegmentationErrorCode
  invalid_offsets : SegmentationErrorCode
  invalid_hierarchy : SegmentationErrorCode
  classification_failed : SegmentationErrorCode
  max_attempts_reached : SegmentationErrorCode

unfoldable pub is_non_retryable : SegmentationErrorCode → Bool
is_non_retryable document_checksum_mismatch = true
is_non_retryable invalid_segmentation_result = true
is_non_retryable invalid_offsets = true
is_non_retryable invalid_hierarchy = true
is_non_retryable max_attempts_reached = true
is_non_retryable extracted_document_not_found = false
is_non_retryable segmentation_failed = false
is_non_retryable classification_failed = false

unfoldable pub is_retryable_segmentation_error : SegmentationErrorCode → ℕ → ℕ → Bool
unfolding is_non_retryable
is_retryable_segmentation_error error_code attempt max_attempts =
    if leb max_attempts attempt then false else not (is_non_retryable error_code)

unfoldable pub every_offset_valid : List ℕ → List SegmentedClause → Bool
unfolding is_offset_range_valid
every_offset_valid text [] = true
every_offset_valid text (c ∷ cs) =
    is_offset_range_valid text c.start_offset c.end_offset c.text && every_offset_valid text cs

unfoldable pub every_section_valid : List ℕ → List SegmentedSection → Bool
unfolding is_offset_range_valid
every_section_valid text [] = true
every_section_valid text (s ∷ ss) =
    is_offset_range_valid text s.start_offset s.end_offset s.text && every_section_valid text ss

unfoldable pub offsets_valid : List ℕ → ClauseSegmentationResult → Bool
unfolding every_offset_valid every_section_valid
offsets_valid text result =
    every_section_valid text result.sections && every_offset_valid text result.clauses

abbrev pub order_indexes : List SegmentedClause → List ℕ
order_indexes [] = []
order_indexes (c ∷ cs) = c.order_index ∷ order_indexes cs

abbrev pub hierarchy_nodes : List SegmentedClause → List HierarchyNode
hierarchy_nodes [] = []
hierarchy_nodes (c ∷ cs) =
    record { order_index = c.order_index; parent_order_index = c.parent_order_index }
    ∷ hierarchy_nodes cs

unfoldable pub every_parent_valid : List HierarchyNode → List ℕ → Bool
unfolding is_valid_parent_reference
every_parent_valid [] indexes = true
every_parent_valid (node ∷ nodes) indexes =
    is_valid_parent_reference node indexes && every_parent_valid nodes indexes

unfoldable pub hierarchy_valid : List SegmentedClause → Option Bool
unfolding every_parent_valid has_hierarchy_cycle
hierarchy_valid clauses =
    let nodes = hierarchy_nodes clauses in
    if every_parent_valid nodes (order_indexes clauses)
    then elim (has_hierarchy_cycle nodes) [ none ↦ none | some cycle ↦ some (not cycle) ]
    else some false

unfoldable pub check_result :
    List ℕ → ClauseSegmentationResult → Option (Option SegmentationErrorCode)
unfolding offsets_valid hierarchy_valid
check_result text result =
    if not (offsets_valid text result)
    then some (some invalid_offsets)
    else elim (hierarchy_valid result.clauses) [
      | none ↦ none
      | some valid ↦ some (if not valid then some invalid_hierarchy else none)
    ]
