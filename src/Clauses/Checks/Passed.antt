-- ===== src/Clauses/Checks/Passed.antt =====
-- What it says that a result passes the checks.
use senecial.Base.{
  ℕ, Bool, true, false, ◌≡◌, refl, sym, ap, ◌∙◌, Option, none, some, List, not, arith, Bool-cases,
  inl, inr, none-ne-some, some-inj, if◌then◌else◌,
}
use senecial.Clauses.Hierarchy.Cycles.{has_hierarchy_cycle-Says}
use senecial.Clauses.Segmenter.{SegmentedClause, ClauseSegmentationResult}
use senecial.Clauses.Checks.{
  SegmentationErrorCode, invalid_offsets, invalid_hierarchy, every_offset_valid, offsets_valid,
  order_indexes, hierarchy_nodes, every_parent_valid, hierarchy_valid, check_result,
}

hierarchy_valid-total :
    (clauses : List SegmentedClause) → (b : Bool) × (hierarchy_valid clauses ≡ some b)
unfolding hierarchy_valid
hierarchy_valid-total clauses =
    let (cycle, e, says) = has_hierarchy_cycle-Says (hierarchy_nodes clauses) in
    elim (Bool-cases (every_parent_valid (hierarchy_nodes clauses) (order_indexes clauses))) [
      | inl valid ↦ (not cycle, rw (valid, e) refl)
      | inr lost ↦ (false, rw lost refl)
    ]

-- The checks come to an answer.
pub check_result-total :
    (text : List ℕ) (result : ClauseSegmentationResult)
    → (answer : Option SegmentationErrorCode) × (check_result text result ≡ some answer)
unfolding check_result
check_result-total text result =
    let (b, e) = hierarchy_valid-total result.clauses in
    elim (Bool-cases (offsets_valid text result)) [
      | inl valid ↦ (if not b then some invalid_hierarchy else none, rw (valid, e) refl)
      | inr bad ↦ (some invalid_offsets, rw bad refl)
    ]

hierarchy_valid-parents :
    (clauses : List SegmentedClause)
    → hierarchy_valid clauses ≡ some true
    → every_parent_valid (hierarchy_nodes clauses) (order_indexes clauses) ≡ true
unfolding hierarchy_valid
hierarchy_valid-parents clauses e =
    elim (Bool-cases (every_parent_valid (hierarchy_nodes clauses) (order_indexes clauses))) [
      | inl valid ↦ valid
      | inr lost ↦ absurd (ground (arith, some-inj (rw lost at e)))
    ]

pub check_result-passed :
    (text : List ℕ) (result : ClauseSegmentationResult)
    → check_result text result ≡ some none
    → (every_offset_valid text result.clauses ≡ true)
      × (every_parent_valid (hierarchy_nodes result.clauses) (order_indexes result.clauses) ≡ true)
unfolding check_result offsets_valid
check_result-passed text result e = elim (Bool-cases (offsets_valid text result)) [
  | inr bad ↦ absurd (none-ne-some (sym (some-inj (rw bad at e))))
  | inl valid ↦
      let (b, found) = hierarchy_valid-total result.clauses in
      elim (Bool-cases b) [
        | inl good ↦ (
          ground (arith, valid),
          hierarchy_valid-parents result.clauses (found ∙ ap (λ x. some x) good),
        )
        | inr cyclic ↦ absurd (none-ne-some (sym (some-inj (rw (valid, found, cyclic) at e))))
      ]
]
