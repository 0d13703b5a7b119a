-- ===== src/Clauses/Checks/Segmented.antt =====
-- What the checks say of the answers of the segmenter.
use senecial.Base.{
  ℕ, ◌<◌, Bool, true, false, ◌≡◌, refl, ap, ap₂, ◌∙◌, Option, none, some, List, [], ◌∷◌, ◌==◌, ◌&&◌,
  length, slice, take, All, arith, Bool-cases, inl, inr, if◌then◌else◌,
}
use senecial.Clauses.Hierarchy.{has, is_valid_parent_reference}
use senecial.Clauses.Hierarchy.Descending.{Before, has_hierarchy_cycle-descending}
use senecial.Clauses.Segmenter.{SegmentedClause, segment, is_offset_range_valid}
use senecial.Clauses.Segmenter.Slices.{same_text_refl}
use senecial.Clauses.Segmenter.Offsets.{segment-Chain}
use senecial.Clauses.Segmenter.Parents.{segment-Before}
use senecial.Clauses.Checks.{
  invalid_hierarchy, every_offset_valid, every_section_valid, offsets_valid, order_indexes,
  hierarchy_nodes, every_parent_valid, hierarchy_valid, check_result,
}

-- Each parent that a clause names is a clause of the answer.
abbrev pub is_parent_in : List ℕ → Option ℕ → Bool
unfolding has
is_parent_in indexes none = true
is_parent_in indexes (some parent) = has parent indexes

abbrev pub parents_in : List ℕ → List SegmentedClause → Bool
unfolding is_parent_in
parents_in indexes [] = true
parents_in indexes (c ∷ cs) = is_parent_in indexes c.parent_order_index && parents_in indexes cs

take_all : (s : List ℕ) → take (length s) s ≡ s
take_all [] = refl
take_all (c ∷ s) = ap (λ t. c ∷ t) (take_all s)

slice_all : (s : List ℕ) → slice s 0 (length s) ≡ s
slice_all s = ap (λ n. take n s) (omega arith) ∙ take_all s

whole_valid :
    (text : List ℕ) → 0 < length text → is_offset_range_valid text 0 (length text) text ≡ true
unfolding is_offset_range_valid
whole_valid text h =
    rw (is_offset_range_valid, slice_all text) (ground (arith, h, same_text_refl text))

every_offset_valid-All :
    (text : List ℕ) (cs : List SegmentedClause)
    → All (λ c. is_offset_range_valid text c.start_offset c.end_offset c.text ≡ true) cs
    → every_offset_valid text cs ≡ true
unfolding every_offset_valid
every_offset_valid-All text [] h = refl
every_offset_valid-All text (c ∷ cs) (e, h) = rw e (every_offset_valid-All text cs h)

offsets_valid-segment : (text : List ℕ) → 0 < length text → offsets_valid text (segment text) ≡ true
unfolding offsets_valid every_section_valid segment
offsets_valid-segment text h =
    let (n, chain, valid) = segment-Chain text in
    rw (whole_valid text h) (every_offset_valid-All text (segment text).clauses valid)

parent_valid :
    (k : ℕ) (parent : Option ℕ) (indexes : List ℕ)
    → Before parent k
    → is_valid_parent_reference (record { order_index = k; parent_order_index = parent }) indexes
      ≡ is_parent_in indexes parent
unfolding is_valid_parent_reference is_parent_in
parent_valid k none indexes h = refl
parent_valid k (some parent) indexes h =
    let other : (parent == k) ≡ false = ground (arith, h) in rw other refl

every_parent_valid-parents_in :
    (cs : List SegmentedClause) (indexes : List ℕ)
    → All (λ c. Before c.parent_order_index c.order_index) cs
    → every_parent_valid (hierarchy_nodes cs) indexes ≡ parents_in indexes cs
unfolding every_parent_valid parents_in
every_parent_valid-parents_in [] indexes h = refl
every_parent_valid-parents_in (c ∷ cs) indexes (b, h) =
    ap₂ (λ x y. x && y) (parent_valid c.order_index c.parent_order_index indexes b)
      (every_parent_valid-parents_in cs indexes h)

nodes-Before :
    (cs : List SegmentedClause)
    → All (λ c. Before c.parent_order_index c.order_index) cs
    → All (λ node. Before node.parent_order_index node.order_index) (hierarchy_nodes cs)
nodes-Before [] h = tt
nodes-Before (c ∷ cs) (b, h) = (b, nodes-Before cs h)

hierarchy_valid-segment :
    (text : List ℕ)
    → hierarchy_valid (segment text).clauses
      ≡ some (parents_in (order_indexes (segment text).clauses) (segment text).clauses)
unfolding hierarchy_valid
hierarchy_valid-segment text =
    let clauses = (segment text).clauses in
    let before = segment-Before text in
    let acyclic =
      has_hierarchy_cycle-descending (hierarchy_nodes clauses) (nodes-Before clauses before) in
    let same = every_parent_valid-parents_in clauses (order_indexes clauses) before in
    elim (Bool-cases (parents_in (order_indexes clauses) clauses)) [
      | inl all ↦ rw (same, all, acyclic) refl
      | inr lost ↦ rw (same, lost) refl
    ]

-- Of a text that is not empty, what the segmenter answers passes the worker's checks of the offsets and of
-- the hierarchy exactly where each clause's parent, if it has one, is a clause of the answer; else the
-- checks say INVALID_HIERARCHY. The check for cycles ends, and the checks never say INVALID_OFFSETS.
pub check_result-segment :
    (text : List ℕ)
    → 0 < length text
    → check_result text (segment text)
      ≡ some (
          if parents_in (order_indexes (segment text).clauses) (segment text).clauses
          then none
          else some invalid_hierarchy)
unfolding check_result
check_result-segment text h =
    elim (Bool-cases (parents_in (order_indexes (segment text).clauses) (segment text).clauses)) [
      | inl all ↦ rw (offsets_valid-segment text h, hierarchy_valid-segment text, all) refl
      | inr lost ↦ rw (offsets_valid-segment text h, hierarchy_valid-segment text, lost) refl
    ]
