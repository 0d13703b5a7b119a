-- ===== src/Clauses/Hierarchy/Tests.antt =====
-- A chapter with an article and a paragraph, and two clauses that are each other's parents.
use senecial.Base.{ℕ, Bool, true, false, ◌≡◌, refl, Option, none, some, List, [], ◌∷◌}
use senecial.Clauses.Hierarchy.{
  HierarchyNode, is_valid_parent_reference, set_all, has_hierarchy_cycle,
}
use senecial.Clauses.Hierarchy.Cycles.{Says, has_hierarchy_cycle-Says}

abbrev node : ℕ → Option ℕ → HierarchyNode
node i p = record { order_index = i; parent_order_index = p }

abbrev tree : List HierarchyNode
tree = node 0 none ∷ node 1 (some 0) ∷ node 2 (some 1) ∷ []

abbrev ring : List HierarchyNode
ring = node 0 none ∷ node 1 (some 2) ∷ node 2 (some 1) ∷ []

answers : (has_hierarchy_cycle tree ≡ some false) × (has_hierarchy_cycle ring ≡ some true)
unfolding has_hierarchy_cycle
answers = (refl, refl)

references :
    (is_valid_parent_reference (node 1 (some 1)) (0 ∷ 1 ∷ []) ≡ false)
    × (is_valid_parent_reference (node 1 (some 0)) (0 ∷ 1 ∷ []) ≡ true)
unfolding is_valid_parent_reference
references = (refl, refl)

has_hierarchy_cycle-Says_example :
    (b : Bool) × (has_hierarchy_cycle ring ≡ some b) × Says (set_all ring []) ring b
has_hierarchy_cycle-Says_example = has_hierarchy_cycle-Says ring
