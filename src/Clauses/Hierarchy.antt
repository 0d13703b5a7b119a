-- ===== src/Clauses/Hierarchy.antt =====
-- src/domain/clauses/hierarchy-validation.ts. The walk up the parents takes fuel, one more round than
-- there are nodes and one for the end; `none` is a walk that ran out of it.
pub mod Pigeonhole
pub mod Walks
pub mod Cycles
pub mod Descending
pub mod Tests
use senecial.Base.{
  ℕ, zero, suc, ◌+◌, Bool, true, false, ◌||◌, Option, none, some, List, [], ◌∷◌, length, ◌==◌,
  if◌then◌else◌,
}

pub record HierarchyNode : Type 0 where
  pub order_index : ℕ
  pub parent_order_index : Option ℕ

-- `visited.has(current)`
unfoldable pub has : ℕ → List ℕ → Bool
has k [] = false
has k (x ∷ xs) = k == x || has k xs

unfoldable pub is_valid_parent_reference : HierarchyNode → List ℕ → Bool
unfolding has
is_valid_parent_reference node all_order_indexes = elim node.parent_order_index [
  | none ↦ true
  | some parent ↦ if parent == node.order_index then false else has parent all_order_indexes
]

abbrev pub ParentByIndex : Type 0
ParentByIndex = List (ℕ × Option ℕ)

-- `parentByIndex.set(key, value)`
unfoldable pub set : ℕ → Option ℕ → ParentByIndex → ParentByIndex
set k v [] = (k, v) ∷ []
set k v ((j, w) ∷ m) = if j == k then (j, v) ∷ m else (j, w) ∷ set k v m

-- `parentByIndex.get(key)`, where a key that is missing and a parent that is undefined are the same
unfoldable pub parent_of : ParentByIndex → ℕ → Option ℕ
parent_of [] k = none
parent_of ((j, w) ∷ m) k = if j == k then w else parent_of m k

unfoldable pub set_all : List HierarchyNode → ParentByIndex → ParentByIndex
unfolding set
set_all [] m = m
set_all (node ∷ nodes) m = set_all nodes (set node.order_index node.parent_order_index m)

-- The inner loop: has it come to a node twice?
unfoldable pub walk : ParentByIndex → ℕ → List ℕ → Option ℕ → Option Bool
unfolding has parent_of
walk m zero visited current = none
walk m (suc fuel) visited none = some false
walk m (suc fuel) visited (some current) =
    let next = walk m fuel (current ∷ visited) (parent_of m current) in
    if has current visited then some true else next

unfoldable pub any_walk : ParentByIndex → ℕ → List HierarchyNode → Option Bool
unfolding walk
any_walk m fuel [] = some false
any_walk m fuel (node ∷ nodes) =
    let later = any_walk m fuel nodes in
    elim (walk m fuel [] (some node.order_index)) [
      | none ↦ none
      | some repeated ↦ if repeated then some true else later
    ]

unfoldable pub has_hierarchy_cycle : List HierarchyNode → Option Bool
unfolding set_all any_walk
has_hierarchy_cycle nodes = any_walk (set_all nodes []) (length nodes + 2) nodes
