-- ===== src/Clauses/Hierarchy/Descending.antt =====
-- A hierarchy in which each parent comes before its children has no cycle.
use senecial.Base.{
  ℕ, zero, suc, ◌<◌, Bool, true, false, ◌≡◌, Option, none, some, List, [], ◌∷◌, ◌==◌, All, arith,
  Bool-cases, Option-cases, none-ne-some, inl, inr,
}
use senecial.Clauses.Hierarchy.{
  HierarchyNode, ParentByIndex, set, parent_of, set_all, has_hierarchy_cycle,
}
use senecial.Clauses.Hierarchy.Cycles.{NeverEnds, Ends, SomeNode, Says, has_hierarchy_cycle-Says}

-- A parent, if there is one, has a smaller index.
abbrev pub Before : Option ℕ → ℕ → Type 0
Before none k = Unit
Before (some parent) k = parent < k

abbrev IsDescending : ParentByIndex → Type 0
IsDescending m = All (λ e. Before e.1 e.0) m

IsDescending-set :
    (k : ℕ) (v : Option ℕ) (m : ParentByIndex)
    → Before v k
    → IsDescending m
    → IsDescending (set k v m)
unfolding set
IsDescending-set k v [] h d = (h, tt)
IsDescending-set k v ((j, w) ∷ m) h (b, d) = elim (Bool-cases (j == k)) [
  | inl same ↦ let e : j ≡ k = ground (arith, same) in rw (same, e) (h, d)
  | inr other ↦ rw other (b, IsDescending-set k v m h d)
]

IsDescending-set_all :
    (nodes : List HierarchyNode) (m : ParentByIndex)
    → All (λ node. Before node.parent_order_index node.order_index) nodes
    → IsDescending m
    → IsDescending (set_all nodes m)
unfolding set_all
IsDescending-set_all [] m h d = d
IsDescending-set_all (node ∷ nodes) m (b, h) d =
    IsDescending-set_all nodes (set node.order_index node.parent_order_index m) h
      (IsDescending-set node.order_index node.parent_order_index m b d)

module _ (m : ParentByIndex) (descends : IsDescending m) where
  parent_of-Before : (n : ParentByIndex) (k p : ℕ) → IsDescending n → parent_of n k ≡ some p → p < k
  unfolding parent_of
  parent_of-Before [] k p d e = absurd (none-ne-some e)
  parent_of-Before ((j, w) ∷ n) k p (b, d) e = elim (Bool-cases (j == k)) [
    | inl same ↦
        let found : w ≡ some p = rw same at e in
        let below : Before (some p) j = rw found at b in ground (arith, same, below)
    | inr other ↦ parent_of-Before n k p d (rw other at e)
  ]

  Ends-below : (n k : ℕ) → k < n → Ends m k
  Ends-below zero k h = absurd (omega (arith, h))
  Ends-below (suc n) k h = elim (Option-cases (parent_of m k)) [
    | inl top ↦ (1, top)
    | inr (p, e) ↦
        let (steps, ended) = Ends-below n p (omega (arith, h, parent_of-Before m k p descends e)) in
        (suc steps, rw e ended)
  ]

  none-NeverEnds : (nodes : List HierarchyNode) → ¬ SomeNode m (NeverEnds m) nodes
  none-NeverEnds [] h = h
  none-NeverEnds (node ∷ nodes) (inl here) =
      let (steps, ended) = Ends-below (suc node.order_index) node.order_index (omega arith) in
      here steps ended
  none-NeverEnds (node ∷ nodes) (inr later) = none-NeverEnds nodes later

pub has_hierarchy_cycle-descending :
    (nodes : List HierarchyNode)
    → All (λ node. Before node.parent_order_index node.order_index) nodes
    → has_hierarchy_cycle nodes ≡ some false
has_hierarchy_cycle-descending nodes h =
    let (b, e, says) = has_hierarchy_cycle-Says nodes in go b e says
  where
    go :
        (b : Bool)
        → has_hierarchy_cycle nodes ≡ some b
        → Says (set_all nodes []) nodes b
        → has_hierarchy_cycle nodes ≡ some false
    go false e says = e
    go true e says =
        absurd (none-NeverEnds (set_all nodes []) (IsDescending-set_all nodes [] h tt) nodes says)
