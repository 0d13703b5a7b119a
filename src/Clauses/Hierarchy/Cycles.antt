-- ===== src/Clauses/Hierarchy/Cycles.antt =====
-- The check for cycles ends, and it finds exactly the chains of parents that never end.
use senecial.Base.{
  ℕ, zero, suc, ◌+◌, ◌-◌, ◌≤◌, ◌<◌, Bool, true, false, ◌≡◌, ◌≢◌, ◌⊎◌, refl, sym, ap, ◌∙◌, none,
  some, List, [], ◌∷◌, length, ◌==◌, arith, Bool-cases, Option-cases, none-ne-some, some-inj, inl,
  inr,
}
use senecial.Clauses.Hierarchy.{
  HierarchyNode, has, ParentByIndex, parent_of, set_all, walk, any_walk, has_hierarchy_cycle,
}
use senecial.Clauses.Hierarchy.Walks.{
  length-set_all, walk_total, chain, chain-none, chain-add, walk-ends,
}

module _ (m : ParentByIndex) where
  abbrev pub NeverEnds : ℕ → Type 0
  NeverEnds c = (k : ℕ) → chain m k (some c) ≢ none

  abbrev pub Ends : ℕ → Type 0
  Ends c = (k : ℕ) × (chain m k (some c) ≡ none)

  abbrev Reaches : ℕ → ℕ → Type 0
  Reaches v c = (j : ℕ) × (0 < j) × (chain m j (some v) ≡ some c)

  -- A node that is its own ancestor comes back to itself after any number of steps.
  comes_back :
      (c j : ℕ)
      → 0 < j
      → chain m j (some c) ≡ some c
      → (n : ℕ) → (t : ℕ) × (n ≤ t) × (chain m t (some c) ≡ some c)
  comes_back c j positive e zero = (0, omega arith, refl)
  comes_back c j positive e (suc n) =
      let (t, long, back) = comes_back c j positive e n in
      (
        j + t,
        omega (arith, long, positive),
        chain-add m j t (some c) ∙ ap (λ x. chain m t x) e ∙ back,
      )

  Reaches-NeverEnds : (c : ℕ) → Reaches c c → NeverEnds c
  Reaches-NeverEnds c (j, positive, e) k ended =
      let (t, long, back) = comes_back c j positive e k in
      let split : k + (t - k) ≡ t = omega (arith, long) in
      none-ne-some (
        sym (chain-none m (t - k))
        ∙ ap (λ x. chain m (t - k) x) (sym ended)
        ∙ sym (chain-add m k (t - k) (some c))
        ∙ ap (λ n. chain m n (some c)) split
        ∙ back)

  walk_end-false : (fuel : ℕ) (visited : List ℕ) → walk m fuel visited none ≢ some true
  unfolding walk
  walk_end-false zero visited e = none-ne-some e
  walk_end-false (suc fuel) visited e = absurd (ground (arith, some-inj e))

  parent-Reaches :
      (c parent v : ℕ) → parent_of m c ≡ some parent → (v ≡ c) ⊎ Reaches v c → Reaches v parent
  parent-Reaches c parent v e (inl same) = (1, omega arith, ap (λ x. parent_of m x) same ∙ e)
  parent-Reaches c parent v e (inr (j, positive, reached)) =
      (j + 1, omega arith, chain-add m j 1 (some v) ∙ ap (λ x. chain m 1 x) reached ∙ e)

  from_parent : (c parent : ℕ) → parent_of m c ≡ some parent → NeverEnds parent → NeverEnds c
  from_parent c parent e above zero ended = none-ne-some (sym ended)
  from_parent c parent e above (suc k) ended = above k (ap (λ x. chain m k x) (sym e) ∙ ended)

  walk-NeverEnds :
      (fuel : ℕ) (visited : List ℕ) (c : ℕ)
      → ((v : ℕ) → has v visited ≡ true → Reaches v c)
      → walk m fuel visited (some c) ≡ some true
      → NeverEnds c
  unfolding walk has
  walk-NeverEnds zero visited c reach e = absurd (none-ne-some e)
  walk-NeverEnds (suc fuel) visited c reach e = elim (Bool-cases (has c visited)) [
    | inl again ↦ Reaches-NeverEnds c (reach c again)
    | inr new ↦ elim (Option-cases (parent_of m c)) [
      | inl top ↦ absurd (walk_end-false fuel (c ∷ visited) (rw (new, top) at e))
      | inr (parent, up_one) ↦
          let above =
            walk-NeverEnds fuel (c ∷ visited) parent
              (λ v seen. parent-Reaches c parent v up_one (elim (Bool-cases (v == c)) [
                | inl same ↦ inl (ground (arith, same))
                | inr other ↦ inr (reach v (ground (arith, seen, other)))
              ]))
              (rw (new, up_one) at e) in
          from_parent c parent up_one above
    ]
  ]

  abbrev pub SomeNode : (ℕ → Type 0) → List HierarchyNode → Type 0
  SomeNode P [] = ⊥
  SomeNode P (node ∷ nodes) = P node.order_index ⊎ SomeNode P nodes

  abbrev pub EachNode : (ℕ → Type 0) → List HierarchyNode → Type 0
  EachNode P [] = Unit
  EachNode P (node ∷ nodes) = P node.order_index × EachNode P nodes

  -- What an answer says: a node whose chain of parents never ends, or that every chain ends.
  abbrev pub Says : List HierarchyNode → Bool → Type 0
  Says nodes true = SomeNode NeverEnds nodes
  Says nodes false = EachNode Ends nodes

  nothing_visited : {c : ℕ} → (v : ℕ) → has v [] ≡ true → Reaches v c
  unfolding has
  nothing_visited v e = absurd (ground (arith, e))

  with_end :
      (later : Bool) (node : HierarchyNode) (nodes : List HierarchyNode)
      → Says nodes later
      → Ends node.order_index
      → Says (node ∷ nodes) later
  with_end true node nodes says ended = inr says
  with_end false node nodes says ended = (ended, says)

  any_walk-Says :
      (fuel : ℕ) (nodes : List HierarchyNode)
      → length m + 2 ≤ fuel
      → (b : Bool) × (any_walk m fuel nodes ≡ some b) × Says nodes b
  unfolding any_walk
  any_walk-Says fuel [] enough = (false, refl, tt)
  any_walk-Says fuel (node ∷ nodes) enough =
      let start = node.order_index in
      let (b, e) = walk_total m fuel [] (some start) tt tt (omega (arith, enough)) in
      elim (Bool-cases b) [
        | inl repeats ↦
            let found = e ∙ ap (λ x. some x) repeats in
            (
              true,
              rw (found, any_walk) refl,
              inl (walk-NeverEnds fuel [] start nothing_visited found),
            )
        | inr stops ↦
            let found = e ∙ ap (λ x. some x) stops in
            let (later, e', says) = any_walk-Says fuel nodes enough in
            (
              later,
              rw (found, any_walk) e',
              with_end later node nodes says (walk-ends m fuel [] (some start) found),
            )
      ]

-- The check for cycles always ends within its fuel. It answers true only where the chain of parents of
-- some node never ends, and false only where the chain of every node ends.
pub has_hierarchy_cycle-Says :
    (nodes : List HierarchyNode)
    → (b : Bool) × (has_hierarchy_cycle nodes ≡ some b) × Says (set_all nodes []) nodes b
unfolding has_hierarchy_cycle
has_hierarchy_cycle-Says nodes =
    any_walk-Says (set_all nodes []) (length nodes + 2) nodes
      (omega (arith, length-set_all nodes []))
