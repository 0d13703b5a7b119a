-- ===== src/Clauses/Hierarchy/Walks.antt =====
-- Each walk up the parents ends, and where it says so the chain of parents does.
use senecial.Base.{
  ℕ, zero, suc, ◌+◌, ◌≤◌, ◌<◌, Bool, true, false, ◌≡◌, refl, ap, ◌∙◌, Option, none, some, List, [],
  ◌∷◌, length, All, arith, Bool-cases, Option-cases, none-ne-some, some-inj, inl, inr,
}
use senecial.Clauses.Hierarchy.{HierarchyNode, has, ParentByIndex, set, parent_of, set_all, walk}
use senecial.Clauses.Hierarchy.Pigeonhole.{Distinct, length-le_of_Distinct}

abbrev keys : ParentByIndex → List ℕ
keys [] = []
keys ((k, v) ∷ m) = k ∷ keys m

length-keys : (m : ParentByIndex) → length (keys m) ≡ length m
length-keys [] = refl
length-keys ((k, v) ∷ m) = ap (λ n. suc n) (length-keys m)

parent_of-keys : (m : ParentByIndex) (k d : ℕ) → parent_of m k ≡ some d → has k (keys m) ≡ true
unfolding parent_of has
parent_of-keys [] k d e = absurd (none-ne-some e)
parent_of-keys ((j, w) ∷ m) k d e = ground (arith, e, parent_of-keys m k d)

length-set : (k : ℕ) (v : Option ℕ) (m : ParentByIndex) → length (set k v m) ≤ length m + 1
unfolding set
length-set k v [] = omega arith
length-set k v ((j, w) ∷ m) = ground (arith, length-set k v m)

pub length-set_all :
    (nodes : List HierarchyNode) (m : ParentByIndex)
    → length (set_all nodes m) ≤ length nodes + length m
unfolding set_all
length-set_all [] m = omega arith
length-set_all (node ∷ nodes) m = omega (
  arith,
  length-set_all nodes (set node.order_index node.parent_order_index m),
  length-set node.order_index node.parent_order_index m,
)

module _ (m : ParentByIndex) where
  pub walk_end : (fuel : ℕ) (visited : List ℕ) → 0 < fuel → walk m fuel visited none ≡ some false
  unfolding walk
  walk_end zero visited h = absurd (omega (arith, h))
  walk_end (suc fuel) visited h = refl

  abbrev InKeys : List ℕ → Type 0
  InKeys = All (λ x. has x (keys m) ≡ true)

  -- With the fuel that is left and what was visited more than the map is long, a walk ends.
  pub walk_total :
      (fuel : ℕ) (visited : List ℕ) (current : Option ℕ)
      → Distinct visited
      → InKeys visited
      → length m + 2 ≤ fuel + length visited
      → (b : Bool) × (walk m fuel visited current ≡ some b)
  unfolding walk
  walk_total zero visited current d h enough =
      absurd (omega (arith, enough, length-le_of_Distinct (keys m) visited d h, length-keys m))
  walk_total (suc fuel) visited none d h enough = (false, refl)
  walk_total (suc fuel) visited (some c) d h enough = elim (Bool-cases (has c visited)) [
    | inl again ↦ (true, rw again refl)
    | inr new ↦ elim (Option-cases (parent_of m c)) [
      | inl top ↦
          let fueled : 0 < fuel =
            omega (arith, enough, length-le_of_Distinct (keys m) visited d h, length-keys m) in
          (false, rw (new, top, walk_end fuel (c ∷ visited) fueled) refl)
      | inr (parent, e) ↦
          let (b, ends) =
            walk_total fuel (c ∷ visited) (some parent) (new, d) (parent_of-keys m c parent e, h)
              (omega (arith, enough)) in
          (b, rw (new, e) ends)
    ]
  ]

  -- The chain of parents, `none` once it has ended.
  abbrev pub up : Option ℕ → Option ℕ
  up none = none
  up (some c) = parent_of m c

  abbrev pub chain : ℕ → Option ℕ → Option ℕ
  chain zero current = current
  chain (suc k) current = chain k (up current)

  pub chain-none : (k : ℕ) → chain k none ≡ none
  chain-none zero = refl
  chain-none (suc k) = chain-none k

  pub chain-add : (j k : ℕ) (c : Option ℕ) → chain (j + k) c ≡ chain k (chain j c)
  chain-add zero k c = let none_more : 0 + k ≡ k = omega arith in ap (λ n. chain n c) none_more
  chain-add (suc j) k c =
      let step : suc j + k ≡ suc (j + k) = omega arith in
      ap (λ n. chain n c) step ∙ chain-add j k (up c)

  pub walk-ends :
      (fuel : ℕ) (visited : List ℕ) (current : Option ℕ)
      → walk m fuel visited current ≡ some false
      → (k : ℕ) × (chain k current ≡ none)
  unfolding walk
  walk-ends zero visited current e = absurd (none-ne-some e)
  walk-ends (suc fuel) visited none e = (0, refl)
  walk-ends (suc fuel) visited (some c) e = elim (Bool-cases (has c visited)) [
    | inl again ↦ absurd (ground (arith, some-inj (rw again at e)))
    | inr new ↦
        let (k, ended) = walk-ends fuel (c ∷ visited) (parent_of m c) (rw new at e) in
        (suc k, ended)
  ]
