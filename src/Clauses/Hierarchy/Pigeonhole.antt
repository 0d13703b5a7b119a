-- ===== src/Clauses/Hierarchy/Pigeonhole.antt =====
-- Different numbers that all stand in a list are no more than the list is long.
use mathlib.Core.Path.{subst}
use senecial.Base.{
  ℕ, ◌+◌, ◌≤◌, true, false, ◌≡◌, refl, List, [], ◌∷◌, length, All, ◌==◌, if◌then◌else◌, arith,
  Bool-cases, inl, inr,
}
use senecial.Clauses.Hierarchy.{has}

abbrev pub Distinct : List ℕ → Type 0
Distinct [] = Unit
Distinct (x ∷ xs) = (has x xs ≡ false) × Distinct xs

without : ℕ → List ℕ → List ℕ
without k [] = []
without k (x ∷ xs) = if x == k then without k xs else x ∷ without k xs

has-without : (x k : ℕ) (xs : List ℕ) → has x xs ≡ false → has x (without k xs) ≡ false
unfolding has without
has-without x k [] h = h
has-without x k (y ∷ xs) h = ground (arith, has-without x k xs, h)

without-Distinct : (k : ℕ) (xs : List ℕ) → Distinct xs → Distinct (without k xs)
unfolding without
without-Distinct k [] h = tt
without-Distinct k (x ∷ xs) (fresh, h) = elim (Bool-cases (x == k)) [
  | inl same ↦ rw same (without-Distinct k xs h)
  | inr other ↦ rw other (has-without x k xs fresh, without-Distinct k xs h)
]

without_of_fresh : (k : ℕ) (xs : List ℕ) → has k xs ≡ false → without k xs ≡ xs
unfolding has without
without_of_fresh k [] h = refl
without_of_fresh k (x ∷ xs) h =
    let other : (x == k) ≡ false = ground (arith, h) in
    rw (other, without_of_fresh k xs (ground (arith, h))) refl

length-without : (k : ℕ) (xs : List ℕ) → Distinct xs → length xs ≤ length (without k xs) + 1
unfolding without
length-without k [] h = omega arith
length-without k (x ∷ xs) (fresh, h) = elim (Bool-cases (x == k)) [
  | inl same ↦
      let equal : x ≡ k = ground (arith, same) in
      rw (same, without_of_fresh k xs (subst (λ j. has j xs ≡ false) equal fresh)) (omega arith)
  | inr other ↦ rw other (omega (arith, length-without k xs h))
]

without-All :
    (k : ℕ) (xs ks : List ℕ)
    → All (λ x. has x (k ∷ ks) ≡ true) xs
    → All (λ x. has x ks ≡ true) (without k xs)
unfolding without has
without-All k [] ks h = tt
without-All k (x ∷ xs) ks (here, h) = elim (Bool-cases (x == k)) [
  | inl same ↦ rw same (without-All k xs ks h)
  | inr other ↦ rw other (ground (arith, here, other), without-All k xs ks h)
]

pub length-le_of_Distinct :
    (ks xs : List ℕ) → Distinct xs → All (λ x. has x ks ≡ true) xs → length xs ≤ length ks
unfolding has
length-le_of_Distinct [] [] d h = omega arith
length-le_of_Distinct [] (x ∷ xs) d (here, h) = absurd (ground (arith, here))
length-le_of_Distinct (k ∷ ks) xs d h = omega (
  arith,
  length-without k xs d,
  length-le_of_Distinct ks (without k xs) (without-Distinct k xs d) (without-All k xs ks h),
)
