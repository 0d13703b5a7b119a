-- ===== src/Clauses/Diff/Table.antt =====
-- The table of the line diff holds the lengths of the longest common subsequences.
use senecial.Base.{
  ℕ, zero, suc, ◌+◌, ◌≤◌, max, String, false, ◌≡◌, refl, sym, List, [], ◌∷◌, length, str_eq,
  eq_refl, if◌then◌else◌, arith, Bool-cases, inl, inr,
}
use senecial.Clauses.Diff.{cell, lcs_row, zeros, row_of, lcs_table}

-- The length of a longest common subsequence, by its recursion.
abbrev pub lcs_length : List String → List String → ℕ
lcs_length [] b = 0
lcs_length (x ∷ a) [] = 0
lcs_length (x ∷ a) (y ∷ b) =
    if str_eq x y then lcs_length a b + 1 else max (lcs_length a (y ∷ b)) (lcs_length (x ∷ a) b)

-- Lines that stand in a text in their order.
pub data Subsequence : List String → List String → Type 0 where
  nothing : Subsequence [] []
  skip : {c a : List String} {x : String} → Subsequence c a → Subsequence c (x ∷ a)
  keep : {c a : List String} {x : String} → Subsequence c a → Subsequence (x ∷ c) (x ∷ a)

-- The row for the lines `a` as the lengths say.
abbrev pub lengths : List String → List String → List ℕ
lengths a [] = lcs_length a [] ∷ []
lengths a (y ∷ b) = lcs_length a (y ∷ b) ∷ lengths a b

abbrev pub drop : ℕ → List String → List String
drop zero b = b
drop (suc j) [] = []
drop (suc j) (y ∷ b) = drop j b

zeros-lengths : (b : List String) → zeros b ≡ lengths [] b
unfolding zeros
zeros-lengths [] = refl
zeros-lengths (y ∷ b) = rw (zeros-lengths b) refl

cell-lengths : (a b : List String) → cell (lengths a b) 0 ≡ lcs_length a b
cell-lengths a [] = refl
cell-lengths a (y ∷ b) = refl

lcs_length-nil : (a : List String) → lcs_length a [] ≡ 0
lcs_length-nil [] = refl
lcs_length-nil (x ∷ a) = refl

pub cell-lengths-drop : (a b : List String) (j : ℕ) → cell (lengths a b) j ≡ lcs_length a (drop j b)
cell-lengths-drop a b zero = cell-lengths a b
cell-lengths-drop a [] (suc j) = sym (lcs_length-nil a)
cell-lengths-drop a (y ∷ b) (suc j) = cell-lengths-drop a b j

pub drop-suc :
    (j : ℕ) (whole : List String) {y : String} {b : List String}
    → drop j whole ≡ y ∷ b
    → drop (suc j) whole ≡ b
drop-suc zero [] e = cc
drop-suc zero (z ∷ whole) e = cc
drop-suc (suc j) [] e = cc
drop-suc (suc j) (z ∷ whole) e = drop-suc j whole e

lcs_row-lengths : (x : String) (a b : List String) → lcs_row x b (lengths a b) ≡ lengths (x ∷ a) b
unfolding lcs_row
lcs_row-lengths x a [] = refl
lcs_row-lengths x a (y ∷ b) =
    rw (lcs_row-lengths x a b, cell-lengths (x ∷ a) b, cell-lengths a b) refl

pub lcs_table-lengths : (a b : List String) → row_of (lcs_table a b) ≡ lengths a b
unfolding lcs_table
lcs_table-lengths [] b = zeros-lengths b
lcs_table-lengths (x ∷ a) b = rw (lcs_table-lengths a b) (lcs_row-lengths x a b)

skip_head : {z : String} {c a : List String} → Subsequence (z ∷ c) a → Subsequence c a
skip_head (skip s) = skip (skip_head s)
skip_head (keep s) = skip s

tail_of : {z x : String} {c a : List String} → Subsequence (z ∷ c) (x ∷ a) → Subsequence c a
tail_of (skip s) = skip_head s
tail_of (keep s) = s

equal_heads :
    (c : List String) {a b : List String} {x y : String} (n : ℕ)
    → Subsequence c (x ∷ a)
    → Subsequence c (y ∷ b)
    → ((d : List String) → Subsequence d a → Subsequence d b → length d ≤ n)
    → length c ≤ n + 1
equal_heads [] n s t h = omega arith
equal_heads (z ∷ c) n s t h = omega (arith, h c (tail_of s) (tail_of t))

different_heads :
    {a b c : List String} {x y : String} (m n : ℕ)
    → str_eq x y ≡ false
    → (s : Subsequence c (x ∷ a)) (t : Subsequence c (y ∷ b))
    → (Subsequence c a → Subsequence c (y ∷ b) → length c ≤ m)
    → (Subsequence c (x ∷ a) → Subsequence c b → length c ≤ n)
    → length c ≤ max m n
different_heads m n ne (skip s) t h k = omega (arith, h s t)
different_heads m n ne (keep s) (skip t) h k = omega (arith, k (keep s) t)
different_heads {x = x} m n ne (keep s) (keep t) h k = ground (arith, ne, eq_refl x)

-- No common subsequence is longer than the length.
pub lcs_length-max :
    (a b c : List String) → Subsequence c a → Subsequence c b → length c ≤ lcs_length a b
lcs_length-max [] b [] s t = omega arith
lcs_length-max [] b (z ∷ c) s t = elim s [ ]
lcs_length-max (x ∷ a) [] [] s t = omega arith
lcs_length-max (x ∷ a) [] (z ∷ c) s t = elim t [ ]
lcs_length-max (x ∷ a) (y ∷ b) c s t = elim (Bool-cases (str_eq x y)) [
  | inl e ↦ rw e (equal_heads c (lcs_length a b) s t (lcs_length-max a b))
  | inr ne ↦ rw ne (
      different_heads (lcs_length a (y ∷ b)) (lcs_length (x ∷ a) b) ne s t
        (lcs_length-max a (y ∷ b) c) (lcs_length-max (x ∷ a) b c))
]
