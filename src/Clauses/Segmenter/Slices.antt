-- ===== src/Clauses/Segmenter/Slices.antt =====
-- Positions in slices, and what trimming removes.
use senecial.Base.{
  ℕ, zero, suc, ◌+◌, ◌-◌, ◌≤◌, ◌<◌, true, false, ◌≡◌, refl, ap, ◌∙◌, some, List, [], ◌∷◌, length,
  take, drop, slice, get_elem?, arith, Bool-cases, inl, inr, none-ne-some, some-inj,
}
use senecial.Base.{is_white, leading_white, is_blank, trailing_white}
use senecial.Clauses.Segmenter.{same_text}

-- A character that is not white stands at a position.
abbrev pub Visible : List ℕ → ℕ → Type 0
Visible s i = (c : ℕ) × (get_elem? s i ≡ some c) × (is_white c ≡ false)

get_elem?-take : (n : ℕ) (s : List ℕ) (j : ℕ) → j < n → get_elem? (take n s) j ≡ get_elem? s j
get_elem?-take zero s j h = absurd (omega arith)
get_elem?-take (suc n) [] j h = refl
get_elem?-take (suc n) (c ∷ s) zero h = refl
get_elem?-take (suc n) (c ∷ s) (suc j) h = get_elem?-take n s j (omega arith)

get_elem?-drop : (a : ℕ) (s : List ℕ) (j i : ℕ) → a + j ≡ i → get_elem? (drop a s) j ≡ get_elem? s i
get_elem?-drop zero s j i e = ap (get_elem? s) (omega arith)
get_elem?-drop (suc a) [] j i e = refl
get_elem?-drop (suc a) (c ∷ s) j zero e = absurd (omega arith)
get_elem?-drop (suc a) (c ∷ s) j (suc i) e = get_elem?-drop a s j i (omega arith)

pub Visible-slice :
    (s : List ℕ) (a b i : ℕ) → a ≤ i → i < b → Visible s i → Visible (slice s a b) (i - a)
Visible-slice s a b i h k (c, e, v) = (
  c,
  get_elem?-take (b - a) (drop a s) (i - a) (omega arith)
      ∙ get_elem?-drop a s (i - a) i (omega arith)
      ∙ e,
  v,
)

trailing_white-le : (s : List ℕ) → trailing_white s ≤ length s
unfolding trailing_white
trailing_white-le [] = omega arith
trailing_white-le (c ∷ s) = ground (arith, trailing_white-le s)

-- What is not white lies behind the leading and before the trailing white space.
pub Visible-trimmed :
    (s : List ℕ) (j : ℕ)
    → Visible s j
    → (is_blank s ≡ false) × (leading_white s ≤ j) × (j + trailing_white s < length s)
unfolding is_blank leading_white trailing_white
Visible-trimmed [] j (c, e, v) = absurd (none-ne-some e)
Visible-trimmed (c ∷ s) zero (d, e, v) =
    let same = some-inj e in
    let shown : is_white c ≡ false = ap is_white same ∙ v in
    (rw shown refl, rw shown (omega arith), rw shown (omega (arith, trailing_white-le s)))
Visible-trimmed (c ∷ s) (suc j) (d, e, v) =
    let (shown, before, behind) = Visible-trimmed s j (d, e, v) in
    elim (Bool-cases (is_white c)) [
      | inl white ↦ (
        rw (white, shown) refl,
        rw white (omega (arith, before)),
        rw (white, shown) (omega arith),
      )
      | inr seen ↦ (rw seen refl, rw seen (omega arith), rw seen (omega arith))
    ]

blank-Visible : (s : List ℕ) → is_blank s ≡ false → (j : ℕ) × Visible s j
unfolding is_blank
blank-Visible [] h = absurd (ground (arith, h))
blank-Visible (c ∷ s) h = elim (Bool-cases (is_white c)) [
  | inr seen ↦ (0, (c, refl, seen))
  | inl white ↦ let (j, (d, e, v)) = blank-Visible s (rw white at h) in (suc j, (d, e, v))
]

pub trimmed-lt : (s : List ℕ) → is_blank s ≡ false → leading_white s + trailing_white s < length s
trimmed-lt s h =
    let (j, seen) = blank-Visible s h in
    let (shown, before, behind) = Visible-trimmed s j seen in omega arith

pub same_text_refl : (s : List ℕ) → same_text s s ≡ true
unfolding same_text
same_text_refl [] = refl
same_text_refl (c ∷ s) = ground (arith, same_text_refl s)
