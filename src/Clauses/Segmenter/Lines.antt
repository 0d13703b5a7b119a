-- ===== src/Clauses/Segmenter/Lines.antt =====
-- How the lines of a text stand in it.
use mathlib.Core.Path.{subst}
use senecial.Base.{
  ℕ, ◌+◌, ◌≤◌, ◌≡◌, Option, some, List, [], ◌∷◌, ◌==◌, length, leading_white, arith, Bool-cases,
  inl, inr, if◌then◌else◌,
}
use senecial.Clauses.Patterns.{ClauseNumberMatch}
use senecial.Clauses.Segmenter.{lines_of}

-- A detector finds its marker within the line.
abbrev pub Fits : (List ℕ → Option ClauseNumberMatch) → Type 0
Fits detect =
    (line : List ℕ) (found : ClauseNumberMatch)
    → detect line ≡ some found
    → leading_white line + found.matched_length ≤ length line

-- Lines that stand from a position on, with one unit between them, the last of which ends at `end`.
abbrev pub Spans : ℕ → ℕ → List (List ℕ) → Type 0
Spans end p [] = ⊥
Spans end p (line ∷ []) = p + length line ≡ end
Spans end p (line ∷ next ∷ lines) = Spans end (p + length line + 1) (next ∷ lines)

pub Spans-le : (end p : ℕ) (lines : List (List ℕ)) → Spans end p lines → p ≤ end
Spans-le end p [] h = absurd h
Spans-le end p (line ∷ []) h = omega (arith, h)
Spans-le end p (line ∷ next ∷ lines) h =
    omega (arith, Spans-le end (p + length line + 1) (next ∷ lines) h)

Spans-prepend :
    (end p c : ℕ) (line : List ℕ) (lines : List (List ℕ))
    → Spans end (p + 1) (line ∷ lines)
    → Spans end p ((c ∷ line) ∷ lines)
Spans-prepend end p c line [] h = omega (arith, h)
Spans-prepend end p c line (next ∷ lines) h =
    subst (λ q. Spans end q (next ∷ lines)) (omega arith) h

pub lines_of-Spans : (p : ℕ) (s : List ℕ) → Spans (p + length s) p (lines_of s)
unfolding lines_of
lines_of-Spans p [] = omega arith
lines_of-Spans p (c ∷ s) =
    let ih = subst (λ n. Spans n (p + 1) (lines_of s)) (omega arith) (lines_of-Spans (p + 1) s) in
    go (lines_of s) ih
  where
    go :
        (lines : List (List ℕ))
        → Spans (p + length (c ∷ s)) (p + 1) lines
        → Spans (p + length (c ∷ s)) p (elim lines [
          | [] ↦ []
          | line ∷ rest ↦ if c == 10 then [] ∷ line ∷ rest else (c ∷ line) ∷ rest
        ])
    go [] h = h
    go (line ∷ rest) h = elim (Bool-cases (c == 10)) [
      | inl newline ↦
          rw newline (subst (λ q. Spans (p + length (c ∷ s)) q (line ∷ rest)) (omega arith) h)
      | inr other ↦ rw other (Spans-prepend (p + length (c ∷ s)) p c line rest h)
    ]
