-- ===== src/Clauses/Patterns/Bounds.antt =====
-- Where a marker lies in its line.
use mathlib.Core.Option
use mathlib.Core.Path.{subst}
use senecial.Base.{
  ℕ, ◌+◌, ◌-◌, ◌≤◌, ◌≡◌, refl, Option, none, some, List, [], ◌∷◌, length, length-slice,
  leading_white, trailing_white, trim, arith, Bool-cases, inl, inr,
}
use senecial.Base.Regex.{Regex, Match, group_at, exec, exec-le}
use senecial.Clauses.Expressions.{
  article_pattern, paragraph_pattern, circled_number_pattern, numbered_item_pattern,
  korean_letter_item_pattern,
}
use senecial.Clauses.Patterns.{
  ClauseNumberMatch, truthy, by_number, or_else, of_exec, article_of, paragraph_of, circled_of,
  numbered_of, letter_of, is_false_positive_line, detect_trimmed, detect_clause_number_line,
}

abbrev Below : ℕ → Option ClauseNumberMatch → Type 0
Below n none = Unit
Below n (some found) = found.matched_length ≤ n

or_else-Below :
    (n : ℕ) (a b : Option ClauseNumberMatch) → Below n a → Below n b → Below n (or_else a b)
or_else-Below n none b h k = k
or_else-Below n (some found) b h k = h

Below-mono : (n k : ℕ) (o : Option ClauseNumberMatch) → n ≤ k → Below n o → Below k o
Below-mono n k none h b = tt
Below-mono n k (some found) h b = omega (arith, h, b)

Below-map :
    (n : ℕ) (f : List ℕ → ClauseNumberMatch) (o : Option (List ℕ))
    → ((number : List ℕ) → (f number).matched_length ≤ n)
    → Below n (Option.map f o)
Below-map n f none h = tt
Below-map n f (some number) h = h number

by_number-Below :
    (f : Match → List ℕ → ClauseNumberMatch)
    → ((m : Match) (number : List ℕ) → (f m number).matched_length ≤ m.size)
    → (m : Match) → Below m.size (by_number f m)
unfolding by_number
by_number-Below f h m = Below-map m.size (f m) (truthy (group_at 1 m.groups)) (h m)

of_exec-Below :
    (f : Match → Option ClauseNumberMatch) (r : Regex) (s : List ℕ)
    → ((m : Match) → Below m.size (f m))
    → Below (length s) (of_exec f r s)
unfolding of_exec
of_exec-Below f r s below = go (exec r s) (exec-le r s)
  where
    go :
        (o : Option Match)
        → ((m : Match) → o ≡ some m → m.size ≤ length s)
        → Below (length s) (elim o [ none ↦ none | some m ↦ f m ])
    go none h = tt
    go (some m) h = Below-mono m.size (length s) (f m) (h m refl) (below m)

article_of-le : (m : Match) (number : List ℕ) → (article_of m number).matched_length ≤ m.size
unfolding article_of
article_of-le m number = omega arith

numbered_of-Below : (s : List ℕ) (m : Match) → Below m.size (numbered_of s m)
unfolding numbered_of
numbered_of-Below s m = omega arith

detect_trimmed-Below : (s : List ℕ) → Below (length s) (detect_trimmed s)
unfolding detect_trimmed
detect_trimmed-Below [] = tt
detect_trimmed-Below (c ∷ s) = elim (Bool-cases (is_false_positive_line (c ∷ s))) [
  | inl e ↦ rw e tt
  | inr e ↦
      let n = length (c ∷ s) in
      let t = c ∷ s in
      rw e (
        or_else-Below n _ _
          (of_exec-Below (by_number article_of) article_pattern t
            (by_number-Below article_of article_of-le))
          (or_else-Below n _ _
            (of_exec-Below (by_number paragraph_of) paragraph_pattern t
              (by_number-Below paragraph_of (λ m number. omega arith)))
            (or_else-Below n _ _
              (of_exec-Below (by_number circled_of) circled_number_pattern t
                (by_number-Below circled_of (λ m number. omega arith)))
              (or_else-Below n _ _
                (of_exec-Below (numbered_of t) numbered_item_pattern t (numbered_of-Below t))
                (of_exec-Below (by_number letter_of) korean_letter_item_pattern t
                  (by_number-Below letter_of (λ m number. omega arith)))))))
]

leading_white-le : (s : List ℕ) → leading_white s ≤ length s
unfolding leading_white
leading_white-le [] = omega arith
leading_white-le (c ∷ s) = ground (arith, leading_white-le s)

trim-le : (s : List ℕ) → leading_white s + length (trim s) ≤ length s
unfolding trim
trim-le s =
    let size = length-slice s (leading_white s) (length s - trailing_white s) (omega arith) in
    omega (arith, size, leading_white-le s)

-- A marker that is found lies within its line.
pub detect_clause_number_line-le :
    (line : List ℕ) (found : ClauseNumberMatch)
    → detect_clause_number_line line ≡ some found
    → leading_white line + found.matched_length ≤ length line
unfolding detect_clause_number_line
detect_clause_number_line-le line found e =
    let below = subst (Below (length (trim line))) e (detect_trimmed-Below (trim line)) in
    omega (arith, below, trim-le line)
