-- ===== src/Clauses/Segmenter/Coverage.antt =====
-- A segmentation loses no text.
use mathlib.Core.Path.{subst}
use senecial.Base.{
  ℕ, ◌+◌, ◌-◌, ◌≤◌, ◌<◌, ◌≡◌, ◌⊎◌, refl, sym, Option, none, some, List, [], ◌∷◌, ◌++◌, map, not,
  ◌&&◌, ltb, length, length-slice, slice, arith, Bool-cases, Option-cases, inl, inr, none-ne-some,
}
use senecial.Clauses.Patterns.{ClauseNumberMatch, detect_clause_number_line}
use senecial.Clauses.Patterns.Bounds.{detect_clause_number_line-le}
use senecial.Base.{leading_white, is_blank}
use senecial.Clauses.Segmenter.{
  OpenClause, SegmentedClause, Segmenter, start, closed, close_current, open_clause, open_preamble,
  scan_line, scan_lines, lines_of, is_flattened, some_nested, flattened, scanned, segment,
}
use senecial.Clauses.Segmenter.Slices.{Visible, Visible-slice, Visible-trimmed}
use senecial.Clauses.Segmenter.Lines.{Fits, Spans, Spans-le, lines_of-Spans}

-- A position lies in a clause.
abbrev pub Within : ℕ → List SegmentedClause → Type 0
Within i [] = ⊥
Within i (c ∷ cs) = ((c.start_offset ≤ i) × (i < c.end_offset)) ⊎ Within i cs

Within-append_left : (i : ℕ) (cs ds : List SegmentedClause) → Within i cs → Within i (cs ++ ds)
Within-append_left i [] ds h = absurd h
Within-append_left i (c ∷ cs) ds (inl here) = inl here
Within-append_left i (c ∷ cs) ds (inr later) = inr (Within-append_left i cs ds later)

Within-append_one :
    (i : ℕ) (cs : List SegmentedClause) (c : SegmentedClause)
    → (c.start_offset ≤ i) × (i < c.end_offset)
    → Within i (cs ++ c ∷ [])
Within-append_one i [] c h = inl h
Within-append_one i (d ∷ cs) c h = inr (Within-append_one i cs c h)

Within-flattened : (i : ℕ) (cs : List SegmentedClause) → Within i cs → Within i (map flattened cs)
Within-flattened i [] h = absurd h
Within-flattened i (c ∷ cs) (inl here) = inl here
Within-flattened i (c ∷ cs) (inr later) = inr (Within-flattened i cs later)

-- A position lies in the marker of a line that stands at `p`, white space before it included.
abbrev pub InMarker : (List ℕ → Option ClauseNumberMatch) → ℕ → ℕ → List ℕ → Type 0
InMarker detect i p line =
    (found : ClauseNumberMatch) × (detect line ≡ some found)
    × (p ≤ i)
    × (i < p + leading_white line + found.matched_length)

abbrev pub InMarkers : (List ℕ → Option ClauseNumberMatch) → ℕ → ℕ → List (List ℕ) → Type 0
InMarkers detect i p [] = ⊥
InMarkers detect i p (line ∷ lines) =
    InMarker detect i p line ⊎ InMarkers detect i (p + length line + 1) lines

abbrev Opens : ℕ → Option OpenClause → Type 0
Opens i none = ⊥
Opens i (some c) = c.start_offset ≤ i

abbrev Starts : ℕ → Option OpenClause → Type 0
Starts p none = Unit
Starts p (some c) = c.start_offset ≤ p

keeps :
    (o : Option OpenClause) (x y : Segmenter) (c : OpenClause)
    → o ≡ some c
    → (elim o [ none ↦ x | some clause ↦ y ]) ≡ y
keeps none x y c e = absurd (none-ne-some e)
keeps (some d) x y c e = refl

module _ (text : List ℕ) (i : ℕ) (visible : Visible text i) where
  close_current-Within :
      (p : ℕ) (s : Segmenter)
      → p ≤ length text
      → i < p
      → Within i s.clauses ⊎ Opens i s.current
      → Within i (close_current text p s).clauses
  unfolding close_current
  close_current-Within p s h before seen = elim (Option-cases s.current) [
    | inl e ↦ elim (rw e at seen) [
      | inl old ↦ rw (e, close_current) old
      | inr nowhere ↦ absurd nowhere
    ]
    | inr (c, e) ↦ elim (Bool-cases (is_blank (slice text c.start_offset p))) [
      | inl blank ↦ elim (rw e at seen) [
        | inl old ↦ rw (e, blank, close_current) old
        | inr below ↦
            let (shown, lead, trail) =
              Visible-trimmed (slice text c.start_offset p) (i - c.start_offset)
                (Visible-slice text c.start_offset p i below before visible) in
            absurd (ground (arith, shown, blank))
      ]
      | inr shown ↦ elim (rw e at seen) [
        | inl old ↦
            rw (e, shown, close_current) (Within-append_left i s.clauses (closed text c p ∷ []) old)
        | inr below ↦
            let (there, lead, trail) =
              Visible-trimmed (slice text c.start_offset p) (i - c.start_offset)
                (Visible-slice text c.start_offset p i below before visible) in
            let size = length-slice text c.start_offset p h in
            rw (e, shown, close_current)
              (Within-append_one i s.clauses (closed text c p) (omega arith, omega arith))
      ]
    ]
  ]

  module _ (detect : List ℕ → Option ClauseNumberMatch) (fits : Fits detect) where
    -- A position that the scan has passed is in a clause, in the current one, or elsewhere.
    abbrev Passed : Type 0 → ℕ → List SegmentedClause → Option OpenClause → Type 0
    Passed H p cs o = (i < p → (Within i cs ⊎ Opens i o) ⊎ H) × Starts p o

    scan_line-Passed :
        (H : Type 0) (p : ℕ) (line : List ℕ) (s : Segmenter)
        → p + length line ≤ length text
        → Passed H p s.clauses s.current
        → let s' = scan_line text detect p line s in
          Passed (H ⊎ InMarker detect i p line) (p + length line + 1) s'.clauses s'.current
    unfolding scan_line open_clause open_preamble
    scan_line-Passed H p line s h (passed, begun) = elim (Option-cases (detect line)) [
      | inr (found, e) ↦
          let within = fits line found e in
          rw (e, scan_line)
            (
              λ before. elim (Bool-cases (ltb i p)) [
                | inl old ↦ elim (passed (ground (arith, old))) [
                  | inl seen ↦
                      inl (inl (close_current-Within p s (omega arith) (ground (arith, old)) seen))
                  | inr elsewhere ↦ inr (inl elsewhere)
                ]
                | inr new ↦
                    elim (Bool-cases (ltb i (p + leading_white line + found.matched_length))) [
                      | inl marked ↦
                          inr (inr (found, refl, ground (arith, new), ground (arith, marked)))
                      | inr body ↦ inl (inr (ground (arith, body)))
                    ]
              ],
              omega arith,
            )
      | inl e ↦ elim (Option-cases s.current) [
        | inl e' ↦
            rw (e, e', scan_line)
              (
                λ before. elim (Bool-cases (ltb i p)) [
                  | inl old ↦ elim ((rw e' at passed) (ground (arith, old))) [
                    | inl seen ↦ elim seen [
                      | inl inside ↦ inl (inl inside)
                      | inr nowhere ↦ absurd nowhere
                    ]
                    | inr elsewhere ↦ inr (inl elsewhere)
                  ]
                  | inr new ↦ inl (inr (ground (arith, new)))
                ],
                omega arith,
              )
        | inr (c, e') ↦
            let below = rw e' at begun in
            let same : scan_line text detect p line s ≡ s =
              rw (e, scan_line) (keeps s.current _ s c e') in
            subst
              (λ t. Passed (H ⊎ InMarker detect i p line) (p + length line + 1) t.clauses t.current)
              (sym same)
              (
                λ before. elim (Bool-cases (ltb i p)) [
                  | inl old ↦ elim (passed (ground (arith, old))) [
                    | inl seen ↦ inl seen
                    | inr elsewhere ↦ inr (inl elsewhere)
                  ]
                  | inr new ↦
                      let opens : Opens i s.current = rw e' (ground (arith, new, below)) in
                      inl (inr opens)
                ],
                rw e' (omega (arith, below)),
              )
      ]
    ]

    Passed-mono :
        (H K : Type 0) (p : ℕ) (cs : List SegmentedClause) (o : Option OpenClause)
        → (H → K)
        → Passed H p cs o
        → Passed K p cs o
    Passed-mono H K p cs o f (passed, begun) =
        (λ before. elim (passed before) [ inl seen ↦ inl seen | inr h ↦ inr (f h) ], begun)

    -- The lines end one past the last position.
    scan_lines-Passed :
        (H : Type 0) (p : ℕ) (lines : List (List ℕ)) (s : Segmenter)
        → Spans (length text) p lines
        → Passed H p s.clauses s.current
        → let s' = scan_lines text detect p lines s in
          Passed (H ⊎ InMarkers detect i p lines) (length text + 1) s'.clauses s'.current
    unfolding scan_lines
    scan_lines-Passed H p [] s h passed = absurd h
    scan_lines-Passed H p (line ∷ []) s h passed =
        let s' = scan_line text detect p line s in
        Passed-mono (H ⊎ InMarker detect i p line) (H ⊎ InMarkers detect i p (line ∷ []))
          (length text + 1) s'.clauses s'.current
          (λ k. elim k [ inl old ↦ inl old | inr here ↦ inr (inl here) ])
          (subst (λ q. Passed (H ⊎ InMarker detect i p line) (q + 1) s'.clauses s'.current) h
            (scan_line-Passed H p line s (omega (arith, h)) passed))
    scan_lines-Passed H p (line ∷ next ∷ lines) s h passed =
        let q = p + length line + 1 in
        let s' = scan_line text detect p line s in
        let s'' = scan_lines text detect q (next ∷ lines) s' in
        let below = Spans-le (length text) q (next ∷ lines) h in
        Passed-mono ((H ⊎ InMarker detect i p line) ⊎ InMarkers detect i q (next ∷ lines))
          (H ⊎ InMarkers detect i p (line ∷ next ∷ lines)) (length text + 1) s''.clauses s''.current
          (λ k. elim k [
            | inl (inl old) ↦ inl old
            | inl (inr here) ↦ inr (inl here)
            | inr later ↦ inr (inr later)
          ])
          (scan_lines-Passed (H ⊎ InMarker detect i p line) q (next ∷ lines) s' h
            (scan_line-Passed H p line s (omega arith) passed))

  -- A segmentation drops nothing but white space and markers: every character that is not white is in a
  -- clause, or in the marker that is found in a line.
  pub segment-Within :
      i < length text
      → Within i (segment text).clauses ⊎ InMarkers detect_clause_number_line i 0 (lines_of text)
  unfolding segment scanned is_flattened
  segment-Within inside =
      let scanned = scan_lines text detect_clause_number_line 0 (lines_of text) start in
      let (passed, begun) =
        scan_lines-Passed detect_clause_number_line detect_clause_number_line-le ⊥ 0 (lines_of text)
          start (subst (λ n. Spans n 0 (lines_of text)) (omega arith) (lines_of-Spans 0 text))
          (λ before. absurd (omega arith), tt) in
      elim (passed (omega arith)) [
        | inr (inl never) ↦ absurd never
        | inr (inr marked) ↦ inr marked
        | inl seen ↦
            let last = close_current text (length text) scanned in
            let there = close_current-Within (length text) scanned (omega arith) inside seen in
            elim (Bool-cases (not last.has_any_article && some_nested last.clauses)) [
              | inl flat ↦ rw (flat, segment) (inl (Within-flattened i last.clauses there))
              | inr deep ↦ rw (deep, segment) (inl there)
            ]
      ]
