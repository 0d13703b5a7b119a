-- ===== src/Clauses/Segmenter/Offsets.antt =====
-- The clauses of a segmentation stand one after the other in the text.
use mathlib.Core.Path.{subst}
use senecial.Base.{
  ℕ, ◌+◌, ◌≤◌, ◌<◌, true, false, ◌≡◌, refl, sym, Option, none, some, List, [], ◌∷◌, ◌++◌, map, not,
  ◌&&◌, length, length-slice, slice, All, arith, Bool-cases, Option-cases, inl, inr,
}
use senecial.Clauses.Patterns.{ClauseNumberMatch, detect_clause_number_line}
use senecial.Clauses.Patterns.Bounds.{detect_clause_number_line-le}
use senecial.Base.{leading_white, is_blank}
use senecial.Clauses.Segmenter.{
  OpenClause, SegmentedClause, Segmenter, start, closed, close_current, open_clause, open_preamble,
  scan_line, scan_lines, lines_of, is_flattened, some_nested, flattened, scanned, segment,
  is_offset_range_valid,
}
use senecial.Clauses.Segmenter.Lines.{Fits, Spans, Spans-le, lines_of-Spans}
use senecial.Clauses.Segmenter.Slices.{trimmed-lt, same_text_refl}

module _ (text : List ℕ) where
  abbrev pub IsClause : SegmentedClause → Type 0
  IsClause c =
      (c.start_offset < c.end_offset)
      × (c.end_offset ≤ length text)
      × (c.text ≡ slice text c.start_offset c.end_offset)

  -- Clauses of the text, from a position and an index on, up to a position and an index.
  abbrev pub Chain : ℕ → ℕ → List SegmentedClause → ℕ → ℕ → Type 0
  Chain lo k [] hi n = (lo ≤ hi) × (k ≤ n)
  Chain lo k (c ∷ cs) hi n =
      (lo ≤ c.start_offset)
      × (k ≤ c.order_index)
      × IsClause c
      × Chain c.end_offset (c.order_index + 1) cs hi n

  pub Chain-widen :
      (lo k : ℕ) (cs : List SegmentedClause) (hi n hi' n' : ℕ)
      → hi ≤ hi'
      → n ≤ n'
      → Chain lo k cs hi n
      → Chain lo k cs hi' n'
  Chain-widen lo k [] hi n hi' n' h h' (l, m) = (omega arith, omega arith)
  Chain-widen lo k (c ∷ cs) hi n hi' n' h h' (l, m, v, rest) =
      (l, m, v, Chain-widen c.end_offset (c.order_index + 1) cs hi n hi' n' h h' rest)

  Chain-append :
      (lo k : ℕ) (cs : List SegmentedClause) (hi n : ℕ) (c : SegmentedClause) (hi' n' : ℕ)
      → Chain lo k cs hi n
      → hi ≤ c.start_offset
      → n ≤ c.order_index
      → IsClause c
      → c.end_offset ≤ hi'
      → c.order_index < n'
      → Chain lo k (cs ++ c ∷ []) hi' n'
  Chain-append lo k [] hi n c hi' n' (l, m) h h' v e e' =
      (omega arith, omega arith, v, (e, omega arith))
  Chain-append lo k (d ∷ cs) hi n c hi' n' (l, m, w, rest) h h' v e e' =
      (l, m, w, Chain-append d.end_offset (d.order_index + 1) cs hi n c hi' n' rest h h' v e e')

  -- The clauses so far end before the current one.
  abbrev Holds : ℕ → List SegmentedClause → Option OpenClause → ℕ → Type 0
  Holds p cs none n = Chain 0 0 cs p n
  Holds p cs (some c) n =
      (c.start_offset ≤ p) × (c.order_index < n) × Chain 0 0 cs c.start_offset c.order_index

  closed-IsClause :
      (c : OpenClause) (p : ℕ)
      → p ≤ length text
      → is_blank (slice text c.start_offset p) ≡ false
      → IsClause (closed text c p) × (c.start_offset ≤ (closed text c p).start_offset)
  closed-IsClause c p h shown =
      let size = length-slice text c.start_offset p h in
      let room = trimmed-lt (slice text c.start_offset p) shown in
      ((omega arith, omega arith, refl), omega arith)

  close_current-Chain :
      (p : ℕ) (s : Segmenter)
      → p ≤ length text
      → Holds p s.clauses s.current s.order_index
      → Chain 0 0 (close_current text p s).clauses p s.order_index
  unfolding close_current
  close_current-Chain p s h holds = elim (Option-cases s.current) [
    | inl e ↦ rw (e, close_current) (rw e at holds)
    | inr (c, e) ↦
        let (below, index, chain) = rw e at holds in
        elim (Bool-cases (is_blank (slice text c.start_offset p))) [
          | inl blank ↦
              rw (e, blank, close_current)
                (Chain-widen 0 0 s.clauses c.start_offset c.order_index p s.order_index below
                  (omega arith) chain)
          | inr shown ↦
              let (valid, after) = closed-IsClause c p h shown in
              rw (e, shown, close_current)
                (Chain-append 0 0 s.clauses c.start_offset c.order_index (closed text c p) p
                  s.order_index chain after (omega arith) valid (omega arith) index)
        ]
  ]

  Holds-later :
      (p q : ℕ) (cs : List SegmentedClause) (o : Option OpenClause) (n : ℕ)
      → p ≤ q
      → Holds p cs o n
      → Holds q cs o n
  Holds-later p q cs none n h holds = Chain-widen 0 0 cs p n q n h (omega arith) holds
  Holds-later p q cs (some c) n h (below, index, chain) = (omega arith, index, chain)

  is_offset_range_valid-IsClause :
      (c : SegmentedClause)
      → IsClause c
      → is_offset_range_valid text c.start_offset c.end_offset c.text ≡ true
  unfolding is_offset_range_valid
  is_offset_range_valid-IsClause c (nonempty, within, spells) =
      rw spells
        (ground (arith, nonempty, within, same_text_refl (slice text c.start_offset c.end_offset)))

  Chain-valid :
      (lo k : ℕ) (cs : List SegmentedClause) (hi n : ℕ)
      → Chain lo k cs hi n
      → All (λ c. is_offset_range_valid text c.start_offset c.end_offset c.text ≡ true) cs
  Chain-valid lo k [] hi n h = tt
  Chain-valid lo k (c ∷ cs) hi n (l, m, v, rest) = (
    is_offset_range_valid-IsClause c v,
    Chain-valid c.end_offset (c.order_index + 1) cs hi n rest,
  )

  close_current-order_index :
      (p : ℕ) (s : Segmenter) → (close_current text p s).order_index ≡ s.order_index
  unfolding close_current
  close_current-order_index p s = elim (Option-cases s.current) [
    | inl e ↦ rw (e, close_current) refl
    | inr (c, e) ↦ elim (Bool-cases (is_blank (slice text c.start_offset p))) [
      | inl blank ↦ rw (e, blank, close_current) refl
      | inr shown ↦ rw (e, shown, close_current) refl
    ]
  ]

  module _ (detect : List ℕ → Option ClauseNumberMatch) (fits : Fits detect) where
    scan_line-Holds :
        (p : ℕ) (line : List ℕ) (s : Segmenter)
        → p + length line ≤ length text
        → Holds p s.clauses s.current s.order_index
        → let s' = scan_line text detect p line s in
          Holds (p + length line) s'.clauses s'.current s'.order_index
    unfolding scan_line open_clause open_preamble
    scan_line-Holds p line s h holds = elim (Option-cases (detect line)) [
      | inr (found, e) ↦
          let shut = close_current text p s in
          let same = close_current-order_index p s in
          let within = fits line found e in
          let chain = close_current-Chain p s (omega arith) holds in
          rw (e, scan_line)
            (
              omega arith,
              omega arith,
              Chain-widen 0 0 shut.clauses p s.order_index
                  (p + leading_white line + found.matched_length) shut.order_index (omega arith)
                  (omega (arith, same)) chain,
            )
      | inl e ↦ elim (Option-cases s.current) [
        | inl e' ↦ rw (e, e', scan_line) (omega arith, omega arith, rw e' at holds)
        | inr (c, e') ↦
            rw (e, e', scan_line)
              (Holds-later p (p + length line) s.clauses s.current s.order_index (omega arith)
                holds)
      ]
    ]

    scan_lines-Holds :
        (p : ℕ) (lines : List (List ℕ)) (s : Segmenter)
        → Spans (length text) p lines
        → Holds p s.clauses s.current s.order_index
        → let s' = scan_lines text detect p lines s in
          Holds (length text) s'.clauses s'.current s'.order_index
    unfolding scan_lines
    scan_lines-Holds p [] s h holds = absurd h
    scan_lines-Holds p (line ∷ []) s h holds =
        let s' = scan_line text detect p line s in
        subst (λ q. Holds q s'.clauses s'.current s'.order_index) h
          (scan_line-Holds p line s (omega (arith, h)) holds)
    scan_lines-Holds p (line ∷ next ∷ lines) s h holds =
        let s' = scan_line text detect p line s in
        let below = Spans-le (length text) (p + length line + 1) (next ∷ lines) h in
        scan_lines-Holds (p + length line + 1) (next ∷ lines) s' h (
          Holds-later (p + length line) (p + length line + 1) s'.clauses s'.current s'.order_index
            (omega arith) (scan_line-Holds p line s (omega arith) holds))

    segmented-Chain :
        let s = close_current text (length text) (scan_lines text detect 0 (lines_of text) start) in
        Chain 0 0 s.clauses (length text) s.order_index
    segmented-Chain =
        let s = scan_lines text detect 0 (lines_of text) start in
        let holds =
          scan_lines-Holds 0 (lines_of text) start
            (subst (λ n. Spans n 0 (lines_of text)) (omega arith) (lines_of-Spans 0 text))
            (omega arith, omega arith) in
        subst (λ n. Chain 0 0 (close_current text (length text) s).clauses (length text) n)
          (sym (close_current-order_index (length text) s))
          (close_current-Chain (length text) s (omega arith) holds)

  flattened-Chain :
      (lo k : ℕ) (cs : List SegmentedClause) (hi n : ℕ)
      → Chain lo k cs hi n
      → Chain lo k (map flattened cs) hi n
  flattened-Chain lo k [] hi n h = h
  flattened-Chain lo k (c ∷ cs) hi n (l, m, v, rest) =
      (l, m, v, flattened-Chain c.end_offset (c.order_index + 1) cs hi n rest)

  -- The clauses of a segmentation stand in the text one after the other, without overlap and by growing
  -- indices; each is the slice of the text at its offsets, and passes the test of offsets that the worker
  -- makes.
  pub segment-Chain :
      (n : ℕ) × Chain 0 0 (segment text).clauses (length text) n
      × All
          (λ c. is_offset_range_valid text c.start_offset c.end_offset c.text ≡ true)
          (segment text).clauses
  unfolding segment scanned is_flattened
  segment-Chain =
      let scanned = scan_lines text detect_clause_number_line 0 (lines_of text) start in
      let s = close_current text (length text) scanned in
      let chain = segmented-Chain detect_clause_number_line detect_clause_number_line-le in
      elim (Bool-cases (not s.has_any_article && some_nested s.clauses)) [
        | inl flat ↦
            let chain' = flattened-Chain 0 0 s.clauses (length text) s.order_index chain in
            rw (flat, segment)
              (
                s.order_index,
                chain',
                Chain-valid 0 0 (map flattened s.clauses) (length text) s.order_index chain',
              )
        | inr deep ↦
            rw (deep, segment)
              (s.order_index, chain, Chain-valid 0 0 s.clauses (length text) s.order_index chain)
      ]
