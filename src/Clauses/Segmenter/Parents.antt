-- ===== src/Clauses/Segmenter/Parents.antt =====
-- In a segmentation each parent comes before its children.
use mathlib.Core.Path.{subst}
use senecial.Base.{
  ℕ, zero, suc, ◌+◌, ◌<◌, ◌≡◌, Option, none, some, List, [], ◌∷◌, ◌==◌, ◌&&◌, not, ltb, leb, length,
  slice, map, All, All-append, All-mono, arith, Bool-cases, Option-cases, none-ne-some, some-inj,
  inl, inr, is_blank,
}
use senecial.Clauses.Hierarchy.Descending.{Before}
use senecial.Clauses.Patterns.{ClauseNumberMatch, detect_clause_number_line}
use senecial.Clauses.Segmenter.{
  OpenClause, SegmentedClause, Segmenter, start, open_at, find_parent_for_depth, above, set_open,
  parent_index, closed, close_current, opened, open_clause, preamble, open_preamble, scan_line,
  scan_lines, lines_of, is_flattened, some_nested, flattened, scanned, segment,
}

abbrev AllOpen : ℕ → List (ℕ × OpenClause) → Type 0
AllOpen n = All (λ e. e.1.order_index < n)

abbrev CurrentBefore : Option OpenClause → Type 0
CurrentBefore none = Unit
CurrentBefore (some c) = Before c.parent_order_index c.order_index

abbrev ClausesBefore : List SegmentedClause → Type 0
ClausesBefore = All (λ c. Before c.parent_order_index c.order_index)

open_at-lt :
    (n d : ℕ) (m : List (ℕ × OpenClause)) (c : OpenClause)
    → AllOpen n m
    → open_at d m ≡ some c
    → c.order_index < n
unfolding open_at
open_at-lt n d [] c h e = absurd (none-ne-some e)
open_at-lt n d ((k, o) ∷ m) c (b, h) e = elim (Bool-cases (k == d)) [
  | inl same ↦ subst (λ x. x.order_index < n) (some-inj (rw same at e)) b
  | inr other ↦ open_at-lt n d m c h (rw other at e)
]

parent-Before :
    (n d : ℕ) (m : List (ℕ × OpenClause))
    → AllOpen n m
    → Before (parent_index (find_parent_for_depth m d)) n
unfolding find_parent_for_depth
parent-Before n zero m h = tt
parent-Before n (suc d) m h = elim (Option-cases (open_at d m)) [
  | inl e ↦ rw (e, find_parent_for_depth) (parent-Before n d m h)
  | inr (c, e) ↦ rw (e, find_parent_for_depth) (open_at-lt n d m c h e)
]

AllOpen-above : (n d : ℕ) (m : List (ℕ × OpenClause)) → AllOpen n m → AllOpen n (above d m)
unfolding above
AllOpen-above n d [] h = tt
AllOpen-above n d ((k, o) ∷ m) (b, h) = elim (Bool-cases (leb d k)) [
  | inl e ↦ rw e (AllOpen-above n d m h)
  | inr e ↦ rw e (b, AllOpen-above n d m h)
]

AllOpen-set_open :
    (n d : ℕ) (c : OpenClause) (m : List (ℕ × OpenClause))
    → c.order_index < n
    → AllOpen n m
    → AllOpen n (set_open d c m)
unfolding set_open
AllOpen-set_open n d c [] h k = (h, tt)
AllOpen-set_open n d c ((j, o) ∷ m) h (b, k) = elim (Bool-cases (j == d)) [
  | inl e ↦ rw e (h, k)
  | inr e ↦ rw e (b, AllOpen-set_open n d c m h k)
]

AllOpen-next : (n : ℕ) (m : List (ℕ × OpenClause)) → AllOpen n m → AllOpen (n + 1) m
AllOpen-next n m h =
    All-mono (λ e. e.1.order_index < n) (λ e. e.1.order_index < n + 1) m (λ e b. omega (arith, b)) h

abbrev Holds : Segmenter → Type 0
Holds s = ClausesBefore s.clauses × CurrentBefore s.current × AllOpen s.order_index s.open_by_depth

current-Holds :
    (o : Option OpenClause) (x y : Segmenter)
    → Holds x
    → Holds y
    → Holds (elim o [ none ↦ x | some clause ↦ y ])
current-Holds none x y h k = h
current-Holds (some c) x y h k = k

module _ (text : List ℕ) where
  close_current-Holds : (p : ℕ) (s : Segmenter) → Holds s → Holds (close_current text p s)
  unfolding close_current
  close_current-Holds p s (old, now, opens) = elim (Option-cases s.current) [
    | inl e ↦ rw (e, close_current) (old, now, opens)
    | inr (c, e) ↦ elim (Bool-cases (is_blank (slice text c.start_offset p))) [
      | inl blank ↦ rw (e, blank, close_current) (old, tt, opens)
      | inr shown ↦
          rw (e, shown, close_current)
            (
              All-append (λ c. Before c.parent_order_index c.order_index) s.clauses
                  (closed text c p ∷ []) old (rw e at now, tt),
              tt,
              opens,
            )
    ]
  ]

  opened-Before :
      (p : ℕ) (line : List ℕ) (found : ClauseNumberMatch) (s : Segmenter)
      → AllOpen s.order_index s.open_by_depth
      → Before (opened text p line found s).parent_order_index s.order_index
  opened-Before p line found s h = elim (Bool-cases (ltb 0 found.depth)) [
    | inl nested ↦ rw nested (parent-Before s.order_index found.depth s.open_by_depth h)
    | inr top ↦ rw top tt
  ]

  open_clause-Holds :
      (p : ℕ) (line : List ℕ) (found : ClauseNumberMatch) (s : Segmenter)
      → Holds s
      → Holds (open_clause text p line found s)
  unfolding open_clause
  open_clause-Holds p line found s (old, now, opens) = (
    old,
    opened-Before p line found s opens,
    AllOpen-set_open (s.order_index + 1) found.depth (opened text p line found s)
        (above found.depth s.open_by_depth) (omega arith)
        (AllOpen-next s.order_index (above found.depth s.open_by_depth)
          (AllOpen-above s.order_index found.depth s.open_by_depth opens)),
  )

  open_preamble-Holds : (p : ℕ) (s : Segmenter) → Holds s → Holds (open_preamble text p s)
  unfolding open_preamble
  open_preamble-Holds p s (old, now, opens) = (
    old,
    tt,
    AllOpen-set_open (s.order_index + 1) 0 (preamble text p s) s.open_by_depth (omega arith)
        (AllOpen-next s.order_index s.open_by_depth opens),
  )

  module _ (detect : List ℕ → Option ClauseNumberMatch) where
    scan_line-Holds :
        (p : ℕ) (line : List ℕ) (s : Segmenter) → Holds s → Holds (scan_line text detect p line s)
    unfolding scan_line
    scan_line-Holds p line s h = elim (Option-cases (detect line)) [
      | inr (found, e) ↦
          rw (e, scan_line)
            (open_clause-Holds p line found (close_current text p s) (close_current-Holds p s h))
      | inl e ↦
          rw (e, scan_line)
            (current-Holds s.current (open_preamble text p s) s (open_preamble-Holds p s h) h)
    ]

    scan_lines-Holds :
        (p : ℕ) (lines : List (List ℕ)) (s : Segmenter)
        → Holds s
        → Holds (scan_lines text detect p lines s)
    unfolding scan_lines
    scan_lines-Holds p [] s h = h
    scan_lines-Holds p (line ∷ lines) s h =
        scan_lines-Holds (p + length line + 1) lines (scan_line text detect p line s)
          (scan_line-Holds p line s h)

ClausesBefore-flattened : (cs : List SegmentedClause) → ClausesBefore (map flattened cs)
ClausesBefore-flattened [] = tt
ClausesBefore-flattened (c ∷ cs) = (tt, ClausesBefore-flattened cs)

pub segment-Before :
    (text : List ℕ) → All (λ c. Before c.parent_order_index c.order_index) (segment text).clauses
unfolding segment scanned is_flattened
segment-Before text =
    let scanned = scan_lines text detect_clause_number_line 0 (lines_of text) start in
    let s = close_current text (length text) scanned in
    let (before, now, opens) =
      close_current-Holds text (length text) scanned
        (scan_lines-Holds text detect_clause_number_line 0 (lines_of text) start (tt, tt, tt)) in
    elim (Bool-cases (not s.has_any_article && some_nested s.clauses)) [
      | inl flat ↦ rw (flat, segment) (ClausesBefore-flattened s.clauses)
      | inr deep ↦ rw (deep, segment) before
    ]
