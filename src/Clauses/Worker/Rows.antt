-- ===== src/Clauses/Worker/Rows.antt =====
-- The rows of clauses that pass the checks.
use mathlib.Core.Path.{subst}
use senecial.Base.{
  ℕ, ◌+◌, ◌≤◌, ◌<◌, String, true, ◌≡◌, ◌≢◌, ◌⊎◌, refl, sym, ap, ap₂, ◌∙◌, Option, none, some, List,
  [], ◌∷◌, ◌==◌, length, slice, arith, Bool-cases, Option-cases, inl, inr, none-ne-some,
}
use senecial.Clauses.Hierarchy.{has, is_valid_parent_reference}
use senecial.Clauses.Segmenter.{SegmentedSection, SegmentedClause, is_offset_range_valid, same_text}
use senecial.Clauses.Checks.{every_offset_valid, order_indexes, hierarchy_nodes, every_parent_valid}
use senecial.Clauses.JobTable.{ContractSection, ContractClause, Classification}
use senecial.Clauses.StoredRows.{
  Services, section_rows, get_last, clause_ids, id_of, parent_id, clause_row, clause_rows,
}

same_text-eq : (s t : List ℕ) → same_text s t ≡ true → s ≡ t
unfolding same_text
same_text-eq [] [] e = refl
same_text-eq [] (d ∷ t) e = absurd (ground (arith, e))
same_text-eq (c ∷ s) [] e = absurd (ground (arith, e))
same_text-eq (c ∷ s) (d ∷ t) e =
    let head : c ≡ d = ground (arith, e) in
    let tail = same_text-eq s t (ground (arith, e)) in ap₂ (λ x y. x ∷ y) head tail

abbrev pub IsSlice : List ℕ → ℕ → ℕ → List ℕ → Type 0
IsSlice text from to part = (from < to) × (to ≤ length text) × (part ≡ slice text from to)

is_offset_range_valid-IsSlice :
    (text : List ℕ) (from to : ℕ) (part : List ℕ)
    → is_offset_range_valid text from to part ≡ true
    → IsSlice text from to part
unfolding is_offset_range_valid
is_offset_range_valid-IsSlice text from to part e = (
  ground (arith, e),
  ground (arith, e),
  sym (same_text-eq (slice text from to) part (ground (arith, e))),
)

-- A row with an id and an index is among the rows.
abbrev pub Stored : String → ℕ → List (String × ContractClause) → Type 0
Stored id k [] = ⊥
Stored id k (row ∷ rows) = ((row.0 ≡ id) × (row.1.order_index ≡ k)) ⊎ Stored id k rows

-- The parent of a row is the row of the clause's parent, which is another one.
abbrev pub IsParent : List (String × ContractClause) → SegmentedClause → Option String → Type 0
IsParent rows clause found = elim clause.parent_order_index [
  | none ↦ found ≡ none
  | some parent ↦
      (parent ≢ clause.order_index) × ((id : String) × (found ≡ some id) × Stored id parent rows)
]

-- A row repeats its clause.
abbrev pub IsRowOf : Services → String → SegmentedClause → ContractClause → Type 0
IsRowOf services job_id clause row =
    (row.segmentation_job_id ≡ job_id)
    × (row.clause_number ≡ clause.clause_number)
    × (row.title ≡ clause.title)
    × (row.text ≡ clause.text)
    × (row.normalized_text ≡ services.normalize_clause_text clause.text)
    × (row.order_index ≡ clause.order_index)
    × (row.depth ≡ clause.depth)
    × (row.start_offset ≡ clause.start_offset)
    × (row.end_offset ≡ clause.end_offset)

-- The rows of the sections, one for each.
abbrev pub AreSections : String → List SegmentedSection → List (String × ContractSection) → Type 0
AreSections job_id [] [] = Unit
AreSections job_id [] (row ∷ rows) = ⊥
AreSections job_id (section ∷ sections) [] = ⊥
AreSections job_id (section ∷ sections) (row ∷ rows) =
    ((row.1.segmentation_job_id ≡ job_id)
      × (row.1.text ≡ section.text)
      × (row.1.order_index ≡ section.order_index)
      × (row.1.start_offset ≡ section.start_offset)
      × (row.1.end_offset ≡ section.end_offset))
    × AreSections job_id sections rows

pub section_rows-AreSections :
    (job_id : String) (ids : List (ℕ × String)) (sections : List SegmentedSection)
    → AreSections job_id sections (section_rows job_id ids sections)
unfolding section_rows
section_rows-AreSections job_id ids [] = tt
section_rows-AreSections job_id ids (section ∷ sections) =
    ((refl, refl, refl, refl, refl), section_rows-AreSections job_id ids sections)

-- There is one row for each clause, which repeats it and is a slice of the text, and whose parent is
-- among all rows.
abbrev pub AreFaithful :
    Services
    → String
    → List ℕ
    → List (String × ContractClause)
    → List SegmentedClause
    → List (String × ContractClause)
    → Type 0
AreFaithful services job_id text all [] [] = Unit
AreFaithful services job_id text all [] (row ∷ rows) = ⊥
AreFaithful services job_id text all (clause ∷ clauses) [] = ⊥
AreFaithful services job_id text all (clause ∷ clauses) (row ∷ rows) =
    IsRowOf services job_id clause row.1
    × IsSlice text row.1.start_offset row.1.end_offset row.1.text
    × IsParent all clause row.1.parent_clause_id
    × AreFaithful services job_id text all clauses rows

get_last-clause_ids :
    (random_uuid : ℕ → String) (n k : ℕ) (clauses : List SegmentedClause)
    → has k (order_indexes clauses) ≡ true
    → (id : String) × (get_last k (clause_ids random_uuid n clauses) ≡ some id)
unfolding get_last clause_ids has
get_last-clause_ids random_uuid n k [] e = absurd (ground (arith, e))
get_last-clause_ids random_uuid n k (clause ∷ clauses) e =
    elim (Option-cases (get_last k (clause_ids random_uuid (n + 1) clauses))) [
      | inr (id, later) ↦ (id, rw later refl)
      | inl missing ↦ elim (Bool-cases (clause.order_index == k)) [
        | inl here ↦ (random_uuid n, rw (missing, here) refl)
        | inr other ↦
            let (id, found) =
              get_last-clause_ids random_uuid (n + 1) k clauses (ground (arith, e, other)) in
            absurd (none-ne-some (sym missing ∙ found))
      ]
    ]

id_of-found :
    (ids : List (ℕ × String)) (k : ℕ) (id : String) → get_last k ids ≡ some id → id_of ids k ≡ id
unfolding id_of
id_of-found ids k id e = ap (λ o. elim o [ none ↦ "" | some found ↦ found ]) e

module _ (services : Services) (job_id : String) (section_id : Option String) where
  module _ (ids : List (ℕ × String)) (entries : List (ℕ × Classification)) where
    clause_rows-Stored :
        (k : ℕ) (clauses : List SegmentedClause)
        → has k (order_indexes clauses) ≡ true
        → Stored (id_of ids k) k (clause_rows services job_id section_id ids entries clauses)
    unfolding clause_rows has
    clause_rows-Stored k [] e = absurd (ground (arith, e))
    clause_rows-Stored k (clause ∷ clauses) e = elim (Bool-cases (k == clause.order_index)) [
      | inl here ↦
          let same : clause.order_index ≡ k = ground (arith, here) in
          inl (ap (id_of ids) same, same)
      | inr other ↦ inr (clause_rows-Stored k clauses (ground (arith, e, other)))
    ]

  module _ (n : ℕ) (all : List SegmentedClause) (entries : List (ℕ × Classification)) where
    abbrev pub all_ids : List (ℕ × String)
    unfolding clause_ids
    all_ids = clause_ids services.random_uuid n all

    abbrev pub all_rows : List (String × ContractClause)
    unfolding clause_rows all_ids
    all_rows = clause_rows services job_id section_id all_ids entries all

    parent_id-IsParent :
        (clause : SegmentedClause)
        → is_valid_parent_reference
            (record {
              order_index = clause.order_index;
              parent_order_index = clause.parent_order_index;
            })
            (order_indexes all)
          ≡ true
        → IsParent all_rows clause (parent_id all_ids clause.parent_order_index)
    unfolding is_valid_parent_reference parent_id all_rows
    parent_id-IsParent clause valid = elim (Option-cases clause.parent_order_index) [
      | inl e ↦ rw e refl
      | inr (parent, e) ↦
          let valid' = rw e at valid in
          let among : has parent (order_indexes all) ≡ true = ground (arith, valid') in
          let (id, found) = get_last-clause_ids services.random_uuid n parent all among in
          let there : Stored id parent all_rows =
            subst (λ x. Stored x parent all_rows) (id_of-found all_ids parent id found)
              (clause_rows-Stored all_ids entries parent all among) in
          rw e (ground (arith, valid'), (id, found, there))
    ]

    pub clause_rows-AreFaithful :
        (text : List ℕ) (clauses : List SegmentedClause)
        → every_offset_valid text clauses ≡ true
        → every_parent_valid (hierarchy_nodes clauses) (order_indexes all) ≡ true
        → AreFaithful services job_id text all_rows clauses
            (clause_rows services job_id section_id all_ids entries clauses)
    unfolding every_offset_valid every_parent_valid clause_rows clause_row all_rows
    clause_rows-AreFaithful text [] offsets parents = tt
    clause_rows-AreFaithful text (clause ∷ clauses) offsets parents = (
      (refl, refl, refl, refl, refl, refl, refl, refl, refl),
      is_offset_range_valid-IsSlice text clause.start_offset clause.end_offset clause.text
          (ground (arith, offsets)),
      parent_id-IsParent clause (ground (arith, parents)),
      clause_rows-AreFaithful text clauses (ground (arith, offsets)) (ground (arith, parents)),
    )
