-- ===== src/Clauses/StoredRows.antt =====
-- The rows that src/features/clauses/server/process-clause-segmentation-job.ts stores, and the services that
-- it uses.
use senecial.Base.{ℕ, ◌+◌, String, Option, none, some, List, [], ◌∷◌, ◌==◌, length, if◌then◌else◌}
use senecial.Clauses.JobTable.{ContractSection, Classification, ContractClause}
use senecial.Clauses.Segmenter.{SegmentedSection, SegmentedClause, ClauseSegmentationResult}

-- The services: `none` is an exception, `parse` the schema, and `random_uuid n` the n-th id that is made.
pub record Services : Type 0 where
  pub compute_checksum : List ℕ → String
  pub segmenter : List ℕ → Option ClauseSegmentationResult
  pub parse : ClauseSegmentationResult → Option ClauseSegmentationResult
  pub classify : SegmentedClause → Option Classification
  pub normalize_clause_text : List ℕ → List ℕ
  pub random_uuid : ℕ → String

-- `new Map(entries).get(key)`
unfoldable pub get_last {ℓ} : {A : Type ℓ} → ℕ → List (ℕ × A) → Option A
get_last key [] = none
get_last key ((k, v) ∷ entries) = elim (get_last key entries) [
  | some w ↦ some w
  | none ↦ if k == key then some v else none
]

-- The ids of the sections are made first, then those of the clauses.
unfoldable pub section_ids : (ℕ → String) → ℕ → List SegmentedSection → List (ℕ × String)
section_ids random_uuid n [] = []
section_ids random_uuid n (section ∷ sections) =
    (section.order_index, random_uuid n) ∷ section_ids random_uuid (n + 1) sections

unfoldable pub clause_ids : (ℕ → String) → ℕ → List SegmentedClause → List (ℕ × String)
clause_ids random_uuid n [] = []
clause_ids random_uuid n (clause ∷ clauses) =
    (clause.order_index, random_uuid n) ∷ clause_ids random_uuid (n + 1) clauses

-- `ids.get(key)!`; the key is always there.
unfoldable pub id_of : List (ℕ × String) → ℕ → String
unfolding get_last
id_of ids key = elim (get_last key ids) [ none ↦ "" | some id ↦ id ]

unfoldable pub parent_id : List (ℕ × String) → Option ℕ → Option String
unfolding get_last
parent_id ids none = none
parent_id ids (some parent) = get_last parent ids

unfoldable pub section_rows :
    String → List (ℕ × String) → List SegmentedSection → List (String × ContractSection)
unfolding id_of
section_rows job_id ids [] = []
section_rows job_id ids (section ∷ sections) =
    (
      id_of ids section.order_index,
      record {
        segmentation_job_id = job_id;
        title = section.title;
        section_type = section.section_type;
        text = section.text;
        order_index = section.order_index;
        start_offset = section.start_offset;
        end_offset = section.end_offset;
      },
    )
    ∷ section_rows job_id ids sections

unfoldable pub default_section_id : List (ℕ × String) → List SegmentedSection → Option String
unfolding get_last
default_section_id ids [] = none
default_section_id ids (section ∷ sections) = get_last section.order_index ids

module _ (services : Services) (job_id : String) (section_id : Option String) where
  unfoldable pub clause_row :
      List (ℕ × String) → List (ℕ × Classification) → SegmentedClause → ContractClause
  unfolding parent_id get_last
  clause_row ids entries clause = record {
    segmentation_job_id = job_id;
    section_id = section_id;
    parent_clause_id = parent_id ids clause.parent_order_index;
    clause_number = clause.clause_number;
    title = clause.title;
    text = clause.text;
    normalized_text = services.normalize_clause_text clause.text;
    order_index = clause.order_index;
    depth = clause.depth;
    start_offset = clause.start_offset;
    end_offset = clause.end_offset;
    classification = get_last clause.order_index entries;
  }

  unfoldable pub clause_rows :
      List (ℕ × String)
      → List (ℕ × Classification)
      → List SegmentedClause
      → List (String × ContractClause)
  unfolding clause_row id_of
  clause_rows ids entries [] = []
  clause_rows ids entries (clause ∷ clauses) =
      (id_of ids clause.order_index, clause_row ids entries clause)
      ∷ clause_rows ids entries clauses

-- The rows that are stored.
unfoldable pub rows_of :
    Services
    → String
    → ClauseSegmentationResult
    → List (ℕ × Classification)
    → List (String × ContractSection) × List (String × ContractClause)
unfolding section_ids clause_ids section_rows default_section_id clause_rows
rows_of services job_id result entries =
    let section_id_by = section_ids services.random_uuid 0 result.sections in
    let clause_id_by = clause_ids services.random_uuid (length result.sections) result.clauses in
    (
      section_rows job_id section_id_by result.sections,
      clause_rows services job_id (default_section_id section_id_by result.sections) clause_id_by
          entries result.clauses,
    )
