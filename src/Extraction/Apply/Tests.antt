-- ===== src/Extraction/Apply/Tests.antt =====
-- Suggestions that are applied to a concrete contract.
use senecial.Base.{String, ◌≡◌, refl, str_eq, Option, none, some, List, [], ◌∷◌, Dict, get}
use senecial.Extraction.{review_required, ExtractionJob, new_job}
use senecial.Extraction.Process.{Database, extraction_applied}
use senecial.Extraction.Requests.{mark_completed}
use senecial.Extraction.Apply.{pending, accepted, edited, FieldSuggestion, merge, apply_suggestions}
use senecial.Extraction.Apply.Merged.{MadeFrom, IsApplied, apply_suggestions-MadeFrom}

abbrev title : FieldSuggestion
title = record {
  field_key = "title";
  review_status = accepted;
  normalized_value = record { value = some "Lease"; counterparty_id = none };
  reviewed_value = record { value = none; counterparty_id = none };
}

abbrev amount : FieldSuggestion
amount = record {
  field_key = "amount";
  review_status = pending;
  normalized_value = record { value = some "10"; counterparty_id = none };
  reviewed_value = record { value = none; counterparty_id = none };
}

abbrev counterparty : FieldSuggestion
counterparty = record {
  field_key = "counterpartyName";
  review_status = edited;
  normalized_value = record { value = some "Kim"; counterparty_id = none };
  reviewed_value = record { value = none; counterparty_id = some "p1" };
}

abbrev suggestions : List FieldSuggestion
suggestions = title ∷ amount ∷ counterparty ∷ []

abbrev current : Dict String
current = ("title", "Old") ∷ ("amount", "5") ∷ ("counterpartyId", "") ∷ []

abbrev next : Dict String
next = ("title", "Lease") ∷ ("amount", "5") ∷ ("counterpartyId", "p1") ∷ []

abbrev titled : Dict String → Option (Dict String)
titled payload = elim (get "title" payload) [ none ↦ none | some t ↦ some payload ]

abbrev job : ExtractionJob
job =
    record (new_job
      (record {
        organization_id = "o1";
        contract_id = "c1";
        contract_file_id = "f1";
        extractor_version = "v1";
        input_checksum = "abc";
        max_attempts = 3;
      })
      1000) { status = review_required; contract_updated_at_snapshot = some 500 }

abbrev db : Database
db = record { jobs = ("j1", job) ∷ []; documents = []; suggestions = []; audit_logs = [] }

-- A counterparty of another organization is an error.
merged :
    (merge (str_eq "p1") suggestions current [] ≡ some (next, "title" ∷ "counterpartyId" ∷ []))
    × (merge (str_eq "p2") suggestions current [] ≡ none)
unfolding merge
merged = (refl, refl)

abbrev applied : Database
applied = record db {
  jobs = ("j1", mark_completed 2000 job) ∷ [];
  audit_logs = ("j1", extraction_applied) ∷ [];
}

applies :
    apply_suggestions (str_eq "p1") titled "j1" 500 suggestions current 2000 db
    ≡ some (next, applied)
unfolding apply_suggestions get
applies = refl

apply_suggestions-MadeFrom_example :
    MadeFrom (str_eq "p1") titled suggestions current next × IsApplied "j1" 500 2000 db applied
apply_suggestions-MadeFrom_example =
    apply_suggestions-MadeFrom (str_eq "p1") titled "j1" 500 suggestions current 2000 db applied
      next applies
