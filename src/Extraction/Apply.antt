-- ===== src/Extraction/Apply.antt =====
-- How apply-approved-suggestions.ts (src/features/extraction/server) makes a contract's new values. The
-- values are their texts, and the payload is the record of the edit form; the payload of the contract's
-- current row is an argument, as is the time of its last change. `updateContractSchema`, and whether a
-- counterparty belongs to the organization, are parameters. An error is `none`.
pub mod Merged
pub mod Tests
use senecial.Base.{
  ℕ, String, Bool, true, false, ◌||◌, Option, none, some, List, [], ◌∷◌, ◌++◌, length, ◌==◌, str_eq,
  if◌then◌else◌, Dict, put,
}
use senecial.Extraction.Process.{Database}
use senecial.Extraction.Requests.{apply_approved_suggestions}

pub data SuggestionReviewStatus : Type 0 where
  pending accepted rejected edited : SuggestionReviewStatus

-- The two properties of a suggestion's value that are read.
pub record SuggestionValue : Type 0 where
  pub value : Option String
  pub counterparty_id : Option String

pub record FieldSuggestion : Type 0 where
  pub field_key : String
  pub review_status : SuggestionReviewStatus
  pub normalized_value : SuggestionValue
  pub reviewed_value : SuggestionValue

unfoldable pub extract_suggestion_value : FieldSuggestion → SuggestionValue
extract_suggestion_value s = elim s.review_status [
  | edited ↦ s.reviewed_value
  | _ ↦ s.normalized_value
]

unfoldable pub is_applicable : FieldSuggestion → Bool
is_applicable s = elim s.review_status [ accepted ↦ true | edited ↦ true | _ ↦ false ]

-- The cases of the `switch`.
abbrev pub applied_keys : List String
applied_keys =
    "title" ∷ "contractNumber" ∷ "contractType" ∷ "startDate" ∷ "endDate" ∷ "signedDate"
    ∷ "autoRenewal" ∷ "noticePeriodDays" ∷ "amount" ∷ "currency" ∷ "governingLaw" ∷ "jurisdiction"
    ∷ []

unfoldable pub is_applied_key : List String → String → Bool
is_applied_key [] key = false
is_applied_key (k ∷ keys) key = str_eq k key || is_applied_key keys key

-- What a suggestion writes: a key and its value, nothing, or an error.
pub data Write : Type 0 where
  write : String → String → Write
  skip : Write
  error : Write

module _ (belongs : String → Bool) where
  unfoldable pub write_counterparty : SuggestionValue → Write
  write_counterparty v = elim v.counterparty_id [
    | none ↦ skip
    | some id ↦ if belongs id then write "counterpartyId" id else error
  ]

  unfoldable pub write_field : String → SuggestionValue → Write
  unfolding is_applied_key
  write_field key v = elim v.value [
    | none ↦ skip
    | some extracted ↦ if is_applied_key applied_keys key then write key extracted else skip
  ]

  unfoldable pub write_of : FieldSuggestion → Write
  unfolding extract_suggestion_value write_counterparty write_field
  write_of s =
      if str_eq s.field_key "counterpartyName"
      then write_counterparty (extract_suggestion_value s)
      else write_field s.field_key (extract_suggestion_value s)

  -- The loop over the suggestions, with `payload` and `appliedFieldKeys`.
  unfoldable pub merge :
      List FieldSuggestion → Dict String → List String → Option (Dict String × List String)
  unfolding is_applicable write_of put
  merge [] payload keys = some (payload, keys)
  merge (s ∷ suggestions) payload keys =
      let unchanged = merge suggestions payload keys in
      if is_applicable s
      then elim (write_of s) [
        | error ↦ none
        | skip ↦ unchanged
        | write key value ↦ merge suggestions (put key value payload) (keys ++ key ∷ [])
      ]
      else unchanged

  module _ {Contract : Type 0} (update_contract_schema : Dict String → Option Contract) where
    unfoldable pub prepare : List FieldSuggestion → Dict String → Option Contract
    unfolding merge
    prepare suggestions current = elim (merge suggestions current []) [
      | none ↦ none
      | some (payload, keys) ↦ if length keys == 0 then none else update_contract_schema payload
    ]

    -- The contract's new row and the database. The guards on the job come first in the source; whichever
    -- of them fails, nothing is written.
    unfoldable pub apply_suggestions :
        String
        → ℕ
        → List FieldSuggestion
        → Dict String
        → ℕ
        → Database
        → Option (Contract × Database)
    unfolding prepare apply_approved_suggestions
    apply_suggestions id contract_updated_at suggestions current now db =
        elim (prepare suggestions current) [
          | none ↦ none
          | some contract ↦ elim (apply_approved_suggestions id contract_updated_at true now db) [
            | none ↦ none
            | some applied ↦ some (contract, applied)
          ]
        ]
