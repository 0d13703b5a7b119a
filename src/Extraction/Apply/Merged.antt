-- ===== src/Extraction/Apply/Merged.antt =====
-- What reaches a contract, and when.
use mathlib.Core.Bool.{false≢true}
use mathlib.Core.Path.{subst}
use senecial.Base.{
  ℕ, String, Bool, true, false, ◌≡◌, refl, sym, ap, ◌∙◌, ◌⊎◌, Option, none, some, List, [], ◌∷◌,
  ◌++◌, length, ◌==◌, str_eq, eq_iff, eq_refl, Dict, get, put, get-put, none-ne-some, some-inj,
  Bool-cases, Option-cases, inl, inr,
}
use senecial.Extraction.{
  review_required, completed, has_contract_changed_since_extraction, ExtractionJob, same_status,
}
use senecial.Extraction.Process.{Database}
use senecial.Extraction.Requests.{mark_completed, apply_approved_suggestions}
use senecial.Extraction.Table.{get-update_extraction_job}
use senecial.Extraction.Apply.{
  SuggestionReviewStatus, pending, accepted, rejected, edited, SuggestionValue, FieldSuggestion,
  extract_suggestion_value, applied_keys, is_applied_key, write_counterparty, write_field,
  is_applicable, Write, write, skip, error, write_of, merge, prepare, apply_suggestions,
}

Write-cases :
    (w : Write)
    → (w ≡ error) ⊎ ((w ≡ skip) ⊎ ((key : String) × (value : String) × (w ≡ write key value)))
Write-cases error = inl refl
Write-cases skip = inr (inl refl)
Write-cases (write key value) = inr (inr (key, value, refl))

-- The row of the job is completed.
abbrev pub IsCompleted : String → ℕ → ExtractionJob → Database → Type 0
IsCompleted id now job applied =
    (row : ExtractionJob) × (get id applied.jobs ≡ some row)
    × (row ≡ mark_completed now job)
    × (row.status ≡ completed)
    × (row.completed_at ≡ some now)

-- The job that is applied, and what is written of it.
abbrev pub IsApplied : String → ℕ → ℕ → Database → Database → Type 0
IsApplied id updated now db applied =
    (job : ExtractionJob) × (get id db.jobs ≡ some job)
    × (same_status job.status review_required ≡ true)
    × (has_contract_changed_since_extraction updated job.contract_updated_at_snapshot ≡ false)
    × IsCompleted id now job applied

apply_approved_suggestions-IsApplied :
    (id : String) (updated now : ℕ) (db applied : Database)
    → apply_approved_suggestions id updated true now db ≡ some applied
    → IsApplied id updated now db applied
unfolding apply_approved_suggestions
apply_approved_suggestions-IsApplied id updated now db applied e =
    elim (Option-cases (get id db.jobs)) [
      | inl gone ↦ absurd (none-ne-some (rw (gone, apply_approved_suggestions) at e))
      | inr (job, there) ↦ elim (Bool-cases (same_status job.status review_required)) [
        | inr other ↦ absurd (none-ne-some (rw (there, other, apply_approved_suggestions) at e))
        | inl reviewed ↦
            elim (Bool-cases
              (has_contract_changed_since_extraction updated job.contract_updated_at_snapshot)) [
                | inl changed ↦
                    absurd (
                      none-ne-some (rw (there, reviewed, changed, apply_approved_suggestions) at e))
                | inr same ↦ (
                  job,
                  there,
                  reviewed,
                  same,
                  subst (IsCompleted id now job)
                      (some-inj (rw (there, reviewed, same, apply_approved_suggestions) at e))
                      (
                        mark_completed now job,
                        rw (get-update_extraction_job, eq_refl, there) refl,
                        refl,
                        refl,
                        refl,
                      ),
                )
              ]
      ]
    ]

Status-cases :
    (t : SuggestionReviewStatus)
    → (t ≡ accepted) ⊎ ((t ≡ edited) ⊎ ((t ≡ pending) ⊎ (t ≡ rejected)))
Status-cases accepted = inl refl
Status-cases edited = inr (inl refl)
Status-cases pending = inr (inr (inl refl))
Status-cases rejected = inr (inr (inr refl))

abbrev written : Write → Option (String × String)
written (write key value) = some (key, value)
written skip = none
written error = none

module _ (belongs : String → Bool) where
  -- The value of a suggestion gives the key its value.
  abbrev pub Gives : String → String → String → SuggestionValue → Type 0
  Gives key value field v =
      ((field ≡ "counterpartyName")
        × (key ≡ "counterpartyId")
        × (v.counterparty_id ≡ some value)
        × (belongs value ≡ true))
      ⊎ ((key ≡ field) × (v.value ≡ some value) × (is_applied_key applied_keys key ≡ true))

  abbrev pub IsApproved : String → String → FieldSuggestion → Type 0
  IsApproved key value s =
      ((s.review_status ≡ accepted) × Gives key value s.field_key s.normalized_value)
      ⊎ ((s.review_status ≡ edited) × Gives key value s.field_key s.reviewed_value)

  abbrev pub Approved : String → String → List FieldSuggestion → Type 0
  Approved key value [] = ⊥
  Approved key value (s ∷ suggestions) = IsApproved key value s ⊎ Approved key value suggestions

  write_counterparty-Gives :
      (v : SuggestionValue) (key value field : String)
      → field ≡ "counterpartyName"
      → write_counterparty belongs v ≡ write key value
      → Gives key value field v
  unfolding write_counterparty
  write_counterparty-Gives v key value field named e = elim (Option-cases v.counterparty_id) [
    | inl nothing ↦ absurd (none-ne-some (ap written (rw (nothing, write_counterparty) at e)))
    | inr (id, there) ↦ elim (Bool-cases (belongs id)) [
      | inr foreign ↦
          absurd (none-ne-some (ap written (rw (there, foreign, write_counterparty) at e)))
      | inl ours ↦
          let same = some-inj (ap written (rw (there, ours, write_counterparty) at e)) in
          inl (
            named,
            sym (ap (λ p. p.0) same),
            there ∙ ap (λ p. some p.1) same,
            subst (λ p. belongs p.1 ≡ true) same ours,
          )
    ]
  ]

  write_field-Gives :
      (v : SuggestionValue) (key value field : String)
      → write_field belongs field v ≡ write key value
      → Gives key value field v
  unfolding write_field
  write_field-Gives v key value field e = elim (Option-cases v.value) [
    | inl nothing ↦ absurd (none-ne-some (ap written (rw (nothing, write_field) at e)))
    | inr (extracted, there) ↦ elim (Bool-cases (is_applied_key applied_keys field)) [
      | inr unknown ↦ absurd (none-ne-some (ap written (rw (there, unknown, write_field) at e)))
      | inl known ↦
          let same = some-inj (ap written (rw (there, known, write_field) at e)) in
          inr (
            sym (ap (λ p. p.0) same),
            there ∙ ap (λ p. some p.1) same,
            subst (λ p. is_applied_key applied_keys p.0 ≡ true) same known,
          )
    ]
  ]

  write_of-Gives :
      (s : FieldSuggestion) (key value : String)
      → write_of belongs s ≡ write key value
      → Gives key value s.field_key (extract_suggestion_value s)
  unfolding write_of
  write_of-Gives s key value e = elim (Bool-cases (str_eq s.field_key "counterpartyName")) [
    | inl named ↦
        write_counterparty-Gives (extract_suggestion_value s) key value s.field_key
          ((eq_iff s.field_key "counterpartyName").0 named) (rw (named, write_of) at e)
    | inr other ↦
        write_field-Gives (extract_suggestion_value s) key value s.field_key
          (rw (other, write_of) at e)
  ]

  write_of-IsApproved :
      (s : FieldSuggestion) (key value : String)
      → is_applicable s ≡ true
      → write_of belongs s ≡ write key value
      → IsApproved key value s
  unfolding is_applicable extract_suggestion_value
  write_of-IsApproved s key value applies e =
      let gives = write_of-Gives s key value e in
      elim (Status-cases s.review_status) [
        | inl is_accepted ↦ inl (is_accepted, rw (is_accepted, extract_suggestion_value) at gives)
        | inr (inl is_edited) ↦ inr (is_edited, rw (is_edited, extract_suggestion_value) at gives)
        | inr (inr (inl waits)) ↦ absurd (false≢true (rw (waits, is_applicable) at applies))
        | inr (inr (inr refused)) ↦ absurd (false≢true (rw (refused, is_applicable) at applies))
      ]

  -- A field has its old value, or that of an approved suggestion.
  abbrev pub Origin : List FieldSuggestion → Dict String → Dict String → String → Type 0
  Origin suggestions current payload key =
      (get key payload ≡ get key current)
      ⊎ ((value : String) × (get key payload ≡ some value) × Approved key value suggestions)

  later-Origin :
      (s : FieldSuggestion) (suggestions : List FieldSuggestion) (current payload : Dict String)
      (key : String)
      → Origin suggestions current payload key
      → Origin (s ∷ suggestions) current payload key
  later-Origin s suggestions current payload key (inl kept) = inl kept
  later-Origin s suggestions current payload key (inr (value, e, approved)) =
      inr (value, e, inr approved)

  written-Origin :
      (s : FieldSuggestion) (suggestions : List FieldSuggestion) (current payload : Dict String)
      (name value key : String)
      → is_applicable s ≡ true
      → write_of belongs s ≡ write name value
      → Origin suggestions (put name value current) payload key
      → Origin (s ∷ suggestions) current payload key
  written-Origin s suggestions current payload name value key applies writes (inr (v, e, more)) =
      inr (v, e, inr more)
  written-Origin s suggestions current payload name value key applies writes (inl kept) =
      elim (Bool-cases (str_eq name key)) [
        | inl same ↦ inr (
          value,
          kept ∙ rw (get-put, same) refl,
          inl (
              write_of-IsApproved s key value applies
                (writes ∙ ap (λ k. write k value) ((eq_iff name key).0 same))),
        )
        | inr other ↦ inl (kept ∙ rw (get-put, other) refl)
      ]

  merge-Origin :
      (suggestions : List FieldSuggestion) (current : Dict String) (keys : List String)
      (payload : Dict String) (applied : List String)
      → merge belongs suggestions current keys ≡ some (payload, applied)
      → (key : String) → Origin suggestions current payload key
  unfolding merge
  merge-Origin [] current keys payload applied e key =
      inl (ap (λ p. get key p.0) (sym (some-inj e)))
  merge-Origin (s ∷ suggestions) current keys payload applied e key =
      elim (Bool-cases (is_applicable s)) [
        | inr ignored ↦
            later-Origin s suggestions current payload key
              (merge-Origin suggestions current keys payload applied (rw ignored at e) key)
        | inl applies ↦ elim (Write-cases (write_of belongs s)) [
          | inl stops ↦ absurd (none-ne-some (rw (applies, stops, merge) at e))
          | inr (inl nothing) ↦ later-Origin s suggestions current payload key (
              merge-Origin suggestions current keys payload applied
                (rw (applies, nothing, merge) at e) key)
          | inr (inr (name, value, writes)) ↦
              written-Origin s suggestions current payload name value key applies writes (
                merge-Origin suggestions (put name value current) (keys ++ name ∷ []) payload
                  applied (rw (applies, writes, merge) at e) key)
        ]
      ]

  module _ {Contract : Type 0} (update_contract_schema : Dict String → Option Contract) where
    abbrev pub MadeFrom : List FieldSuggestion → Dict String → Contract → Type 0
    MadeFrom suggestions current contract =
        (payload : Dict String) × (update_contract_schema payload ≡ some contract)
        × ((key : String) → Origin suggestions current payload key)

    prepare-MadeFrom :
        (suggestions : List FieldSuggestion) (current : Dict String) (contract : Contract)
        → prepare belongs update_contract_schema suggestions current ≡ some contract
        → MadeFrom suggestions current contract
    unfolding prepare
    prepare-MadeFrom suggestions current contract e =
        elim (Option-cases (merge belongs suggestions current [])) [
          | inl stops ↦ absurd (none-ne-some (rw (stops, prepare) at e))
          | inr ((payload, applied), merged) ↦ elim (Bool-cases (length applied == 0)) [
            | inl nothing ↦ absurd (none-ne-some (rw (merged, nothing, prepare) at e))
            | inr some_keys ↦ (
              payload,
              rw (merged, some_keys, prepare) at e,
              merge-Origin suggestions current [] payload applied merged,
            )
          ]
        ]

    -- Where the application of suggestions succeeds, the contract's new row is a payload that the form's
    -- schema accepts, in which every field has its current value or the value that an accepted or edited
    -- suggestion writes; the job awaited its review, the contract had not changed since the extraction,
    -- and the job is completed.
    pub apply_suggestions-MadeFrom :
        (id : String) (updated : ℕ) (suggestions : List FieldSuggestion) (current : Dict String)
        (now : ℕ) (db applied : Database) (contract : Contract)
        → apply_suggestions belongs update_contract_schema id updated suggestions current now db
          ≡ some (contract, applied)
        → MadeFrom suggestions current contract × IsApplied id updated now db applied
    unfolding apply_suggestions
    apply_suggestions-MadeFrom id updated suggestions current now db applied contract e =
        elim (Option-cases (prepare belongs update_contract_schema suggestions current)) [
          | inl refused ↦ absurd (none-ne-some (rw (refused, apply_suggestions) at e))
          | inr (made, e₁) ↦
              elim (Option-cases (apply_approved_suggestions id updated true now db)) [
                | inl fails ↦ absurd (none-ne-some (rw (e₁, fails, apply_suggestions) at e))
                | inr (stored, e₂) ↦
                    let same = some-inj (rw (e₁, e₂, apply_suggestions) at e) in
                    (
                      subst (λ p. MadeFrom suggestions current p.0) same
                          (prepare-MadeFrom suggestions current made e₁),
                      subst (λ p. IsApplied id updated now db p.1) same
                          (apply_approved_suggestions-IsApplied id updated now db stored e₂),
                    )
              ]
        ]
