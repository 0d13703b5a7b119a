-- ===== src/Clauses/Worker/Verdicts.antt =====
-- What the guards of the worker let through, and why they fail a job.
use senecial.Base.{
  ℕ, ◌≡◌, ◌⊎◌, refl, Option, none, some, List, ◌||◌, not, str_eq, eq_iff, arith, Bool-cases,
  Option-cases, inl, inr,
}
use senecial.Clauses.Segmenter.{ClauseSegmentationResult}
use senecial.Clauses.Checks.{
  SegmentationErrorCode, extracted_document_not_found, document_checksum_mismatch,
  segmentation_failed, invalid_segmentation_result, classification_failed, check_result,
}
use senecial.Clauses.Checks.Passed.{check_result-total}
use senecial.Clauses.JobTable.{
  ClauseSegmentationJob, ExtractedDocument, find_extracted_document_by_id, Database,
}
use senecial.Clauses.StoredRows.{Services}
use senecial.Clauses.Worker.{
  Verdict, rejected, accepted, classify_all, judge_result, judge_text, judge_document, judge,
}

module _ (services : Services) where
  -- Why a result, a text, a document and a job are refused with a code.
  abbrev RejectsResult : List ℕ → ClauseSegmentationResult → SegmentationErrorCode → Type 0
  RejectsResult text result code =
      (check_result text result ≡ some (some code))
      ⊎ ((code ≡ classification_failed)
          × (check_result text result ≡ some none)
          × (classify_all services.classify result.clauses ≡ none))

  abbrev RejectsText : List ℕ → SegmentationErrorCode → Type 0
  RejectsText text code =
      ((code ≡ segmentation_failed) × (services.segmenter text ≡ none))
      ⊎ ((raw : ClauseSegmentationResult) × (services.segmenter text ≡ some raw)
          × (((code ≡ invalid_segmentation_result) × (services.parse raw ≡ none))
              ⊎ ((result : ClauseSegmentationResult) × (services.parse raw ≡ some result)
                  × RejectsResult text result code)))

  abbrev HasSums : ClauseSegmentationJob → ExtractedDocument → Type 0
  HasSums job document =
      (services.compute_checksum document.text ≡ document.content_checksum)
      × (services.compute_checksum document.text ≡ job.input_checksum)

  abbrev RejectsDocument :
      ClauseSegmentationJob → ExtractedDocument → SegmentationErrorCode → Type 0
  RejectsDocument job document code =
      ((code ≡ document_checksum_mismatch) × (HasSums job document → ⊥))
      ⊎ (HasSums job document × RejectsText document.text code)

  abbrev pub Rejects : ClauseSegmentationJob → Database → SegmentationErrorCode → Type 0
  Rejects job db code =
      ((code ≡ extracted_document_not_found)
        × (find_extracted_document_by_id job.organization_id job.contract_id
              job.extracted_document_id db.documents
            ≡ none))
      ⊎ ((document : ExtractedDocument) × (find_extracted_document_by_id job.organization_id
              job.contract_id job.extracted_document_id db.documents
            ≡ some document)
          × RejectsDocument job document code)

  -- What the segmenter answers to a text, once the schema has read it, and that it passes the checks.
  abbrev IsAnswer : List ℕ → ClauseSegmentationResult → Type 0
  IsAnswer text result =
      (raw : ClauseSegmentationResult) × (services.segmenter text ≡ some raw)
      × (services.parse raw ≡ some result)
      × (check_result text result ≡ some none)

  -- The job's document with its checksums, and the answer to its text.
  abbrev pub Accepts :
      ClauseSegmentationJob → Database → ExtractedDocument → ClauseSegmentationResult → Type 0
  Accepts job db document result =
      (find_extracted_document_by_id job.organization_id job.contract_id job.extracted_document_id
          db.documents
        ≡ some document)
      × HasSums job document
      × IsAnswer document.text result

  abbrev PassesResult : List ℕ → ClauseSegmentationResult → Option Verdict → Type 0
  PassesResult text result none = ⊥
  PassesResult text result (some (rejected code)) = RejectsResult text result code
  PassesResult text result (some (accepted r entries)) =
      (r ≡ result) × (check_result text result ≡ some none)

  judge_result-Passes :
      (text : List ℕ) (result : ClauseSegmentationResult)
      → PassesResult text result (judge_result services text result)
  unfolding judge_result
  judge_result-Passes text result = let (answer, e) = check_result-total text result in go answer e
    where
      go :
          (answer : Option SegmentationErrorCode)
          → check_result text result ≡ some answer
          → PassesResult text result (judge_result services text result)
      go (some code) e = rw (e, judge_result) (inl e)
      go none e = elim (Option-cases (classify_all services.classify result.clauses)) [
        | inl threw ↦ rw (e, threw, judge_result) (inr (refl, e, threw))
        | inr (entries, classified) ↦ rw (e, classified, judge_result) (refl, e)
      ]

  abbrev PassesText : List ℕ → Option Verdict → Type 0
  PassesText text none = ⊥
  PassesText text (some (rejected code)) = RejectsText text code
  PassesText text (some (accepted result entries)) = IsAnswer text result

  PassesText-of :
      (text : List ℕ) (raw result : ClauseSegmentationResult) (verdict : Option Verdict)
      → services.segmenter text ≡ some raw
      → services.parse raw ≡ some result
      → PassesResult text result verdict
      → PassesText text verdict
  PassesText-of text raw result none e parsed h = h
  PassesText-of text raw result (some (rejected code)) e parsed h =
      inr (raw, e, inr (result, parsed, h))
  PassesText-of text raw result (some (accepted r entries)) e parsed (same, h) =
      (raw, e, rw same parsed, rw same h)

  judge_text-Passes : (text : List ℕ) → PassesText text (judge_text services text)
  unfolding judge_text
  judge_text-Passes text = elim (Option-cases (services.segmenter text)) [
    | inl threw ↦ rw (threw, judge_text) (inl (refl, threw))
    | inr (raw, e) ↦ elim (Option-cases (services.parse raw)) [
      | inl bad ↦ rw (e, bad, judge_text) (inr (raw, e, inl (refl, bad)))
      | inr (result, parsed) ↦
          rw (e, parsed, judge_text)
            (PassesText-of text raw result (judge_result services text result) e parsed
              (judge_result-Passes text result))
    ]
  ]

  abbrev pub Judged : Database → ClauseSegmentationJob → Option Verdict → Type 0
  Judged db job none = ⊥
  Judged db job (some (rejected code)) = Rejects job db code
  Judged db job (some (accepted result entries)) =
      (document : ExtractedDocument) × Accepts job db document result

  Judged-of :
      (db : Database) (job : ClauseSegmentationJob) (document : ExtractedDocument)
      (verdict : Option Verdict)
      → find_extracted_document_by_id job.organization_id job.contract_id job.extracted_document_id
          db.documents
        ≡ some document
      → HasSums job document
      → PassesText document.text verdict
      → Judged db job verdict
  Judged-of db job document none e sums h = h
  Judged-of db job document (some (rejected code)) e sums h = inr (document, e, inr (sums, h))
  Judged-of db job document (some (accepted result entries)) e sums h = (document, (e, sums, h))

  pub judge-Judged :
      (job : ClauseSegmentationJob) (db : Database) → Judged db job (judge services job db)
  unfolding judge judge_document
  judge-Judged job db =
      elim (Option-cases (
        find_extracted_document_by_id job.organization_id job.contract_id job.extracted_document_id
          db.documents)) [
            | inl missing ↦ rw (missing, judge) (inl (refl, missing))
            | inr (document, e) ↦
                let actual = services.compute_checksum document.text in
                let content = eq_iff actual document.content_checksum in
                let input = eq_iff actual job.input_checksum in
                elim (Bool-cases (
                  not (str_eq actual document.content_checksum)
                  || not (str_eq actual job.input_checksum))) [
                    | inl changed ↦
                        rw (e, changed, judge)
                          (inr (
                            document,
                            e,
                            inl (
                              refl,
                              λ sums.
                                  absurd
                                    (ground (arith, changed, content.1 sums.0, input.1 sums.1)),
                            ),
                          ))
                    | inr same ↦
                        rw (e, same, judge)
                          (Judged-of db job document (judge_text services document.text) e
                            (content.0 (ground (arith, same)), input.0 (ground (arith, same)))
                            (judge_text-Passes document.text))
                  ]
          ]
