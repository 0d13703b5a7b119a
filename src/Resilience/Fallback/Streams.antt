-- ===== src/Resilience/Fallback/Streams.antt =====
-- What a reader of the fallback provider sees.
use senecial.Base.{
  ◌≡◌, refl, sym, ap, ◌∙◌, ◌⊎◌, ◌↔◌, inl, inr, String, Bool, true, false, some, List, [], ◌∷◌, ◌++◌,
  map, Bool-cases, Option-cases,
}
use senecial.Resilience.ProviderError.{
  Thrown, is_fallback_eligible_provider_error_code, normalize_provider_error,
}
use senecial.Resilience.ProviderError.Classes.{
  IsConsistent, IsTransient, normalize_provider_error-retryable, fallback-retryable,
}
use senecial.Resilience.Execute.{Attempt, ok, threw}
use senecial.Resilience.Fallback.{
  Identity, LlmCompletionResult, AiStreamEvent, text_delta, Stream, served_by, generate_completion,
  yielded_any_text, tag, stream,
}

-- The texts that a reader receives, in order.
unfoldable pub texts : List AiStreamEvent → List String
texts [] = []
texts (text_delta t ∷ es) = t ∷ texts es
texts (_ ∷ es) = texts es

texts-append : (xs ys : List AiStreamEvent) → texts (xs ++ ys) ≡ texts xs ++ texts ys
unfolding texts
texts-append [] ys = refl
texts-append (text_delta t ∷ xs) ys = ap (λ l. t ∷ l) (texts-append xs ys)
texts-append (_ ∷ xs) ys = texts-append xs ys

texts-tag : (p : Identity) (es : List AiStreamEvent) → texts (map (tag p) es) ≡ texts es
unfolding texts tag
texts-tag p [] = refl
texts-tag p (text_delta t ∷ es) = ap (λ l. t ∷ l) (texts-tag p es)
texts-tag p (_ ∷ es) = texts-tag p es

texts_of_no_text : (es : List AiStreamEvent) → yielded_any_text es ≡ false → texts es ≡ []
unfolding texts yielded_any_text
texts_of_no_text [] h = refl
texts_of_no_text (text_delta t ∷ es) h = cc
texts_of_no_text (_ ∷ es) h = texts_of_no_text es h

-- The answer is never pieced together from two providers: the texts that a reader receives are all
-- the primary's or all the secondary's. They are the secondary's only where the primary failed, had
-- yielded no text, and its error is one that allows a fallback.
pub stream-texts :
    (primary secondary : Identity) (first second : Stream)
    → let seen = texts (stream primary secondary first second).events in
      (seen ≡ texts first.events)
      ⊎ ((seen ≡ texts second.events)
          × (yielded_any_text first.events ≡ false)
          × ((raw : Thrown) × (first.failure ≡ some raw)
              × (is_fallback_eligible_provider_error_code
                    (normalize_provider_error raw primary.provider_name).error_code
                  ≡ true)))
unfolding stream
stream-texts primary secondary first second = elim (Option-cases first.failure) [
  | inl fine ↦ inl (rw (fine, stream) refl)
  | inr (raw, failed) ↦ elim (Bool-cases (yielded_any_text first.events)) [
    | inl some_text ↦ inl (rw (failed, stream) (rw some_text refl))
    | inr no_text ↦
        elim (Bool-cases (
          is_fallback_eligible_provider_error_code
            (normalize_provider_error raw primary.provider_name).error_code)) [
              | inl eligible ↦ inr (
                rw (failed, stream)
                    (rw (no_text, eligible)
                      (texts-append first.events _
                        ∙ ap (λ l. l ++ texts (map (tag secondary) second.events))
                            (texts_of_no_text _ no_text)
                        ∙ texts-tag secondary second.events)),
                no_text,
                (raw, failed, eligible),
              )
              | inr barred ↦ inl (rw (failed, stream) (rw (no_text, barred) refl))
            ]
  ]
]

threw-ne-ok : {T : Type 0} {raw : Thrown} {t : T} → ◌≡◌ {A = Attempt T} (threw raw) (ok t) → ⊥
threw-ne-ok e = cc

true-ne-false : ◌≡◌ {A = Bool} true false → ⊥
true-ne-false e = cc

-- A completion of the secondary provider is handed out only after a transient failure of the primary
-- one, and it then carries the secondary's names; a success of the primary is handed out unchanged.
generate_completion-served :
    (primary secondary : Identity) (raw : Thrown) (second result : LlmCompletionResult)
    → IsConsistent raw
    → (generate_completion primary secondary (ok result) (ok second) ≡ ok result)
      × ((generate_completion primary secondary (threw raw) (ok second)
            ≡ ok (served_by secondary second))
          ↔ IsTransient raw)
unfolding generate_completion
generate_completion-served primary secondary raw second result h =
    let error = normalize_provider_error raw primary.provider_name in
    let (transient, flag) = normalize_provider_error-retryable raw primary.provider_name h in
    let class = fallback-retryable error.error_code in
    elim (Bool-cases (is_fallback_eligible_provider_error_code error.error_code)) [
      | inl eligible ↦
          rw eligible (refl, (λ _. transient.0 (flag ∙ sym class ∙ eligible), λ _. refl))
      | inr barred ↦ rw barred (
        refl,
        (
          λ e. absurd (threw-ne-ok e),
          λ t. absurd (true-ne-false (sym (transient.1 t) ∙ flag ∙ sym class ∙ barred)),
        ),
      )
    ]
