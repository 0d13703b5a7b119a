-- ===== src/Base/Tables.antt =====
-- A table of the database as the map from the primary key to the row: an update of one row, the rows
-- that meet a condition, and the first of them by a time.

use Prim.Native.Nat.{ℕ, ◌≤◌}
use Prim.Native.String.{String}
use mathlib.Core.Path.{◌≡◌, refl, sym, ap, subst, ◌∙◌}
use mathlib.Core.Logic.{◌≢◌, ◌⊎◌, inl, inr}
use mathlib.Core.Bool.{Bool, true, false}
use mathlib.Core.Option.{Option, none, some}
use mathlib.Core.List.{List, [], ◌∷◌}
use native.Mathlib.Omega.{arith}
use text.Mathlib.TextEquality.{eq_iff}
use text.Mathlib.TextPositions.{eq_refl}
use senecial.Base.Tests.{
  Bool-cases, Option-cases, str_eq, leb, if◌then◌else◌, none-ne-some, some-inj,
}
use senecial.Base.Lists.{All}
use senecial.Base.Maps.{Dict, get, put, get-put, NoKey, IsMap, get_of_NoKey, IsMap-put}

module _ {ℓ} {V : Type ℓ} where
  abbrev pub map_option : (V → V) → Option V → Option V
  map_option f none = none
  map_option f (some row) = some (f row)

  -- `update({ where: { id }, data })`
  unfoldable pub update_row : String → (V → V) → Dict V → Dict V
  unfolding get put
  update_row id change rows = elim (get id rows) [
    | none ↦ rows
    | some row ↦ put id (change row) rows
  ]

  pub get-update_row :
      (id other : String) (change : V → V) (rows : Dict V)
      → get other (update_row id change rows)
        ≡ (if str_eq id other then map_option change (get other rows) else get other rows)
  unfolding update_row
  get-update_row id other change rows = elim (Bool-cases (str_eq id other)) [
    | inl here ↦ elim (Option-cases (get id rows)) [
      | inl e ↦
          let e' : get other rows ≡ none =
            subst (λ k. get k rows ≡ none) ((eq_iff id other).0 here) e in
          rw (e, here, update_row, e') refl
      | inr (row, e) ↦
          let e' : get other rows ≡ some row =
            subst (λ k. get k rows ≡ some row) ((eq_iff id other).0 here) e in
          rw (e, update_row, get-put, here, e') refl
    ]
    | inr there ↦ elim (Option-cases (get id rows)) [
      | inl e ↦ rw (e, there, update_row) refl
      | inr (row, e) ↦ rw (e, update_row, get-put, there) refl
    ]
  ]

  pub get-update_row_here :
      (id : String) (change : V → V) (rows : Dict V) (row : V)
      → get id rows ≡ some row
      → get id (update_row id change rows) ≡ some (change row)
  get-update_row_here id change rows row e = rw (get-update_row, eq_refl id, e) refl

  pub get-update_row_other :
      (id other : String) (change : V → V) (rows : Dict V)
      → id ≢ other
      → get other (update_row id change rows) ≡ get other rows
  get-update_row_other id other change rows h =
      ground (arith, eq_iff id other, get-update_row id other change rows)

  -- A row of an updated table is a row of the table or the change of one.
  pub row_before :
      (id : String) (change : V → V) (rows : Dict V) (other : String) (row : V)
      → get other (update_row id change rows) ≡ some row
      → (old : V) × (get other rows ≡ some old) × ((row ≡ old) ⊎ (row ≡ change old))
  row_before id change rows other row e = elim (Option-cases (get other rows)) [
    | inl gone ↦ elim (Bool-cases (str_eq id other)) [
      | inl here ↦ absurd (none-ne-some (rw (get-update_row, here, gone) at e))
      | inr there ↦ absurd (none-ne-some (rw (get-update_row, there, gone) at e))
    ]
    | inr (old, found) ↦ elim (Bool-cases (str_eq id other)) [
      | inl here ↦ (old, found, inr (sym (some-inj (rw (get-update_row, here, found) at e))))
      | inr there ↦ (old, found, inl (sym (some-inj (rw (get-update_row, there, found) at e))))
    ]
  ]

  pub IsMap-update_row :
      (id : String) (change : V → V) (rows : Dict V)
      → IsMap rows
      → IsMap (update_row id change rows)
  unfolding update_row
  IsMap-update_row id change rows h = elim (Option-cases (get id rows)) [
    | inl e ↦ rw (e, update_row) h
    | inr (row, e) ↦ rw (e, update_row) (IsMap-put id (change row) rows h)
  ]

  -- The rows that meet a condition.
  unfoldable pub find_many : (V → Bool) → Dict V → List (String × V)
  find_many test [] = []
  find_many test ((id, row) ∷ rows) =
      let rest = find_many test rows in if test row then (id, row) ∷ rest else rest

  -- `WHERE test ORDER BY at ASC LIMIT 1`; of rows with one time the first in the table.
  unfoldable pub first_by : (V → Bool) → (V → ℕ) → Dict V → Option (String × V)
  first_by test at [] = none
  first_by test at ((id, row) ∷ rows) =
      let rest = first_by test at rows in
      if test row
      then elim rest [
        | none ↦ some (id, row)
        | some (other_id, other) ↦
            if leb (at row) (at other) then some (id, row) else some (other_id, other)
      ]
      else rest

  pub get-cons_here : (id : String) (row : V) (rows : Dict V) → get id ((id, row) ∷ rows) ≡ some row
  unfolding get
  get-cons_here id row rows = rw (eq_refl id) refl

  pub get-cons_later :
      (id other : String) (row found : V) (rows : Dict V)
      → NoKey id rows
      → get other rows ≡ some found
      → get other ((id, row) ∷ rows) ≡ some found
  unfolding get
  get-cons_later id other row found rows fresh e = elim (Bool-cases (str_eq id other)) [
    | inl same ↦ absurd (
        none-ne-some
          (sym (get_of_NoKey id rows fresh) ∙ ap (λ k. get k rows) ((eq_iff id other).0 same) ∙ e))
    | inr differs ↦ rw differs e
  ]

module _ {V : Type 0} (P : V → Type 0) where
  abbrev pub Every : Dict V → Type 0
  Every rows = (id : String) (row : V) → get id rows ≡ some row → P row

  pub Every-put :
      (id : String) (row : V) (rows : Dict V) → P row → Every rows → Every (put id row rows)
  Every-put id row rows here h other found e = elim (Bool-cases (str_eq id other)) [
    | inl same ↦ subst P (some-inj (rw (get-put, same) at e)) here
    | inr differs ↦ h other found (rw (get-put, differs) at e)
  ]

  pub Every-update_row :
      (id : String) (change : V → V) (rows : Dict V)
      → ((row : V) → get id rows ≡ some row → P row → P (change row))
      → Every rows
      → Every (update_row id change rows)
  unfolding update_row
  Every-update_row id change rows keeps h = elim (Option-cases (get id rows)) [
    | inl e ↦ rw (e, update_row) h
    | inr (row, e) ↦
        rw (e, update_row) (Every-put id (change row) rows (keeps row e (h id row e)) h)
  ]

  pub Every-cons :
      (id : String) (row : V) (rows : Dict V) → P row → Every rows → Every ((id, row) ∷ rows)
  unfolding get
  Every-cons id row rows here h other found e = elim (Bool-cases (str_eq id other)) [
    | inl same ↦ subst P (some-inj (rw same at e)) here
    | inr differs ↦ h other found (rw differs at e)
  ]

  pub Every-nil : Every []
  unfolding get
  Every-nil id row e = absurd (none-ne-some e)

-- What `first_by` answers.
module _ {V : Type 0} (test : V → Bool) (at : V → ℕ) where
  abbrev pub IsFirst : Dict V → Option (String × V) → Type 0
  IsFirst rows none = Every (λ row. test row ≡ false) rows
  IsFirst rows (some (id, row)) =
      (get id rows ≡ some row)
      × (test row ≡ true)
      × Every (λ other. test other ≡ true → at row ≤ at other) rows

  cons-IsFirst :
      (id : String) (row : V) (rows : Dict V) (answer : Option (String × V))
      → NoKey id rows
      → first_by test at rows ≡ answer
      → IsFirst rows answer
      → IsFirst ((id, row) ∷ rows) (first_by test at ((id, row) ∷ rows))
  unfolding first_by
  cons-IsFirst id row rows none fresh e h = elim (Bool-cases (test row)) [
    | inr out ↦ rw (out, e) (Every-cons (λ r. test r ≡ false) id row rows out h)
    | inl fits ↦
        rw (fits, e)
          (
            get-cons_here id row rows,
            fits,
            Every-cons (λ r. test r ≡ true → at row ≤ at r) id row rows (λ p. omega arith)
                (λ k r there p. absurd (ground (arith, p, h k r there))),
          )
  ]
  cons-IsFirst id row rows (some (other_id, other)) fresh e (found, fits, first) =
      elim (Bool-cases (test row)) [
        | inr out ↦
            rw (out, e)
              (
                get-cons_later id other_id row other rows fresh found,
                fits,
                Every-cons (λ r. test r ≡ true → at other ≤ at r) id row rows
                    (λ p. absurd (ground (arith, p, out))) first,
              )
        | inl here ↦ elim (Bool-cases (leb (at row) (at other))) [
          | inl older ↦
              rw (here, e, older)
                (
                  get-cons_here id row rows,
                  here,
                  Every-cons (λ r. test r ≡ true → at row ≤ at r) id row rows (λ p. omega arith)
                      (λ k r there p. ground (arith, older, first k r there p)),
                )
          | inr newer ↦
              rw (here, e, newer)
                (
                  get-cons_later id other_id row other rows fresh found,
                  fits,
                  Every-cons (λ r. test r ≡ true → at other ≤ at r) id row rows
                      (λ p. ground (arith, newer)) first,
                )
        ]
      ]

  pub first_by-IsFirst : (rows : Dict V) → IsMap rows → IsFirst rows (first_by test at rows)
  unfolding first_by
  first_by-IsFirst [] h = Every-nil (λ row. test row ≡ false)
  first_by-IsFirst ((id, row) ∷ rows) (fresh, h) =
      cons-IsFirst id row rows (first_by test at rows) fresh refl (first_by-IsFirst rows h)

-- What `find_many` answers: rows of the table that meet the condition, and all of them.
module _ {V : Type 0} (test : V → Bool) where
  abbrev Found : Dict V → List (String × V) → Type 0
  Found rows = All (λ one. (get one.0 rows ≡ some one.1) × (test one.1 ≡ true))

  Found-cons :
      (id : String) (row : V) (rows : Dict V) (answer : List (String × V))
      → NoKey id rows
      → Found rows answer
      → Found ((id, row) ∷ rows) answer
  Found-cons id row rows [] fresh h = tt
  Found-cons id row rows ((other, found) ∷ answer) fresh ((e, t), hs) =
      ((get-cons_later id other row found rows fresh e, t), Found-cons id row rows answer fresh hs)

  pub find_many-found :
      (rows : Dict V)
      → IsMap rows
      → All (λ one. (get one.0 rows ≡ some one.1) × (test one.1 ≡ true)) (find_many test rows)
  unfolding find_many
  find_many-found [] h = tt
  find_many-found ((id, row) ∷ rows) (fresh, h) =
      let rest = Found-cons id row rows (find_many test rows) fresh (find_many-found rows h) in
      elim (Bool-cases (test row)) [
        | inl fits ↦ rw fits ((get-cons_here id row rows, fits), rest)
        | inr out ↦ rw out rest
      ]
