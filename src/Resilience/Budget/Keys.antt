-- ===== src/Resilience/Budget/Keys.antt =====
-- The counter keys of src/server/services/ai/budget/reserve-ai-budget.ts. A `Date` is the fields of its
-- UTC calendar day that the code reads; the month counts from 0, as `getUTCMonth` does.
use Prim.Native.Char.{code}
use Prim.Native.String.{◌++◌}
use text.Mathlib.TextLemmas.{cons-append}
use senecial.Base.{ℕ, zero, suc, ◌+◌, ◌≡◌, ◌≢◌, ap, String, arith, refl, sym, ◌∙◌}
use senecial.Base.Decimal.{show_nat, pad_start_two}

pub record UtcDate : Type 0 where
  pub year : ℕ
  pub month : ℕ
  pub date : ℕ

unfoldable pub year_month : UtcDate → String
unfolding show_nat pad_start_two
year_month now = show_nat now.year ++ "-" ++ pad_start_two (now.month + 1)

unfoldable pub month_key : String → UtcDate → String
unfolding year_month
month_key organization_id now = "cost:" ++ (organization_id ++ ":" ++ year_month now)

unfoldable pub request_month_key : String → UtcDate → String
unfolding year_month
request_month_key organization_id now = "req-month:" ++ (organization_id ++ ":" ++ year_month now)

unfoldable pub request_day_key : String → UtcDate → String
unfolding year_month
request_day_key organization_id now =
    "req-day:" ++ (organization_id ++ ":" ++ year_month now ++ "-" ++ pad_start_two now.date)

nth_code : ℕ → String → ℕ
nth_code n String.[] = 0
nth_code zero (String.◌∷◌ c s) = code c
nth_code (suc n) (String.◌∷◌ c s) = nth_code n s

nth_code-append : (n : ℕ) (s x : String) → nth_code n s ≢ 0 → nth_code n (s ++ x) ≡ nth_code n s
unfolding nth_code
nth_code-append n String.[] x h = absurd (h refl)
nth_code-append zero (String.◌∷◌ c s) x h = rw cons-append refl
nth_code-append (suc n) (String.◌∷◌ c s) x h = rw cons-append (nth_code-append n s x h)

append_ne :
    (n : ℕ) (s t x y : String)
    → nth_code n s ≢ 0
    → nth_code n t ≢ 0
    → nth_code n s ≢ nth_code n t
    → s ++ x ≢ t ++ y
append_ne n s t x y hs ht ne e =
    ne (sym (nth_code-append n s x hs) ∙ ap (nth_code n) e ∙ nth_code-append n t y ht)

-- The three kinds of keys are never the same text, whatever the organizations and the days.
pub keys_differ :
    (a b : String) (s t : UtcDate)
    → (month_key a s ≢ request_month_key b t)
      × (month_key a s ≢ request_day_key b t)
      × (request_month_key a s ≢ request_day_key b t)
unfolding month_key request_month_key request_day_key nth_code
keys_differ a b s t = (
  append_ne 0 "cost:" "req-month:" _ _ (omega arith) (omega arith) (omega arith),
  append_ne 0 "cost:" "req-day:" _ _ (omega arith) (omega arith) (omega arith),
  append_ne 4 "req-month:" "req-day:" _ _ (omega arith) (omega arith) (omega arith),
)
