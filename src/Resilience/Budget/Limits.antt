-- ===== src/Resilience/Budget/Limits.antt =====
-- An allowed reservation stays within every limit of the organization.
use mathlib.Core.Path.{subst}
use senecial.Base.{
  none-ne-some, some-inj, ℕ, ◌+◌, ◌≤◌, ◌≡◌, sym, ap, ◌∙◌, ◌≢◌, String, true, Option, none, some,
  eq_iff, eq_refl, if◌then◌else◌, arith, Bool-cases, Option-cases, inl, inr, leb→le,
}
use senecial.Resilience.Budget.Counter.{BudgetCounter, IsBudgetCounter}
use senecial.Resilience.Budget.Keys.{
  UtcDate, month_key, request_month_key, request_day_key, keys_differ,
}
use senecial.Resilience.Budget.Reserve.{
  to_safe_amount, Organization, AiBudgetReservation, allowed, denied, no_reservation,
  release_ai_budget, Outcome, reserve_day, reserve_month, reserve_ai_budget, month_ttl_seconds,
  day_ttl_seconds,
}

to_safe_amount-eq : (n m : ℕ) → to_safe_amount n ≡ some m → m ≡ n
unfolding to_safe_amount
to_safe_amount-eq n m h = ground arith

module _ (c : BudgetCounter) (laws : IsBudgetCounter c) where
  allowed-state :
      {s s' : c.State} {r r' : AiBudgetReservation}
      → ◌≡◌ {A = Outcome c} (s, allowed r) (s', allowed r')
      → s ≡ s'
  allowed-state e = ap (λ o. o.0) e

  denied-ne-allowed :
      {s s' : c.State} {r : AiBudgetReservation}
      → ◌≡◌ {A = Outcome c} (s, denied) (s', allowed r)
      → ⊥
  denied-ne-allowed {r} e = let e' : denied ≡ allowed r = ap (λ o. o.1) e in cc

  -- A made reservation keeps its key within the limit, and no other key moves.
  made-within :
      (key : String) (amount limit ttl : ℕ) (s : c.State)
      → (c.reserve key amount limit ttl s).1.reserved ≡ true
      → (c.value key (c.reserve key amount limit ttl s).0 ≤ limit)
        × ((other : String)
            → key ≢ other
            → c.value other (c.reserve key amount limit ttl s).0 ≡ c.value other s)
  made-within key amount limit ttl s made = (
    ground (
      arith,
      laws.reserve_value key key amount limit ttl s,
      laws.reserve_answer key amount limit ttl s,
      eq_refl key,
      leb→le (c.value key s + amount) limit,
    ),
    λ other ne. ground (arith, laws.reserve_value key other amount limit ttl s, eq_iff key other),
  )

  abbrev DayWithin : Option ℕ → String → c.State → c.State → Type 0
  DayWithin limit key s s' =
      ((l : ℕ) → limit ≡ some l → c.value key s' ≤ l)
      × ((other : String) → key ≢ other → c.value other s' ≡ c.value other s)

  reserve_day-within :
      (limit : Option ℕ) (now : UtcDate) (r r' : AiBudgetReservation) (s s' : c.State)
      → reserve_day c limit now r s ≡ (s', allowed r')
      → DayWithin limit (request_day_key r.organization_id now) s s'
  unfolding reserve_day
  reserve_day-within none now r r' s s' e = (
    λ l none_some. absurd (none-ne-some none_some),
    λ other ne. ap (c.value other) (sym (allowed-state e)),
  )
  reserve_day-within (some limit) now r r' s s' e =
      let key = request_day_key r.organization_id now in
      elim (Bool-cases (c.reserve key 1 limit day_ttl_seconds s).1.reserved) [
        | inl made ↦
            let same = allowed-state (rw made at e) in
            let (le, others) = made-within key 1 limit day_ttl_seconds s made in
            (
              λ l is.
                  subst (λ n. c.value key s' ≤ n) (some-inj is)
                    (subst (λ x. c.value key x ≤ limit) same le),
              λ other ne. subst (λ x. c.value other x ≡ c.value other s) same (others other ne),
            )
        | inr refused ↦ absurd (denied-ne-allowed (rw refused at e))
      ]

  -- The two request counters after an allowed reservation of them.
  abbrev RequestsWithin : Organization → String → UtcDate → c.State → c.State → Type 0
  RequestsWithin org id now s s' =
      ((l : ℕ) → org.monthly_ai_request_limit ≡ some l → c.value (request_month_key id now) s' ≤ l)
      × ((l : ℕ) → org.daily_ai_request_limit ≡ some l → c.value (request_day_key id now) s' ≤ l)
      × (c.value (month_key id now) s' ≡ c.value (month_key id now) s)

  reserve_month-within :
      (org : Organization) (now : UtcDate) (r r' : AiBudgetReservation) (s s' : c.State)
      → reserve_month c org now r s ≡ (s', allowed r')
      → RequestsWithin org r.organization_id now s s'
  unfolding reserve_month
  reserve_month-within org now r r' s s' e =
      let id = r.organization_id in
      let key = request_month_key id now in
      let (cost_month, cost_day, month_day) = keys_differ id id now now in
      elim (Option-cases org.monthly_ai_request_limit) [
        | inl unlimited ↦
            let (day_le, others) =
              reserve_day-within org.daily_ai_request_limit now r r' s s'
                (rw (unlimited, reserve_month) at e) in
            (
              λ l is. absurd (none-ne-some (sym unlimited ∙ is)),
              day_le,
              others (month_key id now) (λ same. cost_day (sym same)),
            )
        | inr (limit, limited) ↦
            elim (Bool-cases (c.reserve key 1 limit month_ttl_seconds s).1.reserved) [
              | inl made ↦
                  let (le, untouched) = made-within key 1 limit month_ttl_seconds s made in
                  let (day_le, others) =
                    reserve_day-within org.daily_ai_request_limit now
                      (record r { request_month_key = some key }) r'
                      (c.reserve key 1 limit month_ttl_seconds s).0 s'
                      (rw (limited, reserve_month, made) at e) in
                  (
                    λ l is.
                        subst (λ n. c.value key s' ≤ n) (some-inj (sym limited ∙ is))
                          (rw (others key (λ same. month_day (sym same))) le),
                    day_le,
                    others (month_key id now) (λ same. cost_day (sym same))
                        ∙ untouched (month_key id now) (λ same. cost_month (sym same)),
                  )
              | inr refused ↦ absurd (denied-ne-allowed (rw (limited, reserve_month, refused) at e))
            ]
      ]

  reserve_cost-within :
      (org : Organization) (id : String) (amount limit : ℕ) (now : UtcDate) (s s' : c.State)
      (r' : AiBudgetReservation)
      → let key = month_key id now in
        let (t, answer) = c.reserve key amount limit month_ttl_seconds s in
        (if answer.reserved
            then reserve_month c org now
                (record (no_reservation id) {
                  cost_key = some key;
                  reserved_cost_minor = some amount;
                })
                t
            else (release_ai_budget c (no_reservation id) t, denied))
          ≡ (s', allowed r')
        → (c.value key s' ≤ limit)
          × ((l : ℕ)
              → org.monthly_ai_request_limit ≡ some l
              → c.value (request_month_key id now) s' ≤ l)
          × ((l : ℕ)
              → org.daily_ai_request_limit ≡ some l
              → c.value (request_day_key id now) s' ≤ l)
  reserve_cost-within org id amount limit now s s' r' e =
      let key = month_key id now in
      elim (Bool-cases (c.reserve key amount limit month_ttl_seconds s).1.reserved) [
        | inl made ↦
            let (le, _) = made-within key amount limit month_ttl_seconds s made in
            let (months, days, kept) =
              reserve_month-within org now
                (record (no_reservation id) {
                  cost_key = some key;
                  reserved_cost_minor = some amount;
                })
                r' (c.reserve key amount limit month_ttl_seconds s).0 s' (rw made at e) in
            (rw kept le, months, days)
        | inr refused ↦ absurd (denied-ne-allowed (rw refused at e))
      ]

  -- After an allowed reservation the counters of the organization are within its limits: the month's
  -- cost within the budget, and the requests of the month and of the day within theirs.
  pub reserve_ai_budget-within :
      (org : Organization) (id : String) (estimate : ℕ) (now : UtcDate) (s s' : c.State)
      (r : AiBudgetReservation)
      → reserve_ai_budget c org id estimate now s ≡ some (s', allowed r)
      → ((b : ℕ) → org.monthly_ai_budget_minor ≡ some b → c.value (month_key id now) s' ≤ b)
        × ((l : ℕ)
            → org.monthly_ai_request_limit ≡ some l
            → c.value (request_month_key id now) s' ≤ l)
        × ((l : ℕ) → org.daily_ai_request_limit ≡ some l → c.value (request_day_key id now) s' ≤ l)
  unfolding reserve_ai_budget
  reserve_ai_budget-within org id estimate now s s' r e =
      elim (Option-cases org.monthly_ai_budget_minor) [
        | inl unlimited ↦
            let (months, days, _) =
              reserve_month-within org now (no_reservation id) r s s'
                (some-inj (rw (unlimited, reserve_ai_budget) at e)) in
            (λ b is. absurd (none-ne-some (sym unlimited ∙ is)), months, days)
        | inr (budget, limited) ↦ elim (Option-cases (to_safe_amount estimate)) [
          | inl unsafe ↦ absurd (none-ne-some (rw (limited, unsafe, reserve_ai_budget) at e))
          | inr (amount, safe) ↦ elim (Option-cases (to_safe_amount budget)) [
            | inl unsafe ↦
                absurd (none-ne-some (rw (limited, safe, unsafe, reserve_ai_budget) at e))
            | inr (limit, safe') ↦
                let (le, months, days) =
                  reserve_cost-within org id amount limit now s s' r
                    (some-inj (rw (limited, safe, safe', reserve_ai_budget) at e)) in
                (
                  λ b is.
                      subst (λ n. c.value (month_key id now) s' ≤ n)
                        (to_safe_amount-eq budget limit safe' ∙ some-inj (sym limited ∙ is)) le,
                  months,
                  days,
                )
          ]
        ]
      ]
