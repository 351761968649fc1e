-- ===== src/Route53/Time/Calendar.antt =====
-- src/route53.rs: the dates of `amz_timestamps` are those of the Gregorian calendar.
use gentlsa.Prelude.{
  ℕ, zero, suc, ◌+◌, ◌-◌, ◌*◌, ◌/◌, ◌<◌, ◌≡◌, inl, inr, refl, ap, sym, ◌∙◌, ltb, ltb→lt, arith,
  Bool-cases,
}
use mathlib.Core.Path.{subst}
use gentlsa.Route53.Time.{year_of_era, day_of_year, day_of_month, date_of, civil}
use gentlsa.Route53.Time.Gregorian.{next_day, year_length, date_parts, days_after}
use gentlsa.Route53.Time.Years.{year_step}
use gentlsa.Route53.Time.Months.{parts_step, year_end}

-- A year of an era and the same year of another one are leap together.
year_length-era : (y era : ℕ) → year_length (y + era * 400) ≡ year_length y
year_length-era y era = ground arith

date_of-parts :
    (era doe : ℕ) → date_of era doe ≡ date_parts (year_of_era doe + era * 400) (day_of_year doe)
unfolding date_of
date_of-parts era doe = refl

parts_ap : {y y' d d' : ℕ} → y ≡ y' → d ≡ d' → date_parts y d ≡ date_parts y' d'
parts_ap e f = cc

-- One day on within an era.
era_step : (era doe : ℕ) → doe + 1 < 146097 → date_of era (doe + 1) ≡ next_day (date_of era doe)
era_step era doe h =
    let y = year_of_era doe in
    let length : year_length (y + era * 400) ≡ year_length y = year_length-era y era in
    elim (year_step doe h) [
      | inl (s, d, k) ↦
          date_of-parts era (doe + 1)
          ∙ parts_ap (ap (λ z. z + era * 400) s) d
          ∙ parts_step (y + era * 400) (day_of_year doe)
              (subst (λ n. day_of_year doe + 1 < n) (sym length) k)
          ∙ ap next_day (sym (date_of-parts era doe))
      | inr (s, d, k) ↦
          date_of-parts era (doe + 1)
          ∙ parts_ap (omega (arith, s)) d
          ∙ year_end (y + era * 400) (day_of_year doe) (k ∙ sym length)
          ∙ ap next_day (sym (date_of-parts era doe))
    ]

last_of_era : (era : ℕ) → date_parts (399 + era * 400) 365 ≡ date_of era 146096
unfolding date_of
last_of_era era = refl

first_of_era : (era : ℕ) → date_of (era + 1) 0 ≡ date_parts (399 + era * 400 + 1) 0
unfolding date_of day_of_year
first_of_era era =
    parts_ap {y = year_of_era 0 + (era + 1) * 400} {y' = 399 + era * 400 + 1} {d = day_of_year 0}
      {d' = 0} (omega arith) refl

-- The first day of an era follows the last of the one before.
era_carry : (era : ℕ) → date_of (era + 1) 0 ≡ next_day (date_of era 146096)
era_carry era =
    first_of_era era
    ∙ year_end (399 + era * 400) 365 (sym (year_length-era 399 era))
    ∙ ap next_day (last_of_era era)

date_of-ap : {era era' doe doe' : ℕ} → era ≡ era' → doe ≡ doe' → date_of era doe ≡ date_of era' doe'
date_of-ap e f = cc

civil-step : (n : ℕ) → civil (n + 1) ≡ next_day (civil n)
unfolding civil
civil-step n =
    let z = n + 719468 in
    elim (Bool-cases (ltb (z - z / 146097 * 146097 + 1) 146097)) [
      | inl same ↦
          let h = ltb→lt _ _ same in
          date_of-ap (omega (arith, h)) (omega (arith, h))
          ∙ era_step (z / 146097) (z - z / 146097 * 146097) h
      | inr other ↦
          let last : z - z / 146097 * 146097 ≡ 146096 = ground (arith, other) in
          date_of-ap {era' = z / 146097 + 1} {doe' = 0} (omega (arith, last)) (omega (arith, last))
          ∙ era_carry (z / 146097)
          ∙ ap next_day (date_of-ap refl (sym last))
    ]

-- The date of a signature is the one that so many days after January 1, 1970 has in the Gregorian
-- calendar, for every number of days.
pub civil-days_after : (n : ℕ) → civil n ≡ days_after (record { year = 1970; month = 1; day = 1 }) n
unfolding civil date_of day_of_month
civil-days_after zero = refl
civil-days_after (suc n) = ap civil (omega arith) ∙ civil-step n ∙ ap next_day (civil-days_after n)
