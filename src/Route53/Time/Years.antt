-- ===== src/Route53/Time/Years.antt =====
-- src/route53.rs: the year of an era and its days.
use gentlsa.Prelude.{
  ℕ, zero, suc, ◌+◌, ◌-◌, ◌≤◌, ◌<◌, ◌≡◌, ◌⊎◌, inl, inr, ap, ltb, ltb→lt, arith, Bool-cases,
}
use mathlib.Core.Path.{subst}
use gentlsa.Route53.Time.{year_of_era, day_of_year}
use gentlsa.Route53.Time.Gregorian.{before, year_length}

before-suc : (y : ℕ) → before (y + 1) ≡ before y + year_length y
before-suc y = ground arith

year_of_era_bounds :
    (doe : ℕ)
    → doe < 146097
    → (before (year_of_era doe) ≤ doe)
      × (doe < before (year_of_era doe + 1))
      × (year_of_era doe < 400)
unfolding year_of_era
year_of_era_bounds doe h = omega arith

before_add : (y k : ℕ) → before y ≤ before (y + k)
before_add y zero = omega arith
before_add y (suc k) = omega (arith, before_add y k)

before_mono : (y y' : ℕ) → y ≤ y' → before y ≤ before y'
before_mono y y' h =
    let e : y + (y' - y) ≡ y' = omega (arith, h) in
    subst (λ z. before y ≤ before z) e (before_add y (y' - y))

-- A day lies in one year only.
year_unique :
    (doe y y' : ℕ)
    → before y ≤ doe
    → doe < before (y + 1)
    → before y' ≤ doe
    → doe < before (y' + 1)
    → y ≡ y'
year_unique doe y y' a b c d = elim (Bool-cases (ltb y y')) [
  | inl lt ↦
      absurd (omega (arith, a, b, c, d, before_mono (y + 1) y' (omega (arith, ltb→lt y y' lt))))
  | inr not_lt ↦ elim (Bool-cases (ltb y' y)) [
    | inl gt ↦
        absurd (omega (arith, a, b, c, d, before_mono (y' + 1) y (omega (arith, ltb→lt y' y gt))))
    | inr not_gt ↦ ground (arith, not_lt, not_gt)
  ]
]

day_of_year_lem : (doe : ℕ) → doe < 146097 → day_of_year doe + before (year_of_era doe) ≡ doe
unfolding day_of_year
day_of_year_lem doe h = omega arith

pub longer : (y doe : ℕ) → before y ≡ doe → doe < before (y + 1)
longer y doe e = omega (arith, e)

-- One day on within an era: the next day of the year, or the first of the next year.
pub year_step :
    (doe : ℕ)
    → doe + 1 < 146097
    → ((year_of_era (doe + 1) ≡ year_of_era doe)
        × (day_of_year (doe + 1) ≡ day_of_year doe + 1)
        × (day_of_year doe + 1 < year_length (year_of_era doe)))
      ⊎ ((year_of_era (doe + 1) ≡ year_of_era doe + 1)
          × (day_of_year (doe + 1) ≡ 0)
          × (day_of_year doe + 1 ≡ year_length (year_of_era doe)))
year_step doe h =
    let (l, u, b) = year_of_era_bounds doe (omega (arith, h)) in
    let (l', u', b') = year_of_era_bounds (doe + 1) h in
    let d = day_of_year_lem doe (omega (arith, h)) in
    let d' = day_of_year_lem (doe + 1) h in
    let len = before-suc (year_of_era doe) in
    elim (Bool-cases (ltb (doe + 1) (before (year_of_era doe + 1)))) [
      | inl same ↦
          let within = ltb→lt _ _ same in
          let y =
            year_unique (doe + 1) (year_of_era (doe + 1)) (year_of_era doe) l' u' (omega (arith, l))
              within in
          inl (y, omega (arith, d, d', ap before y), omega (arith, d, len, within))
      | inr other ↦
          let start : before (year_of_era doe + 1) ≡ doe + 1 = ground (arith, other, u) in
          let more = before-suc (year_of_era doe + 1) in
          let y =
            year_unique (doe + 1) (year_of_era (doe + 1)) (year_of_era doe + 1) l' u'
              (omega (arith, start)) (longer (year_of_era doe + 1) (doe + 1) start) in
          inr (y, omega (arith, d', start, ap before y), omega (arith, d, len, start))
    ]
