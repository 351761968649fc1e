-- ===== src/Route53/Time/Months.antt =====
-- src/route53.rs: the month of a year and its days.
use gentlsa.Prelude.{
  ℕ, ◌+◌, ◌≤◌, ◌<◌, ◌≡◌, ◌⊎◌, inl, inr, refl, ap, sym, ◌∙◌, ltb, ltb→lt, lt→ltb, leb, leb→le, ◌==◌,
  if◌then◌else◌, arith, Bool-cases,
}
use gentlsa.Route53.Time.{Date, month_of_year, day_of_month, calendar_month}
use gentlsa.Route53.Time.Gregorian.{days_in_month, next_day, year_length, date_parts, month_start}

month_bounds :
    (doy : ℕ)
    → doy ≤ 365
    → (month_start (month_of_year doy) ≤ doy)
      × (doy < month_start (month_of_year doy + 1))
      × (month_of_year doy ≤ 11)
      × (day_of_month doy + month_start (month_of_year doy) ≡ doy + 1)
unfolding day_of_month
month_bounds doy h = omega arith

-- One day on within a year: the next day of the month, or the first of the next month.
month_step :
    (doy : ℕ)
    → doy + 1 ≤ 365
    → ((month_of_year (doy + 1) ≡ month_of_year doy)
        × (day_of_month (doy + 1) ≡ day_of_month doy + 1)
        × (doy + 1 < month_start (month_of_year doy + 1)))
      ⊎ ((month_of_year (doy + 1) ≡ month_of_year doy + 1)
          × (day_of_month (doy + 1) ≡ 1)
          × (doy + 1 ≡ month_start (month_of_year doy + 1)))
month_step doy h =
    let (l, u, b, d) = month_bounds doy (omega (arith, h)) in
    let (l', u', b', d') = month_bounds (doy + 1) h in
    elim (Bool-cases (ltb (doy + 1) (month_start (month_of_year doy + 1)))) [
      | inl same ↦
          let within = ltb→lt _ _ same in
          let m : month_of_year (doy + 1) ≡ month_of_year doy = omega (arith, l, u', l', within) in
          inl (m, omega (arith, d, d', m), within)
      | inr other ↦
          let start : doy + 1 ≡ month_start (month_of_year doy + 1) = ground (arith, other, u) in
          let m : month_of_year (doy + 1) ≡ month_of_year doy + 1 = omega (arith, start, l', u') in
          inr (m, omega (arith, d', m, start), start)
    ]

-- The lengths of the months but February, which ends the March-year.
month_length :
    (y mp : ℕ)
    → mp ≤ 10
    → month_start mp + days_in_month y (calendar_month mp) ≡ month_start (mp + 1)
unfolding calendar_month
month_length y mp h = ground arith

february : (y doy : ℕ) → doy ≤ 365 → month_of_year doy ≡ 11 → day_of_month doy + 336 ≡ doy
february y doy h m = let (l, u, b, d) = month_bounds doy h in omega (arith, d, m)

next_day-within :
    (d : Date) → d.day < days_in_month d.year d.month → next_day d ≡ record d { day = d.day + 1 }
next_day-within d h = rw (lt→ltb _ _ h) refl

next_day-month :
    (d : Date)
    → d.day ≡ days_in_month d.year d.month
    → d.month < 12
    → next_day d ≡ record { year = d.year; month = d.month + 1; day = 1 }
next_day-month d h k = ground (arith, h, k)

next_day-year :
    (d : Date)
    → d.day ≡ days_in_month d.year d.month
    → d.month ≡ 12
    → next_day d ≡ record { year = d.year + 1; month = 1; day = 1 }
next_day-year d h k = ground (arith, h, k)

year_length_bounds : (y : ℕ) → 365 ≤ year_length y
year_length_bounds y = ground arith

february_room :
    (y doy : ℕ)
    → month_of_year doy ≡ 11
    → day_of_month doy + 336 ≡ doy
    → doy + 1 < year_length y
    → day_of_month doy < days_in_month (date_parts y doy).year (date_parts y doy).month
unfolding calendar_month
february_room y doy m f k = rw m (ground (arith, f, k))

february_last :
    (y doy : ℕ)
    → day_of_month doy + 336 ≡ doy
    → doy + 1 ≡ year_length y
    → day_of_month doy ≡ days_in_month (y + 1) 2
february_last y doy f k = ground (arith, f, k)

-- The day of a date against the length of its month.
room :
    (y doy : ℕ)
    → doy ≤ 365
    → doy + 1 < year_length y
    → doy + 1 < month_start (month_of_year doy + 1)
    → day_of_month doy < days_in_month (date_parts y doy).year (date_parts y doy).month
room y doy h k w =
    let (l, u, b, d) = month_bounds doy h in
    elim (Bool-cases (leb (month_of_year doy) 10)) [
      | inl early ↦ omega (
        arith,
        d,
        w,
        month_length (date_parts y doy).year (month_of_year doy)
            (leb→le (month_of_year doy) 10 early),
      )
      | inr late ↦
          let m : month_of_year doy ≡ 11 = ground (arith, late, b) in
          let f = february y doy h m in february_room y doy m f k
    ]

no_room :
    (y doy : ℕ)
    → doy ≤ 365
    → month_of_year doy ≤ 10
    → doy + 1 ≡ month_start (month_of_year doy + 1)
    → day_of_month doy ≡ days_in_month (date_parts y doy).year (date_parts y doy).month
no_room y doy h m w =
    let (l, u, b, d) = month_bounds doy h in
    omega (arith, d, w, month_length (date_parts y doy).year (month_of_year doy) m)

last_day :
    (y doy : ℕ)
    → doy ≤ 365
    → doy + 1 ≡ year_length y
    → (month_of_year doy ≡ 11) × (day_of_month doy ≡ days_in_month (y + 1) 2)
last_day y doy h k =
    let (l, u, b, d) = month_bounds doy h in
    let long : 365 ≤ year_length y = year_length_bounds y in
    let m : month_of_year doy ≡ 11 = omega (arith, b, u, k, long) in
    let f = february y doy h m in (m, february_last y doy f k)

-- The calendar months, counted from March.
calendar_next :
    (y mp : ℕ)
    → mp ≤ 10
    → ((calendar_month mp < 12)
        × (calendar_month (mp + 1) ≡ calendar_month mp + 1)
        × (leb (calendar_month (mp + 1)) 2 ≡ leb (calendar_month mp) 2))
      ⊎ ((calendar_month mp ≡ 12) × (calendar_month (mp + 1) ≡ 1))
unfolding calendar_month
calendar_next y mp h = elim (Bool-cases (mp == 9)) [
  | inl december ↦ inr (ground (arith, december))
  | inr other ↦ inl (ground (arith, h, other))
]

date_path :
    {a b c d n : ℕ}
    → a ≡ b
    → c ≡ d
    → ◌≡◌ {A = Date}
        (record { year = a; month = c; day = n })
        (record { year = b; month = d; day = n })
date_path e f = cc

new_year :
    (y mp : ℕ)
    → calendar_month mp ≡ 12
    → calendar_month (mp + 1) ≡ 1
    → (if leb (calendar_month (mp + 1)) 2 then y + 1 else y)
      ≡ (if leb (calendar_month mp) 2 then y + 1 else y) + 1
new_year y mp k c = ground (arith, k, c)

pub parts_step :
    (y doy : ℕ) → doy + 1 < year_length y → date_parts y (doy + 1) ≡ next_day (date_parts y doy)
parts_step y doy h =
    let short : doy + 1 ≤ 365 = ground (arith, h) in
    elim (month_step doy short) [
      | inl (m, d, within) ↦
          rw (m, d) refl
          ∙ sym (next_day-within (date_parts y doy) (room y doy (omega (arith, short)) h within))
      | inr (m, d, start) ↦
          let (_, _, b, _) = month_bounds (doy + 1) short in
          let early : month_of_year doy ≤ 10 = omega (arith, m, b) in
          let full = no_room y doy (omega (arith, short)) early start in
          elim (calendar_next y (month_of_year doy) early) [
            | inl (k, c, f) ↦
                rw (m, d) (date_path (ap (λ t. if t then y + 1 else y) f) c)
                ∙ sym (next_day-month (date_parts y doy) full k)
            | inr (k, c) ↦
                rw (m, d) (date_path (new_year y (month_of_year doy) k c) c)
                ∙ sym (next_day-year (date_parts y doy) full k)
          ]
    ]

-- The last day of a March-year is in February, and the first of the next is March 1.
last_full :
    (y doy : ℕ)
    → month_of_year doy ≡ 11
    → day_of_month doy ≡ days_in_month (y + 1) 2
    → day_of_month doy ≡ days_in_month (date_parts y doy).year (date_parts y doy).month
unfolding calendar_month
last_full y doy m d = rw m d

last_early : (doy : ℕ) → month_of_year doy ≡ 11 → calendar_month (month_of_year doy) < 12
unfolding calendar_month
last_early doy m = rw m (omega arith)

march :
    (y doy : ℕ)
    → month_of_year doy ≡ 11
    → date_parts (y + 1) 0
      ≡ record { year = (date_parts y doy).year; month = (date_parts y doy).month + 1; day = 1 }
unfolding calendar_month day_of_month
march y doy m = rw m refl

pub year_end :
    (y doy : ℕ) → doy + 1 ≡ year_length y → date_parts (y + 1) 0 ≡ next_day (date_parts y doy)
year_end y doy h =
    let short : doy ≤ 365 = ground (arith, h) in
    let (m, d) = last_day y doy short h in
    march y doy m ∙ sym (next_day-month (date_parts y doy) (last_full y doy m d) (last_early doy m))
