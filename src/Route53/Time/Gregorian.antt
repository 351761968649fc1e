-- ===== src/Route53/Time/Gregorian.antt =====
-- The Gregorian calendar, and dates by years that start in March, as src/route53.rs counts them.
use gentlsa.Prelude.{
  ℕ, zero, suc, ◌+◌, ◌-◌, ◌*◌, ◌/◌, ◌%◌, Bool, not, ◌&&◌, ◌||◌, ltb, leb, ◌==◌, if◌then◌else◌,
}
use gentlsa.Route53.Time.{Date, month_of_year, day_of_month, calendar_month}

-- The Gregorian calendar.
abbrev is_leap : ℕ → Bool
is_leap y = y % 4 == 0 && (not (y % 100 == 0) || y % 400 == 0)

abbrev pub days_in_month : ℕ → ℕ → ℕ
days_in_month y m =
    if m == 2
    then if is_leap y then 29 else 28
    else if m == 4 || m == 6 || m == 9 || m == 11
    then 30
    else 31

abbrev pub next_day : Date → Date
next_day d =
    if ltb d.day (days_in_month d.year d.month)
    then record d { day = d.day + 1 }
    else if ltb d.month 12
    then record { year = d.year; month = d.month + 1; day = 1 }
    else record { year = d.year + 1; month = 1; day = 1 }

-- The days of an era before its March-year `y`, and the days of that year.
abbrev pub before : ℕ → ℕ
before y = 365 * y + y / 4 - y / 100 + y / 400

abbrev pub year_length : ℕ → ℕ
year_length y = if is_leap (y + 1) then 366 else 365

-- A date by its March-year and the day of that year.
abbrev pub date_parts : ℕ → ℕ → Date
date_parts y doy = record {
  year = if leb (calendar_month (month_of_year doy)) 2 then y + 1 else y;
  month = calendar_month (month_of_year doy);
  day = day_of_month doy;
}

-- The first day of a month, from March on.
abbrev pub month_start : ℕ → ℕ
month_start mp = (153 * mp + 2) / 5

-- The date that `n` days after another one has.
abbrev pub days_after : Date → ℕ → Date
days_after d zero = d
days_after d (suc n) = next_day (days_after d n)
