-- ===== src/Route53/Time.antt =====
-- src/route53.rs: `amz_timestamps`, the date and time of a signature.
pub mod Gregorian
pub mod Years
pub mod Months
pub mod Calendar
use gentlsa.Prelude.{
  ℕ, zero, suc, ◌+◌, ◌-◌, ◌*◌, ◌/◌, ◌%◌, ◌≤◌, ◌<◌, ◌≡◌, refl, Text, codes, Bool, true, false, List,
  [], ◌∷◌, ◌++◌, ltb, leb, if◌then◌else◌, length, arith,
}
use gentlsa.Prelude.Decimal.{to_string}

-- A day of a year that starts on March 1, in an era of 400 such years.
unfoldable pub year_of_era : ℕ → ℕ
year_of_era doe = (doe - doe / 1460 + doe / 36524 - doe / 146096) / 365

unfoldable pub day_of_year : ℕ → ℕ
unfolding year_of_era
day_of_year doe = let yoe = year_of_era doe in doe - (365 * yoe + yoe / 4 - yoe / 100)

-- March is month 0.
unfoldable pub month_of_year : ℕ → ℕ
month_of_year doy = (5 * doy + 2) / 153

unfoldable pub day_of_month : ℕ → ℕ
unfolding month_of_year
day_of_month doy = doy - (153 * month_of_year doy + 2) / 5 + 1

unfoldable pub calendar_month : ℕ → ℕ
calendar_month mp = if ltb mp 10 then mp + 3 else mp - 9

pub record Date : Type 0 where
  pub year : ℕ
  pub month : ℕ
  pub day : ℕ

unfoldable pub date_of : ℕ → ℕ → Date
unfolding year_of_era day_of_year month_of_year day_of_month calendar_month
date_of era doe =
    let month = calendar_month (month_of_year (day_of_year doe)) in
    let year = year_of_era doe + era * 400 in
    record {
      year = if leb month 2 then year + 1 else year;
      month = month;
      day = day_of_month (day_of_year doe);
    }

-- The date of a day since 1970. The days of a `u64` of seconds are never negative as `i64`.
unfoldable pub civil : ℕ → Date
unfolding date_of
civil days = let z = days + 719468 in date_of (z / 146097) (z - z / 146097 * 146097)

-- `{:02}` and `{:04}`.
unfoldable pub zeros : ℕ → Text
zeros zero = []
zeros (suc n) = b'0' ∷ zeros n

unfoldable pub padded : ℕ → ℕ → Text
unfolding zeros to_string
padded width n = zeros (width - length (to_string n)) ++ to_string n

unfoldable pub datestamp : Date → Text
unfolding padded
datestamp d = padded 4 d.year ++ (padded 2 d.month ++ padded 2 d.day)

unfoldable pub timestamp : Date → ℕ → Text
unfolding datestamp padded
timestamp d tod =
    datestamp d
    ++ (codes "T"
        ++ (padded 2 (tod / 3600)
            ++ (padded 2 (tod % 3600 / 60) ++ (padded 2 (tod % 60) ++ codes "Z"))))

-- The date and time, and the date.
unfoldable pub amz_timestamps : ℕ → Text × Text
unfolding civil timestamp datestamp
amz_timestamps unix_secs =
    let d = civil (unix_secs / 86400) in (timestamp d (unix_secs % 86400), datestamp d)
