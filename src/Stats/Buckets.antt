-- ===== src/Stats/Buckets.antt =====
-- internal/stats/stats.go, HourBucket and DayBucket: a UTC time formatted as the hour or the day it
-- falls in. The date is that of the proleptic Gregorian calendar, as in Go's time package, for the
-- years from 1 to 9999.
use brand_pulse.Prelude.{
  ℕ, ◌+◌, ◌-◌, ◌*◌, ◌/◌, ◌%◌, String, ◌≡◌, ◌≢◌, refl, append-ne-empty, append-ne-empty_right, ltb,
  leb, itoa, ◌^^◌, if◌then◌else◌,
}
use brand_pulse.Models.Labels.{Time, hour}

abbrev pub day : ℕ
day = 24 * hour

pub record Date : Type 0 where
  pub year : ℕ
  pub month : ℕ
  pub day_of_month : ℕ

-- The date of the n-th day after 1 January of the year 1. The count starts on 1 March of the year
-- 0, so that the leap day is the last of its year: 306 days earlier.
unfoldable date_of_day : ℕ → Date
date_of_day n =
    let z = n + 306 in
    let era = z / 146097 in
    let doe = z % 146097 in
    let yoe = (doe - doe / 1460 + doe / 36524 - doe / 146096) / 365 in
    let doy = doe - (365 * yoe + yoe / 4 - yoe / 100) in
    let mp = (5 * doy + 2) / 153 in
    let month = if ltb mp 10 then mp + 3 else mp - 9 in
    record {
      year = yoe + era * 400 + (if leb month 2 then 1 else 0);
      month = month;
      day_of_month = doy - (153 * mp + 2) / 5 + 1;
    }

-- A number in at least two digits, and in at least four.
two_digits : ℕ → String
two_digits n = if ltb n 10 then "0" ^^ itoa n else itoa n

four_digits : ℕ → String
unfolding two_digits
four_digits n =
    if ltb n 100 then "00" ^^ two_digits n else if ltb n 1000 then "0" ^^ itoa n else itoa n

unfoldable pub day_bucket : Time → String
unfolding date_of_day four_digits
day_bucket t =
    let d = date_of_day (t / day) in
    four_digits d.year ^^ "-" ^^ two_digits d.month ^^ "-" ^^ two_digits d.day_of_month

unfoldable pub hour_bucket : Time → String
unfolding day_bucket two_digits
hour_bucket t = day_bucket t ^^ "T" ^^ two_digits (t / hour % 24)

pub day_bucket-ne-empty : (t : Time) → day_bucket t ≢ ""
unfolding day_bucket
day_bucket-ne-empty t =
    append-ne-empty _ _
      (append-ne-empty _ _ (append-ne-empty _ _ (append-ne-empty_right _ "-" (λ p. cc (p)))))

pub hour_bucket-ne-empty : (t : Time) → hour_bucket t ≢ ""
unfolding hour_bucket
hour_bucket-ne-empty t =
    append-ne-empty _ _ (append-ne-empty_right (day_bucket t) "T" (λ p. cc (p)))

-- t.Truncate(time.Hour)
unfoldable pub truncate_hour : Time → Time
truncate_hour t = t - t % hour

-- 2026-09-20T13:05:00 is 739878 days, 13 hours and 5 minutes after the zero time.
hour_bucket_test : hour_bucket (739878 * day + 13 * hour + 300_000_000_000) ≡ "2026-09-20T13"
unfolding hour_bucket itoa
hour_bucket_test = refl
