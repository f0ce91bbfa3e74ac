-- ===== src/Time/Date.antt =====
-- kernel/src/time/date.rs: calendar dates from Unix time and from the system's own timestamps, which
-- count seconds from the start of 1980.
pub mod Calendar
pub mod RoundTrip
use idos_nx.Base.{
  ℕ, zero, suc, ◌+◌, ◌-◌, ◌*◌, ◌/◌, ◌%◌, ◌^◌, Bool, true, false, not, ◌&&◌, ◌||◌, List, [], ◌∷◌,
  ltb, leb, ◌==◌, if◌then◌else◌, get_or, sub32, wrap32,
}

pub record Date : Type 0 where
  pub day : ℕ
  pub month : ℕ
  pub year : ℕ

pub record Time : Type 0 where
  pub seconds : ℕ
  pub minutes : ℕ
  pub hours : ℕ

pub record DateTime : Type 0 where
  pub date : Date
  pub time : Time

abbrev pub seconds_in_day : ℕ
seconds_in_day = 86400

abbrev pub month_start_offset : List ℕ
month_start_offset = 0 ∷ 31 ∷ 59 ∷ 90 ∷ 120 ∷ 151 ∷ 181 ∷ 212 ∷ 243 ∷ 273 ∷ 304 ∷ 334 ∷ []

unfoldable pub is_leap_year : ℕ → Bool
is_leap_year y = y % 4 == 0 && (not (y % 100 == 0) || y % 400 == 0)

unfoldable pub year_offset_from_days : ℕ → ℕ
year_offset_from_days days = days * 100 / 36525

-- The date of `from_unix_epoch`, for a number of whole days. The casts to `u8` and `u16` at the end
-- are the remainders.
unfoldable pub unix_date : ℕ → Date
unix_date unix_days =
    let days = unix_days + 719468 in
    let era = days / 146097 in
    let day_of_era = days % 146097 in
    let year_of_era =
      sub32 (sub32 day_of_era (day_of_era / 1460) + day_of_era / 36524) (day_of_era / 146096)
      / 365 in
    let year = year_of_era + era * 400 in
    let day_of_year =
      sub32 day_of_era (sub32 (year_of_era * 365 + year_of_era / 4) (year_of_era / 100)) in
    let month_partial = (day_of_year * 5 + 2) / 153 in
    let day_of_month = sub32 day_of_year ((153 * month_partial + 2) / 5) + 1 in
    let month = if ltb month_partial 10 then month_partial + 3 else sub32 month_partial 9 in
    record {
      day = day_of_month % 2 ^ 8;
      month = month % 2 ^ 8;
      year = (if leb month 2 then year + 1 else year) % 2 ^ 16;
    }

-- The time of day, which the two conversions compute each in its own way.
unfoldable pub unix_time : ℕ → Time
unix_time seconds =
    let seconds_of_day = sub32 seconds (seconds / seconds_in_day * seconds_in_day) in
    let hours = seconds_of_day / 60 / 60 in
    let minutes = sub32 (seconds_of_day / 60) (hours * 60) in
    let sec = sub32 (sub32 seconds_of_day (hours * 60 * 60)) (minutes * 60) in
    record { seconds = sec % 2 ^ 8; minutes = minutes % 2 ^ 8; hours = hours % 2 ^ 8 }

unfoldable pub from_unix_epoch : ℕ → DateTime
unfolding unix_date unix_time
from_unix_epoch seconds = record {
  date = unix_date (seconds / seconds_in_day);
  time = unix_time seconds;
}

-- The `while` of `from_timestamp`, with the months that are left: the month and the leap day.
unfoldable pub find_month : ℕ → ℕ → ℕ → ℕ → ℕ → ℕ × ℕ
find_month zero year_offset year_days month leap = (month, leap)
find_month (suc left) year_offset year_days month leap =
    let next =
      find_month left year_offset year_days (month + 1)
        (if month + 1 == 2 && year_offset % 4 == 0 then 1 else leap) in
    if leb (get_or month_start_offset month 0 + leap) year_days then next else (month, leap)

unfoldable pub timestamp_date : ℕ → Date
unfolding find_month year_offset_from_days
timestamp_date days =
    let year_offset = year_offset_from_days days in
    let quadrennial_days = days % 1461 in
    let year_days =
      if ltb 365 quadrennial_days then (quadrennial_days - 366) % 365 else quadrennial_days in
    let (month, leap) = find_month 12 year_offset year_days 0 0 in
    let day = sub32 (year_days + 1) (get_or month_start_offset (month - 1) 0) in
    record {
      day = (if ltb 2 month then sub32 day leap else day) % 2 ^ 8;
      month = month % 2 ^ 8;
      year = (year_offset % 2 ^ 16 + 1980) % 2 ^ 16;
    }

unfoldable pub timestamp_time : ℕ → Time
timestamp_time raw_time =
    let total_minutes = raw_time / 60 in
    record {
      seconds = raw_time % 60;
      minutes = total_minutes % 60;
      hours = total_minutes / 60 % 2 ^ 8;
    }

unfoldable pub from_timestamp : ℕ → DateTime
unfolding timestamp_date timestamp_time
from_timestamp ts = record {
  date = timestamp_date (ts / seconds_in_day);
  time = timestamp_time (ts % seconds_in_day);
}

-- The days of `to_timestamp`, for a date from 1980 on in a month from 1 to 12.
unfoldable pub date_days : Date → ℕ
unfolding is_leap_year
date_days d =
    let year = d.year - 1980 in
    let remainder = year % 4 in
    year / 4 * 1461
    + remainder * 365
    + (if ltb 0 remainder then 1 else 0)
    + get_or month_start_offset (d.month - 1) 0
    + (if ltb 2 d.month && is_leap_year d.year then 1 else 0)
    + sub32 d.day 1

pub to_timestamp : DateTime → ℕ
unfolding date_days
to_timestamp dt =
    let d = dt.date in
    let t = dt.time in
    if ltb d.year 1980 || d.month == 0 || ltb 12 d.month
    then 0
    else wrap32 (date_days d * seconds_in_day + t.hours * 60 * 60 + t.minutes * 60 + t.seconds)
