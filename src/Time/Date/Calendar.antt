-- ===== src/Time/Date/Calendar.antt =====
-- The conversions against the calendar itself, one day after the other.
use idos_nx.Base.{
  ℕ, zero, suc, ◌+◌, ◌-◌, ◌*◌, ◌/◌, ◌%◌, ◌≤◌, ◌<◌, ◌≡◌, refl, ◌∙◌, ap, Bool, true, ◌&&◌, arith, ltb,
  ◌==◌, if◌then◌else◌, get_or, List, [], ◌∷◌, word_count,
}
use idos_nx.Base.Bits.{holds_under, holds_under-at}
use idos_nx.Time.Date.{
  Date, Time, seconds_in_day, is_leap_year, unix_date, unix_time, from_unix_epoch, timestamp_date,
  timestamp_time, from_timestamp,
}

abbrev pub month_lengths : List ℕ
month_lengths = 31 ∷ 28 ∷ 31 ∷ 30 ∷ 31 ∷ 30 ∷ 31 ∷ 31 ∷ 30 ∷ 31 ∷ 30 ∷ 31 ∷ []

unfoldable pub days_in_month : ℕ → ℕ → ℕ
unfolding is_leap_year
days_in_month month year =
    if month == 2 && is_leap_year year then 29 else get_or month_lengths (month - 1) 0

-- The day after.
unfoldable pub next_day : Date → Date
unfolding days_in_month
next_day d =
    if ltb d.day (days_in_month d.month d.year)
    then record d { day = d.day + 1 }
    else if ltb d.month 12
    then record d { day = 1; month = d.month + 1 }
    else record { day = 1; month = 1; year = d.year + 1 }

-- The date so many days after one.
unfoldable pub days_after : ℕ → Date → Date
unfolding next_day
days_after zero d = d
days_after (suc n) d = next_day (days_after n d)

same_date : Date → Date → Bool
same_date a b = a.day == b.day && (a.month == b.month && a.year == b.year)

same_date→eq : (a b : Date) → same_date a b ≡ true → a ≡ b
unfolding same_date
same_date→eq a b h = ground arith

unix_step : ℕ → Bool
unix_step d = same_date (unix_date (suc d)) (next_day (unix_date d))

unix_table : holds_under unix_step 49710 ≡ true
unfolding holds_under unix_step same_date unix_date next_day
unix_table = refl

abbrev pub first_day : Date
first_day = record { day = 1; month = 1; year = 1970 }

unix_date-zero : unix_date 0 ≡ first_day
unfolding unix_date
unix_date-zero = refl

unix_date-suc : (d : ℕ) → d < 49710 → unix_date (suc d) ≡ next_day (unix_date d)
unfolding unix_step
unix_date-suc d h = same_date→eq _ _ (holds_under-at unix_step 49710 d unix_table h)

unix_date-eq-days_after : (d : ℕ) → d ≤ 49710 → unix_date d ≡ days_after d first_day
unfolding days_after
unix_date-eq-days_after zero h = unix_date-zero
unix_date-eq-days_after (suc d) h =
    unix_date-suc d (omega arith) ∙ ap next_day (unix_date-eq-days_after d (omega arith))

-- The time of day that is so many seconds after midnight.
pub IsClock : Time → ℕ → Type 0
IsClock t seconds =
    (t.hours < 24)
    × (t.minutes < 60)
    × (t.seconds < 60)
    × (t.hours * 3600 + t.minutes * 60 + t.seconds ≡ seconds)

unix_time-IsClock : (s : ℕ) → s < word_count → IsClock (unix_time s) (s % seconds_in_day)
unfolding IsClock unix_time
unix_time-IsClock s h = (omega arith, omega arith, omega arith, omega arith)

-- For every 32-bit number of seconds, `from_unix_epoch` gives the date that is as many days after
-- 1 January 1970, counted one by one with the Gregorian leap years, and the clock time of the
-- seconds that are left.
pub from_unix_epoch_lem :
    (s : ℕ)
    → s < word_count
    → ((from_unix_epoch s).date ≡ days_after (s / seconds_in_day) first_day)
      × IsClock (from_unix_epoch s).time (s % seconds_in_day)
unfolding from_unix_epoch
from_unix_epoch_lem s h =
    (unix_date-eq-days_after (s / seconds_in_day) (omega arith), unix_time-IsClock s h)

-- The first day of the system's own timestamps.
abbrev pub first_system_day : Date
first_system_day = record { day = 1; month = 1; year = 1980 }

system_step : ℕ → Bool
system_step d = same_date (timestamp_date (suc d)) (next_day (timestamp_date d))

system_table : holds_under system_step 43888 ≡ true
unfolding holds_under system_step same_date timestamp_date next_day
system_table = refl

timestamp_date-zero : timestamp_date 0 ≡ first_system_day
unfolding timestamp_date
timestamp_date-zero = refl

timestamp_date-suc : (d : ℕ) → d < 43888 → timestamp_date (suc d) ≡ next_day (timestamp_date d)
unfolding system_step
timestamp_date-suc d h = same_date→eq _ _ (holds_under-at system_step 43888 d system_table h)

timestamp_date-eq-days_after :
    (d : ℕ) → d ≤ 43888 → timestamp_date d ≡ days_after d first_system_day
unfolding days_after
timestamp_date-eq-days_after zero h = timestamp_date-zero
timestamp_date-eq-days_after (suc d) h =
    timestamp_date-suc d (omega arith) ∙ ap next_day (timestamp_date-eq-days_after d (omega arith))

timestamp_time-IsClock : (s : ℕ) → s < seconds_in_day → IsClock (timestamp_time s) s
unfolding IsClock timestamp_time
timestamp_time-IsClock s h = (omega arith, omega arith, omega arith, omega arith)

-- For timestamps up to 28 February 2100 (day 43888), `from_timestamp` gives the date that is as many
-- days after 1 January 1980, counted one by one with the Gregorian leap years, and the clock time of
-- the seconds that are left.
pub from_timestamp_lem :
    (ts : ℕ)
    → ts / seconds_in_day ≤ 43888
    → ((from_timestamp ts).date ≡ days_after (ts / seconds_in_day) first_system_day)
      × IsClock (from_timestamp ts).time (ts % seconds_in_day)
unfolding from_timestamp
from_timestamp_lem ts h = (
  timestamp_date-eq-days_after (ts / seconds_in_day) h,
  timestamp_time-IsClock (ts % seconds_in_day) (omega arith),
)
