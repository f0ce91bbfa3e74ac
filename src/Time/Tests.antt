-- ===== src/Time/Tests.antt =====
-- The unit tests of kernel/src/time/date.rs, and the theorems at concrete times.
use idos_nx.Base.{◌-◌, ◌/◌, ◌%◌, ◌≡◌, refl, if◌then◌else◌, arith, [], ◌∷◌}
use idos_nx.Time.Date.{
  seconds_in_day, year_offset_from_days, unix_date, unix_time, timestamp_date, timestamp_time,
  from_unix_epoch, from_timestamp, to_timestamp,
}
use idos_nx.Time.Date.Calendar.{
  IsClock, days_after, first_day, first_system_day, from_unix_epoch_lem, from_timestamp_lem,
}
use idos_nx.Time.Date.RoundTrip.{in_late_2100, to_timestamp-from_timestamp}

year_offset :
    year_offset_from_days 1
      ∷ year_offset_from_days 365
      ∷ year_offset_from_days 366
      ∷ year_offset_from_days 1461
      ∷ year_offset_from_days 1826
      ∷ year_offset_from_days 1827
      ∷ []
    ≡ 0 ∷ 0 ∷ 1 ∷ 4 ∷ 4 ∷ 5 ∷ []
unfolding year_offset_from_days
year_offset = refl

from_unix : from_unix_epoch 1635291103 ≡ record {
  date = record { day = 26; month = 10; year = 2021 };
  time = record { seconds = 43; minutes = 31; hours = 23 };
}
unfolding from_unix_epoch unix_date unix_time
from_unix = refl

extract_date : (from_timestamp 131328000).date ≡ record { day = 29; month = 2; year = 1984 }
unfolding from_timestamp timestamp_date timestamp_time
extract_date = refl

extract_time : (from_timestamp 93595).time ≡ record { seconds = 55; minutes = 59; hours = 1 }
unfolding from_timestamp timestamp_date timestamp_time
extract_time = refl

from_unix_epoch_lem_example :
    ((from_unix_epoch 951868800).date ≡ days_after (951868800 / seconds_in_day) first_day)
    × IsClock (from_unix_epoch 951868800).time (951868800 % seconds_in_day)
from_unix_epoch_lem_example = from_unix_epoch_lem 951868800 (omega arith)

from_timestamp_lem_example :
    ((from_timestamp 1278713001).date ≡ days_after (1278713001 / seconds_in_day) first_system_day)
    × IsClock (from_timestamp 1278713001).time (1278713001 % seconds_in_day)
from_timestamp_lem_example = from_timestamp_lem 1278713001 (omega arith)

-- 1 March 2100
to_timestamp-from_timestamp_example : to_timestamp (from_timestamp 3792096000) ≡ (
    if in_late_2100 (3792096000 / seconds_in_day) then 3792096000 - seconds_in_day else 3792096000)
to_timestamp-from_timestamp_example = to_timestamp-from_timestamp 3792096000 (omega arith)
