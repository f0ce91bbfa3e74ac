-- ===== src/Time/Date/RoundTrip.antt =====
-- A timestamp taken apart and put together again.
use idos_nx.Base.{
  ℕ, ◌+◌, ◌-◌, ◌*◌, ◌/◌, ◌%◌, ◌<◌, ◌≡◌, refl, ◌∙◌, ap, Bool, true, not, ◌&&◌, ◌||◌, arith, ltb, leb,
  ◌==◌, ==_iff, if◌then◌else◌, word_count, wrap32,
}
use idos_nx.Base.Bits.{holds_under, holds_under-at, and_left, and_right}
use idos_nx.Time.Date.{
  Date, seconds_in_day, timestamp_date, timestamp_time, date_days, from_timestamp, to_timestamp,
}

-- The days from 1 March to 31 December 2100, a year that `from_timestamp` takes for a leap year.
pub in_late_2100 : ℕ → Bool
in_late_2100 d = leb 43890 d && ltb d 44196

day_trip : ℕ → Bool
unfolding in_late_2100
day_trip d =
    let date = timestamp_date d in
    (date_days date == (if in_late_2100 d then d - 1 else d))
    && not (ltb date.year 1980 || date.month == 0 || ltb 12 date.month)

day_table : holds_under day_trip 49711 ≡ true
unfolding holds_under day_trip date_days timestamp_date in_late_2100
day_table = refl

day_trip-true : (d : ℕ) → d < 49711 → day_trip d ≡ true
day_trip-true d h = holds_under-at day_trip 49711 d day_table h

in_range : Date → Bool
in_range d = not (ltb d.year 1980 || d.month == 0 || ltb 12 d.month)

-- The date and the clock time add up.
to_timestamp-parts :
    (d : Date) (seconds : ℕ)
    → in_range d ≡ true
    → seconds < seconds_in_day
    → to_timestamp (record { date = d; time = timestamp_time seconds })
      ≡ wrap32 (date_days d * seconds_in_day + seconds)
unfolding to_timestamp timestamp_time in_range
to_timestamp-parts d seconds range small = ground arith

days_back :
    (n : ℕ) → n < 49711 → date_days (timestamp_date n) ≡ (if in_late_2100 n then n - 1 else n)
unfolding day_trip
days_back n h = (==_iff _ _).0 (and_left _ _ (day_trip-true n h))

days_in_range : (n : ℕ) → n < 49711 → in_range (timestamp_date n) ≡ true
unfolding day_trip in_range
days_in_range n h = and_right _ _ (day_trip-true n h)

-- The arithmetic of the two cases.
trip_seconds :
    (ts : ℕ)
    → ts < word_count
    → wrap32 (
        (if in_late_2100 (ts / seconds_in_day)
            then ts / seconds_in_day - 1
            else ts / seconds_in_day)
          * seconds_in_day
        + ts % seconds_in_day)
      ≡ (if in_late_2100 (ts / seconds_in_day) then ts - seconds_in_day else ts)
unfolding in_late_2100
trip_seconds ts h = ground arith

-- A timestamp that `from_timestamp` takes apart comes back unchanged from `to_timestamp`, for every
-- 32-bit timestamp outside 1 March to 31 December 2100 (days 43890 to 44195); there it comes back
-- one day too early.
pub to_timestamp-from_timestamp :
    (ts : ℕ)
    → ts < word_count
    → to_timestamp (from_timestamp ts)
      ≡ (if in_late_2100 (ts / seconds_in_day) then ts - seconds_in_day else ts)
unfolding from_timestamp
to_timestamp-from_timestamp ts h =
    to_timestamp-parts (timestamp_date (ts / seconds_in_day)) (ts % seconds_in_day)
      (days_in_range (ts / seconds_in_day) (omega arith)) (omega arith)
    ∙ ap (λ n. wrap32 (n * seconds_in_day + ts % seconds_in_day))
        (days_back (ts / seconds_in_day) (omega arith))
    ∙ trip_seconds ts h
