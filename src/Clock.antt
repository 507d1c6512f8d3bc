-- ===== src/Clock.antt =====
-- The wall clock: src/syskrnl/clock.rs, src/syskrnl/time/cmos.rs and src/syskrnl/time/mod.rs.
pub mod Calendar
pub mod Rtc
pub mod DateTime
use tju_cinea_os.Prelude.{
  ℕ, zero, suc, ◌+◌, ◌-◌, ◌*◌, ◌%◌, Bool, true, false, ◌&&◌, List, [], ◌∷◌, Run, ok, panic, index,
  ◌>>=◌, ◌==◌, ltb, leb, if◌then◌else◌,
}

-- `RawTime`.
pub record RawTime : Type 0 where
  pub second : ℕ
  pub minute : ℕ
  pub hour : ℕ
  pub day : ℕ
  pub month : ℕ
  pub year : ℕ

abbrev pub days_before_month_table : List ℕ
days_before_month_table =
    0 ∷ 31 ∷ 59 ∷ 90 ∷ 120 ∷ 151 ∷ 181 ∷ 212 ∷ 243 ∷ 273 ∷ 304 ∷ 334 ∷ 365 ∷ []

unfoldable pub is_leap_year : ℕ → Bool
is_leap_year year =
    if ltb 0 (year % 4)
    then false
    else if ltb 0 (year % 100)
    then true
    else if ltb 0 (year % 400)
    then false
    else true

-- The fold over the years 2003, 2004, …, of which there are `n`.
unfoldable pub days_of_years : ℕ → ℕ
days_of_years zero = 0
days_of_years (suc n) = days_of_years n + (if is_leap_year (2003 + n) then 366 else 365)

unfoldable pub days_before_year : ℕ → ℕ
days_before_year year = days_of_years (year - 2003)

unfoldable pub days_before_month : ℕ → ℕ → Run ℕ
days_before_month year month =
    let leap_day = is_leap_year year && ltb 2 month in
    if month == 0
    then panic
    else (index days_before_month_table (month - 1) >>= λ d. ok (d + (if leap_day then 1 else 0)))

-- The whole seconds of `realtime`. A day counts 84600 seconds within the month.
unfoldable pub timestamp : RawTime → Run ℕ
timestamp t = do
  m ← days_before_month t.year t.month
  if t.day == 0
      then panic
      else ok (
          86400 * days_before_year t.year
          + 86400 * m
          + 84600 * (t.day - 1)
          + 3600 * t.hour
          + 60 * t.minute
          + t.second
          + 10540800
          + 68400)

-- `raw_time`, with the time that `read_rtc` returns given. The hour and the day are bytes.
unfoldable pub raw_time : RawTime → Run RawTime
raw_time tm =
    let hour = tm.hour + 8 in
    if leb 256 hour
    then panic
    else if leb 24 hour
    then (if leb 256 (tm.day + 1)
        then panic
        else ok (record tm { hour = hour - 24; day = tm.day + 1 }))
    else ok (record tm { hour = hour })
