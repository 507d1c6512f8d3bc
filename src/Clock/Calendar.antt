-- ===== src/Clock/Calendar.antt =====
-- The seconds that src/syskrnl/clock.rs counts, against the calendar.
use tju_cinea_os.Prelude.{
  ℕ, zero, suc, ◌+◌, ◌-◌, ◌*◌, ◌%◌, ◌≤◌, ◌≡◌, refl, ap, ◌∙◌, true, false, arith, ok, ◌==◌, ==_iff,
  ltb, if◌then◌else◌, ◌↔◌, ◌≢◌, ◌⊎◌, inl, inr, Bool-cases,
}
use tju_cinea_os.Clock.{
  RawTime, timestamp, is_leap_year, days_of_years, days_before_year, days_before_month,
}

-- The Gregorian rule.
pub is_leap_year_iff :
    (year : ℕ)
    → (is_leap_year year ≡ true) ↔ ((year % 4 ≡ 0) × ((year % 100 ≢ 0) ⊎ (year % 400 ≡ 0)))
unfolding is_leap_year
is_leap_year_iff year = ground arith

-- The number of days of a month, counted from 1.
unfoldable pub month_days : ℕ → ℕ → ℕ
month_days year month =
    if month == 2
    then (if is_leap_year year then 29 else 28)
    else if month == 4
    then 30
    else if month == 6
    then 30
    else if month == 9
    then 30
    else if month == 11
    then 30
    else 31

pub record Date : Type 0 where
  pub year : ℕ
  pub month : ℕ
  pub day : ℕ

unfoldable pub next_day : Date → Date
next_day d =
    if ltb d.day (month_days d.year d.month)
    then record d { day = d.day + 1 }
    else if d.month == 12
    then record { year = d.year + 1; month = 1; day = 1 }
    else record d { month = d.month + 1; day = 1 }

-- The days of the first months of a year.
unfoldable pub months_days : ℕ → ℕ → ℕ
months_days year zero = 0
months_days year (suc n) = months_days year n + month_days year (suc n)

-- The table of the months agrees with the lengths of the months.
days_before_month-months_days :
    (year month : ℕ)
    → 1 ≤ month
    → month ≤ 12
    → days_before_month year month ≡ ok (months_days year (month - 1))
unfolding days_before_month month_days months_days
days_before_month-months_days year zero h l = ground arith
days_before_month-months_days year (suc zero) h l = ground (arith, Bool-cases (is_leap_year year))
days_before_month-months_days year (suc (suc zero)) h l =
    ground (arith, Bool-cases (is_leap_year year))
days_before_month-months_days year (suc (suc (suc zero))) h l =
    ground (arith, Bool-cases (is_leap_year year))
days_before_month-months_days year (suc (suc (suc (suc zero)))) h l =
    ground (arith, Bool-cases (is_leap_year year))
days_before_month-months_days year (suc (suc (suc (suc (suc zero))))) h l =
    ground (arith, Bool-cases (is_leap_year year))
days_before_month-months_days year (suc (suc (suc (suc (suc (suc zero)))))) h l =
    ground (arith, Bool-cases (is_leap_year year))
days_before_month-months_days year (suc (suc (suc (suc (suc (suc (suc zero))))))) h l =
    ground (arith, Bool-cases (is_leap_year year))
days_before_month-months_days year (suc (suc (suc (suc (suc (suc (suc (suc zero)))))))) h l =
    ground (arith, Bool-cases (is_leap_year year))
days_before_month-months_days year (suc (suc (suc (suc (suc (suc (suc (suc (suc zero))))))))) h l =
    ground (arith, Bool-cases (is_leap_year year))
days_before_month-months_days year (suc (suc (suc (suc (suc (suc (suc (suc (suc (suc zero))))))))))
      h l =
    ground (arith, Bool-cases (is_leap_year year))
days_before_month-months_days year
      (suc (suc (suc (suc (suc (suc (suc (suc (suc (suc (suc zero))))))))))) h l =
    ground (arith, Bool-cases (is_leap_year year))
days_before_month-months_days year
      (suc (suc (suc (suc (suc (suc (suc (suc (suc (suc (suc (suc zero)))))))))))) h l =
    ground (arith, Bool-cases (is_leap_year year))
days_before_month-months_days year
      (suc (suc (suc (suc (suc (suc (suc (suc (suc (suc (suc (suc (suc n))))))))))))) h l =
    ground arith

-- The days a year adds.
days_before_year-suc :
    (year : ℕ)
    → 2003 ≤ year
    → days_before_year (year + 1) ≡ days_before_year year + months_days year 12
unfolding days_before_year days_of_years month_days months_days
days_before_year-suc year h =
    let e : year + 1 - 2003 ≡ suc (year - 2003) = omega arith in
    let y : 2003 + (year - 2003) ≡ year = omega arith in
    rw (e, y) (ground (arith, Bool-cases (is_leap_year year)))

-- A date of the calendar, from the year 2003 on.
pub record IsDate (d : Date) : Type 0 where
  pub from_2003 : 2003 ≤ d.year
  pub month_pos : 1 ≤ d.month
  pub month_le : d.month ≤ 12
  pub day_pos : 1 ≤ d.day
  pub day_le : d.day ≤ month_days d.year d.month

abbrev pub date : RawTime → Date
date t = record { year = t.year; month = t.month; day = t.day }

-- The same time of the day on another date.
abbrev pub on_date : RawTime → Date → RawTime
on_date t d = record t { year = d.year; month = d.month; day = d.day }

-- The seconds before a date, as the code counts them.
seconds : Date → ℕ
seconds d =
    86400 * days_before_year d.year + 86400 * months_days d.year (d.month - 1) + 84600 * (d.day - 1)

timestamp-seconds :
    (t : RawTime) (d : Date)
    → 1 ≤ d.month
    → d.month ≤ 12
    → 1 ≤ d.day
    → timestamp (on_date t d)
      ≡ ok (seconds d + 3600 * t.hour + 60 * t.minute + t.second + 10540800 + 68400)
unfolding timestamp seconds
timestamp-seconds t d p l q =
    let some_day : (d.day == 0) ≡ false = ground arith in
    rw (days_before_month-months_days d.year d.month p l, some_day) refl

months_days_zero : (year : ℕ) → months_days year (1 - 1) ≡ 0
unfolding months_days
months_days_zero year = refl

months_days_pred :
    (year month : ℕ)
    → 1 ≤ month
    → months_days year month ≡ months_days year (month - 1) + month_days year month
unfolding months_days
months_days_pred year zero h = ground arith
months_days_pred year (suc n) h = let e : suc n - 1 ≡ n = omega arith in rw e refl

back : (n : ℕ) → n + 1 - 1 ≡ n
back n = omega arith

-- What the code adds for the next day: at the end of a month it makes up for the short days.
abbrev pub day_step : Date → ℕ
day_step d =
    if ltb d.day (month_days d.year d.month)
    then 84600
    else 84600 + 1800 * month_days d.year d.month

seconds-next_day : (d : Date) → IsDate d → seconds (next_day d) ≡ seconds d + day_step d
unfolding seconds next_day
seconds-next_day d v = elim (Bool-cases (ltb d.day (month_days d.year d.month))) [
  | inl l ↦ rw l (omega (arith, v.day_pos))
  | inr l ↦
      let full : d.day ≡ month_days d.year d.month = ground (arith, v.day_le) in
      let pos : 1 ≤ d.day = v.day_pos in
      let last = months_days_pred d.year d.month v.month_pos in
      elim (Bool-cases (d.month == 12)) [
        | inl m ↦
            let y = days_before_year-suc d.year v.from_2003 in
            let e = ap (months_days d.year) ((==_iff d.month 12).0 m) in
            rw (l, m) (omega (arith, y, full, pos, e, months_days_zero (d.year + 1), last))
        | inr m ↦ rw (l, m) (omega (arith, full, pos, last, ap (months_days d.year) (back d.month)))
      ]
]

next_day-month :
    (d : Date)
    → IsDate d
    → (1 ≤ (next_day d).month) × ((next_day d).month ≤ 12) × (1 ≤ (next_day d).day)
unfolding next_day
next_day-month d v =
    (ground (arith, v.month_pos), ground (arith, v.month_le), ground (arith, v.day_pos))

-- For every date of the calendar from the year 2003 on, the timestamp exists. The same time of the
-- next day has a timestamp that is larger by 84600, half an hour less than a day; but from the last
-- day of a month to the first of the next one it is larger by 1800 more for each day of the month, so
-- that from the first of a month to the first of the next one whole days are counted.
pub timestamp-next_day :
    (t : RawTime)
    → IsDate (date t)
    → (n : ℕ) × (timestamp t ≡ ok n)
      × (timestamp (on_date t (next_day (date t))) ≡ ok (n + day_step (date t)))
timestamp-next_day t v =
    let (p, l, q) = next_day-month (date t) v in
    let next = next_day (date t) in
    (
      seconds (date t) + 3600 * t.hour + 60 * t.minute + t.second + 10540800 + 68400,
      timestamp-seconds t (date t) v.month_pos v.month_le v.day_pos,
      timestamp-seconds t next p l q ∙ ap ok (omega (arith, seconds-next_day (date t) v)),
    )
