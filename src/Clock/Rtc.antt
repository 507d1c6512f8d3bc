-- ===== src/Clock/Rtc.antt =====
-- What `read_rtc` (src/syskrnl/time/cmos.rs) makes of the registers it read, and `raw_time`
-- (src/syskrnl/time/mod.rs).
use tju_cinea_os.Prelude.{
  ℕ, ◌+◌, ◌-◌, ◌*◌, ◌/◌, ◌%◌, ◌≤◌, ◌<◌, ◌≡◌, refl, ◌&&◌, arith, Bool-cases, inl, inr, ok, ◌==◌, leb,
  if◌then◌else◌,
}
use tju_cinea_os.Clock.{RawTime, raw_time}

-- `x & 0x0F` and `x / 16` of a byte in binary-coded decimals.
unfoldable pub bcd : ℕ → ℕ
bcd x = x % 16 + x / 16 * 10

-- The hour keeps its highest bit, `hour & 0x80`, which no sum of the other two terms reaches.
unfoldable pub bcd_hour : ℕ → ℕ
bcd_hour x = x % 16 + x / 16 % 8 * 10 + x / 128 * 128

unfoldable pub from_bcd : RawTime → RawTime
from_bcd t = record {
  second = bcd t.second;
  minute = bcd t.minute;
  hour = bcd_hour t.hour;
  day = bcd t.day;
  month = bcd t.month;
  year = bcd t.year;
}

-- `register_b & 0x04` says binary, `register_b & 0x02` says 24 hours.
unfoldable pub decode : ℕ → RawTime → RawTime
decode register_b t =
    let t = if register_b / 4 % 2 == 0 then from_bcd t else t in
    let hour =
      if (register_b / 2 % 2 == 0) && leb 128 t.hour then (t.hour % 128 + 12) % 24 else t.hour in
    record t { hour = hour; year = t.year + 2000 }

-- A byte in binary-coded decimals.
unfoldable pub to_bcd : ℕ → ℕ
to_bcd x = x / 10 * 16 + x % 10

pub bcd-to_bcd : (x : ℕ) → x < 100 → bcd (to_bcd x) ≡ x
unfolding bcd to_bcd
bcd-to_bcd x h = omega arith

bcd_hour-to_bcd : (x : ℕ) → x < 80 → bcd_hour (to_bcd x) ≡ x
unfolding bcd_hour to_bcd
bcd_hour-to_bcd x h = omega arith

bcd_hour-pm : (x : ℕ) → x < 80 → bcd_hour (128 + to_bcd x) ≡ 128 + x
unfolding bcd_hour to_bcd
bcd_hour-pm x h = omega arith

-- The fields as the registers hold them, in binary-coded decimals.
unfoldable pub registers : RawTime → RawTime
registers t = record {
  second = to_bcd t.second;
  minute = to_bcd t.minute;
  hour = to_bcd t.hour;
  day = to_bcd t.day;
  month = to_bcd t.month;
  year = to_bcd t.year;
}

-- Two digits for each field of a 24-hour time.
pub record IsTime (t : RawTime) : Type 0 where
  pub second : t.second < 60
  pub minute : t.minute < 60
  pub hour : t.hour < 24
  pub day : t.day ≤ 31
  pub month : t.month ≤ 12
  pub year : t.year < 100

-- Whatever the other bits of register B are, such as those that turn interrupts on: when it says
-- binary-coded decimals (bit 2 clear) and 24 hours (bit 1 set), registers that hold a time in that
-- form are read as that time, in the century of 2000.
pub decode-registers :
    (register_b : ℕ) (t : RawTime)
    → register_b / 4 % 2 ≡ 0
    → register_b / 2 % 2 ≡ 1
    → IsTime t
    → decode register_b (registers t) ≡ record t { year = t.year + 2000 }
unfolding decode registers from_bcd
decode-registers register_b t decimal hours v =
    let h = bcd_hour-to_bcd t.hour (omega (arith, v.hour)) in
    rw
      (
        decimal,
        hours,
        bcd-to_bcd t.second (omega (arith, v.second)),
        bcd-to_bcd t.minute (omega (arith, v.minute)),
        bcd-to_bcd t.day (omega (arith, v.day)),
        bcd-to_bcd t.month (omega (arith, v.month)),
        bcd-to_bcd t.year v.year,
        h,
      )
      refl

-- With 12-hour registers, the hours from 1 to 11 in the afternoon are read as the hours from 13 to
-- 23, the hours of the morning as themselves; but 12 in the afternoon is read as 0, and 12 in the
-- morning as 12.
pub decode-twelve_hour :
    (t : RawTime) (h : ℕ)
    → 1 ≤ h
    → h ≤ 12
    → ((decode 0 (record t { hour = 128 + to_bcd h })).hour ≡ (if h == 12 then 0 else h + 12))
      × ((decode 0 (record t { hour = to_bcd h })).hour ≡ h)
unfolding decode from_bcd
decode-twelve_hour t h p q =
    (ground (arith, bcd_hour-pm h (omega arith)), ground (arith, bcd_hour-to_bcd h (omega arith)))

-- Moving a time of the day to the time zone keeps the hour below 24, and the hours of day and hour
-- together grow by 8; the day is not kept within its month.
pub raw_time-hours :
    (t : RawTime)
    → t.hour < 24
    → t.day ≤ 31
    → (t' : RawTime) × (raw_time t ≡ ok t')
      × (t'.hour < 24)
      × (24 * t'.day + t'.hour ≡ 24 * t.day + t.hour + 8)
      × (t'.month ≡ t.month)
      × (t'.year ≡ t.year)
unfolding raw_time
raw_time-hours t h d = elim (Bool-cases (leb 24 (t.hour + 8))) [
  | inl e ↦ (
    record t { hour = t.hour + 8 - 24; day = t.day + 1 },
    ground arith,
    ground arith,
    ground arith,
    refl,
    refl,
  )
  | inr e ↦ (record t { hour = t.hour + 8 }, ground arith, ground arith, ground arith, refl, refl)
]
