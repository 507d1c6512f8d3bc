-- ===== src/Clock/DateTime.antt =====
-- The times of src/syskrnl/time/datetime.rs, and the two epochs of src/syskrnl/clock.rs. The checks
-- of an overflow are those of a debug build.
use tju_cinea_os.Prelude.{
  ℕ, ◌+◌, ◌-◌, ◌/◌, ◌%◌, ◌≤◌, ◌<◌, ◌≡◌, refl, true, false, Bool-cases, inl, inr, arith, Run, ok,
  panic, ltb, leb, if◌then◌else◌,
}
use tju_cinea_os.Clock.{RawTime}

pub record DateTime : Type 0 where
  pub millisecond : ℕ
  pub time : RawTime

unfoldable pub from_raw_time : RawTime → DateTime
from_raw_time rt = record { millisecond = 0; time = rt }

-- `self.year += years as u32`.
unfoldable pub add_year : ℕ → RawTime → Run RawTime
add_year years t =
    let year = t.year + years % 4294967296 in
    if leb 4294967296 year then panic else ok (record t { year = year })

-- The new month comes from the months added alone.
unfoldable pub add_month : ℕ → RawTime → Run RawTime
add_month months t =
    let month = t.month + months % 256 in
    if leb 256 month
    then panic
    else if ltb 12 month
    then add_year ((months - 1) / 12) (record t { month = (months - 1) % 256 % 12 + 1 })
    else ok (record t { month = month })

abbrev pub unix_epoch_offset : ℕ
unix_epoch_offset = 1030770000

unfoldable pub cinea_epoch_to_unix_epoch : ℕ → ℕ
cinea_epoch_to_unix_epoch cinea_epoch = cinea_epoch + unix_epoch_offset

unfoldable pub unix_epoch_to_cinea_epoch : ℕ → Run ℕ
unix_epoch_to_cinea_epoch unix_epoch =
    if ltb unix_epoch unix_epoch_offset then panic else ok (unix_epoch - unix_epoch_offset)

-- Adding up to twelve months gives the month that many later when it is in the same year. When it
-- is not, the month becomes the number of months added, whatever the month there was, and the year
-- stays.
pub add_month_lem :
    (months : ℕ) (t : RawTime)
    → 1 ≤ months
    → months ≤ 12
    → t.month ≤ 12
    → t.year < 4294967296
    → add_month months t ≡ (
        if leb (t.month + months) 12
        then ok (record t { month = t.month + months })
        else ok (record t { month = months }))
unfolding add_month add_year
add_month_lem months t a b c d =
    let m : months % 256 ≡ months = omega arith in
    let y : t.year + (months - 1) / 12 % 4294967296 ≡ t.year = omega arith in
    let n : (months - 1) % 256 % 12 + 1 ≡ months = omega arith in
    let small : leb 256 (t.month + months) ≡ false = ground arith in
    let fits : leb 4294967296 t.year ≡ false = ground arith in
    elim (Bool-cases (leb (t.month + months) 12)) [
      | inl e ↦
          let f : ltb 12 (t.month + months) ≡ false = ground arith in
          rw (add_month, m, small, f, e) refl
      | inr e ↦
          let f : ltb 12 (t.month + months) ≡ true = ground arith in
          rw (add_month, m, small, f, e, y, fits, n) refl
    ]
