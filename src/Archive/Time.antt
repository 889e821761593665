-- ===== src/Archive/Time.antt =====
-- tsync/zip_utils.go: MS-DOS timestamps.
use t_sync_sdk_go.Base.{ℕ, ◌+◌, ◌-◌, ◌*◌, ◌/◌, ◌%◌, ◌^◌, ◌≡◌, ◌≤◌, ◌<◌, arith}

-- The arguments of `time.Date`.
pub record Moment : Type 0 where
  pub year : ℕ
  pub month : ℕ
  pub day : ℕ
  pub hours : ℕ
  pub minutes : ℕ
  pub seconds : ℕ

-- `MSDosTimeToTime`, of two 16-bit numbers.
unfoldable pub ms_dos_time_to_time : ℕ → ℕ → Moment
ms_dos_time_to_time dos_date dos_time = record {
  year = dos_date / 2 ^ 9 % 2 ^ 7 + 1980;
  month = dos_date / 2 ^ 5 % 2 ^ 4;
  day = dos_date % 2 ^ 5;
  hours = dos_time / 2 ^ 11 % 2 ^ 5;
  minutes = dos_time / 2 ^ 5 % 2 ^ 6;
  seconds = dos_time % 2 ^ 5 * 2;
}

-- A moment that the format can hold: two-second steps, from 1980 on.
pub record IsDosMoment (m : Moment) : Type 0 where
  pub year_low : 1980 ≤ m.year
  pub year_high : m.year < 2108
  pub month_bound : m.month < 16
  pub day_bound : m.day < 32
  pub hours_bound : m.hours < 32
  pub minutes_bound : m.minutes < 64
  pub seconds_bound : m.seconds < 64
  pub even : m.seconds % 2 ≡ 0

-- The fields of the MS-DOS format, as it packs them.
abbrev pub dos_date : Moment → ℕ
dos_date m = (m.year - 1980) * 512 + m.month * 32 + m.day

abbrev pub dos_time : Moment → ℕ
dos_time m = m.hours * 2048 + m.minutes * 32 + m.seconds / 2

-- Every moment that the MS-DOS format can hold is read back from its two packed numbers.
pub ms_dos_time_to_time-unpacks :
    (m : Moment) → IsDosMoment m → ms_dos_time_to_time (dos_date m) (dos_time m) ≡ m
unfolding ms_dos_time_to_time
ms_dos_time_to_time-unpacks m h =
    let d = dos_date m in
    let t = dos_time m in
    let year : d / 2 ^ 9 % 2 ^ 7 + 1980 ≡ m.year = omega arith in
    let month : d / 2 ^ 5 % 2 ^ 4 ≡ m.month = omega arith in
    let day : d % 2 ^ 5 ≡ m.day = omega arith in
    let hours : t / 2 ^ 11 % 2 ^ 5 ≡ m.hours = omega arith in
    let minutes : t / 2 ^ 5 % 2 ^ 6 ≡ m.minutes = omega arith in
    let seconds : t % 2 ^ 5 * 2 ≡ m.seconds = omega arith in
    λ i. record {
      year = year i;
      month = month i;
      day = day i;
      hours = hours i;
      minutes = minutes i;
      seconds = seconds i;
    }
