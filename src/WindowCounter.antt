-- ===== src/WindowCounter.antt =====
-- JunCommon/timer/SlidingWindowCounter.h: a counter for each of the last 60 seconds. Times are the
-- milliseconds of `GetTickCount64`, an argument. An average is a total and the number of seconds that
-- it is divided by, or `none` for 0.0. Gaps between updates are below 2 ^ 31 seconds.
pub mod Totals
mod Tests
use jun_core_v.Common.{
  ℕ, zero, suc, ◌+◌, ◌-◌, ◌/◌, ◌%◌, ◌^◌, min, ◌==◌, ltb, leb, ◌||◌, if◌then◌else◌, Option, none,
  some,
}

abbrev pub max_samples : ℕ
max_samples = 60

-- `samples` gives the value at each index of the array.
pub record TimeWindowCounter : Type 0 where
  pub samples : ℕ → ℕ
  pub write_pos : ℕ
  pub last_update_ms : ℕ

pub time_window_counter : ℕ → TimeWindowCounter
time_window_counter now = record { samples = λ i. 0; write_pos = 0; last_update_ms = now }

abbrev pub assign : (ℕ → ℕ) → ℕ → ℕ → ℕ → ℕ
assign samples k v i = if k == i then v else samples i

unfoldable pub get_elapsed_seconds : ℕ → TimeWindowCounter → ℕ
get_elapsed_seconds now c = ((now + 2 ^ 64 - c.last_update_ms) % 2 ^ 64) / 1000

-- The rounds of the loop that are left.
unfoldable pub clear_samples : ℕ → TimeWindowCounter → TimeWindowCounter
clear_samples zero c = c
clear_samples (suc rounds) c =
    let next = (c.write_pos + 1) % max_samples in
    clear_samples rounds (record c { write_pos = next; samples = assign c.samples next 0 })

unfoldable pub advance_time_window : ℕ → TimeWindowCounter → TimeWindowCounter
advance_time_window now c =
    let elapsed = get_elapsed_seconds now c in
    let cleared = clear_samples (min elapsed max_samples) c in
    if leb 1 elapsed then record cleared { last_update_ms = now } else c

unfoldable pub add_sample : ℕ → TimeWindowCounter → TimeWindowCounter
add_sample value c = record c {
  samples = assign c.samples c.write_pos ((c.samples c.write_pos + value) % 2 ^ 64);
}

-- `record`
unfoldable pub record_value : ℕ → ℕ → TimeWindowCounter → TimeWindowCounter
record_value value now c = add_sample value (advance_time_window now c)

-- The sum over the newest `n` samples, the last of the loop first.
unfoldable pub sum_samples : ℕ → TimeWindowCounter → ℕ
sum_samples zero c = 0
sum_samples (suc i) c =
    (sum_samples i c + c.samples ((c.write_pos + max_samples - i) % max_samples)) % 2 ^ 64

unfoldable pub get_average : ℕ → ℕ → TimeWindowCounter → Option (ℕ × ℕ)
get_average seconds now c =
    let time_gap = get_elapsed_seconds now c in
    if (seconds == 0) || ltb max_samples seconds
    then none
    else (if leb seconds time_gap then none else some (sum_samples (seconds - time_gap) c, seconds))
