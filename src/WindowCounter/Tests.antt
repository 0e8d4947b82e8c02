-- ===== src/WindowCounter/Tests.antt =====
-- The counter at concrete times.
use jun_core_v.Common.{◌≡◌, refl, some}
use jun_core_v.WindowCounter.{
  TimeWindowCounter, get_elapsed_seconds, advance_time_window, clear_samples, add_sample,
  record_value, sum_samples, get_average,
}

-- Every sample holds 5, and index 3 is the newest.
abbrev counting : TimeWindowCounter
counting = record { samples = λ i. 5; write_pos = 3; last_update_ms = 1000 }

average-record :
    get_average 2 3500 (record_value 4 2500 (record_value 3 1200 counting)) ≡ some (4, 2)
unfolding get_average record_value advance_time_window get_elapsed_seconds clear_samples add_sample
    sum_samples
average-record = refl
