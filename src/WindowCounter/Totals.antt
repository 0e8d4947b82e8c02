-- ===== src/WindowCounter/Totals.antt =====
-- What `record` of SlidingWindowCounter.h adds to the totals.
use jun_core_v.Common.{
  ℕ, zero, suc, ◌+◌, ◌-◌, ◌%◌, ◌^◌, ◌≤◌, ◌<◌, ◌≡◌, refl, sym, ap, subst, ◌∙◌, true, leb, min, arith,
  if◌then◌else◌,
}
use jun_core_v.WindowCounter.{
  TimeWindowCounter, assign, clear_samples, advance_time_window, get_elapsed_seconds, add_sample,
  record_value, sum_samples,
}

pub clear_samples-write_pos :
    (rounds : ℕ) (c : TimeWindowCounter)
    → c.write_pos < 60
    → (clear_samples rounds c).write_pos < 60
unfolding clear_samples
clear_samples-write_pos zero c h = h
clear_samples-write_pos (suc rounds) c h = clear_samples-write_pos rounds _ (omega arith)

pub advance_time_window-write_pos :
    (now : ℕ) (c : TimeWindowCounter)
    → c.write_pos < 60
    → (advance_time_window now c).write_pos < 60
unfolding advance_time_window
advance_time_window-write_pos now c h =
    ground (arith, h, clear_samples-write_pos (min (get_elapsed_seconds now c) 60) c h)

add_sample-sum :
    (value n : ℕ) (c : TimeWindowCounter)
    → c.write_pos < 60
    → n < 60
    → sum_samples (suc n) (add_sample value c) ≡ (sum_samples (suc n) c + value) % 2 ^ 64
unfolding sum_samples add_sample
add_sample-sum value zero c h b = ground arith
add_sample-sum value (suc n) c h b = ground (arith, add_sample-sum value n c h (omega arith))

-- Once the window is up to date, recording a value adds it, modulo 2 ^ 64, to the total of every
-- number of seconds from 1 to 60.
pub record_value-sum :
    (value now n : ℕ) (c : TimeWindowCounter)
    → c.write_pos < 60
    → 1 ≤ n
    → n ≤ 60
    → sum_samples n (record_value value now c)
      ≡ (sum_samples n (advance_time_window now c) + value) % 2 ^ 64
unfolding record_value
record_value-sum value now zero c h lo hi = absurd (omega arith)
record_value-sum value now (suc n) c h lo hi =
    add_sample-sum value n (advance_time_window now c) (advance_time_window-write_pos now c h)
      (omega arith)

-- The newest `k` samples are zero.
abbrev Blank : ℕ → TimeWindowCounter → Type 0
Blank k c = (j : ℕ) → j < k → c.samples ((c.write_pos + 60 - j) % 60) ≡ 0

next-Blank :
    (k : ℕ) (c : TimeWindowCounter)
    → c.write_pos < 60
    → k < 60
    → Blank k c
    → (j : ℕ) → j < suc k
    → let next = (c.write_pos + 1) % 60 in assign c.samples next 0 ((next + 60 - j) % 60) ≡ 0
next-Blank k c h b z zero l = ground arith
next-Blank k c h b z (suc j) l =
    let place : ((c.write_pos + 1) % 60 + 60 - suc j) % 60 ≡ (c.write_pos + 60 - j) % 60 =
      omega arith in
    rw place (ground (arith, z j (omega arith)))

clear_samples-Blank :
    (rounds k : ℕ) (c : TimeWindowCounter)
    → c.write_pos < 60
    → k + rounds ≤ 60
    → Blank k c
    → Blank (k + rounds) (clear_samples rounds c)
unfolding clear_samples
clear_samples-Blank zero k c h b z = subst (λ n. Blank n c) (omega arith) z
clear_samples-Blank (suc rounds) k c h b z =
    subst (λ n. Blank n (clear_samples (suc rounds) c)) (omega arith)
      (clear_samples-Blank rounds (suc k) _ (omega arith) (omega arith)
        (next-Blank k c h (omega arith) z))

sum-Blank : (n k : ℕ) (c : TimeWindowCounter) → n ≤ k → Blank k c → sum_samples n c ≡ 0
unfolding sum_samples
sum-Blank zero k c b z = refl
sum-Blank (suc n) k c b z = ground (arith, sum-Blank n k c (omega arith) z, z n (omega arith))

-- After a minute or more without an update, every total starts from zero: for a write position
-- within the array.
pub advance_time_window_forgets :
    (now n : ℕ) (c : TimeWindowCounter)
    → c.write_pos < 60
    → 60 ≤ get_elapsed_seconds now c
    → n ≤ 60
    → sum_samples n (advance_time_window now c) ≡ 0
unfolding advance_time_window
advance_time_window_forgets now n c h gap b =
    let late : leb 1 (get_elapsed_seconds now c) ≡ true = ground (arith, gap) in
    let full : min (get_elapsed_seconds now c) 60 ≡ 60 = omega arith in
    let stamp : TimeWindowCounter → TimeWindowCounter = λ d. record d { last_update_ms = now } in
    let cleared : advance_time_window now c ≡ stamp (clear_samples 60 c) =
      ap (λ b. if b then stamp (clear_samples (min (get_elapsed_seconds now c) 60) c) else c) late
      ∙ ap (λ k. stamp (clear_samples k c)) full in
    sum-Blank n 60 (advance_time_window now c) b (
      subst (Blank 60) (sym cleared)
        (clear_samples-Blank 60 0 c h (omega arith) (λ j l. absurd (omega arith))))
