-- ===== src/Logger/Tests.antt =====
-- The ring of log.cpp with two threads.
use jun_core_v.Common.{
  ℕ, ◌+◌, ◌-◌, ◌≡◌, ◌≢◌, ◌≤◌, ◌<◌, refl, List, [], ◌∷◌, ◌++◌, true, length, take, arith,
}
use jun_core_v.Logger.{
  Message, Logger, testing, slot_of, log, write_step, read_step, process_log_message, new_logger,
  format_line, calls, writes, reads, Reachable, start, next,
}
use jun_core_v.Logger.Invariant.{written, is_reading}
use jun_core_v.Logger.Order.{written_in_order, slot-exclusive}
use jun_core_v.Logger.Stop.{here, later, stop_loses, format_line-fits}

abbrev hello : Message
hello = record { text = 104 ∷ 105 ∷ []; level = 2 }

abbrev warning : Message
warning = record { text = 33 ∷ []; level = 1 }

abbrev fresh : Logger
fresh = new_logger 2 (λ i. hello)

abbrev acts : ℕ → Logger → Logger
acts i l = write_step i (l.writers i) l

-- Two threads have taken slots; the second one was first.
abbrev busy : Logger
busy = acts 1 (acts 1 (acts 1 (acts 2 (acts 2 (acts 2 (log 2 warning (log 1 hello fresh)))))))

busy-Reachable : Reachable busy
unfolding new_logger log write_step
busy-Reachable =
    let l₀ = start 2 (λ i. hello) in
    let l₁ = next _ _ l₀ (calls fresh 1 hello refl) (omega arith) in
    let l₂ = next _ _ l₁ (calls (log 1 hello fresh) 2 warning refl) (omega arith) in
    let l₃ = next _ _ l₂ (writes _ 2) (omega arith) in
    let l₄ = next _ _ l₃ (writes _ 2) (omega arith) in
    let l₅ = next _ _ l₄ (writes _ 2) (omega arith) in
    let l₆ = next _ _ l₅ (writes _ 1) (omega arith) in
    let l₇ = next _ _ l₆ (writes _ 1) (omega arith) in next _ _ l₇ (writes _ 1) (omega arith)

slot-exclusive_example :
    (◌≢◌ {A = ℕ} 1 2 → slot_of 1 ≢ slot_of 0)
    × (is_reading busy.reader ≡ true → slot_of 1 ≢ slot_of busy.read_index)
unfolding new_logger log write_step
slot-exclusive_example = slot-exclusive busy 1 2 1 0 busy-Reachable refl refl

abbrev reads_once : Logger → Logger
reads_once l = read_step l.reader l

-- The warning is published and written.
abbrev shown : Logger
shown = reads_once (reads_once (reads_once (acts 2 (acts 2 busy))))

shown-Reachable : Reachable shown
unfolding new_logger log write_step read_step process_log_message
shown-Reachable =
    let l₁ = next _ _ busy-Reachable (writes busy 2) (omega arith) in
    let l₂ = next _ _ l₁ (writes (acts 2 busy) 2) (omega arith) in
    let l₃ = next _ _ l₂ (reads _) (omega arith) in
    let l₄ = next _ _ l₃ (reads _) (omega arith) in next _ _ l₄ (reads _) (omega arith)

written_in_order_example :
    shown.processed ≡ take (shown.read_index + written shown.reader) shown.claimed
written_in_order_example = written_in_order shown-Reachable

warning_first : shown.processed ≡ warning ∷ []
unfolding new_logger log write_step read_step process_log_message
warning_first = refl

stop_loses_example : (read_step testing (record busy { should_stop = true })).processed ≡ []
unfolding new_logger log write_step read_step
stop_loses_example =
    stop_loses busy (read_step testing (record busy { should_stop = true })) refl
      (later _ _ here (reads (record busy { should_stop = true })))

abbrev prefix : List ℕ
prefix = 91 ∷ 93 ∷ []

format_line-fits_example :
    (length (format_line prefix (7 ∷ 7 ∷ [])) + 1 ≤ 1024)
    × (2 + 2 < 1022 → format_line prefix (7 ∷ 7 ∷ []) ≡ (prefix ++ 7 ∷ 7 ∷ []) ++ 10 ∷ [])
    × (1022 ≤ 2 + 2
        → format_line prefix (7 ∷ 7 ∷ []) ≡ prefix ++ take (1022 - length prefix) (7 ∷ 7 ∷ []))
format_line-fits_example = format_line-fits prefix (7 ∷ 7 ∷ []) (omega arith)
