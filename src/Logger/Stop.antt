-- ===== src/Logger/Stop.antt =====
-- What `Shutdown` leaves unwritten, and the bounds of a line.
use jun_core_v.Common.{
  ℕ, ◌+◌, ◌-◌, ◌≡◌, ◌≤◌, ◌<◌, refl, ap, ◌∙◌, List, [], ◌∷◌, ◌++◌, Bool, true, false, length,
  length-append, length-take, take_of_le, take, min, arith,
}
use jun_core_v.Logger.{
  Message, Writer, Reader, Logger, testing, ended, outside, log, write_step, read_step, format_line,
  Step, calls, writes, fails, reads, shuts_down,
}

-- Any number of steps.
pub data Later (l : Logger) : Logger → Type 0 where
  here : Later l l
  later : (l' l'' : Logger) → Later l l' → Step l' l'' → Later l l''

abbrev pub is_over : Reader → Bool
is_over testing = true
is_over ended = true
is_over _ = false

pub record Stopped (written : List Message) (l : Logger) : Type 0 where
  pub stop : l.should_stop ≡ true
  pub over : is_over l.reader ≡ true
  pub same : l.processed ≡ written

write_step-Stopped :
    (i : ℕ) (s : Writer) (l : Logger) (written : List Message)
    → Stopped written l
    → Stopped written (write_step i s l)
unfolding write_step
write_step-Stopped i outside l written h = h
write_step-Stopped i s l written h = ground arith

read_step-Stopped :
    (t : Reader) (l : Logger) (written : List Message)
    → l.reader ≡ t
    → Stopped written l
    → Stopped written (read_step t l)
unfolding read_step
read_step-Stopped ended l written e h = h
read_step-Stopped t l written e h = ground arith

Step-Stopped :
    (l l' : Logger) (written : List Message) → Step l l' → Stopped written l → Stopped written l'
unfolding log
Step-Stopped l l' written (calls _ i m e) h = ground arith
Step-Stopped l l' written (writes _ i) h = write_step-Stopped i (l.writers i) l written h
Step-Stopped l l' written (fails _ i m w e) h = record {
  stop = h.stop;
  over = h.over;
  same = h.same;
}
Step-Stopped l l' written (reads _) h = read_step-Stopped l.reader l written refl h
Step-Stopped l l' written (shuts_down _) h = record { stop = refl; over = h.over; same = h.same }

Later-Stopped :
    (l l' : Logger) (written : List Message) → Later l l' → Stopped written l → Stopped written l'
Later-Stopped l l' written here h = h
Later-Stopped l l' written (later m _ p st) h =
    Step-Stopped m l' written st (Later-Stopped l m written p h)

-- If `Shutdown` sets its flag while the logger thread is before the test of it, as it is for the 100 ms
-- of its sleep, nothing is written any more: the messages in the ring are lost.
pub stop_loses :
    (l l' : Logger)
    → l.reader ≡ testing
    → Later (record l { should_stop = true }) l'
    → l'.processed ≡ l.processed
stop_loses l l' e p =
    (Later-Stopped (record l { should_stop = true }) l' l.processed p
      (record { stop = refl; over = ap is_over e; same = refl })).same

-- With a prefix of at most 1022 bytes, a line and its NUL fit into the 1024 bytes of the buffer. A
-- message that is shorter than what the prefix leaves of 1022 bytes is whole and ends with a line feed;
-- of any other the beginning is left, with no line feed.
pub format_line-fits :
    (prefix message : List ℕ)
    → length prefix ≤ 1022
    → (length (format_line prefix message) + 1 ≤ 1024)
      × (length prefix + length message < 1022
          → format_line prefix message ≡ (prefix ++ message) ++ 10 ∷ [])
      × (1022 ≤ length prefix + length message
          → format_line prefix message ≡ prefix ++ take (1022 - length prefix) message)
unfolding format_line
format_line-fits prefix message h =
    let room : 1024 - length prefix - 1 - 1 ≡ 1022 - length prefix = omega arith in
    let cut = take (1022 - length prefix) message in
    let long : length (prefix ++ cut)
        ≡ length prefix + min (1022 - length prefix) (length message) =
      length-append prefix cut
      ∙ ap (λ n. length prefix + n) (length-take (1022 - length prefix) message) in
    rw room (
      ground (arith, long, length-append (prefix ++ cut) (10 ∷ [])),
      λ fits. ground (arith, long, take_of_le (1022 - length prefix) message (omega arith)),
      λ fills. ground (arith, long),
    )
