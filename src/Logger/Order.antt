-- ===== src/Logger/Order.antt =====
-- Every message is written once, in the order in which the slots were taken.
use jun_core_v.Common.{
  ℕ, zero, suc, ◌+◌, ◌-◌, ◌%◌, ◌^◌, ◌≡◌, ◌≢◌, ◌<◌, refl, subst, sym, ap, ◌∙◌, [], ◌∷◌, ◌++◌, Bool,
  true, false, ◌==◌, ==_iff, if◌then◌else◌, Option, none, some, length, take, arith, ltb,
}
use mathlib.Core.Option.{some-injective}
use jun_core_v.Logger.{
  Message, Writer, Reader, Logger, outside, checking, loaded, claiming, filling, publishing,
  testing, ended, reading, processing, clearing, advancing, update, go, slot_of, log, write_step,
  read_step, new_logger, Step, calls, writes, fails, reads, shuts_down, Reachable, start, next,
}
use jun_core_v.Logger.Invariant.{
  Invariant, Has, WriterOk, ring, is_valid, written, cleared, is_reading, go-Invariant, slots_apart,
}
use jun_core_v.Logger.Writing.{claim-Invariant, fill-Invariant, publish-Invariant}
use jun_core_v.Logger.Reading.{
  clear-Invariant, advance-Invariant, process-Invariant, turn-Invariant,
}

-- The sum of an index below the bound does not come round.
no_wrap : (n : ℕ) → n < 2 ^ 32 - 1 → (n + 1) % 2 ^ 32 ≡ n + 1
no_wrap n h = omega arith

if_Invariant :
    (b : Bool) (l l' : Logger)
    → (b ≡ true → Invariant l)
    → (b ≡ false → Invariant l')
    → Invariant (if b then l else l')
if_Invariant true l l' v v' = v refl
if_Invariant false l l' v v' = v' refl

write_step-Invariant :
    (i : ℕ) (s : Writer) (l : Logger)
    → Invariant l
    → l.write_index < 2 ^ 32 - 1
    → WriterOk i s (ring l)
    → Invariant (write_step i s l)
unfolding write_step
write_step-Invariant i outside l v h ok = v
write_step-Invariant i (checking m) l v h ok =
    go-Invariant i (loaded m l.write_index) l (omega arith) v
write_step-Invariant i (loaded m w) l v h ok =
    if_Invariant (slot_of ((w + 1) % 2 ^ 32) == slot_of l.read_index) _ _
      (λ full. go-Invariant i outside l tt v)
      (λ room.
        go-Invariant i (claiming m w) l (ok, λ e. ground (arith, no_wrap w, v.range, room)) v)
write_step-Invariant i (claiming m w) l v h ok =
    if_Invariant (l.write_index == w) _ _
      (λ same.
        let here = (==_iff l.write_index w).0 same in
        subst
          (λ n. Invariant (record (go i (filling m w) l) {
            write_index = n;
            claimed = l.claimed ++ m ∷ [];
            owner = update w i l.owner;
          }))
          (sym (no_wrap w (omega (arith, here)))) (claim-Invariant i w m l v here ok))
      (λ other. go-Invariant i (checking m) l tt v)
write_step-Invariant i (filling m w) l v h ok = fill-Invariant i w m l v ok
write_step-Invariant i (publishing w) l v h ok = publish-Invariant i w l v ok

read_step-Invariant :
    (t : Reader) (l : Logger)
    → Invariant l
    → l.write_index < 2 ^ 32 - 1
    → l.reader ≡ t
    → Invariant (read_step t l)
unfolding read_step
read_step-Invariant testing l v h here =
    let c = sym (ap cleared here) in
    let w = sym (ap written here) in
    if_Invariant l.should_stop _ _ (λ e. turn-Invariant ended l v c w (λ e'. absurd (cc)))
      (λ e. turn-Invariant (reading 100) l v c w (λ e'. absurd (cc)))
read_step-Invariant (reading zero) l v h here =
    turn-Invariant testing l v (sym (ap cleared here)) (sym (ap written here)) (λ e. absurd (cc))
read_step-Invariant (reading (suc left)) l v h here =
    let c = sym (ap cleared here) in
    let w = sym (ap written here) in
    if_Invariant (is_valid l.slots l.read_index) _ _
      (λ e. turn-Invariant (processing left) l v c w (λ e'. e))
      (λ e. turn-Invariant testing l v c w (λ e'. absurd (cc)))
read_step-Invariant (processing left) l v h here = process-Invariant left l v here
read_step-Invariant (clearing left) l v h here = clear-Invariant left l v here
read_step-Invariant (advancing left) l v h here =
    subst (λ n. Invariant (record l { read_index = n; reader = reading left }))
      (sym (no_wrap l.read_index (omega (arith, v.range)))) (advance-Invariant left l v here)
read_step-Invariant ended l v h here = v

stop-Invariant : (l : Logger) → Invariant l → Invariant (record l { should_stop = true })
stop-Invariant l v = record {
  counted = v.counted;
  range = v.range;
  writers_ok = v.writers_ok;
  free = v.free;
  content = v.content;
  holds = v.holds;
  lowered = v.lowered;
  in_order = v.in_order;
}

Step-Invariant :
    {l l' : Logger} → Step l l' → Invariant l → l.write_index < 2 ^ 32 - 1 → Invariant l'
unfolding log
Step-Invariant (calls l i m e) v h =
    if_Invariant (ltb l.current_log_level m.level) _ _ (λ e'. v)
      (λ e'. go-Invariant i (checking m) l tt v)
Step-Invariant (writes l i) v h = write_step-Invariant i (l.writers i) l v h (v.writers_ok i)
Step-Invariant (fails l i m w e) v h = go-Invariant i (checking m) l tt v
Step-Invariant (reads l) v h = read_step-Invariant l.reader l v h refl
Step-Invariant (shuts_down l) v h = stop-Invariant l v

start-Invariant : (level : ℕ) (text : ℕ → Message) → Invariant (new_logger level text)
unfolding new_logger
start-Invariant level text = record {
  counted = refl;
  range = omega arith;
  writers_ok = λ i. tt;
  free = λ k a b. refl;
  content = λ k a b e. absurd (cc);
  holds = λ e. absurd (cc);
  lowered = λ e. absurd (omega (arith, e));
  in_order = refl;
}

pub Reachable-Invariant : {l : Logger} → Reachable l → Invariant l × (length l.claimed < 2 ^ 32 - 1)
unfolding new_logger
Reachable-Invariant (start level text) = (start-Invariant level text, omega arith)
Reachable-Invariant (next l l' r st bound) =
    let (v, h) = Reachable-Invariant r in (Step-Invariant st v (omega (arith, v.counted, h)), bound)

-- In every reachable state, with fewer than 2^32 - 1 messages so far: the logger thread has written
-- the first messages in the order in which their slots were taken, each once and each whole.
pub written_in_order :
    {l : Logger} → Reachable l → l.processed ≡ take (l.read_index + written l.reader) l.claimed
written_in_order r = (Reachable-Invariant r).0.in_order

-- The number of the slot that a thread has taken and not yet published.
abbrev pub taken : Writer → Option ℕ
taken (filling m k) = some k
taken (publishing k) = some k
taken _ = none

taken-Has :
    (i k : ℕ) (s : Writer) (l : Logger)
    → WriterOk i s (ring l)
    → taken s ≡ some k
    → (m : Message) × Has i k m (ring l)
taken-Has i k (filling m k') l ok e = (m, subst (λ n. Has i n m (ring l)) (some-injective _ _ e) ok)
taken-Has i k (publishing k') l ok e = (
  (l.slots (slot_of k')).message,
  subst (λ n. Has i n (l.slots (slot_of k')).message (ring l)) (some-injective _ _ e) ok,
)
taken-Has i k outside l ok e = absurd (cc)
taken-Has i k (checking m) l ok e = absurd (cc)
taken-Has i k (loaded m w) l ok e = absurd (cc)
taken-Has i k (claiming m w) l ok e = absurd (cc)

-- In every reachable state: a slot that a thread has taken and not yet published is neither that of
-- another such thread nor the one that the logger thread reads.
pub slot-exclusive :
    (l : Logger) (i j k k' : ℕ)
    → Reachable l
    → taken (l.writers i) ≡ some k
    → taken (l.writers j) ≡ some k'
    → (i ≢ j → slot_of k ≢ slot_of k')
      × (is_reading l.reader ≡ true → slot_of k ≢ slot_of l.read_index)
slot-exclusive l i j k k' r e e' =
    let v = (Reachable-Invariant r).0 in
    let (m, h) = taken-Has i k (l.writers i) l (v.writers_ok i) e in
    let (m', h') = taken-Has j k' (l.writers j) l (v.writers_ok j) e' in
    (
      λ apart.
          slots_apart l.read_index k k' (omega arith) (omega arith) (omega arith) (omega arith)
            (λ same. apart (sym h.owned ∙ ap l.owner same ∙ h'.owned)),
      λ reads same. absurd (cc (h.unset, v.holds reads, same)),
    )
