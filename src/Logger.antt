-- ===== src/Logger.antt =====
-- JunCore/log.h and log.cpp: the ring of the asynchronous mode, into which any thread logs and from
-- which one thread writes, and the text of a line. Every thread that is inside `LogAsync` is a `Writer`,
-- whose constructor says what it does next; a step makes one access to the shared state.
pub mod Invariant
pub mod Writing
pub mod Reading
pub mod Order
pub mod Stop
mod Tests
use jun_core_v.Common.{
  ℕ, zero, suc, ◌+◌, ◌-◌, ◌%◌, ◌^◌, ◌≡◌, ◌<◌, List, [], ◌∷◌, ◌++◌, Bool, true, false, not, ◌==◌,
  leb, ltb, if◌then◌else◌, Option, none, some, length, take,
}

abbrev pub ring_buffer_size : ℕ
ring_buffer_size = 4096

abbrev pub max_log_length : ℕ
max_log_length = 1024

-- A text is its bytes up to the NUL.
pub record Message : Type 0 where
  pub text : List ℕ
  pub level : ℕ

-- The line that `LogAsync` and `LogSync` make of the prefix, as `FormatLogPrefix` writes it, and of the
-- formatted message: `vsnprintf` cuts the message, and the line ends with a line feed if there is room.
unfoldable pub format_line : List ℕ → List ℕ → List ℕ
format_line prefix message =
    let line = prefix ++ take (max_log_length - length prefix - 1 - 1) message in
    if ltb (length line) (max_log_length - 2) then line ++ 10 ∷ [] else line

pub record Slot : Type 0 where
  pub message : Message
  pub valid : Bool

-- `LogAsync`: before the load of `writeIndex`, before that of `readIndex`, at the exchange, with a slot,
-- and with a slot whose text is written.
pub data Writer : Type 0 where
  outside : Writer
  checking : Message → Writer
  loaded claiming filling : Message → ℕ → Writer
  publishing : ℕ → Writer

-- `LoggerThreadFunc`: at the test of `shouldStop`, in the inner loop with so many rounds left, before
-- `ProcessLogMessage`, after it, after `valid` is cleared, and at the end.
pub data Reader : Type 0 where
  testing ended : Reader
  reading processing clearing advancing : ℕ → Reader

-- Beyond the fields of the class, `claimed` lists the messages in the order in which their slots were
-- taken, `owner` says which thread took a slot, and `processed` lists the messages that the thread has
-- written to the file, `on_console` those that it has shown.
pub record Logger : Type 0 where
  pub slots : ℕ → Slot
  pub write_index : ℕ
  pub read_index : ℕ
  pub should_stop : Bool
  pub current_log_level : ℕ
  pub reader : Reader
  pub writers : ℕ → Writer
  pub claimed : List Message
  pub owner : ℕ → ℕ
  pub processed : List Message
  pub on_console : List Message

abbrev pub update : {A : Type 0} → ℕ → A → (ℕ → A) → ℕ → A
update i a f j = if j == i then a else f j

abbrev pub go : ℕ → Writer → Logger → Logger
go i w l = record l { writers = update i w l.writers }

abbrev pub slot_of : ℕ → ℕ
slot_of index = index % 4096

-- `Log`, in the asynchronous mode.
unfoldable pub log : ℕ → Message → Logger → Logger
log i m l = if ltb l.current_log_level m.level then l else go i (checking m) l

-- The next access of thread `i` in `LogAsync`. The indices are of 32 bits.
unfoldable pub write_step : ℕ → Writer → Logger → Logger
write_step i outside l = l
write_step i (checking m) l = go i (loaded m l.write_index) l
write_step i (loaded m w) l =
    if slot_of ((w + 1) % 2 ^ 32) == slot_of l.read_index
    then go i outside l
    else go i (claiming m w) l
write_step i (claiming m w) l =
    if l.write_index == w
    then record (go i (filling m w) l) {
      write_index = (w + 1) % 2 ^ 32;
      claimed = l.claimed ++ m ∷ [];
      owner = update w i l.owner;
    }
    else go i (checking m) l
write_step i (filling m w) l = record (go i (publishing w) l) {
  slots = update (slot_of w) (record (l.slots (slot_of w)) { message = m }) l.slots;
}
write_step i (publishing w) l = record (go i outside l) {
  slots = update (slot_of w) (record (l.slots (slot_of w)) { valid = true }) l.slots;
}

-- `ProcessLogMessage`: every message goes to the file, and those of the level to the console.
unfoldable pub process_log_message : Message → Logger → Logger
process_log_message m l = record l {
  processed = l.processed ++ m ∷ [];
  on_console = if leb m.level l.current_log_level then l.on_console ++ m ∷ [] else l.on_console;
}

-- The next access of the logger thread.
unfoldable pub read_step : Reader → Logger → Logger
unfolding process_log_message
read_step testing l =
    if l.should_stop then record l { reader = ended } else record l { reader = reading 100 }
read_step (reading zero) l = record l { reader = testing }
read_step (reading (suc left)) l =
    if (l.slots (slot_of l.read_index)).valid
    then record l { reader = processing left }
    else record l { reader = testing }
read_step (processing left) l =
    record (process_log_message (l.slots (slot_of l.read_index)).message l) {
      reader = clearing left;
    }
read_step (clearing left) l =
    let i = slot_of l.read_index in
    record l {
      slots = update i (record (l.slots i) { valid = false }) l.slots;
      reader = advancing left;
    }
read_step (advancing left) l = record l {
  read_index = (l.read_index + 1) % 2 ^ 32;
  reader = reading left;
}
read_step ended l = l

-- After `InitializeAsyncResources`; `text` is what lies in the slots.
unfoldable pub new_logger : ℕ → (ℕ → Message) → Logger
new_logger level text = record {
  slots = λ i. record { message = text i; valid = false };
  write_index = 0;
  read_index = 0;
  should_stop = false;
  current_log_level = level;
  reader = testing;
  writers = λ i. outside;
  claimed = [];
  owner = λ k. 0;
  processed = [];
  on_console = [];
}

-- One access of some thread; the weak exchange may fail for no reason.
pub data Step : Logger → Logger → Type 0 where
  calls : (l : Logger) (i : ℕ) (m : Message) → l.writers i ≡ outside → Step l (log i m l)
  writes : (l : Logger) (i : ℕ) → Step l (write_step i (l.writers i) l)
  fails :
      (l : Logger) (i : ℕ) (m : Message) (w : ℕ)
      → l.writers i ≡ claiming m w
      → Step l (go i (checking m) l)
  reads : (l : Logger) → Step l (read_step l.reader l)
  shuts_down : (l : Logger) → Step l (record l { should_stop = true })

-- The indices are taken not to have come round: fewer than 2^32 - 1 messages were logged.
pub data Reachable : Logger → Type 0 where
  start : (level : ℕ) (text : ℕ → Message) → Reachable (new_logger level text)
  next : (l l' : Logger) → Reachable l → Step l l' → length l'.claimed < 2 ^ 32 - 1 → Reachable l'
