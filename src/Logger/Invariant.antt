-- ===== src/Logger/Invariant.antt =====
-- What holds of the ring of log.cpp after every step.
use jun_core_v.Common.{
  ℕ, ◌+◌, ◌≡◌, ◌≤◌, ◌<◌, refl, subst, sym, ap, List, Bool, true, false, ◌==◌, ==_iff, ◌≢◌, ◌⊎◌,
  if◌then◌else◌, some, length, take, get_elem?, Bool-cases, inl, inr, arith,
}
use jun_core_v.Logger.{
  Message, Slot, Writer, Reader, Logger, outside, checking, loaded, claiming, filling, publishing,
  testing, ended, reading, processing, clearing, advancing, update, go, slot_of,
}

-- Whether the message at `read_index` has been written, and whether its slot has been cleared.
abbrev pub written : Reader → ℕ
written (clearing left) = 1
written (advancing left) = 1
written _ = 0

abbrev pub cleared : Reader → ℕ
cleared (advancing left) = 1
cleared _ = 0

abbrev pub is_reading : Reader → Bool
is_reading (processing left) = true
is_reading (clearing left) = true
is_reading _ = false

-- What the threads of `LogAsync` rely on.
pub record Ring : Type 0 where
  pub slots : ℕ → Slot
  pub write_index : ℕ
  pub from : ℕ
  pub read_index : ℕ
  pub claimed : List Message
  pub owner : ℕ → ℕ

abbrev pub ring : Logger → Ring
ring l = record {
  slots = l.slots;
  write_index = l.write_index;
  from = l.read_index + cleared l.reader;
  read_index = l.read_index;
  claimed = l.claimed;
  owner = l.owner;
}

abbrev pub is_valid : (ℕ → Slot) → ℕ → Bool
is_valid slots k = (slots (slot_of k)).valid

-- Thread `i` alone has the slot of number `k`, for the message `m`.
pub record Has (i k : ℕ) (m : Message) (r : Ring) : Type 0 where
  pub after : r.from ≤ k
  pub below : k < r.write_index
  pub owned : r.owner k ≡ i
  pub unset : is_valid r.slots k ≡ false
  pub claims : get_elem? r.claimed k ≡ some m

abbrev pub WriterOk : ℕ → Writer → Ring → Type 0
WriterOk i outside r = Unit {0}
WriterOk i (checking m) r = Unit {0}
WriterOk i (loaded m w) r = w ≤ r.write_index
WriterOk i (claiming m w) r =
    (w ≤ r.write_index) × (w ≡ r.write_index → r.write_index + 2 ≤ r.read_index + 4096)
WriterOk i (filling m k) r = Has i k m r
WriterOk i (publishing k) r = Has i k (r.slots (slot_of k)).message r

pub record Invariant (l : Logger) : Type 0 where
  pub counted : length l.claimed ≡ l.write_index
  pub range :
      (l.read_index + cleared l.reader ≤ l.write_index) × (l.write_index + 1 ≤ l.read_index + 4096)
  pub writers_ok : (i : ℕ) → WriterOk i (l.writers i) (ring l)
  pub free : (k : ℕ) → l.write_index ≤ k → k < l.read_index + 4096 → is_valid l.slots k ≡ false
  pub content :
      (k : ℕ)
      → l.read_index ≤ k
      → k < l.write_index
      → is_valid l.slots k ≡ true
      → get_elem? l.claimed k ≡ some (l.slots (slot_of k)).message
  pub holds : is_reading l.reader ≡ true → is_valid l.slots l.read_index ≡ true
  pub lowered : cleared l.reader ≡ 1 → is_valid l.slots l.read_index ≡ false
  pub in_order : l.processed ≡ take (l.read_index + written l.reader) l.claimed

-- One thread moves to `w`, and what holds of the others still does.
pub after_move :
    (i : ℕ) (w : Writer) (f : ℕ → Writer) (r : Ring)
    → WriterOk i w r
    → ((j : ℕ) → j ≢ i → WriterOk j (f j) r)
    → (j : ℕ) → WriterOk j (update i w f j) r
after_move i w f r ok others j = elim (Bool-cases (j == i)) [
  | inl e ↦
      subst (λ b. WriterOk j (if b then w else f j) r) (sym e)
        (subst (λ k. WriterOk k w r) (sym ((==_iff j i).0 e)) ok)
  | inr e ↦
      subst (λ b. WriterOk j (if b then w else f j) r) (sym e)
        (others j (λ same. absurd (ground (arith, e))))
]

-- A thread moves on without touching the ring.
pub go-Invariant :
    (i : ℕ) (w : Writer) (l : Logger) → WriterOk i w (ring l) → Invariant l → Invariant (go i w l)
go-Invariant i w l ok v = record {
  counted = v.counted;
  range = v.range;
  writers_ok = after_move i w l.writers (ring l) ok (λ j e. v.writers_ok j);
  free = v.free;
  content = v.content;
  holds = v.holds;
  lowered = v.lowered;
  in_order = v.in_order;
}

pub slots_apart :
    (from k k' : ℕ)
    → from ≤ k
    → k < from + 4096
    → from ≤ k'
    → k' < from + 4096
    → k ≢ k'
    → slot_of k ≢ slot_of k'
slots_apart from k k' a b c d e e' = e (omega (arith, e'))

written_cases : (t : Reader) → (written t ≡ cleared t) ⊎ ((is_reading t ≡ true) × (written t ≤ 1))
written_cases testing = inl refl
written_cases ended = inl refl
written_cases (reading left) = inl refl
written_cases (processing left) = inl refl
written_cases (clearing left) = inr (refl, omega arith)
written_cases (advancing left) = inl refl

-- The message that the logger thread has in hand was claimed.
pub reading-below :
    (l : Logger) → Invariant l → is_valid l.slots l.read_index ≡ true → l.read_index < l.write_index
reading-below l v e = ground (arith, v.range, v.free l.read_index)

pub written-le : (l : Logger) → Invariant l → l.read_index + written l.reader ≤ l.write_index
written-le l v = ground (arith, v.range, v.holds, reading-below l v, written_cases l.reader)

pub update_at : (a : ℕ) (x : Slot) (f : ℕ → Slot) → update a x f a ≡ x
update_at a x f = ground arith

pub update_other : (a b : ℕ) (x : Slot) (f : ℕ → Slot) → b ≢ a → update a x f b ≡ f b
update_other a b x f e = elim (Bool-cases (b == a)) [
  | inl same ↦ absurd (e ((==_iff b a).0 same))
  | inr other ↦ ap (λ c. if c then x else f b) other
]

-- A write to a slot does not reach another one of the range.
pub beyond :
    (w k : ℕ) (x : Slot) (l : Logger)
    → l.read_index ≤ k
    → k < l.read_index + 4096
    → l.read_index ≤ w
    → w < l.read_index + 4096
    → k ≢ w
    → update (slot_of w) x l.slots (slot_of k) ≡ l.slots (slot_of k)
beyond w k x l a b c d e =
    update_other (slot_of w) (slot_of k) x l.slots (slots_apart l.read_index k w a b c d e)
