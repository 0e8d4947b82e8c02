-- ===== src/Logger/Reading.antt =====
-- The steps of the logger thread in log.cpp.
use jun_core_v.Common.{
  ℕ, suc, ◌+◌, ◌≡◌, ◌≢◌, ◌≤◌, ◌<◌, subst, sym, ap, ◌∙◌, [], ◌∷◌, ◌++◌, true, false, ◌==◌, ==_iff,
  some, take, take-suc, Bool-cases, inl, inr, arith,
}
use jun_core_v.Logger.{
  Message, Slot, Writer, Reader, Logger, outside, checking, loaded, claiming, filling, publishing,
  reading, processing, clearing, advancing, update, slot_of, process_log_message,
}
use jun_core_v.Logger.Invariant.{
  Invariant, Has, WriterOk, Ring, ring, is_valid, written, cleared, is_reading, update_at, beyond,
  reading-below,
}

-- The logger thread clears the mark of the slot that it has written.
module _ (left : ℕ) (l : Logger) (v : Invariant l) (here : l.reader ≡ clearing left) where
  abbrev emptied : ℕ → Slot
  emptied =
      update (slot_of l.read_index) (record (l.slots (slot_of l.read_index)) { valid = false })
        l.slots

  abbrev emptied_ring : Ring
  emptied_ring = record (ring l) { slots = emptied; from = l.read_index + 1 }

  is_set : is_valid l.slots l.read_index ≡ true
  is_set = v.holds (ap is_reading here)

  not_emptied :
      (k : ℕ)
      → l.read_index ≤ k
      → k < l.read_index + 4096
      → k ≢ l.read_index
      → emptied (slot_of k) ≡ l.slots (slot_of k)
  not_emptied k a b e =
      beyond l.read_index k (record (l.slots (slot_of l.read_index)) { valid = false }) l a b
        (omega arith) (omega arith) e

  Has-other :
      (j k : ℕ) (m : Message)
      → Has j k m (ring l)
      → Has j k m emptied_ring × (emptied (slot_of k) ≡ l.slots (slot_of k))
  Has-other j k m h =
      let apart : k ≢ l.read_index = λ same. absurd (ground (arith, same, is_set, h.unset)) in
      let same = not_emptied k (omega arith) (omega (arith, v.range)) apart in
      (
        record {
          after = ground (arith, apart);
          below = h.below;
          owned = h.owned;
          unset = ap (λ slot. slot.valid) same ∙ h.unset;
          claims = h.claims;
        },
        same,
      )

  emptied_others : (j : ℕ) (s : Writer) → WriterOk j s (ring l) → WriterOk j s emptied_ring
  emptied_others j outside ok = tt
  emptied_others j (checking n) ok = tt
  emptied_others j (loaded n k) ok = ok
  emptied_others j (claiming n k) ok = ok
  emptied_others j (filling n k) ok = (Has-other j k n ok).0
  emptied_others j (publishing k) ok =
      let h = Has-other j k (l.slots (slot_of k)).message ok in
      subst (λ slot. Has j k slot.message emptied_ring) (sym h.1) h.0

  pub clear-Invariant : Invariant (record l { slots = emptied; reader = advancing left })
  clear-Invariant = record {
    counted = v.counted;
    range = ground (arith, v.range, reading-below l v is_set);
    writers_ok = λ j. emptied_others j (l.writers j) (v.writers_ok j);
    free = λ k a b.
        ap (λ slot. slot.valid)
          (not_emptied k (omega (arith, v.range)) b
            (λ same. absurd (omega (arith, reading-below l v is_set))))
        ∙ v.free k a b;
    content = λ k a b e. elim (Bool-cases (k == l.read_index)) [
      | inl same ↦ absurd (ground (arith, same))
      | inr other ↦
          let same = not_emptied k a (omega (arith, v.range)) (λ same. absurd (ground arith)) in
          v.content k a b (sym (ap (λ slot. slot.valid) same) ∙ e)
          ∙ ap (λ slot. some slot.message) (sym same)
    ];
    holds = λ e. absurd (cc);
    lowered = λ e. ap (λ slot. slot.valid) (update_at (slot_of l.read_index) _ l.slots);
    in_order = v.in_order ∙ ap (λ t. take (l.read_index + written t) l.claimed) here;
  }

-- The logger thread goes on to the next slot.
module _ (left : ℕ) (l : Logger) (v : Invariant l) (here : l.reader ≡ advancing left) where
  abbrev advanced_ring : Ring
  advanced_ring = record (ring l) { from = l.read_index + 1; read_index = l.read_index + 1 }

  from_next : l.read_index + cleared l.reader ≡ l.read_index + 1
  from_next = ap (λ t. l.read_index + cleared t) here

  advanced_others : (j : ℕ) (s : Writer) → WriterOk j s (ring l) → WriterOk j s advanced_ring
  advanced_others j outside ok = tt
  advanced_others j (checking n) ok = tt
  advanced_others j (loaded n k) ok = ok
  advanced_others j (claiming n k) ok = (ok.0, λ e. omega (arith, ok.1 e))
  advanced_others j (filling n k) ok = record {
    after = omega (arith, from_next, ok.after);
    below = ok.below;
    owned = ok.owned;
    unset = ok.unset;
    claims = ok.claims;
  }
  advanced_others j (publishing k) ok = record {
    after = omega (arith, from_next, ok.after);
    below = ok.below;
    owned = ok.owned;
    unset = ok.unset;
    claims = ok.claims;
  }

  pub advance-Invariant :
      Invariant (record l { read_index = l.read_index + 1; reader = reading left })
  advance-Invariant = record {
    counted = v.counted;
    range = omega (arith, v.range, from_next);
    writers_ok = λ j.
        subst (λ n. WriterOk j (l.writers j) (record advanced_ring { from = n })) (omega arith)
          (advanced_others j (l.writers j) (v.writers_ok j));
    free = λ k a b. elim (Bool-cases (k == l.read_index + 4096)) [
      | inl same ↦
          subst (λ i. (l.slots i).valid ≡ false)
            (omega (arith, (==_iff k (l.read_index + 4096)).0 same)) (v.lowered (ap cleared here))
      | inr other ↦ v.free k a (ground arith)
    ];
    content = λ k a b e. v.content k (omega arith) b e;
    holds = λ e. absurd (cc);
    lowered = λ e. absurd (omega (arith, e));
    in_order =
        v.in_order
        ∙ ap (λ t. take (l.read_index + written t) l.claimed) here
        ∙ ap (λ n. take n l.claimed) (omega arith);
  }

-- The logger thread writes a message.
pub process-Invariant :
    (left : ℕ) (l : Logger)
    → Invariant l
    → l.reader ≡ processing left
    → Invariant (record (process_log_message (l.slots (slot_of l.read_index)).message l) {
      reader = clearing left;
    })
unfolding process_log_message
process-Invariant left l v here =
    let is_set = v.holds (ap is_reading here) in
    let read = v.content l.read_index (omega arith) (reading-below l v is_set) is_set in
    record {
      counted = v.counted;
      range = ground (arith, v.range, ap cleared here);
      writers_ok = λ i.
          subst (λ n. WriterOk i (l.writers i) (record (ring l) { from = l.read_index + n }))
            (ap cleared here) (v.writers_ok i);
      free = v.free;
      content = v.content;
      holds = λ e. is_set;
      lowered = λ e. absurd (omega (arith, e));
      in_order =
          ap (λ ms. ms ++ (l.slots (slot_of l.read_index)).message ∷ [])
            (v.in_order
              ∙ ap (λ t. take (l.read_index + written t) l.claimed) here
              ∙ ap (λ n. take n l.claimed) (omega arith))
          ∙ sym (take-suc l.read_index l.claimed (l.slots (slot_of l.read_index)).message read)
          ∙ ap (λ n. take n l.claimed) {x = suc l.read_index} (omega arith);
    }

-- The logger thread moves on without touching the ring.
pub turn-Invariant :
    (t : Reader) (l : Logger)
    → Invariant l
    → cleared t ≡ cleared l.reader
    → written t ≡ written l.reader
    → (is_reading t ≡ true → is_valid l.slots l.read_index ≡ true)
    → Invariant (record l { reader = t })
turn-Invariant t l v c w holds = record {
  counted = v.counted;
  range = ground (arith, v.range, c);
  writers_ok = λ i.
      subst (λ n. WriterOk i (l.writers i) (record (ring l) { from = l.read_index + n })) (sym c)
        (v.writers_ok i);
  free = v.free;
  content = v.content;
  holds = holds;
  lowered = λ e. v.lowered (sym c ∙ e);
  in_order = v.in_order ∙ ap (λ n. take (l.read_index + n) l.claimed) (sym w);
}
