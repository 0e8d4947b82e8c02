-- ===== src/Logger/Writing.antt =====
-- The steps of `LogAsync` in log.cpp that write to the ring.
use jun_core_v.Common.{
  ℕ, ◌+◌, ◌≡◌, ◌≤◌, ◌<◌, subst, sym, ap, ◌∙◌, [], ◌∷◌, ◌++◌, true, ◌==◌, ◌≢◌, some, length-append,
  get_elem?, get_elem?-append, get_elem?-last, take-append_left, Bool-cases, inl, inr, arith,
}
use jun_core_v.Logger.{
  Message, Slot, Writer, Logger, outside, checking, loaded, claiming, filling, publishing, update,
  go, slot_of,
}
use jun_core_v.Logger.Invariant.{
  Invariant, Has, WriterOk, Ring, ring, is_valid, written, after_move, update_at, beyond,
  written-le,
}

-- A slot is taken.
module _ (i w : ℕ) (m : Message) (l : Logger) (v : Invariant l) (here : l.write_index ≡ w) where
  abbrev claimed_ring : Ring
  claimed_ring = record (ring l) {
    write_index = w + 1;
    claimed = l.claimed ++ m ∷ [];
    owner = update w i l.owner;
  }

  claim_others : (j : ℕ) (s : Writer) → WriterOk j s (ring l) → WriterOk j s claimed_ring
  claim_others j outside ok = tt
  claim_others j (checking n) ok = tt
  claim_others j (loaded n k) ok = omega arith
  claim_others j (claiming n k) ok = omega arith
  claim_others j (filling n k) ok = ground (arith, v.counted, get_elem?-append l.claimed (m ∷ []) k)
  claim_others j (publishing k) ok =
      ground (arith, v.counted, get_elem?-append l.claimed (m ∷ []) k)

-- The exchange succeeds.
pub claim-Invariant :
    (i w : ℕ) (m : Message) (l : Logger)
    → Invariant l
    → l.write_index ≡ w
    → WriterOk i (claiming m w) (ring l)
    → Invariant (record (go i (filling m w) l) {
      write_index = w + 1;
      claimed = l.claimed ++ m ∷ [];
      owner = update w i l.owner;
    })
claim-Invariant i w m l v here ok = record {
  counted = omega (arith, v.counted, length-append {0} l.claimed (m ∷ []));
  range = omega (arith, v.range);
  writers_ok =
      after_move i (filling m w) l.writers (claimed_ring i w m l v here)
        (record {
          after = omega (arith, v.range);
          below = omega arith;
          owned = ground arith;
          unset = v.free w (omega arith) (omega (arith, v.range));
          claims =
              subst (λ k. get_elem? (l.claimed ++ m ∷ []) k ≡ some m) (v.counted ∙ here)
                (get_elem?-last l.claimed m);
        })
        (λ j e. claim_others i w m l v here j (l.writers j) (v.writers_ok j));
  free = λ k a b. v.free k (omega arith) b;
  content = λ k a b e.
      ground
        (arith, v.counted, v.range, v.free k, v.content k, get_elem?-append l.claimed (m ∷ []) k);
  holds = v.holds;
  lowered = v.lowered;
  in_order =
      v.in_order
      ∙ sym (
          take-append_left (l.read_index + written l.reader) l.claimed (m ∷ [])
            (omega (arith, v.counted, written-le l v)));
}

-- A write of the text leaves every mark as it is.
fill_valid :
    (w k : ℕ) (m : Message) (f : ℕ → Slot)
    → is_valid (update (slot_of w) (record (f (slot_of w)) { message = m }) f) k ≡ is_valid f k
fill_valid w k m f = ground arith

-- The text is written.
module _ (i w : ℕ) (m : Message) (l : Logger) (v : Invariant l) (h : Has i w m (ring l)) where
  abbrev filled : ℕ → Slot
  filled = update (slot_of w) (record (l.slots (slot_of w)) { message = m }) l.slots

  fill_others :
      (j : ℕ) (s : Writer)
      → j ≢ i
      → WriterOk j s (ring l)
      → WriterOk j s (record (ring l) { slots = filled })
  fill_others j outside e ok = tt
  fill_others j (checking n) e ok = tt
  fill_others j (loaded n k) e ok = ok
  fill_others j (claiming n k) e ok = ok
  fill_others j (filling n k) e ok = record {
    after = ok.after;
    below = ok.below;
    owned = ok.owned;
    unset = fill_valid w k m l.slots ∙ ok.unset;
    claims = ok.claims;
  }
  fill_others j (publishing k) e ok =
      let apart : k ≢ w = λ same. e (sym ok.owned ∙ ap l.owner same ∙ h.owned) in
      record {
        after = ok.after;
        below = ok.below;
        owned = ok.owned;
        unset = fill_valid w k m l.slots ∙ ok.unset;
        claims =
            ok.claims
            ∙ ap (λ slot. some slot.message)
                (sym
                  (beyond w k _ l (omega arith) (omega arith) (omega arith) (omega arith) apart));
      }

  pub fill-Invariant : Invariant (record (go i (publishing w) l) { slots = filled })
  fill-Invariant = record {
    counted = v.counted;
    range = v.range;
    writers_ok =
        after_move i (publishing w) l.writers (record (ring l) { slots = filled })
          (record {
            after = h.after;
            below = h.below;
            owned = h.owned;
            unset = fill_valid w w m l.slots ∙ h.unset;
            claims =
                h.claims ∙ ap (λ slot. some slot.message) (sym (update_at (slot_of w) _ l.slots));
          })
          (λ j e. fill_others j (l.writers j) e (v.writers_ok j));
    free = λ k a b. fill_valid w k m l.slots ∙ v.free k a b;
    content = λ k a b e.
        let e' : is_valid l.slots k ≡ true = sym (fill_valid w k m l.slots) ∙ e in
        let apart : k ≢ w = λ same. absurd (ground (arith, same, e', h.unset)) in
        v.content k a b e'
        ∙ ap (λ slot. some slot.message)
            (sym (beyond w k _ l a (omega arith) (omega arith) (omega arith) apart));
    holds = λ e. fill_valid w l.read_index m l.slots ∙ v.holds e;
    lowered = λ e. fill_valid w l.read_index m l.slots ∙ v.lowered e;
    in_order = v.in_order;
  }

-- A slot is published.
module _ (i w : ℕ) (l : Logger) (v : Invariant l)
    (h : Has i w (l.slots (slot_of w)).message (ring l)) where
  abbrev published : ℕ → Slot
  published = update (slot_of w) (record (l.slots (slot_of w)) { valid = true }) l.slots

  elsewhere :
      (k : ℕ)
      → l.read_index ≤ k
      → k < l.read_index + 4096
      → k ≢ w
      → published (slot_of k) ≡ l.slots (slot_of k)
  elsewhere k a b e =
      beyond w k (record (l.slots (slot_of w)) { valid = true }) l a b (omega arith) (omega arith) e

  publish_others :
      (j : ℕ) (s : Writer)
      → j ≢ i
      → WriterOk j s (ring l)
      → WriterOk j s (record (ring l) { slots = published })
  publish_others j outside e ok = tt
  publish_others j (checking n) e ok = tt
  publish_others j (loaded n k) e ok = ok
  publish_others j (claiming n k) e ok = ok
  publish_others j (filling n k) e ok =
      let apart : k ≢ w = λ same. e (sym ok.owned ∙ ap l.owner same ∙ h.owned) in
      let same = elsewhere k (omega arith) (omega arith) apart in
      record {
        after = ok.after;
        below = ok.below;
        owned = ok.owned;
        unset = ap (λ slot. slot.valid) same ∙ ok.unset;
        claims = ok.claims;
      }
  publish_others j (publishing k) e ok =
      let apart : k ≢ w = λ same. e (sym ok.owned ∙ ap l.owner same ∙ h.owned) in
      let same = elsewhere k (omega arith) (omega arith) apart in
      record {
        after = ok.after;
        below = ok.below;
        owned = ok.owned;
        unset = ap (λ slot. slot.valid) same ∙ ok.unset;
        claims = ok.claims ∙ ap (λ slot. some slot.message) (sym same);
      }

  pub publish-Invariant : Invariant (record (go i outside l) { slots = published })
  publish-Invariant = record {
    counted = v.counted;
    range = v.range;
    writers_ok =
        after_move i outside l.writers (record (ring l) { slots = published }) tt
          (λ j e. publish_others j (l.writers j) e (v.writers_ok j));
    free = λ k a b.
        ap (λ slot. slot.valid)
          (elsewhere k (omega arith) (omega arith) (λ same. absurd (omega arith)))
        ∙ v.free k a b;
    content = λ k a b e. elim (Bool-cases (k == w)) [
      | inl same ↦ ground (arith, same, h.claims)
      | inr other ↦
          let unchanged = elsewhere k (omega arith) (omega arith) (λ same. absurd (ground arith)) in
          v.content k a b (sym (ap (λ slot. slot.valid) unchanged) ∙ e)
          ∙ ap (λ slot. some slot.message) (sym unchanged)
    ];
    holds = λ e. ground (arith, v.holds e);
    lowered = λ e.
        ap (λ slot. slot.valid)
          (elsewhere l.read_index (omega arith) (omega arith) (λ same. absurd (omega arith)))
        ∙ v.lowered e;
    in_order = v.in_order;
  }
