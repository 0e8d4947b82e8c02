-- ===== src/RingBuffer/Circle.antt =====
-- The bytes of a block of 8192 read round its end, and how a write changes them.
use jun_core_v.Common.{
  ℕ, zero, suc, ◌+◌, ◌%◌, ◌≤◌, ◌<◌, ◌≡◌, refl, ap, ap₂, subst, List, [], ◌∷◌, ◌++◌, length, arith,
}
use jun_core_v.Common.Memory.{
  Memory, read_bytes, write_bytes, write_bytes_outside, read_bytes-write_bytes,
}

-- `n` bytes from offset `off` on.
unfoldable pub circle : Memory → ℕ → ℕ → ℕ → List ℕ
circle m begin off zero = []
circle m begin off (suc n) = m (begin + off % 8192) ∷ circle m begin (suc off) n

module _ (m : Memory) (begin : ℕ) where
  pub length-circle : (off n : ℕ) → length (circle m begin off n) ≡ n
  unfolding circle
  length-circle off zero = refl
  length-circle off (suc n) = ap suc (length-circle (suc off) n)

  -- Offsets count modulo the size.
  pub circle_mod :
      (off off' n : ℕ) → off % 8192 ≡ off' % 8192 → circle m begin off n ≡ circle m begin off' n
  unfolding circle
  circle_mod off off' zero h = refl
  circle_mod off off' (suc n) h =
      ap₂ ◌∷◌ (ap (λ k. m (begin + k)) h) (circle_mod (suc off) (suc off') n (omega arith))

  pub circle-add :
      (off k n : ℕ)
      → circle m begin off (k + n) ≡ circle m begin off k ++ circle m begin (off + k) n
  unfolding circle
  circle-add off zero n = ap₂ (circle m begin) (omega arith) (omega arith)
  circle-add off (suc k) n =
      let e : suc k + n ≡ suc (k + n) = omega arith in
      let f : off + suc k ≡ suc off + k = omega arith in
      rw (e, f) (ap (◌∷◌ (m (begin + off % 8192))) (circle-add (suc off) k n))

  -- A stretch that does not cross the end is a plain read.
  pub circle-read_bytes :
      (off n : ℕ) → off + n ≤ 8192 → circle m begin off n ≡ read_bytes m (begin + off) n
  unfolding circle read_bytes
  circle-read_bytes off zero h = refl
  circle-read_bytes off (suc n) h =
      let e : off % 8192 ≡ off = omega arith in
      let f : suc (begin + off) ≡ begin + suc off = omega arith in
      rw (e, f) (ap (◌∷◌ (m (begin + off))) (circle-read_bytes (suc off) n (omega arith)))

pub circle_congr :
    (m m' : Memory) (begin off n : ℕ)
    → ((i : ℕ) → i < n → m (begin + (off + i) % 8192) ≡ m' (begin + (off + i) % 8192))
    → circle m begin off n ≡ circle m' begin off n
unfolding circle
circle_congr m m' begin off zero h = refl
circle_congr m m' begin off (suc n) h =
    ap₂ ◌∷◌ (at (off + 0) off (omega arith) (h 0 (omega arith))) (
      circle_congr m m' begin (suc off) n
        (λ i p. at (off + suc i) (suc off + i) (omega arith) (h (suc i) (omega arith))))
  where
    at :
        (k k' : ℕ)
        → k ≡ k'
        → m (begin + k % 8192) ≡ m' (begin + k % 8192)
        → m (begin + k' % 8192) ≡ m' (begin + k' % 8192)
    at k k' e = subst (λ i. m (begin + i % 8192) ≡ m' (begin + i % 8192)) e

-- Writing behind the last of `use` bytes, without crossing the end, extends them by what is
-- written.
pub circle-write_bytes :
    (m : Memory) (begin off use_size w : ℕ) (src : List ℕ)
    → w ≡ (off + use_size) % 8192
    → w + length src ≤ 8192
    → use_size + length src < 8192
    → circle (write_bytes m (begin + w) src) begin off (use_size + length src)
      ≡ circle m begin off use_size ++ src
circle-write_bytes m begin off use_size w src at_end fits room =
    rw (circle-add after begin off use_size (length src)) (ap₂ ◌++◌ kept written)
  where
    after : Memory
    after = write_bytes m (begin + w) src

    kept : circle after begin off use_size ≡ circle m begin off use_size
    kept =
        circle_congr after m begin off use_size
          (λ i p. write_bytes_outside m (begin + w) src (begin + (off + i) % 8192) (omega arith))

    written : circle after begin (off + use_size) (length src) ≡ src
    written =
        rw
          (
            circle_mod after begin (off + use_size) w (length src) (omega arith),
            circle-read_bytes after begin w (length src) fits,
          )
          (read_bytes-write_bytes m (begin + w) src)
